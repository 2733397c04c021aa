-- ===== src/Sanitize.antt =====
-- preprocessing/sanitization: `apply_mask` and `resolve_spans` of mask.py, `sanitize` of engine.py.
-- A text is a list of code points. A rule's compiled pattern is the function that `finditer` is: it
-- gives the start and the end of each match. `none` stands for the `ValueError` of `index`.
pub mod Resolve
pub mod Groups
pub mod Render
pub mod Masks
mod Examples
use security_agent.Prelude.{
  ℕ, ◌+◌, ◌-◌, Bool, true, false, ◌&&◌, ◌||◌, List, [], ◌∷◌, ◌++◌, map, Option, none, some, String,
  codes, same, contains, length, take, drop, ltb, leb, eqb, if◌then◌else◌,
}
use mathlib.Core.List.{reverse}

pub record Rule : Type 0 where
  pub name : String
  pub finditer : List ℕ → List (ℕ × ℕ)
  pub priority : ℕ
  pub mask : Option (List ℕ)

pub record Span : Type 0 where
  pub start : ℕ
  pub stop : ℕ
  pub rule : Rule

-- text[a:b]
abbrev pub slice : List ℕ → ℕ → ℕ → List ℕ
slice text a b = take (b - a) (drop a text)

abbrev pub has : ℕ → List ℕ → Bool
has c [] = false
has c (d ∷ s) = eqb d c || has c s

-- `s.split(c, 1)[0]`, and the part behind the first `c`.
pub before : ℕ → List ℕ → List ℕ
before c [] = []
before c (d ∷ s) = if eqb d c then [] else d ∷ before c s

pub after : ℕ → List ℕ → List ℕ
after c [] = []
after c (d ∷ s) = if eqb d c then s else after c s

-- matched[-4:]
abbrev pub last_four : List ℕ → List ℕ
last_four s = drop (length s - 4) s

pub mask_matched : Option (List ℕ) → List ℕ → Option (List ℕ)
unfolding before after
mask_matched none matched = some matched
mask_matched (some mask) matched =
    if same mask (codes "***")
    then (if has b'=' matched
        then some (before b'=' matched ++ codes "=***")
        else if has b':' matched
        then some (before b':' matched ++ codes ":***")
        else some (codes "***"))
    else if contains mask (codes "{prefix3}")
    then some (take 3 matched ++ (codes "****" ++ last_four matched))
    else if contains mask (codes "{prefix6}")
    then some (take 6 matched ++ (codes "********" ++ last_four matched))
    else if contains mask (codes "{user_first}")
    then (if has b'@' matched
        then some (take 1 matched ++ (codes "***@" ++ after b'@' matched))
        else none)
    else some mask

pub apply_mask : List ℕ → Span → Option (List ℕ)
unfolding mask_matched
apply_mask text span = mask_matched span.rule.mask (slice text span.start span.stop)

-- `sorted(spans, key=lambda s: s.start)`, which is stable.
pub insert_by_start : Span → List Span → List Span
insert_by_start s [] = s ∷ []
insert_by_start s (t ∷ ts) = if leb s.start t.start then s ∷ t ∷ ts else t ∷ insert_by_start s ts

pub sort_by_start : List Span → List Span
unfolding insert_by_start
sort_by_start [] = []
sort_by_start (s ∷ ss) = insert_by_start s (sort_by_start ss)

pub wins : Span → Span → Bool
wins span last =
    ltb last.rule.priority span.rule.priority
    || eqb span.rule.priority last.rule.priority
      && ltb (last.stop - last.start) (span.stop - span.start)

-- `resolved` is kept with its last element first.
pub replace_last : Span → List Span → List Span
unfolding wins
replace_last span [] = []
replace_last span (last ∷ resolved) = if wins span last then span ∷ resolved else last ∷ resolved

-- The loop. `last_end` begins at -1 in the code and at 0 here: no start is below 0.
pub resolve_loop : List Span → ℕ → List Span → List Span
resolve_loop resolved last_end [] = reverse resolved
resolve_loop resolved last_end (span ∷ spans) =
    let accepted = resolve_loop (span ∷ resolved) span.stop spans in
    let overlapping = resolve_loop (replace_last span resolved) last_end spans in
    if leb last_end span.start then accepted else overlapping

pub resolve_spans : List Span → List Span
unfolding resolve_loop replace_last sort_by_start
resolve_spans spans = resolve_loop [] 0 (sort_by_start spans)

infixl 5 ◌>>=◌
abbrev ◌>>=◌ : {A B : Type 0} → Option A → (A → Option B) → Option B
none >>= f = none
some a >>= f = f a

-- The loop of `_apply_spans` from a cursor, and the join of the parts.
pub render : List ℕ → ℕ → List Span → Option (List ℕ)
unfolding apply_mask
render text cursor [] = some (drop cursor text)
render text cursor (span ∷ spans) = do
  masked ← apply_mask text span
  rest ← render text span.stop spans
  some (slice text cursor span.start ++ (masked ++ rest))

pub apply_spans : List ℕ → List Span → Option (List ℕ)
unfolding render
apply_spans text [] = some text
apply_spans text (s ∷ ss) = render text 0 (sort_by_start (s ∷ ss))

spans_of : Rule → List (ℕ × ℕ) → List Span
spans_of rule [] = []
spans_of rule ((a, b) ∷ ms) = record { start = a; stop = b; rule = rule } ∷ spans_of rule ms

pub find_spans : List Rule → List ℕ → List Span
unfolding spans_of
find_spans [] text = []
find_spans (rule ∷ rules) text = spans_of rule (rule.finditer text) ++ find_spans rules text

pub sanitize : List Rule → List ℕ → Option (List ℕ)
unfolding find_spans resolve_spans apply_spans
sanitize rules text = apply_spans text (resolve_spans (find_spans rules text))
