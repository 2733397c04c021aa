-- ===== src/Version.antt =====
-- asset_scan/scanner/version.py: dpkg-style comparison of versions. A text is a list of code
-- points; digits are the ASCII ones. A comparison's result -1, 0, 1 is `lt`, `eq`, `gt`.
mod Examples
pub mod Comparison
pub mod Chunks
pub mod Rounds
pub mod Order
pub mod Numbers
use security_agent.Prelude.{
  ℕ, zero, suc, ◌+◌, ◌-◌, ◌*◌, Bool, ◌&&◌, ◌||◌, not, List, [], ◌∷◌, length, compare, Ordering,
  String, codes, same, get_or, is_lt, is_eq, is_gt, leb, ltb, eqb, if◌then◌else◌, Option, none,
  some, true, false, drop, take,
}

pub is_digit : ℕ → Bool
is_digit c = leb b'0' c && leb c b'9'

-- int(digits), from the left.
pub int_of : ℕ → List ℕ → ℕ
int_of acc [] = acc
int_of acc (c ∷ s) = int_of (acc * 10 + (c - b'0')) s

pub non_digit_prefix : List ℕ → ℕ
non_digit_prefix [] = 0
non_digit_prefix (c ∷ s) = if is_digit c then 0 else suc (non_digit_prefix s)

pub digit_prefix_len : List ℕ → ℕ
digit_prefix_len [] = 0
digit_prefix_len (c ∷ s) = if is_digit c then suc (digit_prefix_len s) else 0

-- `v.split("-", 1)`, with an empty revision where there is no dash.
pub split_dash : List ℕ → List ℕ × List ℕ
split_dash [] = ([], [])
split_dash (c ∷ s) =
    let (upstream, revision) = split_dash s in
    if eqb c b'-' then ([], s) else (c ∷ upstream, revision)

pub record Parts : Type 0 where
  pub epoch : ℕ
  pub upstream : List ℕ
  pub revision : List ℕ

parts_of : ℕ → List ℕ → Parts
parts_of e v = let (u, r) = split_dash v in record { epoch = e; upstream = u; revision = r }

-- `^(\d+):`: the digits, at least one, and then a colon. The arguments are the length of the digit
-- prefix of `v`, `v` itself and what follows the prefix.
match_epoch : ℕ → List ℕ → List ℕ → Parts
match_epoch zero v rest = parts_of 0 v
match_epoch (suc n) v [] = parts_of 0 v
match_epoch (suc n) v (c ∷ rest) =
    if eqb c b':' then parts_of (int_of 0 (take (suc n) v)) rest else parts_of 0 v

pub split_version : List ℕ → Parts
unfolding match_epoch parts_of split_dash digit_prefix_len is_digit int_of
split_version v = match_epoch (digit_prefix_len v) v (drop (digit_prefix_len v) v)

-- '~' sorts before everything, the end of the text included.
pub compare_non_digit : List ℕ → List ℕ → Ordering
compare_non_digit [] [] = Ordering.eq
compare_non_digit [] (d ∷ b) = if eqb d b'~' then Ordering.gt else Ordering.lt
compare_non_digit (c ∷ a) [] = if eqb c b'~' then Ordering.lt else Ordering.gt
compare_non_digit (c ∷ a) (d ∷ b) =
    let rest = compare_non_digit a b in
    if eqb c b'~' || eqb d b'~'
    then (if not (eqb c b'~') then Ordering.gt else if not (eqb d b'~') then Ordering.lt else rest)
    else if not (eqb c d)
    then (if ltb c d then Ordering.lt else Ordering.gt)
    else rest

-- lstrip("0")
pub strip_zeros : List ℕ → List ℕ
strip_zeros [] = []
strip_zeros (c ∷ s) = if eqb c b'0' then strip_zeros s else c ∷ s

pub or_zero : List ℕ → List ℕ
or_zero [] = b'0' ∷ []
or_zero (c ∷ s) = c ∷ s

-- Python's order on texts.
pub compare_text : List ℕ → List ℕ → Ordering
compare_text [] [] = Ordering.eq
compare_text [] (d ∷ b) = Ordering.lt
compare_text (c ∷ a) [] = Ordering.gt
compare_text (c ∷ a) (d ∷ b) =
    let rest = compare_text a b in
    if eqb c d then rest else if ltb c d then Ordering.lt else Ordering.gt

compare_stripped : List ℕ → List ℕ → Ordering
unfolding compare_text
compare_stripped a b =
    if not (eqb (length a) (length b))
    then (if ltb (length a) (length b) then Ordering.lt else Ordering.gt)
    else compare_text a b

pub compare_digit : List ℕ → List ℕ → Ordering
unfolding compare_stripped strip_zeros or_zero
compare_digit a b = compare_stripped (or_zero (strip_zeros a)) (or_zero (strip_zeros b))

-- `if c := first: return c`, and the rest otherwise.
abbrev pub then_by : Ordering → Ordering → Ordering
then_by Ordering.lt o = Ordering.lt
then_by Ordering.gt o = Ordering.gt
then_by Ordering.eq o = o

-- One round of the loop of `_compare_parts`: its comparisons, and what is left of each text.
abbrev pub after_round : List ℕ → List ℕ
after_round a = let a' = drop (non_digit_prefix a) a in drop (digit_prefix_len a') a'

pub compare_round : List ℕ → List ℕ → Ordering
unfolding compare_non_digit compare_digit
compare_round a b =
    let a' = drop (non_digit_prefix a) a in
    let b' = drop (non_digit_prefix b) b in
    then_by (compare_non_digit (take (non_digit_prefix a) a) (take (non_digit_prefix b) b))
      (compare_digit (take (digit_prefix_len a') a') (take (digit_prefix_len b') b'))

abbrev pub proceed : Ordering → Option Ordering → Option Ordering
proceed Ordering.eq rest = rest
proceed o rest = some o

-- The `while` loop, on fuel: `none` means that the fuel ran out. A round takes a character from one
-- of the texts at least, so `length a + length b` rounds are enough.
pub compare_parts_loop : ℕ → List ℕ → List ℕ → Option Ordering
compare_parts_loop zero [] [] = some Ordering.eq
compare_parts_loop zero _ _ = none
compare_parts_loop (suc f) [] [] = some Ordering.eq
compare_parts_loop (suc f) a b =
    let rest = compare_parts_loop f (after_round a) (after_round b) in
    proceed (compare_round a b) rest

pub compare_parts : List ℕ → List ℕ → Ordering
unfolding compare_parts_loop compare_round non_digit_prefix digit_prefix_len is_digit
compare_parts a b = get_or (compare_parts_loop (length a + length b) a b) Ordering.eq

compare_split : Parts → Parts → Ordering
compare_split a b =
    if not (eqb a.epoch b.epoch)
    then (if ltb a.epoch b.epoch then Ordering.lt else Ordering.gt)
    else then_by (compare_parts a.upstream b.upstream) (compare_parts a.revision b.revision)

pub compare_versions : List ℕ → List ℕ → Ordering
unfolding compare_split split_version compare_parts
compare_versions a b = compare_split (split_version a) (split_version b)

-- Of str.lower(), the part on the ASCII letters: other characters stay.
to_lower : ℕ → ℕ
to_lower c = if leb b'A' c && leb c b'Z' then c + 32 else c

unfoldable pub lower : List ℕ → List ℕ
unfolding to_lower
lower [] = []
lower (c ∷ s) = to_lower c ∷ lower s

-- `norm in ("<", "lt")`
abbrev pub one_of : List ℕ → List String → Bool
one_of s [] = false
one_of s (t ∷ ts) = same s (codes t) || one_of s ts

-- The test that an operator makes of a comparison's result.
pub holds : List ℕ → Ordering → Bool
holds norm cmp =
    if one_of norm ("<" ∷ "lt" ∷ [])
    then is_lt cmp
    else if one_of norm ("<=" ∷ "le" ∷ [])
    then not (is_gt cmp)
    else if one_of norm ("=" ∷ "==" ∷ "eq" ∷ [])
    then is_eq cmp
    else if one_of norm (">=" ∷ "ge" ∷ [])
    then not (is_lt cmp)
    else if one_of norm (">" ∷ "gt" ∷ [])
    then is_gt cmp
    else false

unfoldable pub version_matches : List ℕ → String → List ℕ → Bool
unfolding holds lower compare_versions
version_matches version op target = holds (lower (codes op)) (compare_versions version target)

-- raw.replace("_", "-")
dashes : List ℕ → List ℕ
dashes [] = []
dashes (c ∷ s) = (if eqb c b'_' then b'-' else c) ∷ dashes s

unfoldable pub normalize_cpe_version : List ℕ → List ℕ
unfolding dashes
normalize_cpe_version raw = if same raw (codes "*") then [] else dashes raw
