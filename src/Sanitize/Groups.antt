-- ===== src/Sanitize/Groups.antt =====
-- `resolve_spans` of preprocessing/sanitization/mask.py where spans overlap.
use security_agent.Prelude.{
  ℕ, ◌-◌, ◌≤◌, ◌<◌, ◌≡◌, refl, sym, subst, true, false, ap, ◌∙◌, List, [], ◌∷◌, ◌++◌, arith, All,
  All-append, All-map, Bool-cases, inl, inr, ◌⊎◌, leb,
}
use mathlib.Core.List.{reverse, reverse-append, append_assoc}
use security_agent.Sanitize.{Span, sort_by_start, wins, replace_last, resolve_loop, resolve_spans}
use security_agent.Sanitize.Resolve.{StartsFrom, StartsFrom-sort}

-- A span that another one does not beat: by the rule's priority, then by the length.
abbrev pub IsAtMost : Span → Span → Type 0
IsAtMost w s =
    (s.rule.priority < w.rule.priority)
    ⊎ ((s.rule.priority ≡ w.rule.priority) × (s.stop - s.start ≤ w.stop - w.start))

abbrev pub Among : Span → List Span → Type 0
Among w [] = ⊥
Among w (s ∷ ss) = (s ≡ w) ⊎ Among w ss

-- A span of the list that none of it beats.
abbrev pub IsBest : Span → List Span → Type 0
IsBest w ss = Among w ss × All (IsAtMost w) ss

-- The first span starts at or behind the bound.
abbrev pub Behind : ℕ → List Span → Type 0
Behind n [] = Unit
Behind n (s ∷ ss) = n ≤ s.start

-- The spans fall into groups, each a span and those behind it that start before its end, and a best one of each stays.
pub data Groups : List Span → List Span → Type 0 where
  nothing : Groups [] []
  group :
      (h w : Span) (inside rest out : List Span)
      → All (λ s. s.start < h.stop) inside
      → Behind h.stop rest
      → IsBest w (h ∷ inside)
      → Groups rest out
      → Groups ((h ∷ inside) ++ rest) (w ∷ out)

IsAtMost-trans : (v w s : Span) → IsAtMost w s → IsAtMost v w → IsAtMost v s
IsAtMost-trans v w s (inl a) (inl b) = inl (omega arith)
IsAtMost-trans v w s (inl a) (inr b) = inl (omega arith)
IsAtMost-trans v w s (inr a) (inl b) = inl (omega arith)
IsAtMost-trans v w s (inr a) (inr b) = inr (omega arith, omega arith)

wins-AtMost : (s w : Span) → wins s w ≡ true → IsAtMost s w
unfolding wins
wins-AtMost s w h = ground arith

loses-AtMost : (s w : Span) → wins s w ≡ false → IsAtMost w s
unfolding wins
loses-AtMost s w h = ground arith

Among-append : (w : Span) (ss ts : List Span) → Among w ss → Among w (ss ++ ts)
Among-append w [] ts h = absurd h
Among-append w (s ∷ ss) ts (inl e) = inl e
Among-append w (s ∷ ss) ts (inr h) = inr (Among-append w ss ts h)

Among-last : (s : Span) (ss : List Span) → Among s (ss ++ s ∷ [])
Among-last s [] = inl refl
Among-last s (t ∷ ss) = inr (Among-last s ss)

-- A best span and one more: the winner of both is a best one.
replace_last-IsBest :
    (s w : Span) (ss acc : List Span)
    → IsBest w ss
    → (v : Span) × (replace_last s (w ∷ acc) ≡ v ∷ acc) × IsBest v (ss ++ s ∷ [])
unfolding replace_last
replace_last-IsBest s w ss acc (there, most) = elim (Bool-cases (wins s w)) [
  | inl y ↦ (
    s,
    rw y refl,
    (
      Among-last s ss,
      All-append (IsAtMost s) ss (s ∷ [])
          (All-map (IsAtMost w) (IsAtMost s) ss
            (λ x below. IsAtMost-trans s w x below (wins-AtMost s w y)) most)
          (inr (refl, omega arith), tt),
    ),
  )
  | inr n ↦ (
    w,
    rw n refl,
    (
      Among-append w ss (s ∷ []) there,
      All-append (IsAtMost w) ss (s ∷ []) most (loses-AtMost s w n, tt),
    ),
  )
]

loop-Groups :
    (h w : Span) (inside acc ss : List Span)
    → All (λ s. s.start < h.stop) inside
    → IsBest w (h ∷ inside)
    → (out : List Span) × (resolve_loop (w ∷ acc) h.stop ss ≡ reverse acc ++ out)
      × Groups ((h ∷ inside) ++ ss) out
unfolding resolve_loop
loop-Groups h w inside acc [] short best =
    (w ∷ [], reverse-append (w ∷ []) acc, group h w inside [] [] short tt best nothing)
loop-Groups h w inside acc (s ∷ ss) short best = elim (Bool-cases (leb h.stop s.start)) [
  | inl e ↦
      let (out, same, groups) =
        loop-Groups s s [] (w ∷ acc) ss tt (inl refl, (inr (refl, omega arith), tt)) in
      (
        w ∷ out,
        rw e (same ∙ (rw (reverse-append (w ∷ []) acc) (append_assoc (reverse acc) (w ∷ []) out))),
        group h w inside (s ∷ ss) out short (ground arith) best groups,
      )
  | inr e ↦
      let (v, kept, best') = replace_last-IsBest s w (h ∷ inside) acc best in
      let (out, same, groups) =
        loop-Groups h v (inside ++ s ∷ []) acc ss
          (All-append (λ x. x.start < h.stop) inside (s ∷ []) short (ground arith, tt)) best' in
      (
        out,
        rw e (ap (λ l. resolve_loop l h.stop ss) kept ∙ same),
        subst (λ l. Groups (h ∷ l) out) (append_assoc inside (s ∷ []) ss) groups,
      )
]

loop-start : (ts : List Span) → Groups ts (resolve_loop [] 0 ts)
unfolding resolve_loop
loop-start [] = nothing
loop-start (h ∷ ts) =
    let (out, same, groups) =
      loop-Groups h h [] [] ts tt (inl refl, (inr (refl, omega arith), tt)) in
    let first : leb 0 h.start ≡ true = ground arith in
    rw first (subst (λ l. Groups (h ∷ ts) l) (sym same) groups)

-- The spans, sorted by their starts, fall into groups: a first span and all that follow and start before its end, where the
-- next group starts at or behind that end. Of each group one span stays, which none of its group beats by priority or,
-- where that is equal, by length.
pub resolve_spans-Groups :
    (ss : List Span)
    → StartsFrom 0 (sort_by_start ss) × Groups (sort_by_start ss) (resolve_spans ss)
unfolding resolve_spans
resolve_spans-Groups ss = (StartsFrom-sort ss, loop-start (sort_by_start ss))
