-- ===== src/Sanitize/Resolve.antt =====
-- `resolve_spans`: what it keeps, in which order, and when it changes nothing.
use security_agent.Prelude.{
  ℕ, ◌≤◌, ◌<◌, ◌≡◌, refl, List, [], ◌∷◌, ◌++◌, arith, All, All-append, Bool-cases, inl, inr, leb,
  leb→le, le→leb, sym, ◌∙◌,
}
use mathlib.Core.List.{reverse, reverse-append, append-nil, append_assoc}
use security_agent.Sanitize.{
  Span, insert_by_start, sort_by_start, wins, replace_last, resolve_loop, resolve_spans,
}

-- Each starts at or behind the bound, and at or behind the ones before it.
abbrev pub StartsFrom : ℕ → List Span → Type 0
StartsFrom n [] = Unit
StartsFrom n (s ∷ ss) = (n ≤ s.start) × StartsFrom s.start ss

-- Each starts at or behind the end of the one before it.
abbrev pub DisjointFrom : ℕ → List Span → Type 0
DisjointFrom n [] = Unit
DisjointFrom n (s ∷ ss) = (n ≤ s.start) × (s.start ≤ s.stop) × DisjointFrom s.stop ss

StartsFrom-mono : (m n : ℕ) (ss : List Span) → m ≤ n → StartsFrom n ss → StartsFrom m ss
StartsFrom-mono m n [] h s = tt
StartsFrom-mono m n (t ∷ ts) h s = (omega arith, s.1)

StartsFrom-insert :
    (n : ℕ) (s : Span) (ss : List Span)
    → n ≤ s.start
    → StartsFrom n ss
    → StartsFrom n (insert_by_start s ss)
unfolding insert_by_start
StartsFrom-insert n s [] h hs = (h, tt)
StartsFrom-insert n s (t ∷ ts) h hs = elim (Bool-cases (leb s.start t.start)) [
  | inl e ↦ rw e (h, (leb→le s.start t.start e, hs.1))
  | inr e ↦ rw e (hs.0, StartsFrom-insert t.start s ts (ground arith) hs.1)
]

pub StartsFrom-sort : (ss : List Span) → StartsFrom 0 (sort_by_start ss)
unfolding sort_by_start
StartsFrom-sort [] = tt
StartsFrom-sort (s ∷ ss) =
    StartsFrom-insert 0 s (sort_by_start ss) (omega arith) (StartsFrom-sort ss)

module _ (P : Span → Type 0) where
  All-insert : (s : Span) (ss : List Span) → P s → All P ss → All P (insert_by_start s ss)
  unfolding insert_by_start
  All-insert s [] h hs = (h, tt)
  All-insert s (t ∷ ts) h hs = elim (Bool-cases (leb s.start t.start)) [
    | inl e ↦ rw e (h, hs)
    | inr e ↦ rw e (hs.0, All-insert s ts h hs.1)
  ]

  pub All-sort : (ss : List Span) → All P ss → All P (sort_by_start ss)
  unfolding sort_by_start
  All-sort [] h = tt
  All-sort (s ∷ ss) h = All-insert s (sort_by_start ss) h.0 (All-sort ss h.1)

  All-reverse : (ss : List Span) → All P ss → All P (reverse ss)
  All-reverse [] h = tt
  All-reverse (s ∷ ss) h =
      rw (reverse-append (s ∷ []) ss)
        (All-append P (reverse ss) (s ∷ []) (All-reverse ss h.1) (h.0, tt))

  All-replace : (s : Span) (ss : List Span) → P s → All P ss → All P (replace_last s ss)
  unfolding replace_last
  All-replace s [] h hs = tt
  All-replace s (t ∷ ts) h hs = elim (Bool-cases (wins s t)) [
    | inl e ↦ rw e (h, hs.1)
    | inr e ↦ rw e hs
  ]

  All-loop :
      (resolved : List Span) (n : ℕ) (ss : List Span)
      → All P resolved
      → All P ss
      → All P (resolve_loop resolved n ss)
  unfolding resolve_loop
  All-loop resolved n [] hr hs = All-reverse resolved hr
  All-loop resolved n (s ∷ ss) hr hs = elim (Bool-cases (leb n s.start)) [
    | inl e ↦ rw e (All-loop (s ∷ resolved) s.stop ss (hs.0, hr) hs.1)
    | inr e ↦ rw e (All-loop (replace_last s resolved) n ss (All-replace s resolved hs.0 hr) hs.1)
  ]

  -- Whatever holds of all spans that were found holds of all that `resolve_spans` keeps: it makes
  -- up no span and moves none.
  pub All-resolve_spans : (ss : List Span) → All P ss → All P (resolve_spans ss)
  unfolding resolve_spans
  All-resolve_spans ss h = All-loop [] 0 (sort_by_start ss) tt (All-sort ss h)

-- A list that is sorted already stays as it is.
pub sort-StartsFrom : (n : ℕ) (ss : List Span) → StartsFrom n ss → sort_by_start ss ≡ ss
unfolding sort_by_start
sort-StartsFrom n [] h = refl
sort-StartsFrom n (s ∷ ss) h = rw (sort-StartsFrom s.start ss h.1) (insert-first s ss h.1)
  where
    insert-first :
        (s : Span) (ss : List Span) → StartsFrom s.start ss → insert_by_start s ss ≡ s ∷ ss
    insert-first s [] h = refl
    insert-first s (t ∷ ts) h = rw (le→leb s.start t.start h.0)

-- The spans accepted so far, the last one first, start at or before the bound.
abbrev RevFrom : ℕ → List Span → Type 0
RevFrom m [] = Unit
RevFrom m (s ∷ ss) = (s.start ≤ m) × RevFrom s.start ss

RevFrom-mono : (m n : ℕ) (ss : List Span) → m ≤ n → RevFrom m ss → RevFrom n ss
RevFrom-mono m n [] h r = tt
RevFrom-mono m n (s ∷ ss) h r = (omega arith, r.1)

StartsFrom-reverse :
    (m : ℕ) (acc ss : List Span)
    → RevFrom m acc
    → StartsFrom m ss
    → StartsFrom 0 (reverse acc ++ ss)
StartsFrom-reverse m [] ss r h = StartsFrom-mono 0 m ss (omega arith) h
StartsFrom-reverse m (s ∷ acc) ss r h =
    rw (reverse-append (s ∷ []) acc, append_assoc (reverse acc) (s ∷ []) ss)
      (StartsFrom-reverse s.start acc (s ∷ ss) r.1
        (omega arith, StartsFrom-mono s.start m ss r.0 h))

RevFrom-replace :
    (m : ℕ) (s : Span) (acc : List Span)
    → m ≤ s.start
    → RevFrom m acc
    → RevFrom s.start (replace_last s acc)
unfolding replace_last
RevFrom-replace m s [] h r = tt
RevFrom-replace m s (t ∷ acc) h r = elim (Bool-cases (wins s t)) [
  | inl e ↦ rw e (omega arith, RevFrom-mono t.start s.start acc (omega arith) r.1)
  | inr e ↦ rw e (omega arith, r.1)
]

StartsFrom-loop :
    (m : ℕ) (acc : List Span) (n : ℕ) (ss : List Span)
    → RevFrom m acc
    → StartsFrom m ss
    → StartsFrom 0 (resolve_loop acc n ss)
unfolding resolve_loop
StartsFrom-loop m acc n [] r h = rw (append-nil (reverse acc)) at (StartsFrom-reverse m acc [] r tt)
StartsFrom-loop m acc n (s ∷ ss) r h = elim (Bool-cases (leb n s.start)) [
  | inl e ↦ rw e (
      StartsFrom-loop s.start (s ∷ acc) s.stop ss (omega arith, RevFrom-mono m s.start acc h.0 r)
        h.1)
  | inr e ↦
      rw e (StartsFrom-loop s.start (replace_last s acc) n ss (RevFrom-replace m s acc h.0 r) h.1)
]

-- `resolve_spans` returns its spans in the order of their starts, so that the second sort, in
-- `_apply_spans`, changes nothing.
pub sort-resolve_spans :
    (ss : List Span)
    → StartsFrom 0 (resolve_spans ss) × (sort_by_start (resolve_spans ss) ≡ resolve_spans ss)
sort-resolve_spans ss =
    let ordered : StartsFrom 0 (resolve_spans ss) =
      unfold resolve_spans in StartsFrom-loop 0 [] 0 (sort_by_start ss) tt (StartsFrom-sort ss) in
    (ordered, sort-StartsFrom 0 (resolve_spans ss) ordered)

loop-disjoint :
    (acc : List Span) (n : ℕ) (ss : List Span)
    → DisjointFrom n ss
    → resolve_loop acc n ss ≡ reverse acc ++ ss
unfolding resolve_loop
loop-disjoint acc n [] h = sym (append-nil (reverse acc))
loop-disjoint acc n (s ∷ ss) h = rw (le→leb n s.start h.0) (
    loop-disjoint (s ∷ acc) s.stop ss h.2
    ∙ (rw (reverse-append (s ∷ []) acc) (append_assoc (reverse acc) (s ∷ []) ss)))

-- Where no two of the spans overlap, `resolve_spans` keeps all of them, sorted by their starts.
pub resolve_spans-disjoint :
    (ss : List Span) → DisjointFrom 0 (sort_by_start ss) → resolve_spans ss ≡ sort_by_start ss
unfolding resolve_spans
resolve_spans-disjoint ss h = loop-disjoint [] 0 (sort_by_start ss) h

-- One span starts in another, wins against it and ends behind it; a third starts behind the end of
-- the first and ends inside the second. The code keeps the second and the third.
pub resolve_spans-nested :
    (a b c : Span)
    → a.start ≤ b.start
    → b.start < a.stop
    → a.stop ≤ c.start
    → a.rule.priority < b.rule.priority
    → resolve_spans (a ∷ b ∷ c ∷ []) ≡ b ∷ c ∷ []
unfolding resolve_spans
resolve_spans-nested a b c ab ba ac p =
    rw (sort-StartsFrom a.start (a ∷ b ∷ c ∷ []) (omega arith, (omega arith, (omega arith, tt))))
      (unfold resolve_loop replace_last wins in ground arith)
