-- ===== src/Version/Comparison.antt =====
-- Comparisons into three outcomes: what makes one an order, and how lawful ones are put together.
use security_agent.Prelude.{
  ℕ, Bool, true, ◌≡◌, refl, Ordering, arith, is_lt, is_eq, is_gt, eqb, ltb, if◌then◌else◌,
}
use security_agent.Version.{then_by}

abbrev pub flip : Ordering → Ordering
flip Ordering.lt = Ordering.gt
flip Ordering.gt = Ordering.lt
flip Ordering.eq = Ordering.eq

-- The outcomes of a with b, b with c and a with c fit together.
abbrev pub fits : Ordering → Ordering → Ordering → Bool
fits Ordering.eq y z = elim y [
  | Ordering.lt ↦ is_lt z
  | Ordering.eq ↦ is_eq z
  | Ordering.gt ↦ is_gt z
]
fits Ordering.lt y z = elim y [ Ordering.gt ↦ true | _ ↦ is_lt z ]
fits Ordering.gt y z = elim y [ Ordering.lt ↦ true | _ ↦ is_gt z ]

pub record IsComparison {A : Type 0} (cmp : A → A → Ordering) : Type 0 where
  pub flips : (a b : A) → cmp b a ≡ flip (cmp a b)
  pub transitive : (a b c : A) → fits (cmp a b) (cmp b c) (cmp a c) ≡ true

pub flip-then_by : (x y : Ordering) → flip (then_by x y) ≡ then_by (flip x) (flip y)
flip-then_by Ordering.lt y = refl
flip-then_by _ y = refl

pub fits-then_by :
    (x y z x' y' z' : Ordering)
    → fits x y z ≡ true
    → fits x' y' z' ≡ true
    → fits (then_by x x') (then_by y y') (then_by z z') ≡ true
fits-then_by x y z x' y' z' h h' = ground arith

pub IsComparison-then_by :
    {A : Type 0} (f g : A → A → Ordering)
    → IsComparison f
    → IsComparison g
    → IsComparison (λ a b. then_by (f a b) (g a b))
IsComparison-then_by f g hf hg = record {
  flips = λ a b. cc (hf.flips a b, hg.flips a b, flip-then_by (f a b) (g a b));
  transitive = λ a b c.
      fits-then_by (f a b) (f b c) (f a c) (g a b) (g b c) (g a c) (hf.transitive a b c)
        (hg.transitive a b c);
}

-- The comparison of what a function returns.
pub IsComparison-on :
    {A B : Type 0} (cmp : B → B → Ordering) (f : A → B)
    → IsComparison cmp
    → IsComparison (λ a b. cmp (f a) (f b))
IsComparison-on cmp f h = record {
  flips = λ a b. h.flips (f a) (f b);
  transitive = λ a b c. h.transitive (f a) (f b) (f c);
}

pub IsComparison-ext :
    {A : Type 0} (f g : A → A → Ordering)
    → ((a b : A) → f a b ≡ g a b)
    → IsComparison f
    → IsComparison g
IsComparison-ext f g e h = record {
  flips = λ a b. rw (← e) (rw (← e) (h.flips a b));
  transitive = λ a b c. cc (e a b, e b c, e a c, h.transitive a b c);
}

abbrev pub compare_nat : ℕ → ℕ → Ordering
compare_nat a b = if eqb a b then Ordering.eq else if ltb a b then Ordering.lt else Ordering.gt

pub compare_nat-IsComparison : IsComparison compare_nat
compare_nat-IsComparison = record {
  flips = λ a b. ground arith;
  transitive = λ a b c. ground arith;
}

-- A lawful comparison finds every value equal to itself.
pub self_eq :
    {A : Type 0} (cmp : A → A → Ordering) → IsComparison cmp → (a : A) → cmp a a ≡ Ordering.eq
self_eq cmp h a = ground (arith, h.flips a a)
