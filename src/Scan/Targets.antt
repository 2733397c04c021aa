-- ===== src/Scan/Targets.antt =====
-- Which agents `_resolve_targets` of orchestration/subgraphs/vulnscan/nodes.py finds.
use security_agent.Prelude.{
  ◌≡◌, ◌≢◌, refl, sym, ◌∙◌, true, false, ◌||◌, List, [], ◌∷◌, ◌++◌, String, ◌==◌, mem, eq_iff, All,
  All-append, All-map, Bool-cases, inl, inr, ◌⊎◌, arith,
}
use security_agent.Scan.{
  Host, add, names, in_group, resolve_target, resolve_all, or_else, resolve_targets, listed,
}

-- A target aims at a host by its id, name or address, or by its group.
abbrev pub Aims : String → Host → Type 0
Aims t h = (names t h ≡ true) ⊎ (in_group t h.group ≡ true)

abbrev pub Some : {A : Type 0} → (A → Type 0) → List A → Type 0
Some P [] = ⊥
Some P (x ∷ xs) = P x ⊎ Some P xs

-- A host of the list has this id, and a target aims at it.
abbrev pub IsAimed : List String → List Host → String → Type 0
IsAimed targets hosts a = Some (λ h. (h.agent_id ≡ a) × Some (λ t. Aims t h) targets) hosts

abbrev pub NoTwice : List String → Type 0
NoTwice [] = Unit
NoTwice (a ∷ ids) = (mem a ids ≡ false) × NoTwice ids

pub mem-append :
    (a b : String) (ids : List String) → mem a (ids ++ b ∷ []) ≡ (mem a ids || (b == a))
mem-append a b [] = ground arith
mem-append a b (c ∷ ids) = rw (mem-append a b ids) (ground arith)

append-NoTwice :
    (b : String) (ids : List String) → mem b ids ≡ false → NoTwice ids → NoTwice (ids ++ b ∷ [])
append-NoTwice b [] new h = (refl, tt)
append-NoTwice b (c ∷ ids) new (first, rest) =
    let apart : (c == b) ≡ false = ground arith in
    let apart' : (b == c) ≡ false = elim (Bool-cases (b == c)) [
      | inr e ↦ e
      | inl e ↦ let same : (c == b) ≡ true = (eq_iff c b).1 (sym ((eq_iff b c).0 e)) in absurd (cc)
    ] in
    (mem-append c b ids ∙ rw (first, apart') refl, append-NoTwice b ids (ground arith) rest)

add-NoTwice : (a : String) (ids : List String) → NoTwice ids → NoTwice (add a ids)
unfolding add
add-NoTwice a ids h = elim (Bool-cases ((a == "") || mem a ids)) [
  | inl e ↦ rw e h
  | inr e ↦ rw e (append-NoTwice a ids (ground arith) h)
]

resolve_target-NoTwice :
    (t : String) (hosts : List Host) (ids : List String)
    → NoTwice ids
    → NoTwice (resolve_target t hosts ids)
unfolding resolve_target
resolve_target-NoTwice t [] ids h = h
resolve_target-NoTwice t (x ∷ hosts) ids h = elim (Bool-cases (names t x)) [
  | inl e ↦ rw e (add-NoTwice x.agent_id ids h)
  | inr e ↦ elim (Bool-cases (in_group t x.group)) [
    | inl g ↦
        rw (e, g)
          (resolve_target-NoTwice t hosts (add x.agent_id ids) (add-NoTwice x.agent_id ids h))
    | inr g ↦ rw (e, g) (resolve_target-NoTwice t hosts ids h)
  ]
]

resolve_all-NoTwice :
    (targets : List String) (hosts : List Host) (ids : List String)
    → NoTwice ids
    → NoTwice (resolve_all targets hosts ids)
unfolding resolve_all
resolve_all-NoTwice [] hosts ids h = h
resolve_all-NoTwice (t ∷ targets) hosts ids h =
    resolve_all-NoTwice targets hosts (resolve_target t hosts ids)
      (resolve_target-NoTwice t hosts ids h)

module _ (Q : String → Type 0) where
  add-All : (a : String) (ids : List String) → Q a → All Q ids → All Q (add a ids)
  unfolding add
  add-All a ids q h = elim (Bool-cases ((a == "") || mem a ids)) [
    | inl e ↦ rw e h
    | inr e ↦ rw e (All-append Q ids (a ∷ []) h (q, tt))
  ]

  resolve_target-All :
      (t : String) (hosts : List Host) (ids : List String)
      → All (λ x. Aims t x → Q x.agent_id) hosts
      → All Q ids
      → All Q (resolve_target t hosts ids)
  unfolding resolve_target
  resolve_target-All t [] ids found h = h
  resolve_target-All t (x ∷ hosts) ids (q, found) h = elim (Bool-cases (names t x)) [
    | inl e ↦ rw e (add-All x.agent_id ids (q (inl e)) h)
    | inr e ↦ elim (Bool-cases (in_group t x.group)) [
      | inl g ↦
          rw (e, g)
            (resolve_target-All t hosts (add x.agent_id ids) found
              (add-All x.agent_id ids (q (inr g)) h))
      | inr g ↦ rw (e, g) (resolve_target-All t hosts ids found h)
    ]
  ]

  resolve_all-All :
      (targets : List String) (hosts : List Host) (ids : List String)
      → All (λ t. All (λ x. Aims t x → Q x.agent_id) hosts) targets
      → All Q ids
      → All Q (resolve_all targets hosts ids)
  unfolding resolve_all
  resolve_all-All [] hosts ids found h = h
  resolve_all-All (t ∷ targets) hosts ids (first, found) h =
      resolve_all-All targets hosts (resolve_target t hosts ids) found
        (resolve_target-All t hosts ids first h)

pub All-Some :
    {I A : Type 0} (P : I → A → Type 0) (xs : List A)
    → All (λ x. (i : I) → P i x → Some (P i) xs) xs
All-Some P [] = tt
All-Some P (x ∷ xs) = (
  (λ i p. inl p),
  All-map (λ y. (i : _) → P i y → Some (P i) xs) (λ y. (i : _) → P i y → Some (P i) (x ∷ xs)) xs
      (λ y rule i p. inr (rule i p)) (All-Some P xs),
)

All-IsAimed :
    (targets : List String) (hosts : List Host)
    → All (λ t. All (λ x. Aims t x → IsAimed targets hosts x.agent_id) hosts) targets
All-IsAimed targets hosts =
    let by_host =
      All-Some (λ (a : String) (h : Host). (h.agent_id ≡ a) × Some (λ t. Aims t h) targets) hosts in
    All-map (λ t. (h : Host) → Aims t h → Some (λ u. Aims u h) targets)
      (λ t. All (λ x. Aims t x → IsAimed targets hosts x.agent_id) hosts) targets
      (λ t rule.
        All-map
          (λ x.
            (a : String)
            → (x.agent_id ≡ a) × Some (λ u. Aims u x) targets
            → IsAimed targets hosts a)
          (λ x. Aims t x → IsAimed targets hosts x.agent_id) hosts
          (λ x found aims. found x.agent_id (refl, rule x aims)) by_host)
      (All-Some (λ (h : Host) (t : String). Aims t h) targets)

-- No target aims at a host.
abbrev pub IsUnknown : List String → List Host → Type 0
IsUnknown targets hosts = All (λ t. All (λ h. ¬ Aims t h) hosts) targets

-- A target aims at a host.
abbrev pub IsKnown : List String → List Host → Type 0
IsKnown targets hosts = Some (λ h. Some (λ t. Aims t h) targets) hosts

abbrev pub HasId : Host → Type 0
HasId h = (h.agent_id == "") ≡ false

add-ne-nil : (a : String) (ids : List String) → (a == "") ≡ false → add a ids ≢ []
unfolding add
add-ne-nil a [] named e = absurd (cc (rw named at e))
add-ne-nil a (b ∷ ids) named e = elim (Bool-cases ((a == "") || mem a (b ∷ ids))) [
  | inl y ↦ absurd (cc (rw y at e))
  | inr n ↦ absurd (cc (rw n at e))
]

resolve_target-nil :
    (t : String) (hosts : List Host) (ids : List String)
    → All HasId hosts
    → resolve_target t hosts ids ≡ []
    → (ids ≡ []) × All (λ h. ¬ Aims t h) hosts
unfolding resolve_target
resolve_target-nil t [] ids named e = (e, tt)
resolve_target-nil t (x ∷ hosts) ids (here, named) e = elim (Bool-cases (names t x)) [
  | inl y ↦ absurd (add-ne-nil x.agent_id ids here (rw y at e))
  | inr n ↦ elim (Bool-cases (in_group t x.group)) [
    | inl g ↦
        let (bare, none_left) =
          resolve_target-nil t hosts (add x.agent_id ids) named (rw (n, g) at e) in
        absurd (add-ne-nil x.agent_id ids here bare)
    | inr g ↦
        let (bare, none_left) = resolve_target-nil t hosts ids named (rw (n, g) at e) in
        (bare, ((λ aims. elim aims [ inl y ↦ absurd (cc) | inr y ↦ absurd (cc) ]), none_left))
  ]
]

resolve_all-nil :
    (targets : List String) (hosts : List Host) (ids : List String)
    → All HasId hosts
    → resolve_all targets hosts ids ≡ []
    → (ids ≡ []) × IsUnknown targets hosts
unfolding resolve_all
resolve_all-nil [] hosts ids named e = (e, tt)
resolve_all-nil (t ∷ targets) hosts ids named e =
    let (bare, later) = resolve_all-nil targets hosts (resolve_target t hosts ids) named e in
    let (start, here) = resolve_target-nil t hosts ids named bare in (start, (here, later))

pub Some-map :
    {A : Type 0} (P Q : A → Type 0) (xs : List A) → ((x : A) → P x → Q x) → Some P xs → Some Q xs
Some-map P Q [] f h = h
Some-map P Q (x ∷ xs) f (inl p) = inl (f x p)
Some-map P Q (x ∷ xs) f (inr h) = inr (Some-map P Q xs f h)

abbrev Resolved : List String → List Host → List String → Type 0
Resolved targets hosts ids =
    (IsUnknown targets hosts × (ids ≡ targets))
    ⊎ (IsKnown targets hosts × All (IsAimed targets hosts) ids × NoTwice ids)

or_else-Resolved :
    (targets : List String) (hosts : List Host) (resolved : List String)
    → (resolved ≡ [] → IsUnknown targets hosts)
    → All (IsAimed targets hosts) resolved
    → NoTwice resolved
    → Resolved targets hosts (or_else resolved targets)
or_else-Resolved targets hosts [] bare aimed once = inl (bare refl, refl)
or_else-Resolved targets hosts (a ∷ resolved) bare aimed once = inr (
  Some-map (λ h. (h.agent_id ≡ a) × Some (λ t. Aims t h) targets)
      (λ h. Some (λ t. Aims t h) targets) hosts (λ h both. both.1) aimed.0,
  aimed,
  once,
)

-- Over the first thousand hosts that are online, where each has an id: if no target aims at one of them, the targets are
-- passed on as they are. Else every id of the result is that of a host at which a target aims, by its id, its
-- name, its address or its group, and no id comes twice.
pub resolve_targets-IsAimed :
    (targets : List String) (hosts : List Host)
    → All HasId (listed hosts)
    → (IsUnknown targets (listed hosts) × (resolve_targets targets hosts ≡ targets))
      ⊎ (IsKnown targets (listed hosts)
          × All (IsAimed targets (listed hosts)) (resolve_targets targets hosts)
          × NoTwice (resolve_targets targets hosts))
unfolding resolve_targets
resolve_targets-IsAimed targets hosts named =
    let online = listed hosts in
    or_else-Resolved targets online (resolve_all targets online [])
      (λ e. (resolve_all-nil targets online [] named e).1)
      (resolve_all-All (IsAimed targets online) targets online [] (All-IsAimed targets online) tt)
      (resolve_all-NoTwice targets online [] tt)
