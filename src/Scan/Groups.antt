-- ===== src/Scan/Groups.antt =====
-- The agents of a group that `_resolve_targets` of orchestration/subgraphs/vulnscan/nodes.py finds.
use security_agent.Prelude.{
  ◌≡◌, refl, sym, subst, true, false, ◌||◌, List, [], ◌∷◌, String, ◌==◌, mem, same_text, All,
  All-map, Bool-cases, inl, inr, arith,
}
use security_agent.Scan.{
  Host, add, names, in_group, resolve_target, resolve_all, or_else, resolve_targets, listed,
}
use security_agent.Scan.Targets.{Some, mem-append}

mem-add : (a b : String) (ids : List String) → mem a ids ≡ true → mem a (add b ids) ≡ true
unfolding add
mem-add a b ids h = elim (Bool-cases ((b == "") || mem b ids)) [
  | inl e ↦ rw e h
  | inr e ↦ rw (e, mem-append a b ids) (ground arith)
]

mem-add_self : (a : String) (ids : List String) → (a == "") ≡ false → mem a (add a ids) ≡ true
unfolding add
mem-add_self a ids named = elim (Bool-cases (mem a ids)) [
  | inl e ↦ rw (named, e) e
  | inr e ↦ rw (named, e, mem-append a a ids) (let same = same_text a in ground arith)
]

mem-resolve_target :
    (a t : String) (hosts : List Host) (ids : List String)
    → mem a ids ≡ true
    → mem a (resolve_target t hosts ids) ≡ true
unfolding resolve_target
mem-resolve_target a t [] ids h = h
mem-resolve_target a t (x ∷ hosts) ids h = elim (Bool-cases (names t x)) [
  | inl e ↦ rw e (mem-add a x.agent_id ids h)
  | inr e ↦ elim (Bool-cases (in_group t x.group)) [
    | inl g ↦
        rw (e, g) (mem-resolve_target a t hosts (add x.agent_id ids) (mem-add a x.agent_id ids h))
    | inr g ↦ rw (e, g) (mem-resolve_target a t hosts ids h)
  ]
]

mem-resolve_all :
    (a : String) (targets : List String) (hosts : List Host) (ids : List String)
    → mem a ids ≡ true
    → mem a (resolve_all targets hosts ids) ≡ true
unfolding resolve_all
mem-resolve_all a [] hosts ids h = h
mem-resolve_all a (t ∷ targets) hosts ids h =
    mem-resolve_all a targets hosts (resolve_target t hosts ids)
      (mem-resolve_target a t hosts ids h)

-- A member of the target's group, with an id.
abbrev pub IsMember : String → Host → Type 0
IsMember t h = (in_group t h.group ≡ true) × ((h.agent_id == "") ≡ false)

resolve_target-group :
    (t : String) (hosts : List Host) (ids : List String)
    → All (λ h. names t h ≡ false) hosts
    → All (λ h. IsMember t h → mem h.agent_id (resolve_target t hosts ids) ≡ true) hosts
unfolding resolve_target
resolve_target-group t [] ids other = tt
resolve_target-group t (x ∷ hosts) ids (first, other) = elim (Bool-cases (in_group t x.group)) [
  | inl g ↦
      let stepped : resolve_target t (x ∷ hosts) ids ≡ resolve_target t hosts (add x.agent_id ids) =
        rw (first, g) refl in
      subst (λ r. All (λ h. IsMember t h → mem h.agent_id r ≡ true) (x ∷ hosts)) (sym stepped)
        (
          (λ member.
              mem-resolve_target x.agent_id t hosts (add x.agent_id ids)
                (mem-add_self x.agent_id ids member.1)),
          resolve_target-group t hosts (add x.agent_id ids) other,
        )
  | inr g ↦
      let stepped : resolve_target t (x ∷ hosts) ids ≡ resolve_target t hosts ids =
        rw (first, g) refl in
      subst (λ r. All (λ h. IsMember t h → mem h.agent_id r ≡ true) (x ∷ hosts)) (sym stepped)
        ((λ member. absurd (cc)), resolve_target-group t hosts ids other)
]

resolve_all-group :
    (t : String) (targets : List String) (hosts : List Host) (ids : List String)
    → Some (λ u. u ≡ t) targets
    → All (λ h. names t h ≡ false) hosts
    → All (λ h. IsMember t h → mem h.agent_id (resolve_all targets hosts ids) ≡ true) hosts
unfolding resolve_all
resolve_all-group t [] hosts ids listed other = absurd listed
resolve_all-group t (u ∷ targets) hosts ids (inl same) other =
    subst
      (λ v.
        All
          (λ h.
            IsMember t h
            → mem h.agent_id (resolve_all targets hosts (resolve_target v hosts ids)) ≡ true)
          hosts)
      (sym same)
      (All-map (λ h. IsMember t h → mem h.agent_id (resolve_target t hosts ids) ≡ true)
        (λ h.
          IsMember t h
          → mem h.agent_id (resolve_all targets hosts (resolve_target t hosts ids)) ≡ true)
        hosts
        (λ h there member.
          mem-resolve_all h.agent_id targets hosts (resolve_target t hosts ids) (there member))
        (resolve_target-group t hosts ids other))
resolve_all-group t (u ∷ targets) hosts ids (inr listed) other =
    resolve_all-group t targets hosts (resolve_target u hosts ids) listed other

mem-or_else :
    (a : String) (resolved targets : List String)
    → mem a resolved ≡ true
    → mem a (or_else resolved targets) ≡ true
mem-or_else a [] targets h = absurd (cc)
mem-or_else a (b ∷ resolved) targets h = h

-- A target that is not the id, the name or the address of one of the first thousand hosts that are online stands for its
-- group: the id of each of these hosts that is in the group, where it is not empty, is in the result, whatever the other
-- targets are.
pub resolve_targets-group :
    (t : String) (targets : List String) (hosts : List Host)
    → Some (λ u. u ≡ t) targets
    → All (λ h. names t h ≡ false) (listed hosts)
    → All (λ h. IsMember t h → mem h.agent_id (resolve_targets targets hosts) ≡ true) (listed hosts)
unfolding resolve_targets
resolve_targets-group t targets hosts among other =
    All-map (λ h. IsMember t h → mem h.agent_id (resolve_all targets (listed hosts) []) ≡ true)
      (λ h.
        IsMember t h
        → mem h.agent_id (or_else (resolve_all targets (listed hosts) []) targets) ≡ true)
      (listed hosts)
      (λ h there member.
        mem-or_else h.agent_id (resolve_all targets (listed hosts) []) targets (there member))
      (resolve_all-group t targets (listed hosts) [] among other)
