-- ===== src/Responder/Gate.antt =====
-- The gate in front of the execution: levels, approvals and what follows a refusal.
use security_agent.Prelude.{
  ℕ, ◌≤◌, ◌<◌, ◌≡◌, true, false, List, [], ◌∷◌, arith, All, ◌⊎◌, inl, inr, ltb, Bool-cases,
}
use security_agent.Approval.{Status, approved, rejected, timeout, Level, l1}
use security_agent.Responder.{
  Operation, level_rank, max_level, is_auto, hitl_status, executed, turned_down, is_approved,
  respond,
}

-- A bound of the highest level bounds every operation.
max_level-bounds :
    (k : ℕ) (m : Level) (ops : List Operation)
    → level_rank (max_level m ops) ≤ k
    → (level_rank m ≤ k) × All (λ op. level_rank op.level ≤ k) ops
unfolding max_level
max_level-bounds k m [] h = (h, tt)
max_level-bounds k m (op ∷ ops) h = elim (Bool-cases (ltb (level_rank m) (level_rank op.level))) [
  | inl e ↦
      let (low, others) = max_level-bounds k op.level ops (rw e at h) in
      (ground arith, (low, others))
  | inr e ↦
      let (low, others) = max_level-bounds k m ops (rw e at h) in (low, (ground arith, others))
]

auto-le : (level : Level) → is_auto level ≡ true → level_rank level ≤ 2
auto-le level h = ground arith

hitl-approved :
    (level : Level) (result : Status)
    → hitl_status level result ≡ approved
    → (is_auto level ≡ true) ⊎ (result ≡ approved)
unfolding hitl_status
hitl-approved level result h = ground arith

-- If the responder executes operations at all, these are the planned ones, and either each of them
-- is of level 1 or 2 or the wait for the approval came back with 'approved'.
pub respond-gate :
    (ops done : List Operation) (result : Status)
    → respond ops result ≡ executed done
    → (done ≡ ops) × (All (λ op. level_rank op.level ≤ 2) ops ⊎ (result ≡ approved))
unfolding respond
respond-gate ops done result h =
    elim (Bool-cases (is_approved (hitl_status (max_level l1 ops) result))) [
      | inl e ↦
          let status : hitl_status (max_level l1 ops) result ≡ approved = ground arith in
          (
            cc (rw e at h),
            elim (hitl-approved (max_level l1 ops) result status) [
              | inl a ↦ inl (max_level-bounds 2 l1 ops (auto-le (max_level l1 ops) a)).1
              | inr r ↦ inr r
            ],
          )
      | inr e ↦ absurd (cc (rw e at h))
    ]

not_auto : (level : Level) → 2 < level_rank level → is_auto level ≡ false
not_auto level h = ground arith

-- A playbook with an operation of level 3 or more is turned down as 'rejected' where the wait ends
-- with 'rejected', and so it is where the wait times out.
pub respond-turned_down :
    (ops : List Operation)
    → 2 < level_rank (max_level l1 ops)
    → (respond ops rejected ≡ turned_down rejected) × (respond ops timeout ≡ turned_down rejected)
unfolding respond hitl_status
respond-turned_down ops h = let e = not_auto (max_level l1 ops) h in (rw e, rw e)
