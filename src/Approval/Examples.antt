-- ===== src/Approval/Examples.antt =====
-- An approval that needs two people.
use security_agent.Prelude.{◌≡◌, refl, some, ◌≢◌}
use security_agent.Approval.{
  Store, l4, approve, reject, approved, pending, status_in, create, add_vote, new_row, insert_row,
}
use security_agent.Approval.Votes.{IsSound}
use security_agent.Approval.Terminal.{
  Step, creates, votes, Reach, here, next, empty, Reach-quorum, Reach-decided,
}

abbrev opened : Store
opened = insert_row (new_row 7 "event-1" l4 2) empty

abbrev once : Store
once = (add_vote "event-1" "alice" approve opened).1

abbrev twice : Store
twice = (add_vote "event-1" "bob" approve once).1

abbrev late : Store
late = (add_vote "event-1" "carol" reject twice).1

same_voter_waits : (add_vote "event-1" "alice" approve once).0 ≡ some (pending, 1)
unfolding add_vote
same_voter_waits = refl

opens : Step empty opened
unfolding create
opens = creates 7 "event-1" l4 2 refl

run : Reach empty twice
run =
    next (next (next here opens) (votes "event-1" "alice" approve refl))
      (votes "event-1" "bob" approve refl)

Reach-quorum_example : IsSound twice
Reach-quorum_example = Reach-quorum run

decided : status_in 7 twice.approvals ≡ some approved
unfolding add_vote status_in
decided = refl

approved_ne : approved ≢ pending
approved_ne e = cc

Reach-decided_example : status_in 7 late.approvals ≡ some approved
Reach-decided_example =
    Reach-decided 7 (next here (votes "event-1" "carol" reject refl)) (Reach-quorum run) approved_ne
      decided
