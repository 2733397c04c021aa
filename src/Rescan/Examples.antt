-- ===== src/Rescan/Examples.antt =====
-- A queue of three findings, one of which is used up, with rounds beside a store with and without findings.
use security_agent.Prelude.{◌≡◌, refl, List, [], ◌∷◌, some}
use security_agent.Rescan.{Entry, all_failed, next_batch, mark_final}

abbrev queue : List Entry
queue =
    record { finding_id = "a"; attempts = 2 }
    ∷ record { finding_id = "b"; attempts = 3 }
    ∷ record { finding_id = "c"; attempts = 1 }
    ∷ []

batch : next_batch 3 queue ≡ "c" ∷ "a" ∷ []
unfolding next_batch
batch = refl

outcome : mark_final 3 (some ("a" ∷ [])) ≡ some all_failed
unfolding mark_final
outcome = refl
