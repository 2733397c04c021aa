-- ===== src/Responder/Examples.antt =====
-- Playbooks and waits on concrete input.
use security_agent.Prelude.{◌≤◌, ◌≡◌, refl, List, [], ◌∷◌, none, some, All, ◌⊎◌}
use security_agent.Approval.{pending, approved, l1, l3, l4}
use security_agent.Responder.{
  Operation, level_rank, max_level, infer_level, respond, Poll, PlaybookFile, Event, plan,
  match_playbook, from_file, from_model, hitl_status,
}
use security_agent.Responder.Gate.{respond-gate}

level_of_isolation : infer_level "isolate_host_now" ≡ l4
unfolding infer_level
level_of_isolation = refl

abbrev block_file : PlaybookFile
block_file = record {
  verdict = some "true_positive";
  confidence_min = 800000;
  event_tags = "malware" ∷ [];
  operations = ("siem_tag", none) ∷ ("firewall_block", some l3) ∷ [];
}

abbrev block_ops : List Operation
block_ops =
    record { kind = "siem_tag"; level = l1 } ∷ record { kind = "firewall_block"; level = l3 } ∷ []

abbrev malware : Event
malware = record {
  verdict = "true_positive";
  confidence = 910000;
  event_tags = "phishing" ∷ "malware" ∷ [];
}

plan_of_malware : plan (block_file ∷ []) malware none ≡ block_ops
unfolding plan match_playbook from_file
plan_of_malware = refl

plan_of_model :
    plan [] malware (some ("siem_tag" ∷ "dns_block" ∷ []))
    ≡ record { kind = "siem_tag"; level = l1 } ∷ record { kind = "dns_block"; level = l3 } ∷ []
unfolding plan match_playbook from_model infer_level
plan_of_model = refl

respond-gate_example :
    (block_ops ≡ block_ops)
    × (All (λ op. level_rank op.level ≤ 2) block_ops ⊎ (approved ≡ approved))
unfolding respond max_level hitl_status
respond-gate_example = respond-gate block_ops block_ops approved refl

-- A message that still says 'pending', while the row is approved already.
abbrev polls : List Poll
polls =
    record { elapsed = 1; message = none; row = pending }
    ∷ record { elapsed = 2; message = some pending; row = approved }
    ∷ []
