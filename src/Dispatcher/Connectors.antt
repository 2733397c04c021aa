-- ===== src/Dispatcher/Connectors.antt =====
-- The connectors of execution/actions/connectors and the registry of dispatcher.py, over the Redis set dns:blocklist. What
-- the simulator, the webhooks and Elasticsearch do elsewhere is not in this world; what they answer is a parameter.
pub mod Blocklist
mod Examples
use security_agent.Prelude.{
  Bool, true, false, List, [], ◌∷◌, Option, none, some, String, ◌==◌, mem, get_or, if◌then◌else◌,
}
use security_agent.Dispatcher.{Op, Status, success, failed, skipped, Connector}

-- Whether SADD, EXPIRE and SREM work for a domain, whether a webhook or Elasticsearch takes what an operation sends, and
-- whether such an operation gets so far: what stands in front of the `try` may raise.
pub record Services : Type 0 where
  pub sadd : String → Bool
  pub expire : String → Bool
  pub srem : String → Bool
  pub sent_any : Op → Bool
  pub tagged : Op → Bool
  pub starts : Op → Bool

get : String → List (String × String) → Option String
get k [] = none
get k ((j, v) ∷ d) = if j == k then some v else get k d

-- op.get("params", {}).get("domain", "")
pub domain_of : Op → String
unfolding get
domain_of op = get_or (get "domain" op.params) ""

-- SADD and SREM on the set, the newest member first.
pub include : String → List String → List String
include x blocklist = if mem x blocklist then blocklist else x ∷ blocklist

pub exclude : String → List String → List String
exclude x [] = []
exclude x (y ∷ blocklist) = let rest = exclude x blocklist in if y == x then rest else y ∷ rest

module _ (net : Services) where
  -- A failed EXPIRE leaves the domain in the set, with the status failed.
  pub block_domain : Op → List String → Option (Status × String) × List String
  unfolding domain_of include
  block_domain op blocklist =
      let x = domain_of op in
      if x == ""
      then (some (skipped, "dns_block"), blocklist)
      else if net.sadd x
      then (some (if net.expire x then success else failed, "dns_block"), include x blocklist)
      else (some (failed, "dns_block"), blocklist)

  pub unblock_domain : Op → List String → List String
  unfolding domain_of exclude
  unblock_domain op blocklist =
      let x = domain_of op in
      if x == "" then blocklist else if net.srem x then exclude x blocklist else blocklist

  abbrev pub dns_block : Connector (List String)
  dns_block = record { execute = block_domain; rollback = unblock_domain }

  abbrev pub simulator : Connector (List String)
  simulator = record { execute = λ op w. (some (success, op.kind), w); rollback = λ op w. w }

  pub notify_status : Op → Option (Status × String)
  notify_status op =
      if net.starts op then some (if net.sent_any op then success else skipped, op.kind) else none

  abbrev pub notify_analyst : Connector (List String)
  notify_analyst = record { execute = λ op w. (notify_status op, w); rollback = λ op w. w }

  pub tag_status : Op → Option (Status × String)
  tag_status op =
      if net.starts op then some (if net.tagged op then success else failed, op.kind) else none

  abbrev pub siem_tag : Connector (List String)
  siem_tag = record { execute = λ op w. (tag_status op, w); rollback = λ op w. w }

  abbrev pub simulated : List String
  simulated =
      "firewall_block" ∷ "isolate_host" ∷ "terminate_process" ∷ "quarantine_file" ∷ "edr_policy"
      ∷ []

  -- `_registry`, as `__init__` fills it.
  pub registry : String → Option (Connector (List String))
  unfolding notify_status tag_status block_domain unblock_domain
  registry kind =
      if kind == "dns_block"
      then some dns_block
      else if mem kind simulated
      then some simulator
      else if mem kind ("notify" ∷ "notify_analyst" ∷ [])
      then some notify_analyst
      else if mem kind ("siem_tag" ∷ "tag" ∷ [])
      then some siem_tag
      else none
