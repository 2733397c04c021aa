-- ===== src/VulnMatch/Examples.antt =====
-- One service and two rules.
use security_agent.Prelude.{◌≡◌, refl, some, none, [], ◌∷◌, codes, take}
use security_agent.VulnMatch.{Service, Rule, make_match, match_by_cpe, max_matches_per_task}
use security_agent.VulnMatch.Laws.{all_matches, match_by_cpe-eq-take}

abbrev nginx : Service
nginx = record {
  ip = some "10.0.0.5";
  port = some 80;
  name = codes "http";
  product = codes "nginx/1.18.0";
  version = codes "1.18.0";
}

abbrev fixed_in : Rule
fixed_in = record {
  id = "r1";
  cve = some "CVE-2021-23017";
  name = "resolver";
  severity = some "high";
  fix = "upgrade";
  kind = "package_version";
  target = codes "Nginx";
  op = none;
  value = codes "1.20.1";
}

abbrev older : Rule
older = record fixed_in { id = "r2"; value = codes "1.16" }

found : match_by_cpe (nginx ∷ []) (fixed_in ∷ older ∷ []) ≡ make_match nginx fixed_in ∷ []
unfolding match_by_cpe
found = refl

match_by_cpe-eq-take_example :
    match_by_cpe (nginx ∷ []) (fixed_in ∷ older ∷ [])
    ≡ take max_matches_per_task (all_matches (nginx ∷ []) (fixed_in ∷ older ∷ []))
match_by_cpe-eq-take_example = match_by_cpe-eq-take (nginx ∷ []) (fixed_in ∷ older ∷ [])
