-- ===== src/Scan/Aggregate/Examples.antt =====
-- A scan that finds one of two stored vulnerabilities again, and a new one.
use Prim.Native.String
use security_agent.Prelude.{◌≡◌, refl, Bool, List, [], ◌∷◌, none, some, String, All, is_gt}
use security_agent.Scan.Targets.{Some}
use security_agent.Scan.Aggregate.{
  Finding, ScanResult, update, index, fix, delete, reconcile, first_by_key, add_findings,
  add_finding, has_key, same_key, index_existing, place, add_id, merge_finding, find_key, auto_fix,
  covered, first_text, dedupe, without, existing_times,
}
use security_agent.Scan.Aggregate.Justified.{IsJustified, reconcile-IsJustified}
use security_agent.Scan.Aggregate.Complete.{Writes, reconcile-Writes}

abbrev later : String → String → Bool
later s t = is_gt (Prim.Native.String.compare s t)

abbrev finding : String → String → String → Finding
finding i cve at = record {
  finding_id = i;
  task_id = "t1";
  agent_id = "a1";
  hostname = "web";
  category = "sys_vuln";
  cve = some cve;
  name = "openssl";
  severity = "high";
  evidence = "";
  fix_advice = none;
  status = "open";
  detected_at = at;
  scan_history = [];
  last_seen_task_id = none;
  first_fixed_at = none;
  last_fixed_at = none;
}

abbrev existing : List Finding
existing =
    finding "v1" "CVE-1" "2026-07-02"
    ∷ finding "v2" "CVE-2" "2026-07-02"
    ∷ finding "v0" "CVE-1" "2026-07-01"
    ∷ []

abbrev results : List ScanResult
results =
    record {
      agent_id = "a1";
      ts = "2026-08-01";
      findings = finding "n1" "CVE-1" "" ∷ finding "n3" "CVE-3" "" ∷ [];
      scanned_categories = "sys_vuln" ∷ [];
    }
    ∷ []

reconciles :
    (reconcile (λ l. l) "2026-08-02" later results existing).0
    ≡ update "v1" (finding "n1" "CVE-1" "2026-08-01") "open" ("2026-07-02" ∷ "2026-07-01" ∷ [])
      ∷ index (finding "n3" "CVE-3" "2026-08-01")
      ∷ fix "v2" "2026-08-02" "2026-08-02"
      ∷ delete "v0"
      ∷ []
unfolding reconcile first_by_key add_findings add_finding has_key same_key index_existing place
    add_id merge_finding find_key auto_fix covered first_text dedupe without existing_times
reconciles = refl

reconcile-IsJustified_example :
    All
      (IsJustified later results existing)
      (reconcile (λ l. l) "2026-08-02" later results existing).0
reconcile-IsJustified_example = reconcile-IsJustified (λ l. l) "2026-08-02" later results existing

reconcile-Writes_example :
    All
      (λ r.
        All
          (λ f. Some (Writes f) (reconcile (λ l. l) "2026-08-02" later results existing).0)
          r.findings)
      results
reconcile-Writes_example = reconcile-Writes (λ l. l) "2026-08-02" later results existing
