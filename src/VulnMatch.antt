-- ===== src/VulnMatch.antt =====
-- asset_scan/scanner/vuln_match.py: `match_by_cpe`, the offline matching of services and rules.
-- A field of a document that the code reads with `or ""` is a text, empty where it is missing.
pub mod Laws
mod Examples
use security_agent.Prelude.{
  ℕ, Bool, true, false, ◌&&◌, ◌||◌, not, List, [], ◌∷◌, ◌++◌, Option, none, some, String, codes,
  same, starts_with, length, leb, eqb, if◌then◌else◌, get_or, ◌==◌,
}
use security_agent.Version.{lower, normalize_cpe_version, version_matches}

pub record Service : Type 0 where
  pub ip : Option String
  pub port : Option ℕ
  pub name : List ℕ
  pub product : List ℕ
  pub version : List ℕ

-- A rule's document; `kind`, `target` (the name), `op` and `value` are the fields of its `check`.
pub record Rule : Type 0 where
  pub id : String
  pub cve : Option String
  pub name : String
  pub severity : Option String
  pub fix : String
  pub kind : String
  pub target : List ℕ
  pub op : Option String
  pub value : List ℕ

-- A result. The evidence text and `vuln_id` (ip:port:rule) are kept as the parts that they are put
-- together from; the time of detection is left out.
pub record Match : Type 0 where
  pub vuln_id : String × ℕ × String
  pub ip : String
  pub port : ℕ
  pub service : List ℕ
  pub cve : Option String
  pub name : String
  pub severity : String
  pub product : List ℕ
  pub op : String
  pub threshold : List ℕ
  pub fix_advice : String

abbrev pub max_matches_per_task : ℕ
max_matches_per_task = 2000

-- The characters that str.strip() takes.
is_space : ℕ → Bool
is_space c =
    (leb 9 c && leb c 13)
    || ((leb 28 c && leb c 32)
        || ((leb 8192 c && leb c 8202)
            || (eqb c 133
                || (eqb c 160
                    || (eqb c 5760
                        || (eqb c 8232
                            || (eqb c 8233 || (eqb c 8239 || (eqb c 8287 || eqb c 12288)))))))))

strip_left : List ℕ → List ℕ
strip_left [] = []
strip_left (c ∷ s) = if is_space c then strip_left s else c ∷ s

is_empty : List ℕ → Bool
is_empty [] = true
is_empty (c ∷ s) = false

-- The spaces at the end go: a character stays if it is no space or something stays behind it.
strip_right : List ℕ → List ℕ
strip_right [] = []
strip_right (c ∷ s) =
    let rest = strip_right s in if is_space c && is_empty rest then [] else c ∷ rest

pub strip : List ℕ → List ℕ
unfolding strip_left strip_right is_space is_empty
strip s = strip_right (strip_left s)

-- `a or b` on texts
pub or_text : List ℕ → List ℕ → List ℕ
or_text [] b = b
or_text (c ∷ s) b = c ∷ s

pub rule_product_matches : List ℕ → List ℕ → Bool
unfolding strip lower is_empty
rule_product_matches rule_name product =
    let rname = lower (strip rule_name) in
    let prod = lower (strip product) in
    if is_empty rname || is_empty prod
    then false
    else if same rname prod
    then true
    else starts_with prod (rname ++ codes "/")
      || starts_with prod (rname ++ codes " ")
      || starts_with prod (rname ++ codes "-")

pub product_of : Service → List ℕ
unfolding strip or_text
product_of svc = strip (or_text svc.product svc.name)

-- The tests of the inner loop, one `continue` after the other.
pub applies : Service → Rule → Bool
unfolding rule_product_matches product_of version_matches
applies svc rule =
    if not (rule.kind == "package_version")
    then false
    else if not (rule_product_matches rule.target (product_of svc))
    then false
    else if is_empty rule.value
    then false
    else version_matches (normalize_cpe_version svc.version) (get_or rule.op "lt") rule.value

pub make_match : Service → Rule → Match
make_match svc rule = record {
  vuln_id = (get_or svc.ip "?", get_or svc.port 0, rule.id);
  ip = get_or svc.ip "";
  port = get_or svc.port 0;
  service = svc.name;
  cve = rule.cve;
  name = rule.name;
  severity = get_or rule.severity "unknown";
  product = product_of svc;
  op = get_or rule.op "lt";
  threshold = rule.value;
  fix_advice = rule.fix;
}

-- The inner loop. Beside `out` comes whether the cap was hit, which ends the whole function.
pub match_rules : ℕ → Service → List Match → List Rule → List Match × Bool
match_rules cap svc out [] = (out, false)
match_rules cap svc out (rule ∷ rules) =
    let out' = if applies svc rule then out ++ make_match svc rule ∷ [] else out in
    let rest = match_rules cap svc out' rules in if leb cap (length out) then (out, true) else rest

-- A service with no product or no version is passed over.
pub is_skipped : Service → Bool
unfolding product_of is_empty normalize_cpe_version
is_skipped svc = is_empty (product_of svc) || is_empty (normalize_cpe_version svc.version)

pub match_services : ℕ → List Match → List Service → List Rule → List Match
unfolding match_rules
match_services cap out [] rules = out
match_services cap out (svc ∷ svcs) rules =
    let (out', stop) = if is_skipped svc then (out, false) else match_rules cap svc out rules in
    let rest = match_services cap out' svcs rules in if stop then out' else rest

pub match_by_cpe : List Service → List Rule → List Match
unfolding match_services applies make_match is_skipped
match_by_cpe services rules = match_services max_matches_per_task [] services rules
