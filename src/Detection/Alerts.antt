-- ===== src/Detection/Alerts.antt =====
-- detection/builder.py and the `Detector` of detection/detector.py. The digest of an alert's identifier, the clock
-- and the alert store are parameters; the load of the rules' files, the log and of `raw` all but the matched
-- fields are left out.
use Prim.Native.Char.{code}
use security_agent.Prelude.{
  Bool, true, false, not, ◌&&◌, ◌||◌, List, [], ◌∷◌, ◌++◌, Option, none, some, String, ltb, eqb,
  codes, starts_with, contains, mem, join, get_or, ◌==◌, if◌then◌else◌,
}
use security_agent.Detection.{
  Value, Entries, text, dict, Runtime, event_get, get, truthy, split_dots,
}
use security_agent.Detection.Sigma.{
  RuleLevel, informational, low, medium, high, critical, SigmaRule, Fields, matches,
}

pub data AlertSeverity : Type 0 where
  info low_severity medium_severity high_severity critical_severity : AlertSeverity

abbrev pub level_to_severity : RuleLevel → AlertSeverity
level_to_severity informational = info
level_to_severity low = low_severity
level_to_severity medium = medium_severity
level_to_severity high = high_severity
level_to_severity critical = critical_severity

pub record AlertIoc : Type 0 where
  pub ips : List String
  pub domains : List String
  pub hashes : List String
  pub urls : List String
  pub emails : List String

pub record Alert (N : Type 0) : Type 0 where
  pub alert_id : String
  pub title : String
  pub description : String
  pub severity : AlertSeverity
  pub occurred_at : String
  pub received_at : String
  pub hostname : String
  pub host_ip : String
  pub agent_id : String
  pub rule_id : String
  pub rule_name : String
  pub category : String
  pub mitre_attack : List String
  pub iocs : AlertIoc
  pub tags : List String
  pub matched : Fields N

-- s < t, on texts.
before : String → String → Bool
before s String.[] = false
before String.[] (String.◌∷◌ d t) = true
before (String.◌∷◌ c s) (String.◌∷◌ d t) =
    let rest = before s t in ltb (code c) (code d) || eqb (code c) (code d) && rest

insert : String → List String → List String
unfolding before
insert t [] = t ∷ []
insert t (u ∷ us) =
    let rest = insert t us in if t == u then u ∷ us else if before t u then t ∷ u ∷ us else u ∷ rest

-- sorted(set(l))
sorted_set : List String → List String
unfolding insert
sorted_set [] = []
sorted_set (t ∷ ts) = insert t (sorted_set ts)

-- parts[-1]
last : List String → String
last [] = ""
last (t ∷ []) = t
last (t ∷ u ∷ ts) = last (u ∷ ts)

-- The kind of indicator of a path's value, if it is one.
data Kind : Type 0 where
  ip domain digest url email : Kind

kind_of : String → String → Option Kind
unfolding last split_dots
kind_of path v =
    let leaf = last (split_dots path) in
    if leaf == "ip" || mem path ("srcip" ∷ "dstip" ∷ [])
    then some ip
    else if leaf == "domain" || contains (codes path) (codes "domain")
    then some domain
    else if mem leaf ("hash" ∷ "sha256" ∷ "md5" ∷ []) || starts_with (codes leaf) (codes "sha")
    then some digest
    else if leaf == "url" || contains (codes path) (codes "url")
    then some url
    else if leaf == "email" || contains (codes v) (codes "@")
    then some email
    else none

same_kind : Kind → Option Kind → Bool
same_kind ip (some ip) = true
same_kind domain (some domain) = true
same_kind digest (some digest) = true
same_kind url (some url) = true
same_kind email (some email) = true
same_kind k o = false

-- "T" and digits.
technique : (String → Bool) → String → Bool
technique isdigit String.[] = false
technique isdigit (String.◌∷◌ c s) = eqb (code c) 84 && isdigit s

module _ {N : Type 0} where
  -- The technique of one tag.
  tag_technique : Runtime N → String → List String
  unfolding technique last split_dots
  tag_technique py t =
      if not (starts_with (codes (py.lower t)) (codes "attack.")) then [] else elim (split_dots t) [
        | a ∷ b ∷ c ∷ [] ↦
            if py.isdigit c
            then (if technique py.isdigit (py.upper b)
                then join (py.upper b) (join "." c) ∷ []
                else [])
            else if technique py.isdigit (py.upper c)
            then py.upper c ∷ []
            else []
        | a ∷ b ∷ [] ↦ if technique py.isdigit (py.upper b) then py.upper b ∷ [] else []
        | a ∷ b ∷ c ∷ d ∷ rest ↦
            let head = py.upper (last (d ∷ rest)) in
            if technique py.isdigit head then head ∷ [] else []
        | _ ↦ []
      ]

  pub extract_mitre : Runtime N → List String → List String
  unfolding tag_technique
  extract_mitre py [] = []
  extract_mitre py (t ∷ tags) = tag_technique py t ++ extract_mitre py tags

  matched_text : String → Fields N → Option String
  matched_text path [] = none
  matched_text path ((k, text t) ∷ fields) = if k == path then some t else matched_text path fields
  matched_text path ((k, v) ∷ fields) = if k == path then none else matched_text path fields

  -- The values of one kind, in the paths' order.
  of_kind : Kind → List String → Fields N → List String
  unfolding matched_text kind_of same_kind
  of_kind k [] matched = []
  of_kind k (path ∷ paths) matched =
      let rest = of_kind k paths matched in
      elim (matched_text path matched) [
        | none ↦ rest
        | some v ↦ if same_kind k (kind_of path v) then v ∷ rest else rest
      ]

  pub ioc_from_event : List String → Fields N → AlertIoc
  unfolding sorted_set of_kind
  ioc_from_event paths matched = record {
    ips = sorted_set (of_kind ip paths matched);
    domains = sorted_set (of_kind domain paths matched);
    hashes = sorted_set (of_kind digest paths matched);
    urls = sorted_set (of_kind url paths matched);
    emails = sorted_set (of_kind email paths matched);
  }

  filled_text : Option (Value N) → Option String
  filled_text (some (text t)) = if t == "" then none else some t
  filled_text _ = none

  -- The first path whose value is a text that is not empty.
  pub first_text : Value N → List String → String
  unfolding filled_text event_get
  first_text event [] = ""
  first_text event (path ∷ paths) =
      get_or (filled_text (event_get event path)) (first_text event paths)

  -- event.get("timestamp") or event.get("ts") or now
  occurred : Runtime N → Entries N → String → String
  unfolding get truthy
  occurred py event now =
      let at : String → Option String = λ k. elim (get k event) [
        | none ↦ none
        | some v ↦ if truthy py v then some (py.str v) else none
      ] in
      get_or (at "timestamp") (get_or (at "ts") now)

  module _ (py : Runtime N) (digest32 : String → String) (now : String) where
    pub build_alert : SigmaRule N → Entries N → String → Option (Alert N)
    unfolding matches first_text occurred extract_mitre ioc_from_event
    build_alert rule event event_id = elim (matches py rule (dict event)) [
      | none ↦ none
      | some matched ↦ some (record {
        alert_id = join "sigma:" (digest32 (join rule.rule_id (join ":" event_id)));
        title = rule.title;
        description = rule.description;
        severity = level_to_severity rule.level;
        occurred_at = occurred py event now;
        received_at = now;
        hostname = first_text (dict event) ("agent.name" ∷ "host.name" ∷ "hostname" ∷ []);
        host_ip = first_text (dict event) ("agent.ip" ∷ "host.ip" ∷ []);
        agent_id = first_text (dict event) ("agent.id" ∷ "agent_id" ∷ []);
        rule_id = rule.rule_id;
        rule_name = rule.title;
        category = rule.category;
        mitre_attack = extract_mitre py rule.tags;
        iocs = ioc_from_event rule.detection_fields matched;
        tags = rule.tags;
        matched = matched;
      })
    ]

    -- Of an alert whose save raises there is none in the list.
    pub run_rules : (Alert N → Bool) → List (SigmaRule N) → Entries N → String → List (Alert N)
    unfolding build_alert
    run_rules saves [] event event_id = []
    run_rules saves (rule ∷ rules) event event_id =
        let rest = run_rules saves rules event event_id in
        elim (build_alert rule event event_id) [
          | none ↦ rest
          | some alert ↦ if saves alert then alert ∷ rest else rest
        ]

  -- The registry, a dict by the rules' identifiers.
  pub add_rule : SigmaRule N → List (SigmaRule N) → List (SigmaRule N)
  add_rule rule [] = rule ∷ []
  add_rule rule (r ∷ rules) =
      if r.rule_id == rule.rule_id then rule ∷ rules else r ∷ add_rule rule rules

  pub remove_rule : String → List (SigmaRule N) → Bool × List (SigmaRule N)
  remove_rule k [] = (false, [])
  remove_rule k (r ∷ rules) =
      let (gone, rest) = remove_rule k rules in
      if r.rule_id == k then (true, rules) else (gone, r ∷ rest)

  pub get_rule : String → List (SigmaRule N) → Option (SigmaRule N)
  get_rule k [] = none
  get_rule k (r ∷ rules) = if r.rule_id == k then some r else get_rule k rules
