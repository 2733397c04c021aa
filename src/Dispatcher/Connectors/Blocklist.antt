-- ===== src/Dispatcher/Connectors/Blocklist.antt =====
-- What a failed playbook of dispatcher.py leaves in the blocklist.
use security_agent.Prelude.{
  ◌≡◌, refl, sym, subst, ap, ◌∙◌, Bool, true, false, not, ◌&&◌, ◌||◌, List, [], ◌∷◌, ◌++◌, Option,
  none, some, String, ◌==◌, mem, eq_iff, arith, Bool-cases, Option-cases, inl, inr, ◌⊎◌,
}
use mathlib.Core.List.{reverse, reverse-append}
use security_agent.Dispatcher.{
  Op, Status, success, failed, skipped, dry_run, ActionResult, Connector, Redis, State, Outcome,
  goes_on, raises, result_of, is_done, settle, run_connector, undo_one, undo_all, rollback, step,
  execute_playbook,
}
use security_agent.Dispatcher.Undo.{GoesOn, done, more, execute_playbook-raises}
use security_agent.Dispatcher.Connectors.{
  Services, domain_of, include, exclude, block_domain, unblock_domain, dns_block, simulator,
  notify_analyst, siem_tag, simulated, registry,
}

abbrev pub is_success : Status → Bool
is_success success = true
is_success failed = false
is_success skipped = false
is_success dry_run = false

-- The result of an operation that blocked this domain.
abbrev pub blocked_by : String → ActionResult → Bool
blocked_by x r =
    (r.op_type == "dns_block") && (is_success r.status && (not (x == "") && (domain_of r.op == x)))

-- One of the results is.
abbrev pub blocked : String → List ActionResult → Bool
blocked x [] = false
blocked x (r ∷ rs) = blocked_by x r || blocked x rs

mem-include : (x y : String) (w : List String) → mem x (include y w) ≡ ((y == x) || mem x w)
unfolding include
mem-include x y w = elim (Bool-cases (mem y w)) [
  | inr n ↦ rw n (ground arith)
  | inl h ↦ rw h (elim (Bool-cases (y == x)) [
    | inr n ↦ rw n refl
    | inl e ↦ let same : y ≡ x = (eq_iff y x).0 e in rw e (rw same at h)
  ])
]

mem-exclude : (x y : String) (w : List String) → mem x (exclude y w) ≡ (not (y == x) && mem x w)
unfolding exclude
mem-exclude x y [] = ground arith
mem-exclude x y (z ∷ w) = elim (Bool-cases (z == y)) [
  | inl e ↦
      let same : z ≡ y = (eq_iff z y).0 e in rw e (mem-exclude x y w ∙ (rw same (ground arith)))
  | inr n ↦
      rw (n, mem-exclude x y w)
        (elim (Bool-cases (y == x)) [
          | inr m ↦ rw m refl
          | inl m ↦
              let apart : (z == x) ≡ false = ap (λ u. z == u) (sym ((eq_iff y x).0 m)) ∙ n in
              rw (m, apart) refl
        ])
]

module _ (net : Services) where
  rollback_other :
      (k : String) (op : Op) (w : List String)
      → (k == "dns_block") ≡ false
      → elim (registry net k) [ none ↦ w | some c ↦ c.rollback op w ] ≡ w
  unfolding registry
  rollback_other k op w h = ground (arith, h)

  registry_dns : (k : String) → (k == "dns_block") ≡ true → registry net k ≡ some (dns_block net)
  unfolding registry
  registry_dns k h = rw h refl

  mem-unblock_domain :
      (x : String) (op : Op) (w : List String)
      → ((y : String) → net.srem y ≡ true)
      → mem x (unblock_domain net op w) ≡ (not (not (x == "") && (domain_of op == x)) && mem x w)
  unfolding unblock_domain
  mem-unblock_domain x op w works = elim (Bool-cases (domain_of op == "")) [
    | inl e ↦ rw e (elim (Bool-cases (domain_of op == x)) [
      | inr n ↦ rw n (ground arith)
      | inl m ↦
          let bare : (x == "") ≡ true =
            ap (λ u. u == "") (sym ((eq_iff (domain_of op) x).0 m)) ∙ e in
          rw (m, bare) refl
    ])
    | inr n ↦
        rw (n, works (domain_of op), mem-exclude x (domain_of op) w)
          (elim (Bool-cases (domain_of op == x)) [
            | inr o ↦ rw o (ground arith)
            | inl m ↦
                let full : (x == "") ≡ false =
                  ap (λ u. u == "") (sym ((eq_iff (domain_of op) x).0 m)) ∙ n in
                rw (m, full) refl
          ])
  ]

  mem-undo :
      (x i k : String) (st : Status) (op : Op) (w : List String)
      → ((y : String) → net.srem y ≡ true)
      → mem x (undo_one (registry net) (record { op_id = i; op_type = k; status = st; op = op }) w)
        ≡ (not (blocked_by x (record { op_id = i; op_type = k; status = st; op = op })) && mem x w)
  unfolding undo_one
  mem-undo x i k success op w works = elim (Bool-cases (k == "dns_block")) [
    | inl e ↦ rw (e, registry_dns k e, undo_one) (mem-unblock_domain x op w works)
    | inr n ↦ ap (λ v. mem x v) (rollback_other k op w n) ∙ (rw n refl)
  ]
  mem-undo x i k failed op w works = ground arith
  mem-undo x i k skipped op w works = ground arith
  mem-undo x i k dry_run op w works = ground arith

  mem-undo_all :
      (x : String) (rs : List ActionResult) (w : List String)
      → ((y : String) → net.srem y ≡ true)
      → mem x (undo_all (registry net) rs w) ≡ (not (blocked x rs) && mem x w)
  unfolding undo_all
  mem-undo_all x [] w works = refl
  mem-undo_all x (r ∷ rs) w works =
      let first = mem-undo x r.op_id r.op_type r.status r.op w works in
      mem-undo_all x rs (undo_one (registry net) r w) works
      ∙ ap (λ b. not (blocked x rs) && b) first
      ∙ (ground arith)

blocked-append :
    (x : String) (rs qs : List ActionResult) → blocked x (rs ++ qs) ≡ (blocked x rs || blocked x qs)
blocked-append x [] qs = refl
blocked-append x (r ∷ rs) qs = rw (blocked-append x rs qs) (ground arith)

blocked-reverse : (x : String) (rs : List ActionResult) → blocked x (reverse rs) ≡ blocked x rs
blocked-reverse x [] = refl
blocked-reverse x (r ∷ rs) =
    rw (reverse-append (r ∷ []) rs, blocked-append x (reverse rs) (r ∷ []), blocked-reverse x rs)
      (ground arith)

mask_left :
    (a b c d : Bool) → (not a && c) ≡ (not a && d) → (not (a || b) && c) ≡ (not (a || b) && d)
mask_left a b c d h = ground (arith, h)

mask_right :
    (a b c d : Bool) → (not b && c) ≡ (not b && d) → (not (a || b) && c) ≡ (not (a || b) && d)
mask_right a b c d h = ground (arith, h)

module _ {S : Type 0} (net : Services) (redis : Redis S) (op_id : Op → String) where
  -- A connector leaves the blocklist as it was, or it blocked the operation's domain.
  abbrev Leaves : Op → List String → Option (Status × String) → List String → Type 0
  Leaves op w returned w' =
      (w' ≡ w)
      ⊎ ((returned ≡ some (success, "dns_block"))
          × ((domain_of op == "") ≡ false)
          × (w' ≡ include (domain_of op) w))

  block-Leaves :
      (op : Op) (w : List String)
      → ((y : String) → net.expire y ≡ true)
      → Leaves op w (block_domain net op w).0 (block_domain net op w).1
  unfolding block_domain
  block-Leaves op w works = elim (Bool-cases (domain_of op == "")) [
    | inl e ↦ rw e (inl refl)
    | inr n ↦ elim (Bool-cases (net.sadd (domain_of op))) [
      | inl a ↦ rw (n, a, works (domain_of op)) (inr (refl, refl, refl))
      | inr a ↦ rw (n, a) (inl refl)
    ]
  ]

  execute-Leaves :
      (k : String) (c : Connector (List String)) (op : Op) (w : List String)
      → ((y : String) → net.expire y ≡ true)
      → registry net k ≡ some c
      → Leaves op w (c.execute op w).0 (c.execute op w).1
  unfolding registry
  execute-Leaves k c op w works e = elim (Bool-cases (k == "dns_block")) [
    | inl d ↦
        let same : some (dns_block net) ≡ some c = rw (d, registry) at e in
        let is_c : dns_block net ≡ c = cc in
        subst (λ v. Leaves op w (v.execute op w).0 (v.execute op w).1) is_c
          (block-Leaves op w works)
    | inr d ↦ elim (Bool-cases (mem k (simulated net))) [
      | inl m ↦
          let same : some (simulator net) ≡ some c = rw (d, m, registry) at e in
          let is_c : simulator net ≡ c = cc in
          subst (λ v. Leaves op w (v.execute op w).0 (v.execute op w).1) is_c (inl refl)
      | inr m ↦ elim (Bool-cases (mem k ("notify" ∷ "notify_analyst" ∷ []))) [
        | inl n ↦
            let same : some (notify_analyst net) ≡ some c = rw (d, m, n, registry) at e in
            let is_c : notify_analyst net ≡ c = cc in
            subst (λ v. Leaves op w (v.execute op w).0 (v.execute op w).1) is_c (inl refl)
        | inr n ↦ elim (Bool-cases (mem k ("siem_tag" ∷ "tag" ∷ []))) [
          | inl t ↦
              let same : some (siem_tag net) ≡ some c = rw (d, m, n, t, registry) at e in
              let is_c : siem_tag net ≡ c = cc in
              subst (λ v. Leaves op w (v.execute op w).0 (v.execute op w).1) is_c (inl refl)
          | inr t ↦ absurd (cc (rw (d, m, n, t, registry) at e))
        ]
      ]
    ]
  ]

  -- Away from the domains that the result blocked, the blocklist is the same.
  abbrev Same : String → ActionResult → List String → List String → Type 0
  Same x r w w' = (not (blocked_by x r) && mem x w') ≡ (not (blocked_by x r) && mem x w)

  abbrev result : String → Op → ActionResult
  result i op = record { op_id = i; op_type = "dns_block"; status = success; op = op }

  include-Same :
      (x i : String) (op : Op) (w : List String)
      → (domain_of op == "") ≡ false
      → Same x
          (record { op_id = i; op_type = "dns_block"; status = success; op = op })
          w
          (include (domain_of op) w)
  include-Same x i op w full =
      rw (mem-include x (domain_of op) w) (elim (Bool-cases (domain_of op == x)) [
        | inr n ↦ rw n refl
        | inl m ↦
            let named : (x == "") ≡ false =
              ap (λ u. u == "") (sym ((eq_iff (domain_of op) x).0 m)) ∙ full in
            rw (m, named) refl
      ])

  settle-Same :
      (x : String) (op : Op) (s t : State S (List String)) (r : ActionResult)
      (returned : Option (Status × String)) (w : List String)
      → Leaves op s.world returned w
      → settle redis (registry net) op_id false op s returned w ≡ goes_on r t
      → Same x r s.world t.world
  unfolding settle
  settle-Same x op s t r none w h e = cc
  settle-Same x op s t r (some (status, kind)) w h e =
      let is_r : record { op_id = op_id op; op_type = kind; status = status; op = op } ≡ r = cc in
      let is_w : w ≡ t.world = cc in
      subst (λ v. Same x r s.world v) is_w
        (elim h [
          | inl same ↦ ap (λ v. not (blocked_by x r) && mem x v) same
          | inr (what, full, same) ↦
              let st : status ≡ success = cc in
              let k : kind ≡ "dns_block" = cc in
              let named : record {
                op_id = op_id op;
                op_type = "dns_block";
                status = success;
                op = op;
              }
                  ≡ r =
                rw (st, k) at is_r in
              subst (λ q. Same x q s.world w) named
                (subst (λ v. Same x (result (op_id op) op) s.world v) (sym same)
                  (include-Same x (op_id op) op s.world full))
        ])

  step-Same :
      (x : String) (op : Op) (s t : State S (List String)) (r : ActionResult)
      → ((y : String) → net.expire y ≡ true)
      → step redis (registry net) op_id false op s ≡ goes_on r t
      → Same x r s.world t.world
  unfolding step run_connector
  step-Same x op s t r works e =
      elim (Bool-cases (is_done redis (registry net) op_id false (op_id op) s.keys)) [
        | inl d ↦
            let same : ◌≡◌ {A = Outcome S (List String)} (goes_on (result_of op_id op skipped) s)
                (goes_on r t) =
              rw (d, step) at e in
            ap (λ v. not (blocked_by x r) && mem x v.world) (let g : t ≡ s = cc in g)
        | inr d ↦ elim (Option-cases (registry net op.kind)) [
          | inl k ↦
              let same : ◌≡◌ {A = Outcome S (List String)} (goes_on (result_of op_id op skipped) s)
                  (goes_on r t) =
                rw (d, k, step) at e in
              ap (λ v. not (blocked_by x r) && mem x v.world) (let g : t ≡ s = cc in g)
          | inr (c, k) ↦
              settle-Same x op s t r (c.execute op s.world).0 (c.execute op s.world).1
                (execute-Leaves op.kind c op s.world works k) (rw (d, k, step) at e)
        ]
      ]

  settle-raises :
      (op : Op) (s u : State S (List String)) (returned : Option (Status × String))
      (w : List String)
      → Leaves op s.world returned w
      → settle redis (registry net) op_id false op s returned w ≡ raises u
      → u.world ≡ s.world
  unfolding settle
  settle-raises op s u (some (status, kind)) w h e = absurd (cc)
  settle-raises op s u none w h e =
      let is_w : w ≡ u.world = cc in
      elim h [ inl same ↦ sym is_w ∙ same | inr (what, full, same) ↦ absurd (cc) ]

  step-raises :
      (op : Op) (s u : State S (List String))
      → ((y : String) → net.expire y ≡ true)
      → step redis (registry net) op_id false op s ≡ raises u
      → u.world ≡ s.world
  unfolding step run_connector
  step-raises op s u works e =
      elim (Bool-cases (is_done redis (registry net) op_id false (op_id op) s.keys)) [
        | inl d ↦ absurd (cc (rw (d, step) at e))
        | inr d ↦ elim (Option-cases (registry net op.kind)) [
          | inl k ↦ absurd (cc (rw (d, k, step) at e))
          | inr (c, k) ↦
              settle-raises op s u (c.execute op s.world).0 (c.execute op s.world).1
                (execute-Leaves op.kind c op s.world works k) (rw (d, k, step) at e)
        ]
      ]

  GoesOn-Same :
      (x : String) {ops : List Op} {s t : State S (List String)} {rs : List ActionResult}
      → ((y : String) → net.expire y ≡ true)
      → GoesOn redis (registry net) op_id false ops s rs t
      → (not (blocked x rs) && mem x t.world) ≡ (not (blocked x rs) && mem x s.world)
  GoesOn-Same x works done = refl
  GoesOn-Same x works (more {op = op} {s = s} {t = t} {u = u} {r = r} {rs = rs} e g) =
      mask_right (blocked_by x r) (blocked x rs) (mem x u.world) (mem x t.world)
        (GoesOn-Same x works g)
      ∙ mask_left (blocked_by x r) (blocked x rs) (mem x t.world) (mem x s.world)
          (step-Same x op s t r works e)

  -- With the connectors of the dispatcher, where EXPIRE and SREM of Redis work: after a playbook in which a connector
  -- raises, a domain is on the blocklist if and only if it was there at the start and no operation of the playbook
  -- blocked it with success. So what the playbook blocked is released, and nothing else, but also a domain that was
  -- on the list before.
  pub execute_playbook-releases :
      {pre : List Op} {s t : State S (List String)} {rs : List ActionResult} (bad : Op)
      (post : List Op) {u : State S (List String)}
      → ((y : String) → net.expire y ≡ true)
      → ((y : String) → net.srem y ≡ true)
      → GoesOn redis (registry net) op_id false pre s rs t
      → step redis (registry net) op_id false bad t ≡ raises u
      → (x : String)
      → mem x (execute_playbook redis (registry net) op_id false (pre ++ bad ∷ post) s).1.world
        ≡ (not (blocked x rs) && mem x s.world)
  unfolding rollback
  execute_playbook-releases {s = s} {t = t} {rs = rs} bad post {u = u} expires removes g e x =
      let last = result_of op_id bad failed in
      let none_there : blocked x (reverse (rs ++ last ∷ [])) ≡ blocked x rs =
        blocked-reverse x (rs ++ last ∷ []) ∙ blocked-append x rs (last ∷ []) ∙ (ground arith) in
      ap (λ p. mem x p.1.world)
        (execute_playbook-raises redis (registry net) op_id false bad post g e)
      ∙ mem-undo_all net x (reverse (rs ++ last ∷ [])) u.world removes
      ∙ ap (λ b. not b && mem x u.world) none_there
      ∙ ap (λ w. not (blocked x rs) && mem x w) (step-raises bad t u expires e)
      ∙ GoesOn-Same x expires g
