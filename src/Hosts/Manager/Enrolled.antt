-- ===== src/Hosts/Manager/Enrolled.antt =====
-- The enrolment of a host in api/routers/agents.py: the hosts at the request's address, and the new host's token.
use security_agent.Prelude.{
  ℕ, ◌≡◌, ◌≢◌, refl, sym, subst, true, false, not, ◌&&◌, List, [], ◌∷◌, Option, none, some, String,
  ◌==◌, eq_iff, apart, arith, All, All-map, Bool-cases, inl, inr, ◌⊎◌,
}
use security_agent.Credentials.{validate_agent_token, validate_enroll_token, register_enroll_token}
use security_agent.Credentials.Agents.{validate-register_own}
use security_agent.Hosts.{
  HostStatus, decommissioned, Host, State, Works, is_decommissioned, set_fields, update_rows,
  update_host, upsert_row, save_host,
}
use security_agent.Hosts.Manager.{
  delete_keys, to_decommissioned, revoke_best_effort, decommission_host, live_at, decommission_all,
  decommission_host_by_ip, server_ip, Enrolment, enrolled, new_host, register, settle, enroll_from,
  enroll_valid, enroll_host, authenticate,
}

abbrev In : String → List String → Type 0
In a [] = ⊥
In a (b ∷ ids) = (a ≡ b) ⊎ In a ids

-- At the address only decommissioned hosts, and those that still wait.
abbrev Waits : String → List String → Host → Type 0
Waits ip ids h = h.ip ≡ ip → (h.status ≡ decommissioned) ⊎ In h.agent_id ids

weaken : (ip a : String) (ids : List String) (h : Host) → Waits ip ids h → Waits ip (a ∷ ids) h
weaken ip a ids h waits here = elim (waits here) [
  | inl gone ↦ inl gone
  | inr listed ↦ inr (inr listed)
]

is_decommissioned_sound : (st : HostStatus) → is_decommissioned st ≡ true → st ≡ decommissioned
is_decommissioned_sound st h = ground arith

live_at-Waits : (ip : String) (rows : List Host) → All (Waits ip (live_at ip rows)) rows
unfolding live_at
live_at-Waits ip [] = tt
live_at-Waits ip (h ∷ rows) =
    let rest = live_at-Waits ip rows in
    elim (Bool-cases ((h.ip == ip) && not (is_decommissioned h.status))) [
      | inl e ↦
          let listed : live_at ip (h ∷ rows) ≡ h.agent_id ∷ live_at ip rows = rw e refl in
          subst (λ ids. All (Waits ip ids) (h ∷ rows)) (sym listed)
            (
              (λ here. inr (inl refl)),
              All-map (Waits ip (live_at ip rows)) (Waits ip (h.agent_id ∷ live_at ip rows)) rows
                  (λ x waits. weaken ip h.agent_id (live_at ip rows) x waits) rest,
            )
      | inr e ↦
          let skipped : live_at ip (h ∷ rows) ≡ live_at ip rows = rw e refl in
          subst (λ ids. All (Waits ip ids) (h ∷ rows)) (sym skipped)
            (
              (λ here. inl (
                  is_decommissioned_sound h.status
                    (let at_ip : (h.ip == ip) ≡ true = (eq_iff h.ip ip).1 here in ground arith))),
              rest,
            )
    ]

update_rows-Waits :
    (ip a : String) (ids : List String) (now : ℕ) (rows : List Host)
    → All (Waits ip (a ∷ ids)) rows
    → All (Waits ip ids) (update_rows a to_decommissioned now rows)
unfolding update_rows set_fields
update_rows-Waits ip a ids now [] h = tt
update_rows-Waits ip a ids now (r ∷ rows) (h, rest) = elim (Bool-cases (r.agent_id == a)) [
  | inl e ↦ rw e ((λ here. inl refl), update_rows-Waits ip a ids now rows rest)
  | inr e ↦ rw e (
    (λ here. elim (h here) [
      | inl gone ↦ inl gone
      | inr (inl same) ↦ absurd (apart r.agent_id a e same)
      | inr (inr listed) ↦ inr listed
    ]),
    update_rows-Waits ip a ids now rows rest,
  )
]

pg-decommission_host :
    (w : Works) (a : String) (now : ℕ) (s : State)
    → w.pg ≡ true
    → (decommission_host w a now s).1.pg ≡ update_rows a to_decommissioned now s.pg
unfolding decommission_host revoke_best_effort delete_keys update_host
pg-decommission_host w a now s pg = elim (Bool-cases w.redis) [
  | inr n ↦ simp (n, pg) refl
  | inl y ↦ elim (Bool-cases w.revokes) [
    | inl r ↦ simp (y, r, pg) refl
    | inr r ↦ simp (y, r, pg) refl
  ]
]

decommission_all-Waits :
    (w : Works) (ip : String) (ids : List String) (now : ℕ) (s : State)
    → w.pg ≡ true
    → w.redis ≡ true
    → All (Waits ip ids) s.pg
    → All (Waits ip []) (decommission_all w ids now s).pg
unfolding decommission_all
decommission_all-Waits w ip [] now s pg redis h = h
decommission_all-Waits w ip (a ∷ ids) now s pg redis h =
    let s' = (decommission_host w a now s).1 in
    let all : decommission_all w (a ∷ ids) now s ≡ decommission_all w ids now s' =
      simp redis refl in
    subst (λ u. All (Waits ip []) u.pg) (sym all)
      (decommission_all-Waits w ip ids now s' pg redis (
        subst (All (Waits ip ids)) (sym (pg-decommission_host w a now s pg))
          (update_rows-Waits ip a ids now s.pg h)))

by_ip-Waits :
    (w : Works) (ip : String) (now : ℕ) (s : State)
    → w.pg ≡ true
    → w.redis ≡ true
    → (ip == "") ≡ false
    → All (Waits ip []) (decommission_host_by_ip w ip now s).pg
unfolding decommission_host_by_ip
by_ip-Waits w ip now s pg redis named =
    let all : decommission_host_by_ip w ip now s ≡ decommission_all w (live_at ip s.pg) now s =
      simp (named, pg) refl in
    subst (λ u. All (Waits ip []) u.pg) (sym all)
      (decommission_all-Waits w ip (live_at ip s.pg) now s pg redis (live_at-Waits ip s.pg))

-- No other host than this one is in service at the address.
abbrev pub Alone : String → String → List Host → Type 0
Alone a ip rows = All (λ h. h.agent_id ≢ a → h.ip ≡ ip → h.status ≡ decommissioned) rows

only : (x : Host) → (x.status ≡ decommissioned) ⊎ ⊥ → x.status ≡ decommissioned
only x (inl gone) = gone
only x (inr listed) = absurd listed

upsert_row-Alone :
    (ip : String) (new : Host) (rows : List Host)
    → All (Waits ip []) rows
    → Alone new.agent_id ip (upsert_row new rows)
unfolding upsert_row
upsert_row-Alone ip new [] h = ((λ other here. absurd (other refl)), tt)
upsert_row-Alone ip new (r ∷ rows) (h, rest) = elim (Bool-cases (r.agent_id == new.agent_id)) [
  | inl e ↦ rw e (
    (λ other here. absurd (other refl)),
    All-map (Waits ip []) _ rows (λ x waits other here. only x (waits here)) rest,
  )
  | inr e ↦ rw e ((λ other here. only r (h here)), upsert_row-Alone ip new rows rest)
]

-- What an enrolment promises that goes through.
abbrev pub Replaces : (String → String) → String → String → String → Enrolment × State → Type 0
Replaces hash a agent_token addr (e, s) =
    e ≡ enrolled → Alone a addr s.pg × (authenticate hash a agent_token s ≡ true)

module _ (hash : String → String) (w : Works) (a agent_token ip addr : String) (now : ℕ)
    (pg : w.pg ≡ true) (redis : w.redis ≡ true) (at_addr : (addr == "") ≡ false)
    (named : (a == "") ≡ false) (given : (agent_token == "") ≡ false) where
  saved-Replaces :
      (group : String) (s : State)
      → All (Waits addr []) s.pg
      → Replaces hash a agent_token addr
          (settle (register hash a agent_token (save_host w (new_host a ip group now) s)) s)
  unfolding authenticate save_host
  saved-Replaces group s waits =
      let own : validate_agent_token hash a agent_token
            (register_enroll_token hash a agent_token s.tokens)
          ≡ true =
        validate-register_own hash a agent_token s.tokens in
      simp (pg, named, given, own)
        λ went. (upsert_row-Alone addr (new_host a ip group now) s.pg waits, refl)

  valid-Replaces :
      (valid : Option String) (s : State)
      → Replaces hash a agent_token addr
          (enroll_valid hash w a agent_token ip now (some addr) valid s)
  unfolding enroll_valid enroll_from
  valid-Replaces none s went = absurd (cc)
  valid-Replaces (some group) s went =
      saved-Replaces group (decommission_host_by_ip w addr now s)
        (by_ip-Waits w addr now s pg redis at_addr) went

-- Where the table and Redis answer, an enrolment that goes through from an address leaves no other host in service at
-- that address in the table, and the gateway accepts the new host with its new token. The address is the first of
-- the request's x-forwarded-for, where it has one.
pub enroll_host-Replaces :
    (hash : String → String) (w : Works) (token a agent_token : String)
    (first client : Option String) (ip addr : String) (now : ℕ) (s : State)
    → w.pg ≡ true
    → w.redis ≡ true
    → server_ip first client ≡ some addr
    → (addr == "") ≡ false
    → (a == "") ≡ false
    → (agent_token == "") ≡ false
    → (enroll_host hash w token a agent_token first client ip now s).0 ≡ enrolled
    → Alone a addr (enroll_host hash w token a agent_token first client ip now s).1.pg
      × (authenticate hash a agent_token
            (enroll_host hash w token a agent_token first client ip now s).1
          ≡ true)
unfolding enroll_host
enroll_host-Replaces hash w token a agent_token first client ip addr now s pg redis from at_addr
      named given =
    rw from (
      valid-Replaces hash w a agent_token ip addr now pg redis at_addr named given
        (validate_enroll_token token now s.tokens).0
        (record s { tokens = (validate_enroll_token token now s.tokens).1 }))
