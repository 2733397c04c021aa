-- ===== src/Hosts/Swept.antt =====
-- The sweep of agents/store.py that sets hosts offline, and what a host's heartbeats do behind it.
use security_agent.Prelude.{
  ℕ, ◌+◌, ◌*◌, ◌≤◌, ◌≡◌, refl, sym, subst, ap, ◌∙◌, true, false, List, [], ◌∷◌, some, String, ◌==◌,
  eq_iff, ltb, take, All, Bool-cases, inl, inr, arith, if◌then◌else◌,
}
use security_agent.Hosts.{
  HostStatus, online, offline, Host, State, Works, set_fields, update_rows, update_host, too_old,
  expired, expire_rows, hits, set_offline, to_offline, mark_offline_expired, max_hits,
}

-- A host that counts as online has no heartbeat, or one within the limit.
abbrev pub IsCurrent : ℕ → ℕ → Host → Type 0
IsCurrent timeout now h =
    (t : ℕ) → h.status ≡ online → h.last_heartbeat ≡ some t → now ≤ t + (timeout * 2 + 30)

not_expired : (timeout now : ℕ) (h : Host) → expired timeout now h ≡ false → IsCurrent timeout now h
unfolding expired too_old
not_expired timeout now h fresh t is_on beat =
    let late : ltb (t + (timeout * 2 + 30)) now ≡ false = rw (is_on, beat) at fresh in ground arith

expire_rows-Current :
    (timeout now : ℕ) (rows : List Host)
    → All (IsCurrent timeout now) (expire_rows timeout now rows)
unfolding expire_rows
expire_rows-Current timeout now [] = tt
expire_rows-Current timeout now (h ∷ rows) = elim (Bool-cases (expired timeout now h)) [
  | inl e ↦ rw e ((λ t is_on beat. absurd (cc)), expire_rows-Current timeout now rows)
  | inr e ↦ rw e (not_expired timeout now h e, expire_rows-Current timeout now rows)
]

to_offline-Current :
    (timeout now : ℕ) (a : String) (rows : List Host)
    → All (IsCurrent timeout now) rows
    → All (IsCurrent timeout now) (update_rows a to_offline now rows)
unfolding update_rows set_fields
to_offline-Current timeout now a [] h = tt
to_offline-Current timeout now a (r ∷ rows) (h, rest) = elim (Bool-cases (r.agent_id == a)) [
  | inl e ↦ rw e ((λ t is_on beat. absurd (cc)), to_offline-Current timeout now a rows rest)
  | inr e ↦ rw e (h, to_offline-Current timeout now a rows rest)
]

set_offline-Current :
    (w : Works) (timeout now : ℕ) (ids : List String) (s : State)
    → All (IsCurrent timeout now) s.pg
    → All (IsCurrent timeout now) (set_offline w now ids s).pg
unfolding set_offline update_host
set_offline-Current w timeout now [] s h = h
set_offline-Current w timeout now (a ∷ ids) s h =
    set_offline-Current w timeout now ids (update_host w a to_offline now s)
      (elim (Bool-cases w.pg) [
        | inl e ↦ rw e (to_offline-Current timeout now a s.pg h)
        | inr e ↦ rw e h
      ])

-- Where the table answers, then behind a sweep, and also when the index fails, every host that counts as online has
-- no heartbeat yet, or one that is at most twice the interval and 30 seconds old.
pub mark_offline_expired-Current :
    (w : Works) (timeout now : ℕ) (s : State)
    → w.pg ≡ true
    → All (IsCurrent timeout now) (mark_offline_expired w timeout now s).1.pg
unfolding mark_offline_expired
mark_offline_expired-Current w timeout now s works = elim (Bool-cases w.es) [
  | inr e ↦ rw (e, works) (expire_rows-Current timeout now s.pg)
  | inl e ↦
      simp (e, works)
        (set_offline-Current w timeout now (take max_hits (hits timeout now s.es))
          (record s { pg = expire_rows timeout now s.pg }) (expire_rows-Current timeout now s.pg))
]

-- The documents and rows of one id.
abbrev pub AllOf : String → (Host → Type 0) → List Host → Type 0
AllOf a P rows = All (λ h. h.agent_id ≡ a → P h) rows

abbrev pub HasStatus : HostStatus → Host → Type 0
HasStatus st h = h.status ≡ st

to_offline-Offline :
    (a b : String) (now : ℕ) (rows : List Host)
    → AllOf a (HasStatus offline) rows
    → AllOf a (HasStatus offline) (update_rows b to_offline now rows)
unfolding update_rows set_fields
to_offline-Offline a b now [] h = tt
to_offline-Offline a b now (r ∷ rows) (h, rest) = elim (Bool-cases (r.agent_id == b)) [
  | inl e ↦ rw e ((λ same. refl), to_offline-Offline a b now rows rest)
  | inr e ↦ rw e (h, to_offline-Offline a b now rows rest)
]

to_offline-Offline_self :
    (a : String) (now : ℕ) (rows : List Host)
    → AllOf a (HasStatus offline) (update_rows a to_offline now rows)
unfolding update_rows set_fields
to_offline-Offline_self a now [] = tt
to_offline-Offline_self a now (r ∷ rows) = elim (Bool-cases (r.agent_id == a)) [
  | inl e ↦ rw e ((λ same. refl), to_offline-Offline_self a now rows)
  | inr e ↦ rw e (
    (λ same. let eq : (r.agent_id == a) ≡ true = (eq_iff r.agent_id a).1 same in absurd (cc)),
    to_offline-Offline_self a now rows,
  )
]

set_offline-Offline :
    (w : Works) (a : String) (now : ℕ) (ids : List String) (s : State)
    → AllOf a (HasStatus offline) s.pg
    → AllOf a (HasStatus offline) (set_offline w now ids s).pg
unfolding set_offline update_host
set_offline-Offline w a now [] s h = h
set_offline-Offline w a now (b ∷ ids) s h =
    set_offline-Offline w a now ids (update_host w b to_offline now s)
      (elim (Bool-cases w.pg) [ inl e ↦ rw e (to_offline-Offline a b now s.pg h) | inr e ↦ rw e h ])

set_offline-Offline_first :
    (w : Works) (a : String) (now : ℕ) (ids : List String) (s : State)
    → w.pg ≡ true
    → AllOf a (HasStatus offline) (set_offline w now (a ∷ ids) s).pg
unfolding set_offline update_host
set_offline-Offline_first w a now ids s works =
    set_offline-Offline w a now ids (update_host w a to_offline now s)
      (rw works (to_offline-Offline_self a now s.pg))

mark_offline_expired-set_offline :
    (w : Works) (timeout now : ℕ) (s : State)
    → w.es ≡ true
    → (mark_offline_expired w timeout now s).1
      ≡ set_offline w now
          (take max_hits (hits timeout now s.es))
          (record s { pg = if w.pg then expire_rows timeout now s.pg else s.pg })
unfolding mark_offline_expired
mark_offline_expired-set_offline w timeout now s works = simp works refl

hits_first :
    (timeout now t : ℕ) (doc : Host) (docs : List Host)
    → doc.status ≡ online
    → doc.last_heartbeat ≡ some t
    → ltb (t + (timeout * 2 + 30)) now ≡ true
    → hits timeout now (doc ∷ docs) ≡ doc.agent_id ∷ hits timeout now docs
unfolding hits expired too_old
hits_first timeout now t doc docs is_on beat late =
    let old : expired timeout now doc ≡ true = rw (is_on, beat) late in rw old

-- Where both stores answer and the index holds first a host that counts as online with a heartbeat that is too old,
-- a sweep sets every row of that host in the table to offline, whatever its status was there, decommissioned
-- included.
pub mark_offline_expired-overrides :
    (w : Works) (timeout now t : ℕ) (doc : Host) (docs : List Host) (s : State)
    → w.pg ≡ true
    → w.es ≡ true
    → s.es ≡ doc ∷ docs
    → doc.status ≡ online
    → doc.last_heartbeat ≡ some t
    → ltb (t + (timeout * 2 + 30)) now ≡ true
    → AllOf doc.agent_id (HasStatus offline) (mark_offline_expired w timeout now s).1.pg
mark_offline_expired-overrides w timeout now t doc docs s pg_works es_works first is_on beat late =
    let found_first : hits timeout now s.es ≡ doc.agent_id ∷ hits timeout now docs =
      ap (hits timeout now) first ∙ hits_first timeout now t doc docs is_on beat late in
    subst (λ u. AllOf doc.agent_id (HasStatus offline) u.pg)
      (sym (mark_offline_expired-set_offline w timeout now s es_works))
      (subst
        (λ ids.
          AllOf doc.agent_id (HasStatus offline)
            (set_offline w now (take max_hits ids)
              (record s { pg = if w.pg then expire_rows timeout now s.pg else s.pg })).pg)
        (sym found_first)
        (set_offline-Offline_first w doc.agent_id now (take 999 (hits timeout now docs)) _
          pg_works))
