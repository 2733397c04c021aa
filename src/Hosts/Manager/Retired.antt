-- ===== src/Hosts/Manager/Retired.antt =====
-- A host that was taken out of service, under the operations of agents/manager.py and api/routers/agents.py.
use security_agent.Prelude.{
  ℕ, ◌≡◌, ◌≢◌, refl, sym, subst, ap, ◌∙◌, Bool, true, false, List, [], ◌∷◌, Option, none, some,
  String, ◌==◌, get_or, take, All, Bool-cases, inl, inr, if◌then◌else◌,
}
use security_agent.Credentials.Agents.{IsShut, revoke_agent-IsShut}
use security_agent.Hosts.{
  Host, State, Works, Fields, update_rows, update_host, upsert_row, save_host, Lookup, raised,
  missing, found, delete_rows, delete_host, expire_rows, hits, set_offline, to_offline,
  mark_offline_expired, max_hits, is_decommissioned,
}
use security_agent.Hosts.Manager.{
  heartbeat, delete_keys, to_decommissioned, revoke_best_effort, decommission_host, purge_found,
  regroup_found, live_at, decommission_all, decommission_host_by_ip,
}
use security_agent.Hosts.Down.{
  Down, Harmless, update_rows-Down, expire_rows-Down, hits-Other, take-All, upsert_row-Down,
  delete_rows-Down,
}

-- The host is down in both stores, and no token of its own is good.
abbrev pub IsRetired : String → State → Type 0
IsRetired a s = Down a s.pg × Down a s.es × IsShut a s.tokens.agent_tokens

-- One of two lists of rows, whichever the test takes.
pick :
    (a : String) (test : Bool) (xs ys : List Host)
    → Down a xs
    → Down a ys
    → Down a (if test then xs else ys)
pick a true xs ys hx hy = hx
pick a false xs ys hx hy = hy

pub choose :
    (a : String) (test : Bool) (x y : State)
    → IsRetired a x
    → IsRetired a y
    → IsRetired a (if test then x else y)
choose a true x y hx hy = hx
choose a false x y hx hy = hy

pub update_host-Retired :
    (w : Works) (a b : String) (f : Fields) (now : ℕ) (s : State)
    → Harmless a b f
    → IsRetired a s
    → IsRetired a (update_host w b f now s)
unfolding update_host
update_host-Retired w a b f now s harmless (p, e, shut) = (
  pick a w.pg (update_rows b f now s.pg) s.pg (update_rows-Down a b f now s.pg harmless p) p,
  pick a w.es (update_rows b f now s.es) s.es (update_rows-Down a b f now s.es harmless e) e,
  shut,
)

set_offline-Retired :
    (w : Works) (a : String) (now : ℕ) (ids : List String) (s : State)
    → All (λ b. b ≢ a) ids
    → IsRetired a s
    → IsRetired a (set_offline w now ids s)
unfolding set_offline
set_offline-Retired w a now [] s others h = h
set_offline-Retired w a now (b ∷ ids) s (other, rest) h =
    set_offline-Retired w a now ids (update_host w b to_offline now s) rest
      (update_host-Retired w a b to_offline now s (inl other) h)

pub mark_offline_expired-Retired :
    (w : Works) (a : String) (timeout now : ℕ) (s : State)
    → IsRetired a s
    → IsRetired a (mark_offline_expired w timeout now s).1
unfolding mark_offline_expired
mark_offline_expired-Retired w a timeout now s (p, e, shut) =
    let p' =
      pick a w.pg (expire_rows timeout now s.pg) s.pg (expire_rows-Down a timeout now s.pg p) p in
    elim (Bool-cases w.es) [
      | inr no_index ↦ simp no_index (p', e, shut)
      | inl index ↦ simp index (
          set_offline-Retired w a now (take max_hits (hits timeout now s.es))
            (record s { pg = if w.pg then expire_rows timeout now s.pg else s.pg })
            (take-All (λ b. b ≢ a) max_hits (hits timeout now s.es)
              (hits-Other a timeout now s.es e))
            (p', e, shut))
    ]

pub heartbeat-Retired :
    (w : Works) (a b : String) (ts : Option ℕ) (version : Option String) (now : ℕ) (s : State)
    → IsRetired a s
    → IsRetired a (heartbeat w b ts version now s).1
unfolding heartbeat
heartbeat-Retired w a b ts version now s h = elim (Bool-cases w.redis) [
  | inr e ↦ simp e h
  | inl e ↦ simp e (update_host-Retired w a b _ now _ (inr refl) h)
]

revoke_best_effort-Retired :
    (w : Works) (a b : String) (s : State) → IsRetired a s → IsRetired a (revoke_best_effort w b s)
unfolding revoke_best_effort
revoke_best_effort-Retired w a b s (p, e, shut) = elim (Bool-cases w.revokes) [
  | inl y ↦ simp y (p, e, revoke_agent-IsShut a b s.tokens shut)
  | inr n ↦ simp n (p, e, shut)
]

pub decommission_host-Retired :
    (w : Works) (a b : String) (now : ℕ) (s : State)
    → IsRetired a s
    → IsRetired a (decommission_host w b now s).1
unfolding decommission_host delete_keys
decommission_host-Retired w a b now s h =
    let h' = update_host-Retired w a b to_decommissioned now s (inr refl) h in
    elim (Bool-cases w.redis) [
      | inr e ↦ simp e h'
      | inl e ↦ simp e (
          revoke_best_effort-Retired w a b (delete_keys b (update_host w b to_decommissioned now s))
            h')
    ]

delete_host-Retired :
    (w : Works) (a b : String) (s : State) → IsRetired a s → IsRetired a (delete_host w b s)
unfolding delete_host
delete_host-Retired w a b s (p, e, shut) = (
  pick a w.pg (delete_rows b s.pg) s.pg (delete_rows-Down a b s.pg p) p,
  pick a w.es (delete_rows b s.es) s.es (delete_rows-Down a b s.es e) e,
  shut,
)

pub purge_found-Retired :
    (w : Works) (a b : String) (o : Lookup) (s : State)
    → IsRetired a s
    → IsRetired a (purge_found w b o s).1
unfolding purge_found delete_keys
purge_found-Retired w a b raised s h = h
purge_found-Retired w a b missing s h = h
purge_found-Retired w a b (found r) s h = elim (Bool-cases (is_decommissioned r.status)) [
  | inr e ↦ rw e h
  | inl e ↦ elim (Bool-cases w.redis) [
    | inr n ↦ simp (e, n) (delete_host-Retired w a b s h)
    | inl y ↦
        simp (e, y)
          (revoke_best_effort-Retired w a b (delete_keys b (delete_host w b s))
            (delete_host-Retired w a b s h))
  ]
]

pub regroup_found-Retired :
    (w : Works) (a b : String) (group : Option String) (now : ℕ) (o : Lookup) (s : State)
    → IsRetired a s
    → IsRetired a (regroup_found w b group now o s)
unfolding regroup_found
regroup_found-Retired w a b group now raised s h = h
regroup_found-Retired w a b group now missing s h = h
regroup_found-Retired w a b group now (found r) s h = update_host-Retired w a b _ now s (inr refl) h

decommission_all-Retired :
    (w : Works) (a : String) (ids : List String) (now : ℕ) (s : State)
    → IsRetired a s
    → IsRetired a (decommission_all w ids now s)
unfolding decommission_all
decommission_all-Retired w a [] now s h = h
decommission_all-Retired w a (b ∷ ids) now s h =
    let h' = decommission_host-Retired w a b now s h in
    choose a w.redis (decommission_all w ids now (decommission_host w b now s).1)
      (decommission_host w b now s).1
      (decommission_all-Retired w a ids now (decommission_host w b now s).1 h') h'

pub decommission_host_by_ip-Retired :
    (w : Works) (a ip : String) (now : ℕ) (s : State)
    → IsRetired a s
    → IsRetired a (decommission_host_by_ip w ip now s)
unfolding decommission_host_by_ip
decommission_host_by_ip-Retired w a ip now s h = elim (Bool-cases (ip == "")) [
  | inl e ↦ rw e h
  | inr e ↦ elim (Bool-cases w.pg) [
    | inr n ↦ simp (e, n) h
    | inl y ↦ simp (e, y) (decommission_all-Retired w a (live_at ip s.pg) now s h)
  ]
]

pub save_host-Retired :
    (w : Works) (a : String) (new : Host) (s s' : State)
    → new.agent_id ≢ a
    → save_host w new s ≡ some s'
    → IsRetired a s
    → IsRetired a s'
unfolding save_host
save_host-Retired w a new s s' other saved (p, e, shut) =
    let made : State = record s {
      pg = upsert_row new s.pg;
      es = if w.es then upsert_row new s.es else s.es;
    } in
    elim (Bool-cases w.pg) [
      | inr n ↦ let fails : save_host w new s ≡ none = simp n refl in absurd (cc)
      | inl y ↦
          let saves : save_host w new s ≡ some made = simp y refl in
          let same : made ≡ s' = ap (λ o. get_or o s) (sym saves ∙ saved) in
          subst (IsRetired a) same (
            upsert_row-Down a new s.pg other p,
            pick a w.es (upsert_row new s.es) s.es (upsert_row-Down a new s.es other e) e,
            shut,
          )
    ]
