-- ===== src/Hosts/Down.antt =====
-- The rows of a host that was taken out of service, under the statements of agents/store.py.
use security_agent.Prelude.{
  ℕ, zero, suc, ◌≡◌, ◌≢◌, refl, sym, ◌∙◌, false, List, [], ◌∷◌, some, String, ◌==◌, eq_iff, apart,
  get_or, take, All, Bool-cases, inl, inr, ◌⊎◌,
}
use security_agent.Hosts.{
  decommissioned, Host, Fields, set_fields, update_rows, upsert_row, delete_rows, expired,
  expire_rows, hits,
}

-- Every row of the id is decommissioned.
abbrev pub Down : String → List Host → Type 0
Down a rows = All (λ h. h.agent_id ≡ a → h.status ≡ decommissioned) rows

-- An update of another host, or one that leaves a decommissioned host as it is.
abbrev pub Harmless : String → String → Fields → Type 0
Harmless a b f = (b ≢ a) ⊎ (get_or f.status decommissioned ≡ decommissioned)

set_fields-Down :
    (a b : String) (f : Fields) (now : ℕ) (h : Host)
    → Harmless a b f
    → h.agent_id ≡ b
    → (h.agent_id ≡ a → h.status ≡ decommissioned)
    → h.agent_id ≡ a
    → (set_fields f now h).status ≡ decommissioned
unfolding set_fields
set_fields-Down a b f now h (inl other) is_b down is_a = absurd (other (sym is_b ∙ is_a))
set_fields-Down a b f now h (inr stays) is_b down is_a = rw (down is_a) stays

pub update_rows-Down :
    (a b : String) (f : Fields) (now : ℕ) (rows : List Host)
    → Harmless a b f
    → Down a rows
    → Down a (update_rows b f now rows)
unfolding update_rows set_fields
update_rows-Down a b f now [] harmless down = tt
update_rows-Down a b f now (h ∷ rows) harmless (d, rest) = elim (Bool-cases (h.agent_id == b)) [
  | inl e ↦ rw e (
    set_fields-Down a b f now h harmless ((eq_iff h.agent_id b).0 e) d,
    update_rows-Down a b f now rows harmless rest,
  )
  | inr e ↦ rw e (d, update_rows-Down a b f now rows harmless rest)
]

pub expire_rows-Down :
    (a : String) (timeout now : ℕ) (rows : List Host)
    → Down a rows
    → Down a (expire_rows timeout now rows)
unfolding expire_rows expired
expire_rows-Down a timeout now [] down = tt
expire_rows-Down a timeout now (h ∷ rows) (d, rest) = elim (Bool-cases (expired timeout now h)) [
  | inr e ↦ rw e (d, expire_rows-Down a timeout now rows rest)
  | inl e ↦ rw e (
    (λ is_a. let off : expired timeout now h ≡ false = rw (d is_a) refl in absurd (cc)),
    expire_rows-Down a timeout now rows rest,
  )
]

-- A sweep finds no document of a host that is down.
pub hits-Other :
    (a : String) (timeout now : ℕ) (docs : List Host)
    → Down a docs
    → All (λ b. b ≢ a) (hits timeout now docs)
unfolding hits expired
hits-Other a timeout now [] down = tt
hits-Other a timeout now (h ∷ docs) (d, rest) = elim (Bool-cases (expired timeout now h)) [
  | inr e ↦ rw e (hits-Other a timeout now docs rest)
  | inl e ↦ rw e (
    (λ is_a. let off : expired timeout now h ≡ false = rw (d is_a) refl in absurd (cc)),
    hits-Other a timeout now docs rest,
  )
]

pub take-All : (P : String → Type 0) (n : ℕ) (xs : List String) → All P xs → All P (take n xs)
take-All P zero xs h = tt
take-All P (suc n) [] h = tt
take-All P (suc n) (x ∷ xs) (h, rest) = (h, take-All P n xs rest)

pub upsert_row-Down :
    (a : String) (new : Host) (rows : List Host)
    → new.agent_id ≢ a
    → Down a rows
    → Down a (upsert_row new rows)
unfolding upsert_row
upsert_row-Down a new [] other down = ((λ is_a. absurd (other is_a)), tt)
upsert_row-Down a new (h ∷ rows) other (d, rest) = elim (Bool-cases (h.agent_id == new.agent_id)) [
  | inl e ↦ rw e ((λ is_a. absurd (other is_a)), rest)
  | inr e ↦ rw e (d, upsert_row-Down a new rows other rest)
]

pub delete_rows-Down : (a b : String) (rows : List Host) → Down a rows → Down a (delete_rows b rows)
unfolding delete_rows
delete_rows-Down a b [] down = tt
delete_rows-Down a b (h ∷ rows) (d, rest) = elim (Bool-cases (h.agent_id == b)) [
  | inl e ↦ rw e (delete_rows-Down a b rows rest)
  | inr e ↦ rw e (d, delete_rows-Down a b rows rest)
]

pub update_rows-Down_self :
    (a : String) (f : Fields) (now : ℕ) (rows : List Host)
    → f.status ≡ some decommissioned
    → Down a (update_rows a f now rows)
unfolding update_rows set_fields
update_rows-Down_self a f now [] e = tt
update_rows-Down_self a f now (h ∷ rows) e = elim (Bool-cases (h.agent_id == a)) [
  | inl y ↦ simp (y, e) ((λ is_a. refl), update_rows-Down_self a f now rows e)
  | inr n ↦
      rw n ((λ is_a. absurd (apart h.agent_id a n is_a)), update_rows-Down_self a f now rows e)
]
