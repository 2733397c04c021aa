-- ===== src/Linter/Verdict.antt =====
-- The verdict of `PoCLinter.check` against what it asks of each node of the tree, and the hunt that runs
-- the linter in front of the sandbox.
use security_agent.Prelude.{
  ℕ, ◌≡◌, refl, ◌↔◌, ◌⊎◌, inl, inr, true, false, List, [], ◌∷◌, Option, none, some, String, All,
  Bool-cases, Option-cases, Sum-cases, get_or, ◌==◌, eq_iff,
}
use security_agent.Linter.{
  Alias, Tree, ident, attribute, call, imports, imports_from, other, walk, allowed, dangerous, top,
  AliasMap, build_alias_map, call_name, first_foreign, foreign_module, import_check, resolve_alias,
  danger, dangerous_call_check, check, LinterResult,
}
use security_agent.VulnHunter.{Memory, PocOutput, LintResult, ExecutionResult, State, hunt, done}
use security_agent.VulnHunter.Rounds.{hunt-find}
use security_agent.Linter.Walk.{Everywhere, walk→Everywhere, Everywhere→walk}

-- What the linter asks of an import.
abbrev pub Imports : Tree → Type 0
Imports (imports names) = All (λ a. allowed (top a.name) ≡ true) names
Imports (imports_from m names) = (top (get_or m "") ≡ "") ⊎ (allowed (top (get_or m "")) ≡ true)
Imports _ = Unit

-- What it asks of a call, under the names of the file's imports.
abbrev pub Calls : AliasMap → Tree → Type 0
Calls aliases (call f args) =
    (dangerous (call_name f) ≡ false) × (dangerous (resolve_alias aliases (call_name f)) ≡ false)
Calls aliases _ = Unit

first_foreign_lem :
    (names : List Alias)
    → (first_foreign names ≡ none) ↔ All (λ a. allowed (top a.name) ≡ true) names
unfolding first_foreign
first_foreign_lem [] = (λ h. tt, λ h. refl)
first_foreign_lem (a ∷ names) = elim (Bool-cases (allowed (top a.name))) [
  | inl e ↦ (
    λ h. (e, (first_foreign_lem names).0 (rw e at h)),
    λ h. rw e ((first_foreign_lem names).1 h.1),
  )
  | inr e ↦ (λ h. absurd (cc (rw e at h)), λ h. absurd (cc (h.0, e)))
]

foreign_module_lem :
    (m : Option String)
    → (foreign_module m ≡ false) ↔ ((top (get_or m "") ≡ "") ⊎ (allowed (top (get_or m "")) ≡ true))
unfolding foreign_module
foreign_module_lem m = elim (Bool-cases (top (get_or m "") == "")) [
  | inl e ↦ (λ h. inl ((eq_iff (top (get_or m "")) "").0 e), λ h. rw e refl)
  | inr e ↦ elim (Bool-cases (allowed (top (get_or m "")))) [
    | inl a ↦ (λ h. inr a, λ h. rw (e, a) refl)
    | inr a ↦ (
      λ h. absurd (cc (rw (e, a) at h)),
      λ h. elim h [
        | inl b ↦
            let test : (top (get_or m "") == "") ≡ true = (eq_iff (top (get_or m "")) "").1 b in
            absurd (cc)
        | inr b ↦ absurd (cc)
      ],
    )
  ]
]

import_check_lem : (nodes : List Tree) → ((import_check nodes).passed ≡ true) ↔ All Imports nodes
unfolding import_check
import_check_lem [] = (λ h. tt, λ h. refl)
import_check_lem (imports names ∷ nodes) = elim (Option-cases (first_foreign names)) [
  | inl e ↦ (
    λ h. ((first_foreign_lem names).0 e, (import_check_lem nodes).0 (rw (e, import_check) at h)),
    λ h. rw (e, import_check) ((import_check_lem nodes).1 h.1),
  )
  | inr (n, e) ↦ (
    λ h. absurd (cc (rw (e, import_check) at h)),
    λ h.
        let none_foreign : first_foreign names ≡ none = (first_foreign_lem names).1 h.0 in
        absurd (cc),
  )
]
import_check_lem (imports_from m names ∷ nodes) = elim (Bool-cases (foreign_module m)) [
  | inl e ↦ (
    λ h. absurd (cc (rw e at h)),
    λ h. let own : foreign_module m ≡ false = (foreign_module_lem m).1 h.0 in absurd (cc),
  )
  | inr e ↦ (
    λ h. ((foreign_module_lem m).0 e, (import_check_lem nodes).0 (rw e at h)),
    λ h. rw e ((import_check_lem nodes).1 h.1),
  )
]
import_check_lem (ident x ∷ nodes) =
    (λ h. (tt, (import_check_lem nodes).0 h), λ h. (import_check_lem nodes).1 h.1)
import_check_lem (attribute t a ∷ nodes) =
    (λ h. (tt, (import_check_lem nodes).0 h), λ h. (import_check_lem nodes).1 h.1)
import_check_lem (call f args ∷ nodes) =
    (λ h. (tt, (import_check_lem nodes).0 h), λ h. (import_check_lem nodes).1 h.1)
import_check_lem (other ts ∷ nodes) =
    (λ h. (tt, (import_check_lem nodes).0 h), λ h. (import_check_lem nodes).1 h.1)

danger_lem :
    (aliases : AliasMap) (f : Tree)
    → (danger aliases f ≡ none) ↔ (
        (dangerous (call_name f) ≡ false)
        × (dangerous (resolve_alias aliases (call_name f)) ≡ false))
unfolding danger
danger_lem aliases f = elim (Bool-cases (dangerous (resolve_alias aliases (call_name f)))) [
  | inl e ↦ (λ h. absurd (cc (rw e at h)), λ h. absurd (cc (h.1, e)))
  | inr e ↦ elim (Bool-cases (dangerous (call_name f))) [
    | inl d ↦ (λ h. absurd (cc (rw (e, d) at h)), λ h. absurd (cc (h.0, d)))
    | inr d ↦ (λ h. (d, e), λ h. rw (e, d) refl)
  ]
]

dangerous_call_check_lem :
    (aliases : AliasMap) (nodes : List Tree)
    → ((dangerous_call_check aliases nodes).passed ≡ true) ↔ All (Calls aliases) nodes
unfolding dangerous_call_check
dangerous_call_check_lem aliases [] = (λ h. tt, λ h. refl)
dangerous_call_check_lem aliases (call f args ∷ nodes) = elim (Option-cases (danger aliases f)) [
  | inl e ↦ (
    λ h. (
      (danger_lem aliases f).0 e,
      (dangerous_call_check_lem aliases nodes).0 (rw (e, dangerous_call_check) at h),
    ),
    λ h. rw (e, dangerous_call_check) ((dangerous_call_check_lem aliases nodes).1 h.1),
  )
  | inr (n, e) ↦ (
    λ h. absurd (cc (rw (e, dangerous_call_check) at h)),
    λ h. let harmless : danger aliases f ≡ none = (danger_lem aliases f).1 h.0 in absurd (cc),
  )
]
dangerous_call_check_lem aliases (ident x ∷ nodes) = (
  λ h. (tt, (dangerous_call_check_lem aliases nodes).0 h),
  λ h. (dangerous_call_check_lem aliases nodes).1 h.1,
)
dangerous_call_check_lem aliases (attribute t a ∷ nodes) = (
  λ h. (tt, (dangerous_call_check_lem aliases nodes).0 h),
  λ h. (dangerous_call_check_lem aliases nodes).1 h.1,
)
dangerous_call_check_lem aliases (imports names ∷ nodes) = (
  λ h. (tt, (dangerous_call_check_lem aliases nodes).0 h),
  λ h. (dangerous_call_check_lem aliases nodes).1 h.1,
)
dangerous_call_check_lem aliases (imports_from m names ∷ nodes) = (
  λ h. (tt, (dangerous_call_check_lem aliases nodes).0 h),
  λ h. (dangerous_call_check_lem aliases nodes).1 h.1,
)
dangerous_call_check_lem aliases (other ts ∷ nodes) = (
  λ h. (tt, (dangerous_call_check_lem aliases nodes).0 h),
  λ h. (dangerous_call_check_lem aliases nodes).1 h.1,
)

-- What the linter asks of a whole tree.
abbrev pub Safe : Tree → Type 0
Safe t = Everywhere Imports t × Everywhere (Calls (build_alias_map t)) t

module _ (parse : String → Tree ⊎ (String × String)) (text : String) where
  sound : (check parse text).passed ≡ true → (t : Tree) × (parse text ≡ inl t) × Safe t
  unfolding check
  sound h = elim (Sum-cases (parse text)) [
    | inr (message, e) ↦ absurd (cc (rw (e, check) at h))
    | inl (t, e) ↦ elim (Bool-cases (import_check (walk t)).passed) [
      | inl i ↦
          let calls : (dangerous_call_check (build_alias_map t) (walk t)).passed ≡ true =
            rw (e, check, i) at h in
          (
            t,
            e,
            (
              walk→Everywhere Imports t ((import_check_lem (walk t)).0 i),
              walk→Everywhere (Calls (build_alias_map t)) t
                  ((dangerous_call_check_lem (build_alias_map t) (walk t)).0 calls),
            ),
          )
      | inr i ↦ absurd (cc (rw (e, check, i) at h))
    ]
  ]

  complete : ((t : Tree) × (parse text ≡ inl t) × Safe t) → (check parse text).passed ≡ true
  unfolding check
  complete (t, e, (i, c)) =
      let imported : (import_check (walk t)).passed ≡ true =
        (import_check_lem (walk t)).1 (Everywhere→walk Imports t i) in
      rw (e, check, imported)
        ((dangerous_call_check_lem (build_alias_map t) (walk t)).1
          (Everywhere→walk (Calls (build_alias_map t)) t c))

-- The linter passes a text if and only if the text parses, every import anywhere in its tree is of an allowed
-- module, and no call anywhere in it is dangerous, by its name as written or with the name's first part
-- replaced by the module that the file's imports bind to it.
pub check-IsSafe :
    (parse : String → Tree ⊎ (String × String)) (text : String)
    → ((check parse text).passed ≡ true) ↔ ((t : Tree) × (parse text ≡ inl t) × Safe t)
check-IsSafe parse text = (sound parse text, complete parse text)

-- The verdict as the hunt's `linter_check_node` reads it.
abbrev pub reported : LinterResult → LintResult
reported r = record { passed = r.passed; error_detail = r.error_detail; suggestion = r.suggestion }

-- If a hunt with this linter reports a vulnerability, its proof of concept parses into a tree whose imports are
-- all of allowed modules and whose calls are all not dangerous, and its run in the sandbox found the
-- vulnerability.
pub hunt-find_Safe :
    (chat : Memory → Option PocOutput) (parse : String → Tree ⊎ (String × String))
    (sandbox : String → ExecutionResult) (f : ℕ) (s : State) (nodes : ℕ) (t : State) (n : ℕ)
    → hunt chat (λ text. reported (check parse text)) sandbox f s nodes ≡ done t n
    → t.is_vulnerable ≡ true
    → (code : String) × (t.final_poc ≡ some code)
      × ((tree : Tree) × (parse code ≡ inl tree) × Safe tree)
      × ((sandbox code).is_vulnerable ≡ true)
hunt-find_Safe chat parse sandbox f s nodes t n h v =
    let (code, poc, passed, works) =
      hunt-find chat (λ text. reported (check parse text)) sandbox f s nodes t n h v in
    (code, poc, sound parse code passed, works)
