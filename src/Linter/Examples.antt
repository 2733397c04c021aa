-- ===== src/Linter/Examples.antt =====
-- A text with an import under another name, and a hunt that finds with it.
use security_agent.Prelude.{
  ◌≡◌, refl, ◌↔◌, ◌⊎◌, inl, inr, true, [], ◌∷◌, Option, some, String, ◌==◌, if◌then◌else◌,
}
use security_agent.VulnHunter.{
  Memory, PocOutput, ExecutionResult, State, Hunt, done, raised, no_fuel, hunt, start,
  generate_poc_node, linter_check_node, sandbox_exec_node, exec_node, check_convergence,
  finalize_node, vulnerable, remember, add_constraints,
}
use security_agent.Linter.{
  Tree, ident, attribute, call, imports, other, nil, cons, check, build_alias_map,
  dangerous_call_check, walk,
}
use security_agent.Linter.Verdict.{Safe, reported, check-IsSafe, hunt-find_Safe}

-- "import socket as s", "s.create_connection()"
abbrev connects : Tree
connects = other (
    cons (imports (record { name = "socket"; asname = some "s" } ∷ []))
      (cons (call (attribute (ident "s") "create_connection") nil) nil))

-- "from json import decoder as d", "import os as d", "d.system(x)"
abbrev escapes : Tree
escapes = other (
    cons (imports (record { name = "os"; asname = some "d" } ∷ []))
      (cons (call (attribute (ident "d") "system") (cons (ident "x") nil)) nil))

abbrev parser : String → Tree ⊎ (String × String)
parser text =
    if text == "connect"
    then inl connects
    else if text == "escape"
    then inl escapes
    else inr ("invalid syntax", "1: ")

passes : (check parser "connect").passed ≡ true
unfolding check
passes = refl

rejects : (check parser "escape").error_type ≡ some "import"
unfolding check
rejects = refl

-- By its alias a dangerous call is told.
told :
    (dangerous_call_check (build_alias_map escapes) (walk escapes)).error_detail
    ≡ "Dangerous call 'os.system' is prohibited in sandbox"
unfolding dangerous_call_check build_alias_map walk
told = refl

check-IsSafe_example :
    ((check parser "connect").passed ≡ true) ↔ ((t : Tree) × (parser "connect" ≡ inl t) × Safe t)
check-IsSafe_example = check-IsSafe parser "connect"

abbrev model : Memory → Option PocOutput
model m = some (record { poc_code = "connect"; updated_constraints = [] })

abbrev box : String → ExecutionResult
box code = record { status = "success"; stderr = ""; is_vulnerable = true }

abbrev state_of : Hunt → State
state_of (done t n) = t
state_of raised = start ""
state_of no_fuel = start ""

abbrev found : State
found = state_of (hunt model (λ text. reported (check parser text)) box 10 (start "nginx") 0)

hunt-find_Safe_example :
    (code : String) × (found.final_poc ≡ some code)
    × ((tree : Tree) × (parser code ≡ inl tree) × Safe tree)
    × ((box code).is_vulnerable ≡ true)
unfolding hunt generate_poc_node linter_check_node sandbox_exec_node exec_node check_convergence
    finalize_node vulnerable remember add_constraints check
hunt-find_Safe_example = hunt-find_Safe model parser box 10 (start "nginx") 0 found 4 refl refl
