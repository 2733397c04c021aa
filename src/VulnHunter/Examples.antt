-- ===== src/VulnHunter/Examples.antt =====
-- A hunt whose first candidate the linter rejects and whose second one works.
use security_agent.Prelude.{
  ℕ, ◌≤◌, ◌<◌, ◌≡◌, true, [], Option, some, String, eqb, ◌==◌, ◌⊎◌, if◌then◌else◌,
}
use security_agent.VulnHunter.{
  Memory, PocOutput, LintResult, ExecutionResult, State, recursion_limit, Hunt, done, raised,
  no_fuel, hunt, start,
}
use security_agent.VulnHunter.Rounds.{hunt-in_limit}

abbrev model : Memory → Option PocOutput
model m = some (record {
  poc_code = if eqb m.iteration_count 1 then "import os" else "import socket";
  updated_constraints = [];
})

abbrev linter : String → LintResult
linter code = record {
  passed = code == "import socket";
  error_detail = "import of os";
  suggestion = "use socket";
}

abbrev box : String → ExecutionResult
box code = record { status = "success"; stderr = ""; is_vulnerable = true }

abbrev state_of : Hunt → State
state_of (done t n) = t
state_of raised = start ""
state_of no_fuel = start ""

hunt-in_limit_example :
    (hunt model linter box 10 (start "nginx") 0 ≡ raised)
    ⊎ ((t : State) × (n : ℕ) × (hunt model linter box 10 (start "nginx") 0 ≡ done t n)
        × (n ≤ 31)
        × (n < recursion_limit))
hunt-in_limit_example = hunt-in_limit model linter box "nginx"
