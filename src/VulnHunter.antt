-- ===== src/VulnHunter.antt =====
-- orchestration/subgraphs/vuln_hunter: memory.py, the nodes of poc_generator.py and the loop of graph.py. The model, the
-- linter and the sandbox are parameters; the model's call may raise, which is `none`. An evidence text
-- is its round and what follows it. The prompt and the text of "exploit_chain" are left out.
pub mod Rounds
mod Examples
use security_agent.Prelude.{
  ℕ, zero, suc, ◌+◌, Bool, true, false, ◌&&◌, ◌||◌, not, List, [], ◌∷◌, ◌++◌, Option, none, some,
  String, leb, eqb, mem, join, ◌==◌, if◌then◌else◌,
}

pub record Evidence : Type 0 where
  pub round : ℕ
  pub what : String

pub record Memory : Type 0 where
  pub target_info : String
  pub negative_evidence : List Evidence
  pub constraints : List String
  pub poc_candidates : List String
  pub iteration_count : ℕ
  pub final_poc : Option String

pub record PocOutput : Type 0 where
  pub poc_code : String
  pub updated_constraints : List String

pub record LintResult : Type 0 where
  pub passed : Bool
  pub error_detail : String
  pub suggestion : String

-- `ExecutionResult`, with the first hundred characters of its stderr.
pub record ExecutionResult : Type 0 where
  pub status : String
  pub stderr : String
  pub is_vulnerable : Bool

-- `last_exec_result`
pub data LastExec : Type 0 where
  nothing linter_pass : LastExec
  linter_fail : String → LastExec
  ran : ExecutionResult → LastExec

pub record State : Type 0 where
  pub memory : Memory
  pub current_poc : String
  pub last_exec_result : LastExec
  pub final_poc : Option String
  pub is_vulnerable : Bool

-- MAX_ITERATIONS, and the recursion limit that the main graph sets for the subgraph.
abbrev pub max_iterations : ℕ
max_iterations = 10

abbrev pub recursion_limit : ℕ
recursion_limit = 35

pub add_constraint : String → Memory → Memory
add_constraint c m =
    if mem c m.constraints then m else record m { constraints = m.constraints ++ c ∷ [] }

unfoldable pub add_constraints : List String → Memory → Memory
unfolding add_constraint
add_constraints [] m = m
add_constraints (c ∷ cs) m = add_constraints cs (add_constraint c m)

mem_evidence : Evidence → List Evidence → Bool
mem_evidence e [] = false
mem_evidence e (d ∷ es) = eqb d.round e.round && (d.what == e.what) || mem_evidence e es

pub add_negative_evidence : Evidence → Memory → Memory
unfolding mem_evidence
add_negative_evidence e m =
    if mem_evidence e m.negative_evidence
    then m
    else record m { negative_evidence = m.negative_evidence ++ e ∷ [] }

abbrev pub increment_iteration : Memory → Memory
increment_iteration m = record m { iteration_count = 1 + m.iteration_count }

-- The memory behind an answer of the model.
unfoldable pub remember : PocOutput → Memory → Memory
unfolding add_constraints
remember output m =
    let m' = add_constraints output.updated_constraints m in
    record m' { poc_candidates = m'.poc_candidates ++ output.poc_code ∷ [] }

-- `if lint_result.suggestion: memory.add_constraint(…)`
suggest : String → Memory → Memory
unfolding add_constraint
suggest suggestion m = if suggestion == "" then m else add_constraint suggestion m

pub data Route : Type 0 where
  finalize generate_poc : Route

unfoldable pub vulnerable : LastExec → Bool
vulnerable (ran r) = r.is_vulnerable
vulnerable _ = false

unfoldable pub check_convergence : State → Route
unfolding vulnerable
check_convergence s =
    if vulnerable s.last_exec_result
    then finalize
    else if leb max_iterations s.memory.iteration_count
    then finalize
    else generate_poc

unfoldable pub finalize_node : State → State
unfolding vulnerable
finalize_node s =
    if vulnerable s.last_exec_result
    then record s {
      memory = record s.memory { final_poc = some s.current_poc };
      final_poc = some s.current_poc;
      is_vulnerable = true;
    }
    else record s { final_poc = none; is_vulnerable = false }

-- A hunt that ended, with the number of its nodes, or one that an exception of the model ended.
pub data Hunt : Type 0 where
  done : State → ℕ → Hunt
  raised no_fuel : Hunt

module _ (chat : Memory → Option PocOutput) (lint : String → LintResult)
    (sandbox : String → ExecutionResult) where
  unfoldable pub generate_poc_node : State → Option State
  unfolding remember
  generate_poc_node s =
      let m = increment_iteration s.memory in
      elim (chat m) [
        | none ↦ none
        | some output ↦
            some (record s { current_poc = output.poc_code; memory = remember output m })
      ]

  unfoldable pub linter_check_node : State → State
  unfolding add_negative_evidence suggest
  linter_check_node s =
      let result = lint s.current_poc in
      if result.passed then record s { last_exec_result = linter_pass } else record s {
        memory = suggest result.suggestion (
            add_negative_evidence
              (record {
                round = s.memory.iteration_count;
                what = join "Linter rejected — " result.error_detail;
              })
              s.memory);
        last_exec_result = linter_fail result.error_detail;
      }

  unfoldable pub exec_node : State → State
  unfolding add_negative_evidence
  exec_node s =
      let result = sandbox s.current_poc in
      record s {
        last_exec_result = ran result;
        memory =
            if result.is_vulnerable
            then s.memory
            else add_negative_evidence
                (record {
                  round = s.memory.iteration_count;
                  what = join (join "Sandbox " result.status) (join " — " result.stderr);
                })
                s.memory;
      }

  unfoldable pub sandbox_exec_node : State → State
  unfolding exec_node
  sandbox_exec_node s = elim s.last_exec_result [ linter_fail detail ↦ s | _ ↦ exec_node s ]

  -- The subgraph from `generate_poc` on, with the nodes so far, on fuel.
  unfoldable pub hunt : ℕ → State → ℕ → Hunt
  unfolding generate_poc_node linter_check_node sandbox_exec_node check_convergence finalize_node
  hunt zero s nodes = no_fuel
  hunt (suc f) s nodes = elim (generate_poc_node s) [
    | none ↦ raised
    | some s1 ↦
        let s3 = sandbox_exec_node (linter_check_node s1) in
        elim (check_convergence s3) [
          | finalize ↦ done (finalize_node s3) (4 + nodes)
          | generate_poc ↦ hunt f s3 (3 + nodes)
        ]
  ]

abbrev pub start : String → State
start target = record {
  memory = record {
    target_info = target;
    negative_evidence = [];
    constraints = [];
    poc_candidates = [];
    iteration_count = 0;
    final_poc = none;
  };
  current_poc = "";
  last_exec_result = nothing;
  final_poc = none;
  is_vulnerable = false;
}
