-- ===== src/Linter.antt =====
-- execution/linter/poc_linter.py. The parser of Python is a parameter: it gives a syntax tree, or the message and the
-- place of a syntax error. Of a tree's nodes those are told apart that the checks look at, all others are
-- `other`, with their children. Line numbers are left out.
pub mod Walk
pub mod Verdict
mod Examples
use Prim.Native.Char.{code}
use security_agent.Prelude.{
  ℕ, zero, suc, ◌+◌, Bool, true, false, ◌&&◌, ◌||◌, not, List, [], ◌∷◌, ◌++◌, Option, none, some,
  String, ◌⊎◌, inl, inr, eqb, mem, join, get_or, ◌==◌, if◌then◌else◌,
}

-- `import name as asname`
pub record Alias : Type 0 where
  pub name : String
  pub asname : Option String

mutual
  pub data Tree : Type 0 where
    ident : String → Tree
    attribute : Tree → String → Tree
    call : Tree → Trees → Tree
    imports : List Alias → Tree
    imports_from : Option String → List Alias → Tree
    other : Trees → Tree

  pub data Trees : Type 0 where
    nil : Trees
    cons : Tree → Trees → Trees

abbrev pub trees : Trees → List Tree
trees nil = []
trees (cons t ts) = t ∷ trees ts

-- `ast.iter_child_nodes`
abbrev pub children : Tree → List Tree
children (ident x) = []
children (attribute t a) = t ∷ []
children (call f args) = f ∷ trees args
children (imports names) = []
children (imports_from m names) = []
children (other ts) = trees ts

mutual
  pub size : Tree → ℕ
  size (ident x) = 1
  size (attribute t a) = 1 + size t
  size (call f args) = 1 + (size f + size_trees args)
  size (imports names) = 1
  size (imports_from m names) = 1
  size (other ts) = 1 + size_trees ts

  pub size_trees : Trees → ℕ
  size_trees nil = 0
  size_trees (cons t ts) = size t + size_trees ts

-- `ast.walk`: the nodes by levels, from a queue, on fuel.
pub walk_queue : ℕ → List Tree → List Tree
walk_queue zero queue = []
walk_queue (suc f) [] = []
walk_queue (suc f) (t ∷ queue) = t ∷ walk_queue f (queue ++ children t)

pub walk : Tree → List Tree
unfolding walk_queue size
walk t = walk_queue (size t) (t ∷ [])

abbrev pub allowed_imports : List String
allowed_imports =
    "requests" ∷ "json" ∷ "re" ∷ "time" ∷ "sys" ∷ "struct" ∷ "hashlib" ∷ "base64" ∷ "urllib"
    ∷ "http" ∷ "ssl" ∷ "threading" ∷ "itertools" ∷ "functools" ∷ "string" ∷ "collections" ∷ "math"
    ∷ "random" ∷ "binascii" ∷ "hmac" ∷ "socket" ∷ []

abbrev pub dangerous_calls : List String
dangerous_calls =
    "os.system" ∷ "os.popen" ∷ "os.execv" ∷ "os.execvp" ∷ "subprocess.run" ∷ "subprocess.Popen"
    ∷ "subprocess.call" ∷ "subprocess.check_output" ∷ "eval" ∷ "exec" ∷ "compile" ∷ "__import__"
    ∷ "open" ∷ "builtins.open" ∷ "getattr" ∷ []

pub allowed : String → Bool
allowed m = mem m allowed_imports

pub dangerous : String → Bool
dangerous n = mem n dangerous_calls

-- name.split(".")[0]
pub top : String → String
top String.[] = String.[]
top (String.◌∷◌ c s) = if eqb (code c) 46 then String.[] else String.◌∷◌ c (top s)

-- What stands behind it: the first dot and the rest, or nothing.
pub from_dot : String → String
from_dot String.[] = String.[]
from_dot (String.◌∷◌ c s) = if eqb (code c) 46 then String.◌∷◌ c s else from_dot s

-- A dict of aliases, the newest first.
abbrev pub AliasMap : Type 0
AliasMap = List (String × String)

pub lookup : String → AliasMap → Option String
lookup k [] = none
lookup k ((j, v) ∷ aliases) = if j == k then some v else lookup k aliases

abbrev bound : Alias → String
bound a = get_or a.asname a.name

bind_imports : List Alias → AliasMap → AliasMap
unfolding top
bind_imports [] aliases = aliases
bind_imports (a ∷ names) aliases = bind_imports names ((bound a, top a.name) ∷ aliases)

bind_from : String → List Alias → AliasMap → AliasMap
bind_from m [] aliases = aliases
bind_from m (a ∷ names) aliases = bind_from m names ((bound a, m) ∷ aliases)

bind_nodes : List Tree → AliasMap → AliasMap
unfolding bind_imports bind_from top
bind_nodes [] aliases = aliases
bind_nodes (imports names ∷ nodes) aliases = bind_nodes nodes (bind_imports names aliases)
bind_nodes (imports_from m names ∷ nodes) aliases =
    bind_nodes nodes (bind_from (top (get_or m "")) names aliases)
bind_nodes (t ∷ nodes) aliases = bind_nodes nodes aliases

pub build_alias_map : Tree → AliasMap
unfolding bind_nodes walk
build_alias_map t = bind_nodes (walk t) []

pub call_name : Tree → String
call_name (ident x) = x
call_name (attribute t a) = join (call_name t) (join "." a)
call_name _ = ""

pub record LinterResult : Type 0 where
  pub passed : Bool
  pub error_type : Option String
  pub error_detail : String
  pub suggestion : String

abbrev pub pass : LinterResult
pass = record { passed = true; error_type = none; error_detail = ""; suggestion = "" }

abbrev fail : String → String → String → LinterResult
fail kind detail suggestion = record {
  passed = false;
  error_type = some kind;
  error_detail = detail;
  suggestion = suggestion;
}

-- With the allowed modules in the order of `sorted`.
abbrev use_allowed : String
use_allowed =
    "Use one of the allowed modules: base64, binascii, collections, functools, hashlib, hmac, http, itertools, json, math, random, re, requests, socket, ssl, string, struct, sys, threading, time, urllib"

-- The first name of an import whose module is not allowed.
pub first_foreign : List Alias → Option String
unfolding top allowed
first_foreign [] = none
first_foreign (a ∷ names) = if allowed (top a.name) then first_foreign names else some a.name

pub foreign_module : Option String → Bool
unfolding top allowed
foreign_module m =
    let module_name = top (get_or m "") in not (module_name == "") && not (allowed module_name)

pub import_check : List Tree → LinterResult
unfolding first_foreign foreign_module
import_check [] = pass
import_check (imports names ∷ nodes) =
    let rest = import_check nodes in
    elim (first_foreign names) [
      | none ↦ rest
      | some n ↦ fail "import" (join "Import '" (join n "' is not in the allowlist")) use_allowed
    ]
import_check (imports_from m names ∷ nodes) =
    let rest = import_check nodes in
    if foreign_module m
    then fail "import" (join "Import from '" (join (get_or m "") "' is not in the allowlist"))
        use_allowed
    else rest
import_check (t ∷ nodes) = import_check nodes

-- A call's name with the alias in front of it resolved.
pub resolve_alias : AliasMap → String → String
unfolding lookup top from_dot
resolve_alias aliases n = elim (lookup (top n) aliases) [ none ↦ n | some m ↦ join m (from_dot n) ]

-- The name under which a call is dangerous.
pub danger : AliasMap → Tree → Option String
unfolding resolve_alias call_name dangerous
danger aliases f =
    let n = call_name f in
    if dangerous (resolve_alias aliases n)
    then some (resolve_alias aliases n)
    else if dangerous n
    then some n
    else none

pub dangerous_call_check : AliasMap → List Tree → LinterResult
unfolding danger
dangerous_call_check aliases [] = pass
dangerous_call_check aliases (call f args ∷ nodes) =
    let rest = dangerous_call_check aliases nodes in
    elim (danger aliases f) [
      | none ↦ rest
      | some n ↦
          fail "dangerous_call" (join "Dangerous call '" (join n "' is prohibited in sandbox"))
            (join "Remove the call to '" (join n "'"))
    ]
dangerous_call_check aliases (t ∷ nodes) = dangerous_call_check aliases nodes

module _ (parse : String → Tree ⊎ (String × String)) where
  -- The three checks, one behind the other.
  pub check : String → LinterResult
  unfolding build_alias_map import_check dangerous_call_check walk
  check text = elim (parse text) [
    | inr (message, place) ↦ fail "syntax" message (join "Fix syntax error near line " place)
    | inl t ↦
        let imported = import_check (walk t) in
        if imported.passed then dangerous_call_check (build_alias_map t) (walk t) else imported
  ]
