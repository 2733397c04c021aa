-- ===== src/Detection.antt =====
-- detection/sigma.py: the values of an event and of a rule's file, and the paths into them. A number is of
-- Python's own, a parameter `N`; a mapping has texts as keys, each once.
pub mod Sigma
pub mod Parse
pub mod Alerts
mod Examples
use Prim.Native.Char.{Char, code}
use security_agent.Prelude.{
  Bool, true, false, not, List, [], ◌∷◌, Option, none, some, String, eqb, mem, ◌==◌, if◌then◌else◌,
}

mutual
  pub data Value (N : Type 0) : Type 0 where
    null : Value N
    bool : Bool → Value N
    number : N → Value N
    text : String → Value N
    list : Values N → Value N
    dict : Entries N → Value N

  pub data Values (N : Type 0) : Type 0 where
    nil : Values N
    cons : Value N → Values N → Values N

  pub data Entries (N : Type 0) : Type 0 where
    empty : Entries N
    entry : String → Value N → Entries N → Entries N

-- What the code uses of Python's numbers, comparisons and texts. An order is `none` where Python raises a
-- TypeError, a reading where it raises a ValueError.
pub record Runtime (N : Type 0) : Type 0 where
  pub int_of : String → Option N
  pub float_of : String → Option N
  pub nonzero : N → Bool
  pub same : Value N → Value N → Bool
  pub greater : Value N → Value N → Option Bool
  pub greater_equal : Value N → Value N → Option Bool
  pub less : Value N → Value N → Option Bool
  pub less_equal : Value N → Value N → Option Bool
  pub str : Value N → String
  pub lower : String → String
  pub strip : String → String
  pub upper : String → String
  pub isdigit : String → Bool

longer : Char → List String → List String
longer c [] = []
longer c (w ∷ ws) = String.◌∷◌ c w ∷ ws

-- path.split(".")
pub split_dots : String → List String
unfolding longer
split_dots String.[] = "" ∷ []
split_dots (String.◌∷◌ c s) = if eqb (code c) 46 then "" ∷ split_dots s else longer c (split_dots s)

module _ {N : Type 0} where
  -- d.get(k)
  pub get : String → Entries N → Option (Value N)
  get k empty = none
  get k (entry j v es) = if j == k then some v else get k es

  -- `None` is not told apart from a key that is missing.
  pub present : Option (Value N) → Option (Value N)
  present none = none
  present (some null) = none
  present (some v) = some v

  pub get_path : Value N → List String → Option (Value N)
  unfolding get present
  get_path node [] = some node
  get_path (dict es) (part ∷ parts) = elim (present (get part es)) [
    | none ↦ none
    | some node ↦ get_path node parts
  ]
  get_path node (part ∷ parts) = none

  pub event_get : Value N → String → Option (Value N)
  unfolding get_path split_dots
  event_get event path = get_path event (split_dots path)

  -- bool(v)
  pub truthy : Runtime N → Value N → Bool
  truthy py null = false
  truthy py (bool b) = b
  truthy py (number n) = py.nonzero n
  truthy py (text t) = not (t == "")
  truthy py (list nil) = false
  truthy py (list (cons v vs)) = true
  truthy py (dict empty) = false
  truthy py (dict (entry k v es)) = true
