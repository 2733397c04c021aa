-- ===== src/Prelude/Text.antt =====
-- Text: `String` where the program compares whole texts, lists of code points where it walks them.
pub use text.Mathlib.Text.{◌==◌}
pub use text.Mathlib.TextEquality.{eq_iff}
use Prim.Native.Nat.{ℕ}
use Prim.Native.String
use Prim.Native.Char.{code}
use Prim.Native.String.{String}
use mathlib.Core.Path.{◌≡◌, refl}
use mathlib.Core.Logic.{◌≢◌}
use mathlib.Core.Bool.{Bool, true, false, ◌&&◌, ◌||◌}
use mathlib.Core.List.{List, [], ◌∷◌}
use security_agent.Prelude.Tests.{eqb}

abbrev pub codes : String → List ℕ
codes String.[] = []
codes (String.◌∷◌ c s) = code c ∷ codes s

-- `s.startswith(p)` and `p in s`, on code points.
abbrev pub starts_with : List ℕ → List ℕ → Bool
starts_with s [] = true
starts_with [] (c ∷ p) = false
starts_with (d ∷ s) (c ∷ p) = eqb c d && starts_with s p

abbrev pub contains : List ℕ → List ℕ → Bool
contains [] p = starts_with [] p
contains (d ∷ s) p = starts_with (d ∷ s) p || contains s p

-- `k in l`, on texts.
abbrev pub mem : String → List String → Bool
mem k [] = false
mem k (j ∷ l) = j == k || mem k l

abbrev pub same : List ℕ → List ℕ → Bool
same [] [] = true
same [] (d ∷ t) = false
same (c ∷ s) [] = false
same (c ∷ s) (d ∷ t) = eqb c d && same s t

-- `s + t`, on texts.
abbrev pub join : String → String → String
join s t = Prim.Native.String.◌++◌ s t

pub same_text : (k : String) → (k == k) ≡ true
same_text k = (eq_iff k k).1 refl

-- Texts that the test tells apart.
pub apart : (s t : String) → (s == t) ≡ false → s ≢ t
apart s t h e = let same : (s == t) ≡ true = (eq_iff s t).1 e in absurd (cc)
