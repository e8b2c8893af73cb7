-- ===== src/Prelude/Texts.antt =====
-- Lists of texts without repetition, the way a `seen` map tests them.
use mathlib.Core.Path.{◌≡◌}
use mathlib.Core.Bool.{Bool, true, false}
use mathlib.Core.List.{List, [], ◌∷◌}
use text.Mathlib.Text.{◌==◌ as str_eq}
use Prim.Native.String.{String}
use native.Mathlib.Omega.{arith}
use text.Mathlib.TextEquality.{eq_iff}
use svc_web_analyzer.Prelude.Lists.{any}

abbrev pub member : String → List String → Bool
member x = any (str_eq x)

abbrev pub Distinct : List String → Type 0
Distinct [] = Unit
Distinct (x ∷ xs) = (member x xs ≡ false) × Distinct xs

-- no text of the first list stands in the second
abbrev pub Avoids : List String → List String → Type 0
Avoids seen xs = (x : String) → member x seen ≡ true → member x xs ≡ false

pub Avoids-tail : (u : String) (seen xs : List String) → Avoids (u ∷ seen) xs → Avoids seen xs
Avoids-tail u seen xs h x e = h x (ground (arith, e))

-- a text that was not seen goes before texts that avoid it
pub Avoids-cons :
    (u : String) (seen xs : List String)
    → member u seen ≡ false
    → Avoids (u ∷ seen) xs
    → Avoids seen (u ∷ xs)
Avoids-cons u seen xs new h x e = ground (arith, eq_iff x u, new, e, Avoids-tail u seen xs h x e)
