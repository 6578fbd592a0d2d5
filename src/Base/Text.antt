-- ===== src/Base/Text.antt =====
-- Optional texts as JavaScript tests them.
use Prim.Native.String.{String}
use text.Mathlib.Text.{◌==◌ as str_eq}
use text.Mathlib.TextEquality.{eq_iff}
use mathlib.Core.Path.{◌≡◌}
use mathlib.Core.Logic.{◌≢◌, ◌⊎◌}
use mathlib.Core.Bool.{Bool, true, false}
use mathlib.Core.Option.{Option, none, some}
use mathlib.Core.List.{List, [], ◌∷◌}
use native.Mathlib.Omega.{arith}
use memento_mcp.Base.Logic.{if◌then◌else◌}

-- The text, if `if (o)` passes: it is there and not empty.
abbrev pub truthy : Option String → Option String
truthy none = none
truthy (some k) = if str_eq k "" then none else some k

-- `o === "..."`.
abbrev pub is_text : String → Option String → Bool
is_text k none = false
is_text k (some t) = str_eq t k

-- `a === b`, where both may be null.
abbrev pub same_text : Option String → Option String → Bool
same_text none none = true
same_text none (some t) = false
same_text (some k) none = false
same_text (some k) (some t) = str_eq k t

-- `texts.includes(t)`.
abbrev pub includes : List String → String → Bool
includes [] t = false
includes (x ∷ xs) t = if str_eq x t then true else includes xs t

-- Two texts are the same, as the test says, or they are not.
pub String-cases :
    (k j : String) → ((k ≡ j) × (str_eq k j ≡ true)) ⊎ ((k ≢ j) × (str_eq k j ≡ false))
String-cases k j = ground (arith, eq_iff k j)
