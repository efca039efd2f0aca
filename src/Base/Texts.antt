-- ===== src/Base/Texts.antt =====
-- Strings that may be missing: `undefined` and `null` are both `none`, and the empty string is falsy.
use Prim.Native.Nat.{ℕ, zero, suc}
use Prim.Native.String.{String, ◌++◌}
use text.Mathlib.Text.{◌==◌}
use text.Mathlib.TextEquality.{eq_iff}
use mathlib.Core.Path.{◌≡◌}
use mathlib.Core.Logic.{◌↔◌}
use mathlib.Core.Bool.{Bool, true, false, not, ◌||◌}
use mathlib.Core.Option.{Option, none, some}
use mathlib.Core.List.{List, [], ◌∷◌}
use native.Mathlib.Omega.{arith}
use sentinel_engine_sovereig.Base.Tests.{if◌then◌else◌}

-- a + b, `${a}${b}`
infixr 65 ◌⧺◌
abbrev pub ◌⧺◌ : String → String → String
a ⧺ b = a ++ b

-- a === b
abbrev pub same : Option String → Option String → Bool
same none none = true
same (some a) (some b) = a == b
same none (some b) = false
same (some a) none = false

pub same_iff : (a b : Option String) → (same a b ≡ true) ↔ (a ≡ b)
same_iff none none = ground arith
same_iff none (some b) = ground arith
same_iff (some a) none = ground arith
same_iff (some a) (some b) = ground (arith, eq_iff a b)

-- the truth value of a string
abbrev pub truthy : Option String → Bool
truthy none = false
truthy (some s) = not (s == "")

-- a || null
abbrev pub or_null : Option String → Option String
or_null none = none
or_null (some s) = if s == "" then none else some s

-- a || d
abbrev pub or_text : Option String → String → String
or_text none d = d
or_text (some s) d = if s == "" then d else s

-- xs.includes(a)
abbrev pub includes : List String → String → Bool
includes [] a = false
includes (x ∷ xs) a = x == a || includes xs a

pub or_null-some : (s : String) → (s == "") ≡ false → or_null (some s) ≡ some s
or_null-some s h = ground arith

-- s.substring(0, n), counted in characters
unfoldable pub take_text : ℕ → String → String
take_text zero s = ""
take_text (suc n) String.[] = ""
take_text (suc n) (String.◌∷◌ c s) = String.◌∷◌ c (take_text n s)
