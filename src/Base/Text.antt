-- ===== src/Base/Text.antt =====
-- Texts compared whole: `a === b` on strings, membership in a list of strings, and SQL's
-- equality on a nullable TEXT column.
use Prim.Native.String.{String}
use mathlib.Core.Path.{◌≡◌}
use mathlib.Core.Logic.{◌↔◌}
use mathlib.Core.Bool.{Bool, true, false, ◌||◌}
use mathlib.Core.Option.{Option, none, some}
use mathlib.Core.List.{List, [], ◌∷◌}
use Prim.Native.Nat.{ℕ, zero, suc}
use grainlify_bounty_agent.Base.Tests.{if◌then◌else◌}
use text.Mathlib.Text.{◌==◌}
use text.Mathlib.TextEquality.{eq_iff}
use text.Mathlib.TextPositions.{eq_refl}

-- `decide`d equality, so that a case split hands over the equation.
unfoldable pub text_eq : String → String → Bool
text_eq a b = a == b

pub text_eq_iff : (a b : String) → (text_eq a b ≡ true) ↔ (a ≡ b)
unfolding text_eq
text_eq_iff a b = eq_iff a b

pub text_eq_refl : (a : String) → text_eq a a ≡ true
unfolding text_eq
text_eq_refl a = eq_refl a

-- `list.includes(x)`
abbrev pub includes : List String → String → Bool
includes [] x = false
includes (y ∷ ys) x = text_eq y x || includes ys x

-- A nullable column that equals a value; NULL equals nothing.
abbrev pub column_eq : Option String → String → Bool
column_eq none x = false
column_eq (some y) x = text_eq y x

-- A string that is not empty, as a test of its truth reads it.
abbrev pub truthy : Option String → Option String
truthy none = none
truthy (some s) = if text_eq s "" then none else some s

-- A message as its UTF-16 code units, and `message.slice(0, n)`.
abbrev pub Message : Type 0
Message = List ℕ

abbrev pub slice_to : ℕ → Message → Message
slice_to zero m = []
slice_to (suc n) [] = []
slice_to (suc n) (c ∷ m) = c ∷ slice_to n m
