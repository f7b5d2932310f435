-- ===== src/Base/Uuid.antt =====
-- Texts read character by character: the regular expression for a UUID, with and without its `i`
-- flag, and `endsWith`.
use Prim.Native.Nat.{ℕ}
use Prim.Native.Char.{code}
use Prim.Native.String.{String}
use mathlib.Core.Bool.{Bool, true, false, ◌||◌, ◌&&◌}
use mathlib.Core.List.{List, [], ◌∷◌}
use grainlify_bounty_agent.Base.Tests.{leb, ◌==◌}

abbrev pub codes : String → List ℕ
codes String.[] = []
codes (String.◌∷◌ c s) = code c ∷ codes s

pub data Slot : Type 0 where
  hex dash : Slot

-- The groups of 8, 4, 4, 4 and 12 hexadecimal digits.
abbrev uuid_slots : List Slot
uuid_slots =
    hex ∷ hex ∷ hex ∷ hex ∷ hex ∷ hex ∷ hex ∷ hex ∷ dash ∷ hex ∷ hex ∷ hex ∷ hex ∷ dash ∷ hex ∷ hex
    ∷ hex ∷ hex ∷ dash ∷ hex ∷ hex ∷ hex ∷ hex ∷ dash ∷ hex ∷ hex ∷ hex ∷ hex ∷ hex ∷ hex ∷ hex
    ∷ hex ∷ hex ∷ hex ∷ hex ∷ hex ∷ []

is_lower_hex : ℕ → Bool
is_lower_hex c = (leb b'0' c && leb c b'9') || (leb b'a' c && leb c b'f')

is_slot : Bool → Slot → ℕ → Bool
unfolding is_lower_hex
is_slot ignore_case hex c = is_lower_hex c || (ignore_case && leb b'A' c && leb c b'F')
is_slot ignore_case dash c = c == b'-'

match_slots : Bool → List Slot → List ℕ → Bool
unfolding is_slot
match_slots ignore_case [] [] = true
match_slots ignore_case [] (c ∷ cs) = false
match_slots ignore_case (s ∷ slots) [] = false
match_slots ignore_case (s ∷ slots) (c ∷ cs) =
    is_slot ignore_case s c && match_slots ignore_case slots cs

unfoldable pub is_uuid_any_case : String → Bool
unfolding match_slots
is_uuid_any_case s = match_slots true uuid_slots (codes s)

unfoldable pub is_uuid : String → Bool
unfolding match_slots
is_uuid s = match_slots false uuid_slots (codes s)

same_codes : List ℕ → List ℕ → Bool
same_codes [] [] = true
same_codes [] (d ∷ ds) = false
same_codes (c ∷ cs) [] = false
same_codes (c ∷ cs) (d ∷ ds) = c == d && same_codes cs ds

has_suffix : List ℕ → List ℕ → Bool
unfolding same_codes
has_suffix [] suffix = same_codes [] suffix
has_suffix (c ∷ cs) suffix = same_codes (c ∷ cs) suffix || has_suffix cs suffix

-- `text.endsWith(suffix)`
unfoldable pub ends_with : String → String → Bool
unfolding has_suffix
ends_with text suffix = has_suffix (codes text) (codes suffix)
