-- ===== src/Draw/Config.antt =====
-- packages/gate/src/draw-config.ts: the settings of the draw, their defaults and their validation. The
-- description of a setting and the words of a refusal are left out.
pub mod Valid
use grainlify_bounty_agent.Base.{
  ℕ, ◌==◌, Bool, true, false, not, ◌||◌, ◌&&◌, Option, none, some, List, [], ◌∷◌, map, ltb, leb,
  if◌then◌else◌, String, text_eq, includes, first,
}

pub data SettingType : Type 0 where
  int float bool enum : SettingType

pub record Setting : Type 0 where
  pub key : String
  pub type : SettingType
  pub default : String
  pub section : String
  pub min : Option ℕ
  pub max : Option ℕ
  pub values : List String

abbrev setting :
    String → SettingType → String → String → Option ℕ → Option ℕ → List String → Setting
setting key type default section min max values = record {
  key = key;
  type = type;
  default = default;
  section = section;
  min = min;
  max = max;
  values = values;
}

unfoldable pub draw_settings : List Setting
draw_settings =
    setting "application_window_hours" int "6" "Window" (some 1) (some 720) ([])
    ∷ setting "auto_draw_enabled" bool "true" "Window" none none ([])
    ∷ setting "empty_window_extension_hours" int "6" "Window" (some 0) (some 720) ([])
    ∷ setting "max_window_extensions" int "3" "Window" (some 0) (some 20) ([])
    ∷ setting "applicant_count_visibility" enum "bucketed" "Window" none none
        ("hidden" ∷ "bucketed" ∷ "exact" ∷ [])
    ∷ setting "assignment_stale_hours" int "72" "Assignment" (some 1) (some 2160) ([])
    ∷ setting "reservation_fallback_to_open_pool" bool "true" "Newcomer reservation" none none ([])
    ∷ setting "assignment_expiry_warning_hours" int "24" "Assignment" (some 1) (some 720) ([])
    ∷ setting "block_org_members" bool "true" "Hard gates" none none ([])
    ∷ setting "min_account_age_days" int "30" "Hard gates" (some 0) (some 3650) ([])
    ∷ setting "require_linked_wallet_to_apply" bool "true" "Hard gates" none none ([])
    ∷ setting "max_active_assignments_per_person" int "1" "Hard gates" (some 1) (some 10) ([])
    ∷ setting "ai_fit_assessment_enabled" bool "false" "Fit assessment" none none ([])
    ∷ setting "funded_bounties_enabled" bool "false" "Funded bounties" none none ([])
    ∷ setting "funded_bounty_fee_bps" int "250" "Funded bounties" (some 0) (some 1000) ([])
    ∷ setting "funded_bounty_fee_minimum_minor" int "250000" "Funded bounties" (some 0) none ([])
    ∷ setting "fit_difficulty_tier" enum "standard" "Fit assessment" none none
        ("easy" ∷ "standard" ∷ "advanced" ∷ [])
    ∷ setting "weight_fit_strong" float "2.0" "Weights" (some 0) (some 100) ([])
    ∷ setting "weight_fit_plausible" float "1.0" "Weights" (some 0) (some 100) ([])
    ∷ setting "weight_fit_weak" float "0.25" "Weights" (some 0) (some 100) ([])
    ∷ setting "weight_difficulty_above" float "0.5" "Weights" (some 0) (some 100) ([])
    ∷ setting "weight_prior_completion" float "1.5" "Weights" (some 0) (some 100) ([])
    ∷ setting "weight_first_ever_application" float "1.5" "Weights" (some 0) (some 100) ([])
    ∷ setting "weight_per_abandon" float "0.5" "Weights" (some 0) (some 100) ([])
    ∷ []

abbrev has_key : String → Setting → Bool
has_key key s = text_eq s.key key

-- SETTINGS_BY_KEY: the keys are distinct, so the first setting with a key is the only one.
unfoldable pub setting_by_key : String → Option Setting
unfolding draw_settings
setting_by_key key = first (has_key key) draw_settings

abbrev pub waivable_eligibility_rules : List String
waivable_eligibility_rules = "block_org_members" ∷ []

unfoldable pub is_waivable : String → Bool
is_waivable rule = includes waivable_eligibility_rules rule

abbrev or_default : Option String → String → String
or_default none d = d
or_default (some v) d = v

-- The object that results, as its keys and values in order.
unfoldable pub with_defaults : (String → Option String) → List (String × String)
unfolding draw_settings
with_defaults overrides = map (λ s. (s.key, or_default (overrides s.key) s.default)) draw_settings

unfoldable pub bool_of : Option String → Bool → Bool
bool_of none fallback = fallback
bool_of (some v) fallback = text_eq v "true" || text_eq v "yes" || text_eq v "1"

-- `parse_int` is `Number.parseInt(v, 10)`, `none` for NaN.
unfoldable pub int_of {ℓ} : {A : Type ℓ} → (String → Option A) → Option String → A → A
int_of parse_int none fallback = fallback
int_of parse_int (some v) fallback = elim (parse_int v) [ none ↦ fallback | some n ↦ n ]

-- What `Number` makes of a text, as far as it is looked at: a number that is not finite, one below
-- zero, or its whole part and whether it has no other. The second field says that it is whole.
pub data Parsed : Type 0 where
  not_finite : Parsed
  below_zero : Bool → Parsed
  from_zero : ℕ → Bool → Parsed

pub data Invalid : Type 0 where
  unknown_setting not_bool not_listed not_number not_whole too_small too_large : Invalid

abbrev is_whole : Parsed → Bool
is_whole not_finite = false
is_whole (below_zero whole) = whole
is_whole (from_zero n whole) = whole

-- n < min, and n > max.
abbrev below_min : Parsed → Option ℕ → Bool
below_min n none = false
below_min not_finite (some m) = false
below_min (below_zero whole) (some m) = true
below_min (from_zero n whole) (some m) = ltb n m

abbrev above_max : Parsed → Option ℕ → Bool
above_max n none = false
above_max not_finite (some m) = false
above_max (below_zero whole) (some m) = false
above_max (from_zero n whole) (some m) = ltb m n || (n == m && not whole)

abbrev is_int : SettingType → Bool
is_int int = true
is_int float = false
is_int bool = false
is_int enum = false

abbrev validate_range : Setting → Parsed → Option Invalid
validate_range s n =
    if is_int s.type && not (is_whole n)
    then some not_whole
    else if below_min n s.min
    then some too_small
    else if above_max n s.max
    then some too_large
    else none

abbrev validate_number : Setting → Parsed → Option Invalid
validate_number s not_finite = some not_number
validate_number s (below_zero whole) = validate_range s (below_zero whole)
validate_number s (from_zero n whole) = validate_range s (from_zero n whole)

abbrev validate_type : (String → Parsed) → Setting → String → SettingType → Option Invalid
validate_type number s value bool =
    if text_eq value "true" || text_eq value "false" then none else some not_bool
validate_type number s value enum = if includes s.values value then none else some not_listed
validate_type number s value int = validate_number s (number value)
validate_type number s value float = validate_number s (number value)

abbrev validate_setting : (String → Parsed) → Option Setting → String → Option Invalid
validate_setting number none value = some unknown_setting
validate_setting number (some s) value = validate_type number s value s.type

-- `none` when the value is fine.
unfoldable pub validate : (String → Parsed) → String → String → Option Invalid
unfolding setting_by_key
validate number key value = validate_setting number (setting_by_key key) value

pub data ApplicantBucket : Type 0 where
  no_applicants few many : ApplicantBucket

unfoldable pub applicant_bucket : ℕ → ApplicantBucket
applicant_bucket n = if n == 0 then no_applicants else if ltb n 5 then few else many
