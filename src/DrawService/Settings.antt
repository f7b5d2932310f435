-- ===== src/DrawService/Settings.antt =====
-- The settings of apps/agent/src/draw-service.ts: a stored override, or the default from code.
use grainlify_bounty_agent.Base.{
  ℕ, Bool, true, false, not, Option, none, some, List, [], ◌∷◌, ◌++◌, map, if◌then◌else◌, String,
  text_eq, any, first, update_where,
}
use grainlify_bounty_agent.Draw.Config.{
  Setting, SettingType, draw_settings, with_defaults, Parsed, Invalid, unknown_setting, validate,
  int_of, bool_of,
}
use grainlify_bounty_agent.DrawService.Tables.{Tables, StoredSetting}

abbrev with_key : String → StoredSetting → Bool
with_key key s = text_eq s.key key

abbrev value_of : Option StoredSetting → Option String
value_of none = none
value_of (some s) = some s.value

unfoldable pub overrides : Tables → String → Option String
overrides t key = value_of (first (with_key key) t.settings)

-- Every setting, resolved.
unfoldable pub config : Tables → List (String × String)
unfolding overrides with_defaults
config t = with_defaults (overrides t)

-- A property of the object that `config` returns.
abbrev pub setting_of : List (String × String) → String → Option String
setting_of [] key = none
setting_of ((k, v) ∷ cfg) key = if text_eq k key then some v else setting_of cfg key

abbrev pub int_setting : (String → Option ℕ) → List (String × String) → String → ℕ → ℕ
int_setting parse_int cfg key fallback = int_of parse_int (setting_of cfg key) fallback

abbrev pub bool_setting : List (String × String) → String → Bool → Bool
bool_setting cfg key fallback = bool_of (setting_of cfg key) fallback

pub record SettingView : Type 0 where
  pub key : String
  pub type : SettingType
  pub section : String
  pub default : String
  pub value : String
  pub overridden : Bool
  pub updated_at : Option ℕ
  pub updated_by : Option String

abbrev view_of : Setting → Option StoredSetting → SettingView
view_of s none = record {
  key = s.key;
  type = s.type;
  section = s.section;
  default = s.default;
  value = s.default;
  overridden = false;
  updated_at = none;
  updated_by = none;
}
view_of s (some row) = record {
  key = s.key;
  type = s.type;
  section = s.section;
  default = s.default;
  value = row.value;
  overridden = true;
  updated_at = some row.updated_at;
  updated_by = some row.updated_by;
}

unfoldable pub settings : Tables → List SettingView
unfolding draw_settings
settings t = map (λ (s : Setting). view_of s (first (with_key s.key) t.settings)) draw_settings

-- INSERT … ON CONFLICT (key) DO UPDATE
abbrev upsert : StoredSetting → List StoredSetting → List StoredSetting
upsert new rows =
    if any (with_key new.key) rows
    then update_where (with_key new.key)
        (λ s. record s {
          value = new.value;
          updated_at = new.updated_at;
          updated_by = new.updated_by;
        })
        rows
    else rows ++ new ∷ []

abbrev stored : StoredSetting → Tables → Option Invalid → Tables × Option Invalid
stored new t (some bad) = (t, some bad)
stored new t none = (record t { settings = upsert new t.settings }, none)

-- The refusal, if the value is not valid.
unfoldable pub set_setting :
    (String → Parsed) → ℕ → String → String → String → Tables → Tables × Option Invalid
unfolding validate
set_setting number now key value by t =
    stored (record { key = key; value = value; updated_at = now; updated_by = by }) t
      (validate number key value)

abbrev delete_key : String → List StoredSetting → List StoredSetting
delete_key key [] = []
delete_key key (s ∷ rows) =
    let rest = delete_key key rows in if with_key key s then rest else s ∷ rest

unfoldable pub reset_setting : String → Tables → Tables × Option Invalid
unfolding draw_settings
reset_setting key t =
    if not (any (λ (s : Setting). text_eq s.key key) draw_settings)
    then (t, some unknown_setting)
    else (record t { settings = delete_key key t.settings }, none)
