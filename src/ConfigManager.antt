-- ===== src/ConfigManager.antt =====
-- ui/utils/config_manager.py: what the settings page does to remediation.yaml.
--
-- The file is a `Disk`: the document that loading it gives, or the exception that loading raises, and
-- whether a write succeeds; a failed write leaves the document, which the source restores from its
-- backup. What is saved is what is loaded next. The locks, the cache, the template and the log output
-- are left out. `int()` and `float()` of texts and floats are an interface, `Conversions`; where they
-- raise, the model says none.
pub mod Lookups
pub mod Sections
pub mod Saves
pub mod Limits
pub mod Types
pub mod Getters
pub mod Actions
pub mod Whitelist
pub mod Ids
pub mod Listed
pub mod Bounds
pub mod Restrictions
pub mod Schedules
pub mod Shape
pub mod Readback
mod ScheduleTests
mod Tests
use wasteless.Common.{
  ℕ, suc, ◌-◌, String, Bool, true, false, not, ◌&&◌, ◌||◌, Option, none, some, List, [], ◌∷◌,
  str_eq, ◌==◌, ltb, leb, all, length, drop, is_some, if◌then◌else◌,
}
use wasteless.Common.Int.{ℤ, pos, ltb_ℤ}
use wasteless.Python.{
  codes, strip_left, strip_right, Numbers, Value, Items, Fields, null, bool, int, float, str, list,
  dict, nil, cons, end, field, get, index, contains_key, find_field, is_dict, truthy, or_empty,
  any_item, equals_str, error, type_error, attribute_error, invalid_config, Result, ok, raised,
  ◌>>=◌,
}

pub record Conversions (F : Type 0) : Type 0 where
  pub int_of_str : String → Option ℤ
  pub float_of_str : String → Option F
  pub truncate : F → Option ℤ

-- An entry of CONFIG_LIMITS.
pub data Limit (F : Type 0) : Type 0 where
  whole : ℕ → ℕ → Limit F
  real : F → F → Limit F

pub record Disk (F : Type 0) : Type 0 where
  pub document : Result (Value F)
  pub writable : Bool

abbrev pub or_refuse : {A : Type 0} → Option A → Result A
or_refuse none = raised (error invalid_config)
or_refuse (some x) = ok x

-- `c.lower() in "0123456789abcdef"`
abbrev is_hex : ℕ → Bool
is_hex c = (leb b'0' c && leb c b'9') || (leb b'a' c && leb c b'f') || (leb b'A' c && leb c b'F')

-- "i-" and 8 or 17 hexadecimal digits
unfoldable pub is_instance_id : List ℕ → Bool
is_instance_id [] = false
is_instance_id (c ∷ []) = false
is_instance_id (c ∷ d ∷ part) =
    c == b'i' && d == b'-' && (length part == 8 || length part == 17) && all is_hex part

unfoldable pub validate_instance_id : String → Result String
validate_instance_id s =
    let instance_id = strip_right (strip_left s) in
    if is_instance_id (codes instance_id) then ok instance_id else raised (error invalid_config)

module _ {F : Type 0} where
  -- `fs[k] = v`
  unfoldable pub set_field : String → Value F → Fields F → Fields F
  set_field k v end = field k v end
  set_field k v (field j w fs) = if str_eq j k then field k v fs else field j w (set_field k v fs)

  -- `config[k] = v` for a str k
  abbrev pub set_item : Value F → String → Value F → Result (Value F)
  set_item (dict fs) k v = ok (dict (set_field k v fs))
  set_item null k v = raised (error type_error)
  set_item (bool b) k v = raised (error type_error)
  set_item (int z) k v = raised (error type_error)
  set_item (float x) k v = raised (error type_error)
  set_item (str s) k v = raised (error type_error)
  set_item (list xs) k v = raised (error type_error)

  -- `if k not in config: config[k] = {}`
  unfoldable pub with_section : Value F → String → Value F → Result (Value F)
  with_section config k empty = do
    there ← contains_key config k
    if there then ok config else set_item config k empty

  -- `config[section][key] = v`
  unfoldable pub set_in : Value F → String → String → Value F → Result (Value F)
  set_in config section key v = do
    inner ← index config section
    inner' ← set_item inner key v
    set_item config section inner'

  -- A section is made where it is missing, and a key of it is set.
  unfoldable pub put_in : String → String → Value F → Value F → Result (Value F)
  put_in section key v config = do
    config' ← with_section config section (dict end)
    set_in config' section key v

  -- `save_config`
  unfoldable pub save_config : Value F → Disk F → Bool × Disk F
  save_config config d =
      if d.writable then (true, record d { document = ok config }) else (false, d)

  abbrev pub saved : Result (Value F) → Disk F → Result Bool × Disk F
  saved (raised e) d = (raised e, d)
  saved (ok config) d = let (done, d') = save_config config d in (ok done, d')

  -- Load, change, save.
  unfoldable pub edit : (Value F → Result (Value F)) → Disk F → Result Bool × Disk F
  edit change d = saved (d.document >>= change) d

  unfoldable pub set_auto_remediation_enabled : Bool → Disk F → Result Bool × Disk F
  set_auto_remediation_enabled enabled = edit (put_in "auto_remediation" "enabled" (bool enabled))

  unfoldable pub set_dry_run : Bool → Disk F → Result Bool × Disk F
  set_dry_run enabled = edit (λ config. set_item config "dry_run" (bool enabled))

  -- `if not isinstance(section.get("actions"), dict): section["actions"] = {}`
  unfoldable pub with_actions : Value F → Result (Value F)
  with_actions config = do
    section ← index config "auto_remediation"
    actions ← get section "actions" null
    if is_dict actions then ok config else set_in config "auto_remediation" "actions" (dict end)

  -- `config["auto_remediation"]["actions"][action_type] = enabled`
  unfoldable pub put_action : String → Bool → Value F → Result (Value F)
  put_action action_type enabled config = do
    section ← index config "auto_remediation"
    actions ← index section "actions"
    actions' ← set_item actions action_type (bool enabled)
    section' ← set_item section "actions" actions'
    set_item config "auto_remediation" section'

  unfoldable pub set_action_enabled : String → Bool → Disk F → Result Bool × Disk F
  set_action_enabled action_type enabled = edit λ config. do
    config' ← with_section config "auto_remediation" (dict end)
    config'' ← with_actions config'
    put_action action_type enabled config''

  unfoldable pub disable_schedule_restrictions : Disk F → Result Bool × Disk F
  disable_schedule_restrictions = edit λ config. do
    config' ← put_in "schedule" "allowed_days" (list nil) config
    set_in config' "schedule" "allowed_hours" (list nil)

  abbrev set_given : String → Option (Value F) → Value F → Result (Value F)
  set_given key none config = ok config
  set_given key (some v) config = set_in config "schedule" key v

  unfoldable pub enable_schedule_restrictions :
      Option (Value F) → Option (Value F) → Disk F → Result Bool × Disk F
  enable_schedule_restrictions days hours = edit λ config. do
    config' ← with_section config "schedule" (dict end)
    config'' ← set_given "allowed_days" days config'
    set_given "allowed_hours" hours config''
