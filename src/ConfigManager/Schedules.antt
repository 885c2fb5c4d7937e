-- ===== src/ConfigManager/Schedules.antt =====
-- ui/utils/config_manager.py: `set_instance_schedule` and `set_terraform_pr_field`.
--
-- The texts that Python makes of a value, str.lower, the digits of other scripts that `\d` matches and
-- the time zones are arguments. A dict of values is the fields that it has.
use Prim.Native.Char.{Char, code}
use wasteless.Common.{
  ℕ, String, Bool, false, not, ◌&&◌, Option, none, some, List, [], ◌∷◌, str_eq, leb, ◌==◌, any,
  keep, is_some, if◌then◌else◌,
}
use wasteless.Common.Int.{pos}
use wasteless.Python.{
  Numbers, Value, Items, Fields, null, bool, float, str, list, dict, nil, cons, end, field,
  find_field, index, contains_key, truthy, codes, strip, joined, error, type_error, value_error,
  invalid_config, Result, ok, raised, ◌>>=◌,
}
use wasteless.ConfigManager.{Conversions, Disk, set_item, set_in, edit}
use wasteless.ConfigManager.Limits.{to_float, edit_valid}
use wasteless.ConfigManager.Getters.{get_instance_schedule, weekdays}

pub record Texts (F : Type 0) : Type 0 where
  -- `str(v)`
  pub text_of : Value F → String
  pub lower : String → String
  -- what `\d` matches, with the digit of ASCII that it stands for
  pub digit : Char → Option Char
  -- `ZoneInfo(tz)` does not raise
  pub is_timezone : String → Bool

abbrev pub is_within : ℕ → ℕ → Char → Bool
is_within lo hi c = leb lo (code c) && leb (code c) hi

abbrev pub one : Char → String
one c = String.◌∷◌ c String.[]

-- canon_days
abbrev pub canon_days : List String
canon_days = "mon" ∷ "tue" ∷ "wed" ∷ "thu" ∷ "fri" ∷ "sat" ∷ "sun" ∷ []

-- `s[:3]`
abbrev pub three : String → String
three (String.◌∷◌ a (String.◌∷◌ b (String.◌∷◌ c s))) =
    String.◌∷◌ a (String.◌∷◌ b (String.◌∷◌ c String.[]))
three s = s

-- The characters of a text, over which `for d in s` runs.
abbrev pub characters : String → List String
characters String.[] = []
characters (String.◌∷◌ c s) = one c ∷ characters s

module _ {F : Type 0} where
  abbrev pub keys_of : Fields F → List String
  keys_of end = []
  keys_of (field k v fs) = k ∷ keys_of fs

  abbrev pub text_result : Option String → Result (Value F)
  text_result none = raised (error invalid_config)
  text_result (some s) = ok (str s)

  -- `if key in values: out[key] = …`
  abbrev pub put_new :
      String → (Value F → Result (Value F)) → Option (Value F) → Value F → Result (Value F)
  put_new key make none out = ok out
  put_new key make (some v) out = do new ← make v; set_item out key new

module _ {F : Type 0} ⦃n : Numbers F⦄ where
  abbrev pub flag_value : Value F → Result (Value F)
  flag_value v = ok (bool (truthy v))

  -- `str(v).strip() or default`
  abbrev pub or_no_day : List String → Result (Value F)
  or_no_day [] = raised (error invalid_config)
  or_no_day (d ∷ ds) = ok (list (weekdays (d ∷ ds)))

module _ {F : Type 0} ⦃n : Numbers F⦄ (t : Texts F) where
  -- `[0-5]\d$`
  abbrev pub is_minutes : String → Bool
  is_minutes (String.◌∷◌ a (String.◌∷◌ b String.[])) = is_within b'0' b'5' a && is_some (t.digit b)
  is_minutes _ = false

  -- `f"{int(h):02d}"` of the hour that `[01]?\d|2[0-3]` matches
  abbrev pub short_hour : Option Char → Option String
  short_hour none = none
  short_hour (some a) = some (joined "0" (one a))

  abbrev pub long_hour : Char → Option Char → Option String
  long_hour a none = none
  long_hour a (some b) = some (joined (one a) (one b))

  abbrev pub hour_of : Char → Char → Option String
  hour_of a b =
      if is_within b'0' b'1' a
      then long_hour a (t.digit b)
      else if code a == b'2' && is_within b'0' b'3' b
      then some (joined (one a) (one b))
      else none

  abbrev pub with_minutes : Option String → String → Option String
  with_minutes none m = none
  with_minutes (some h) m = if is_minutes m then some (joined h (joined ":" m)) else none

  abbrev pub long_time : Char → Char → String → Option String
  long_time a b (String.◌∷◌ c m) = if code c == b':' then with_minutes (hour_of a b) m else none
  long_time a b String.[] = none

  -- The text in `_time`, which is stripped.
  abbrev pub time_in : String → Option String
  time_in (String.◌∷◌ a (String.◌∷◌ b m)) =
      if code b == b':' then with_minutes (short_hour (t.digit a)) m else long_time a b m
  time_in _ = none

  -- `_time(v)`
  unfoldable pub time_value : Value F → Result (Value F)
  time_value v = text_result (time_in (strip (t.text_of v)))

  unfoldable pub timezone_value : Value F → Result (Value F)
  timezone_value v =
      let tz = strip (t.text_of v) in
      if t.is_timezone tz then ok (str tz) else raised (error invalid_config)

  abbrev pub texts_of : Items F → List String
  texts_of nil = []
  texts_of (cons v vs) = t.text_of v ∷ texts_of vs

  -- `str(d) for d in (v or [])`
  abbrev pub days_of : Value F → Result (List String)
  days_of (list xs) = ok (texts_of xs)
  days_of (str s) = ok (characters s)
  days_of (dict fs) = ok (keys_of fs)
  days_of v = if truthy v then raised (error type_error) else ok []

  abbrev pub is_given_day : List String → String → Bool
  is_given_day given d = any (λ g. str_eq d (three (t.lower g))) given

  unfoldable pub days_value : Value F → Result (Value F)
  days_value v = days_of v >>= λ given. or_no_day (keep (is_given_day given) canon_days)

  abbrev pub text_or : String → Value F → Result (Value F)
  text_or default v = let s = strip (t.text_of v) in ok (str (if str_eq s "" then default else s))

  unfoldable pub edited_schedule : Fields F → Value F → Result (Value F)
  edited_schedule values out = do
    out1 ← put_new "enabled" flag_value (find_field "enabled" values) out
    out2 ← put_new "dry_run" flag_value (find_field "dry_run" values) out1
    out3 ← put_new "stop_time" time_value (find_field "stop_time" values) out2
    out4 ← put_new "start_time" time_value (find_field "start_time" values) out3
    out5 ← put_new "timezone" timezone_value (find_field "timezone" values) out4
    out6 ← put_new "days" days_value (find_field "days" values) out5
    out7 ← put_new "tag_key" (text_or "wasteless:schedule") (find_field "tag_key" values) out6
    put_new "tag_value" (text_or "office-hours") (find_field "tag_value" values) out7

  unfoldable pub set_instance_schedule : Fields F → Disk F → Result Bool × Disk F
  set_instance_schedule values = edit λ config. do
    schedule ← get_instance_schedule config
    out ← edited_schedule values schedule
    set_item config "instance_schedule" out

  module _ (conv : Conversions F) where
    -- `float(v)`
    abbrev pub float_or_raise : Option F → Value F → Result F
    float_or_raise (some x) v = ok x
    float_or_raise none (str s) = raised (error value_error)
    float_or_raise none v = raised (error type_error)

    abbrev pub repository : String → Result (Value F)
    repository s =
        if not (str_eq s "") && not (any (◌==◌ b'/') (codes s))
        then raised (error invalid_config)
        else ok (str s)

    abbrev pub threshold : F → Result (Value F)
    threshold x = if n.lt x (n.of_int (pos 0)) then raised (error invalid_config) else ok (float x)

    -- `validators`, with the two tests behind them
    abbrev pub pr_validators : List (String × (Value F → Result (Value F)))
    pr_validators =
        ("enabled", flag_value)
        ∷ ("repo", λ v. repository (strip (t.text_of v)))
        ∷ ("base_branch", text_or "main")
        ∷ ("terraform_dir", text_or ".")
        ∷ ("pr_threshold_eur", λ v. float_or_raise (to_float conv v) v >>= threshold)
        ∷ []

    abbrev pub validated_by :
        List (String × (Value F → Result (Value F))) → String → Value F → Result (Value F)
    validated_by [] key v = raised (error invalid_config)
    validated_by ((name, validate) ∷ rest) key v =
        if str_eq name key then validate v else validated_by rest key v

    -- A section that is missing, or empty, is made.
    abbrev pub with_pr_section : Value F → Result (Value F)
    with_pr_section config = do
      there ← contains_key config "terraform_pr"
      section ← if there then index config "terraform_pr" else ok null
      if truthy section then ok config else set_item config "terraform_pr" (dict end)

    unfoldable pub set_terraform_pr_field : String → Value F → Disk F → Result Bool × Disk F
    set_terraform_pr_field key v = edit_valid (validated_by pr_validators key v) (λ value config. do
      config' ← with_pr_section config
      set_in config' "terraform_pr" key value)
