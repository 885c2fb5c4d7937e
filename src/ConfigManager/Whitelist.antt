-- ===== src/ConfigManager/Whitelist.antt =====
-- ui/utils/config_manager.py: the whitelist that the settings page edits.
use wasteless.Common.{String, Bool, true, false, not, Option, none, some, if◌then◌else◌}
use wasteless.Python.{
  Value, Items, str, list, dict, nil, cons, end, field, index, contains_key, equals_str, error,
  attribute_error, Result, ok, raised, ◌>>=◌,
}
use wasteless.ConfigManager.{Disk, validate_instance_id, with_section, set_in, saved}

module _ {F : Type 0} where
  unfoldable pub append : Items F → Value F → Items F
  append nil v = cons v nil
  append (cons x xs) v = cons x (append xs v)

  -- `xs.append(v)`
  abbrev pub appended : Value F → Value F → Result (Value F)
  appended (list xs) v = ok (list (append xs v))
  appended _ v = raised (error attribute_error)

  abbrev pub no_ids : Value F
  no_ids = dict (field "instance_ids" (list nil) end)

  -- `if "instance_ids" not in config["whitelist"]: config["whitelist"]["instance_ids"] = []`
  unfoldable pub with_ids : Value F → Result (Value F)
  with_ids config = do
    section ← index config "whitelist"
    there ← contains_key section "instance_ids"
    if there then ok config else set_in config "whitelist" "instance_ids" (list nil)

  -- The document with the id, or none where it was listed before.
  unfoldable pub list_id : String → Value F → Result (Option (Value F))
  list_id instance_id config = do
    section ← index config "whitelist"
    ids ← index section "instance_ids"
    listed ← contains_key ids instance_id
    if listed then ok none else (do
      ids' ← appended ids (str instance_id)
      config' ← set_in config "whitelist" "instance_ids" ids'
      ok (some config'))

  -- Save if there is something to save.
  abbrev pub if_changed : Result (Option (Value F)) → Disk F → Result Bool × Disk F
  if_changed (raised e) d = (raised e, d)
  if_changed (ok none) d = (ok true, d)
  if_changed (ok (some config)) d = saved (ok config) d

  unfoldable pub add_instance_to_whitelist : String → Disk F → Result Bool × Disk F
  add_instance_to_whitelist s d =
      if_changed
        (do
          instance_id ← validate_instance_id s
          config ← d.document
          config' ← with_section config "whitelist" no_ids
          config'' ← with_ids config'
          list_id instance_id config'')
        d

  -- `xs.remove(v)` for a str that is listed
  unfoldable pub without : String → Items F → Items F
  without s nil = nil
  without s (cons x xs) = if equals_str s x then xs else cons x (without s xs)

  abbrev removed : Value F → String → Result (Value F)
  removed (list xs) s = ok (list (without s xs))
  removed _ s = raised (error attribute_error)

  unfoldable pub unlist_id : String → Value F → Result (Option (Value F))
  unlist_id instance_id config = do
    section ← index config "whitelist"
    ids ← index section "instance_ids"
    listed ← contains_key ids instance_id
    if not listed then ok none else (do
      ids' ← removed ids instance_id
      config' ← set_in config "whitelist" "instance_ids" ids'
      ok (some config'))

  -- `"whitelist" in config and "instance_ids" in config["whitelist"]`
  unfoldable pub has_ids : Value F → Result Bool
  has_ids config = do
    there ← contains_key config "whitelist"
    if not there
        then ok false
        else (do section ← index config "whitelist"; contains_key section "instance_ids")

  unfoldable pub remove_instance_from_whitelist : String → Disk F → Result Bool × Disk F
  remove_instance_from_whitelist instance_id d =
      if_changed
        (do
          config ← d.document
          there ← has_ids config
          if there then unlist_id instance_id config else ok none)
        d
