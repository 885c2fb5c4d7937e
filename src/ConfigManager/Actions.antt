-- ===== src/ConfigManager/Actions.antt =====
-- ui/utils/config_manager.py and src/core/safeguards.py: a switch of an action, as it is set on the
-- settings page and as the safeguards read it.
use wasteless.Common.{
  String, ◌≡◌, refl, sym, ap, ◌∙◌, Bool, true, false, Option, none, some, str_eq, if◌then◌else◌,
  subst, inl, inr, Bool-cases, eq_iff,
}
use wasteless.Python.{
  ok_inj, Numbers, Value, Fields, null, bool, int, float, str, list, dict, end, find_field, Result,
  ok, get, index, value_or, is_dict, truthy, ◌>>=◌, >>=-eq-ok,
}
use wasteless.Safeguards.{is_action_enabled}
use wasteless.ConfigManager.{
  Disk, set_field, with_section, with_actions, put_action, set_in, set_action_enabled,
}
use wasteless.ConfigManager.Lookups.{
  find_field-set_field_self, find_field-set_field_other, IsOpened, section_opened, get-eq-ok,
  set_in_lem,
}
use wasteless.ConfigManager.Saves.{edit_stored}

-- What the safeguards make of the section `auto_remediation`.
abbrev reads : {F : Type 0} ⦃n : Numbers F⦄ → Value F → String → Result Bool
reads section action_type = get section "actions" (dict end) >>= λ actions.
    get actions action_type (bool true) >>= λ enabled. ok (truthy enabled)

module _ {F : Type 0} ⦃n : Numbers F⦄ (action_type : String) (enabled : Bool) where
  -- The switch says `enabled` for its own action, and for every other what it said before.
  abbrev IsSwitched : Value F → Value F → Type 0
  IsSwitched config config' =
      (is_action_enabled config' action_type ≡ ok enabled)
      × ((other : String) (x : Bool)
          → str_eq action_type other ≡ false
          → is_action_enabled config other ≡ ok x
          → is_action_enabled config' other ≡ ok x)

  -- With the actions `gs` of its section, the switch of every action is that of `gs`.
  reads_set :
      (fs as_read gs : Fields F)
      → find_field "auto_remediation" fs ≡ some (dict as_read)
      → find_field "actions" as_read ≡ some (dict gs)
      → (t : String)
      → is_action_enabled (dict fs) t ≡ ok (truthy (value_or (bool true) (find_field t gs)))
  unfolding is_action_enabled
  reads_set fs as_read gs h k t = rw (h, k) refl

  reads_before :
      (fs : Fields F) (section : Value F)
      → section ≡ value_or (dict end) (find_field "auto_remediation" fs)
      → (t : String) → is_action_enabled (dict fs) t ≡ reads section t
  unfolding is_action_enabled
  reads_before fs section h t = rw h refl

  put_action_lem :
      (fs as_read gs : Fields F)
      → find_field "auto_remediation" fs ≡ some (dict as_read)
      → find_field "actions" as_read ≡ some (dict gs)
      → put_action action_type enabled (dict fs)
        ≡ ok (
            dict (
              set_field "auto_remediation"
                (dict
                  (set_field "actions" (dict (set_field action_type (bool enabled) gs)) as_read))
                fs))
  unfolding put_action
  put_action_lem fs as_read gs h k = rw (h, k) refl

  -- With the actions `gs` before, the new switch is the one difference.
  put_action-IsSwitched :
      (fs as_read gs : Fields F) (config config' : Value F)
      → find_field "auto_remediation" fs ≡ some (dict as_read)
      → find_field "actions" as_read ≡ some (dict gs)
      → ((t : String) (x : Bool)
          → is_action_enabled config t ≡ ok x
          → truthy (value_or (bool true) (find_field t gs)) ≡ x)
      → put_action action_type enabled (dict fs) ≡ ok config'
      → IsSwitched config config'
  put_action-IsSwitched fs as_read gs config config' h k before changed =
      let gs' = set_field action_type (bool enabled) gs in
      let as_read' = set_field "actions" (dict gs') as_read in
      let fs' = set_field "auto_remediation" (dict as_read') fs in
      let after =
        reads_set fs' as_read' gs' (find_field-set_field_self "auto_remediation" (dict as_read') fs)
          (find_field-set_field_self "actions" (dict gs') as_read) in
      let same : config' ≡ dict fs' = cc (put_action_lem fs as_read gs h k, changed) in
      rw same (
        rw (find_field-set_field_self action_type (bool enabled) gs) at (after action_type),
        λ other x ne was.
            after other
            ∙ rw (find_field-set_field_other other action_type (bool enabled) gs ne)
                (ap ok (before other x was)),
      )

  module _ (config config' config'' : Value F) (fs as_read : Fields F)
      (there : find_field "auto_remediation" fs ≡ some (dict as_read))
      (before : (t : String) → is_action_enabled config t ≡ reads (dict as_read) t)
      (switched : put_action action_type enabled config' ≡ ok config'') where
    -- The section had no dict of actions, and so no switch that could be read as false.
    from_none :
        ((t : String) (x : Bool) → is_action_enabled config t ≡ ok x → true ≡ x)
        → set_in (dict fs) "auto_remediation" "actions" (dict end) ≡ ok config'
        → IsSwitched config config''
    from_none all_on made =
        let as_read' = set_field "actions" (dict end) as_read in
        let fs' = set_field "auto_remediation" (dict as_read') fs in
        let same : config' ≡ dict fs' =
          cc (set_in_lem "auto_remediation" "actions" (dict end) fs as_read there, made) in
        put_action-IsSwitched fs' as_read' end config config''
          (find_field-set_field_self "auto_remediation" (dict as_read') fs)
          (find_field-set_field_self "actions" (dict end) as_read) all_on (rw same at switched)

    from_actions :
        (o : Option (Value F))
        → find_field "actions" as_read ≡ o
        → (if is_dict (value_or null o)
            then ok (dict fs)
            else set_in (dict fs) "auto_remediation" "actions" (dict end))
          ≡ ok config'
        → IsSwitched config config''
    from_actions (some (dict gs)) found made =
        let same : config' ≡ dict fs = cc in
        put_action-IsSwitched fs as_read gs config config'' there found
          (λ t x was. ok_inj (sym (rw found at (before t)) ∙ was)) (rw same at switched)
    from_actions none found made =
        from_none (λ t x was. ok_inj (sym (rw found at (before t)) ∙ was)) made
    from_actions (some null) found made =
        from_none (λ t x was. cc (rw found at (before t), was)) made
    from_actions (some (bool b)) found made =
        from_none (λ t x was. cc (rw found at (before t), was)) made
    from_actions (some (int z)) found made =
        from_none (λ t x was. cc (rw found at (before t), was)) made
    from_actions (some (float y)) found made =
        from_none (λ t x was. cc (rw found at (before t), was)) made
    from_actions (some (str s)) found made =
        from_none (λ t x was. cc (rw found at (before t), was)) made
    from_actions (some (list xs)) found made =
        from_none (λ t x was. cc (rw found at (before t), was)) made

  opened-IsSwitched :
      (config opened_at acting config' section actions : Value F) (fs fs' as_read : Fields F)
      → config ≡ dict fs
      → opened_at ≡ dict fs'
      → IsOpened "auto_remediation" (dict end) fs fs'
      → section ≡ value_or (dict end) (find_field "auto_remediation" fs)
      → section ≡ dict as_read
      → actions ≡ value_or null (find_field "actions" as_read)
      → (if is_dict actions
          then ok opened_at
          else set_in opened_at "auto_remediation" "actions" (dict end))
        ≡ ok acting
      → put_action action_type enabled acting ≡ ok config'
      → IsSwitched config config'
  opened-IsSwitched config opened_at acting config' section actions fs fs' as_read same same' o
        is_section is_dict_of is_actions chosen switched =
      from_actions config acting config' fs' as_read
        (o.inside ∙ ap some (sym is_section ∙ is_dict_of))
        (λ t.
          ap (λ c. is_action_enabled c t) same
          ∙ reads_before fs (dict as_read) (sym is_dict_of ∙ is_section) t)
        switched (find_field "actions" as_read) refl (rw (is_actions, same') at chosen)

  set_action_enabled-IsSwitched :
      (d d' : Disk F)
      → set_action_enabled action_type enabled d ≡ (ok true, d')
      → (config : Value F) × (config' : Value F) × (d.document ≡ ok config)
        × (d'.document ≡ ok config')
        × IsSwitched config config'
  unfolding set_action_enabled with_actions
  set_action_enabled-IsSwitched d d' h =
      let (config, config', loaded, changed, stored) = edit_stored _ d d' h in
      let (opened_at, is_open, rest) =
        >>=-eq-ok (with_section config "auto_remediation" (dict end)) _ changed in
      let (acting, made, switched) = >>=-eq-ok (with_actions opened_at) _ rest in
      let (section, read, rest') = >>=-eq-ok (index opened_at "auto_remediation") _ made in
      let (actions, got, chosen) = >>=-eq-ok (get section "actions" null) _ rest' in
      let (fs, fs', same, same', o, is_section) =
        section_opened "auto_remediation" (dict end) config opened_at section is_open read in
      let (as_read, is_dict_of, is_actions) = get-eq-ok section "actions" null got in
      (
        config,
        config',
        loaded,
        stored,
        opened-IsSwitched config opened_at acting config' section actions fs fs' as_read same same'
            o is_section is_dict_of is_actions chosen switched,
      )

  -- Once the settings page reports that an action is switched, the safeguards read the new document
  -- with that switch, and every other action as they read it in the old one. It is assumed that they
  -- could read the action in the old document.
  pub is_action_enabled-set_action_enabled :
      (config : Value F) (d d' : Disk F) (t : String) (x : Bool)
      → d.document ≡ ok config
      → is_action_enabled config t ≡ ok x
      → set_action_enabled action_type enabled d ≡ (ok true, d')
      → (config' : Value F) × (d'.document ≡ ok config')
        × (is_action_enabled config' t ≡ ok (if str_eq action_type t then enabled else x))
  is_action_enabled-set_action_enabled config d d' t x loaded was h =
      let (old, config', loaded', stored, (own, others)) = set_action_enabled-IsSwitched d d' h in
      let same : config ≡ old = ok_inj (sym loaded ∙ loaded') in
      (
        config',
        stored,
        elim (Bool-cases (str_eq action_type t)) [
          | inl named ↦
              rw named (ap (is_action_enabled config') (sym ((eq_iff action_type t).0 named)) ∙ own)
          | inr other ↦
              rw other (others t x other (subst (λ c. is_action_enabled c t ≡ ok x) same was))
        ],
      )
