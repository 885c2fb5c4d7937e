-- ===== src/ConfigManager/Listed.antt =====
-- ui/utils/config_manager.py and src/core/safeguards.py: an instance that the settings page puts on
-- the whitelist, as the safeguards read it.
use wasteless.Common.{
  String, ◌≡◌, refl, sym, ap, subst, ◌∙◌, Bool, true, false, Option, none, some, if◌then◌else◌,
}
use wasteless.Python.{
  ok_inj, Numbers, Value, Items, Fields, null, bool, int, float, str, list, dict, find_field,
  Result, ok, raised, index, contains_key, ◌>>=◌, >>=-eq-ok,
}
use wasteless.Safeguards.{Tags, is_whitelisted}
use wasteless.ConfigManager.{Disk, validate_instance_id, set_field, set_in, with_section}
use wasteless.ConfigManager.Lookups.{find_field-set_field_self, set_in_lem}
use wasteless.ConfigManager.Saves.{saved_stored}
use wasteless.ConfigManager.Whitelist.{
  append, appended, no_ids, with_ids, list_id, if_changed, add_instance_to_whitelist,
}
use wasteless.ConfigManager.Ids.{
  index-eq-ok, ids_at, with_section_same, with_ids_same, any_item-append, is_whitelisted_at,
  is_whitelisted_listed,
}

module _ {F : Type 0} where
  -- What `list_id` did to a document whose ids were `ids`.
  pub data Listing (i : String) (config : Value F) : Option (Value F) → Type 0 where
    was_there :
        (ids : Value F)
        → ids_at config ≡ ok ids
        → contains_key ids i ≡ ok true
        → Listing i config none
    added :
        {config' : Value F} (xs : Items F)
        → ids_at config' ≡ ok (list (append xs (str i)))
        → Listing i config (some config')

  list_id-Listing :
      (i : String) (config : Value F) (out : Option (Value F))
      → list_id i config ≡ ok out
      → Listing i config out
  unfolding list_id
  list_id-Listing i config out h =
      let (section, read, rest) = >>=-eq-ok (index config "whitelist") _ h in
      let (ids, found, rest') = >>=-eq-ok (index section "instance_ids") _ rest in
      let (listed, asked, chosen) = >>=-eq-ok (contains_key ids i) _ rest' in
      let (fs, was, at_section) = index-eq-ok config "whitelist" read in
      let (gs, is_dict_of, at_ids) = index-eq-ok section "instance_ids" found in
      go config ids listed fs gs out was (at_section ∙ ap some is_dict_of) at_ids asked chosen
    where
      grown :
          (config : Value F) (fs gs : Fields F) (c : Value F) (xs : Items F)
          → config ≡ dict fs
          → find_field "whitelist" fs ≡ some (dict gs)
          → set_in config "whitelist" "instance_ids" (list (append xs (str i))) ≡ ok c
          → ids_at c ≡ ok (list (append xs (str i)))
      grown config fs gs c xs was there set =
          let grown_ids : Value F = list (append xs (str i)) in
          let gs' = set_field "instance_ids" grown_ids gs in
          let same : c ≡ dict (set_field "whitelist" (dict gs') fs) = cc (
            set_in_lem "whitelist" "instance_ids" grown_ids fs gs there,
            ap (λ d. set_in d "whitelist" "instance_ids" grown_ids) was,
            set,
          ) in
          rw
            (
              same,
              find_field-set_field_self "whitelist" (dict gs') fs,
              find_field-set_field_self "instance_ids" grown_ids gs,
            )
            refl

      go :
          (config ids : Value F) (listed : Bool) (fs gs : Fields F) (out : Option (Value F))
          → config ≡ dict fs
          → find_field "whitelist" fs ≡ some (dict gs)
          → find_field "instance_ids" gs ≡ some ids
          → contains_key ids i ≡ ok listed
          → (if listed
              then ok none
              else (appended ids (str i) >>= λ ids'.
                  set_in config "whitelist" "instance_ids" ids' >>= λ c. ok (some c)))
            ≡ ok out
          → Listing i config out
      go config ids true fs gs out was there at_ids asked chosen =
          subst (Listing i config) (ok_inj chosen)
            (was_there ids (rw (was, there, at_ids) refl) asked)
      go config (list xs) false fs gs out was there at_ids asked chosen =
          let (c, set, rest) =
            >>=-eq-ok (set_in config "whitelist" "instance_ids" (list (append xs (str i)))) _
              chosen in
          subst (Listing i config) (ok_inj rest) (added xs (grown config fs gs c xs was there set))
      go config (dict hs) false fs gs out was there at_ids asked chosen = cc
      go config (str s) false fs gs out was there at_ids asked chosen = cc
      go config null false fs gs out was there at_ids asked chosen = cc
      go config (bool b) false fs gs out was there at_ids asked chosen = cc
      go config (int z) false fs gs out was there at_ids asked chosen = cc
      go config (float x) false fs gs out was there at_ids asked chosen = cc

module _ {F : Type 0} ⦃n : Numbers F⦄ where
  if_changed_stored :
      (r : Result (Option (Value F))) (d d' : Disk F)
      → if_changed r d ≡ (ok true, d')
      → (out : Option (Value F)) × (r ≡ ok out)
        × (elim out [ none ↦ d.document | some c ↦ ok c ] ≡ d'.document)
  if_changed_stored (raised e) d d' h = cc
  if_changed_stored (ok none) d d' h = (none, refl, ap (λ p. p.1.document) h)
  if_changed_stored (ok (some c)) d d' h =
      let (c', same, stored) = saved_stored (ok c) d d' h in (some c, refl, same ∙ sym stored)

  after_listing :
      (i : String) (config opened filled : Value F) (out : Option (Value F)) (d d' : Disk F)
      → d.document ≡ ok config
      → ids_at filled ≡ ids_at config
      → Listing i filled out
      → (elim out [ none ↦ d.document | some c ↦ ok c ]) ≡ d'.document
      → (config' : Value F) × (d'.document ≡ ok config')
        × ((tags : Tags) (x : Bool)
            → is_whitelisted config i tags ≡ ok x
            → is_whitelisted config' i tags ≡ ok true)
  after_listing i config opened filled out d d' loaded same (was_there ids at listed) kept = (
    config,
    sym kept ∙ loaded,
    λ tags x h. is_whitelisted_listed config ids i tags x (sym same ∙ at) listed h,
  )
  after_listing i config opened filled out d d' loaded same (added {config'} xs at) kept = (
    config',
    sym kept,
    λ tags x h. is_whitelisted_at config' i tags (append xs (str i)) at (any_item-append i xs),
  )

  listed_by :
      (s : String) (d d' : Disk F)
      → add_instance_to_whitelist s d ≡ (ok true, d')
      → (i : String) × (config : Value F) × (config' : Value F) × (validate_instance_id s ≡ ok i)
        × (d.document ≡ ok config)
        × (d'.document ≡ ok config')
        × ((tags : Tags) (x : Bool)
            → is_whitelisted config i tags ≡ ok x
            → is_whitelisted config' i tags ≡ ok true)
  unfolding add_instance_to_whitelist
  listed_by s d d' h =
      let (out, made, kept) = if_changed_stored _ d d' h in
      let (i, valid, made') = >>=-eq-ok (validate_instance_id s) _ made in
      let (config, loaded, made'') = >>=-eq-ok d.document _ made' in
      let (opened, is_open, rest) = >>=-eq-ok (with_section config "whitelist" no_ids) _ made'' in
      let (filled, is_filled, found) = >>=-eq-ok (with_ids opened) _ rest in
      let (config', stored, listed) =
        after_listing i config opened filled out d d' loaded
          (with_ids_same opened filled is_filled
            ∙ with_section_same config opened filled is_open is_filled)
          (list_id-Listing i filled out found) kept in
      (i, config, config', valid, loaded, stored, listed)

  -- Once the settings page reports that an instance is on the whitelist, the safeguards find it there
  -- in the new document, whatever its tags. It is assumed that they could read the whitelist of the old
  -- document.
  pub is_whitelisted-add_instance_to_whitelist :
      (s i : String) (config : Value F) (d d' : Disk F) (tags : Tags) (x : Bool)
      → validate_instance_id s ≡ ok i
      → d.document ≡ ok config
      → is_whitelisted config i tags ≡ ok x
      → add_instance_to_whitelist s d ≡ (ok true, d')
      → (config' : Value F) × (d'.document ≡ ok config') × (is_whitelisted config' i tags ≡ ok true)
  is_whitelisted-add_instance_to_whitelist s i config d d' tags x valid loaded readable h =
      let (i', old, config', valid', loaded', stored, listed) = listed_by s d d' h in
      let same : config ≡ old = ok_inj (sym loaded ∙ loaded') in
      let same_id : i ≡ i' = ok_inj (sym valid ∙ valid') in
      (
        config',
        stored,
        subst (λ j. is_whitelisted config' j tags ≡ ok true) (sym same_id)
            (listed tags x (
              subst (λ j. is_whitelisted old j tags ≡ ok x) same_id
                (subst (λ c. is_whitelisted c i tags ≡ ok x) same readable))),
      )
