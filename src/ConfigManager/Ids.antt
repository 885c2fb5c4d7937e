-- ===== src/ConfigManager/Ids.antt =====
-- ui/utils/config_manager.py and src/core/safeguards.py: where both find the ids of the whitelist.
use wasteless.Common.{
  or-right, String, ◌≡◌, refl, sym, ap, ◌∙◌, inl, inr, Bool, true, false, Option, none, some,
  eq_iff, Option-cases, if◌then◌else◌,
}
use wasteless.Python.{
  Numbers, Value, Items, Fields, null, bool, int, float, str, list, dict, nil, cons, end,
  find_field, Result, ok, raised, Exn, get, index, contains_key, any_item, equals_str, ◌>>=◌,
  >>=-eq-ok,
}
use wasteless.Safeguards.{Tags, is_whitelisted, items_of}
use wasteless.ConfigManager.{set_field, set_in, with_section}
use wasteless.ConfigManager.Lookups.{
  find_field-set_field_self, IsOpened, section_opened, set_in_lem, get-eq-ok,
}
use wasteless.ConfigManager.Whitelist.{append, no_ids, with_ids}

module _ {F : Type 0} where
  pub index-eq-ok :
      (v : Value F) (k : String) {x : Value F}
      → index v k ≡ ok x
      → (fs : Fields F) × (v ≡ dict fs) × (find_field k fs ≡ some x)
  index-eq-ok (dict fs) k h = elim (Option-cases (find_field k fs)) [
    | inl absent ↦ cc (rw absent at h)
    | inr (y, there) ↦ (fs, refl, cc (there, rw there at h))
  ]
  index-eq-ok null k h = cc
  index-eq-ok (bool b) k h = cc
  index-eq-ok (int z) k h = cc
  index-eq-ok (float x) k h = cc
  index-eq-ok (str s) k h = cc
  index-eq-ok (list xs) k h = cc

  -- The ids as the safeguards look them up.
  abbrev pub ids_at : Value F → Result (Value F)
  ids_at config =
      get config "whitelist" (dict end) >>= λ section. get section "instance_ids" (list nil)

  ids_at-opened :
      (fs fs' : Fields F)
      → IsOpened "whitelist" no_ids fs fs'
      → ids_at (dict fs') ≡ ids_at (dict fs)
  ids_at-opened fs fs' o = elim (Option-cases (find_field "whitelist" fs)) [
    | inl absent ↦ rw (o.inside, absent) refl
    | inr (v, there) ↦ rw (o.inside, there) refl
  ]

  -- `with_ids` makes a list where none is, which the safeguards read in the same way.
  pub with_ids_same :
      (config config' : Value F) → with_ids config ≡ ok config' → ids_at config' ≡ ids_at config
  unfolding with_ids set_in
  with_ids_same config config' h =
      let (section, read, rest) = >>=-eq-ok (index config "whitelist") _ h in
      let (there, given, chosen) = >>=-eq-ok (contains_key section "instance_ids") _ rest in
      let (fs, was, found) = index-eq-ok config "whitelist" read in
      go config config' section there fs was found given chosen
    where
      fill :
          (o : Option (Value F)) (gs fs : Fields F) (c : Value F)
          → find_field "instance_ids" gs ≡ o
          → find_field "whitelist" fs ≡ some (dict gs)
          → contains_key (dict gs) "instance_ids" ≡ ok false
          → set_in (dict fs) "whitelist" "instance_ids" (list nil) ≡ ok c
          → ids_at c ≡ ids_at (dict fs)
      fill (some v) gs fs c e found given made = cc (rw e at given)
      fill none gs fs c e found given made =
          let gs' = set_field "instance_ids" (list nil) gs in
          let same : c ≡ dict (set_field "whitelist" (dict gs') fs) =
            cc (set_in_lem "whitelist" "instance_ids" (list nil) fs gs found, made) in
          rw
            (
              same,
              find_field-set_field_self "whitelist" (dict gs') fs,
              find_field-set_field_self "instance_ids" (list nil) gs,
              found,
              e,
            )
            refl

      go :
          (config config' section : Value F) (there : Bool) (fs : Fields F)
          → config ≡ dict fs
          → find_field "whitelist" fs ≡ some section
          → contains_key section "instance_ids" ≡ ok there
          → (if there then ok config else set_in config "whitelist" "instance_ids" (list nil))
            ≡ ok config'
          → ids_at config' ≡ ids_at config
      go config config' section true fs was found given chosen =
          let same : config' ≡ config = cc in ap ids_at same
      go config config' (dict gs) false fs was found given chosen =
          fill (find_field "instance_ids" gs) gs fs config' refl found given
            (sym (ap (λ c. set_in c "whitelist" "instance_ids" (list nil)) was) ∙ chosen)
          ∙ sym (ap ids_at was)
      go config config' (list xs) false fs was found given chosen = cc (
          rw found at (sym (ap (λ c. set_in c "whitelist" "instance_ids" (list nil)) was) ∙ chosen))
      go config config' (str s) false fs was found given chosen = cc (
          rw found at (sym (ap (λ c. set_in c "whitelist" "instance_ids" (list nil)) was) ∙ chosen))
      go config config' null false fs was found given chosen = cc
      go config config' (bool b) false fs was found given chosen = cc
      go config config' (int z) false fs was found given chosen = cc
      go config config' (float x) false fs was found given chosen = cc

pub with_section_same :
    {F : Type 0} (config opened filled : Value F)
    → with_section config "whitelist" no_ids ≡ ok opened
    → with_ids opened ≡ ok filled
    → ids_at opened ≡ ids_at config
unfolding with_ids
with_section_same config opened filled is_open is_filled =
    let (section, read, rest) = >>=-eq-ok (index opened "whitelist") _ is_filled in
    let (fs, fs', was, same, o, is_section) =
      section_opened "whitelist" no_ids config opened section is_open read in
    ap ids_at same ∙ ids_at-opened fs fs' o ∙ sym (ap ids_at was)

pub any_item-append :
    {F : Type 0} (i : String) (xs : Items F) → any_item (equals_str i) (append xs (str i)) ≡ true
unfolding append
any_item-append i nil = rw ((eq_iff i i).1 refl) refl
any_item-append i (cons x xs) = or-right _ _ (any_item-append i xs)

module _ {F : Type 0} ⦃n : Numbers F⦄ where
  -- With the ids `xs`, of which one is the instance's.
  pub is_whitelisted_at :
      (config : Value F) (i : String) (tags : Tags) (xs : Items F)
      → ids_at config ≡ ok (list xs)
      → any_item (equals_str i) xs ≡ true
      → is_whitelisted config i tags ≡ ok true
  unfolding is_whitelisted items_of
  is_whitelisted_at config i tags xs ids listed =
      let (section, got, read) = >>=-eq-ok (get config "whitelist" (dict end)) _ ids in
      let (gs, is_dict_of, value) = get-eq-ok section "instance_ids" (list nil) read in
      let got' : get config "whitelist" (dict end) ≡ ok (dict gs) = got ∙ ap ok is_dict_of in
      rw (got', sym value, listed) refl

  unreadable :
      (config ids : Value F) (i : String) (tags : Tags) {e : Exn}
      → ids_at config ≡ ok ids
      → items_of ids ≡ raised e
      → is_whitelisted config i tags ≡ raised e
  unfolding is_whitelisted
  unreadable config ids i tags at_ids no_items =
      let (section, got, read) = >>=-eq-ok (get config "whitelist" (dict end)) _ at_ids in
      let (gs, is_dict_of, value) = get-eq-ok section "instance_ids" (list nil) read in
      let got' : get config "whitelist" (dict end) ≡ ok (dict gs) = got ∙ ap ok is_dict_of in
      rw (got', sym value, no_items) refl

  -- Ids that the safeguards could read, and of which `in` says that one is listed, list it.
  pub is_whitelisted_listed :
      (config ids : Value F) (i : String) (tags : Tags) (x : Bool)
      → ids_at config ≡ ok ids
      → contains_key ids i ≡ ok true
      → is_whitelisted config i tags ≡ ok x
      → is_whitelisted config i tags ≡ ok true
  unfolding items_of
  is_whitelisted_listed config (list xs) i tags x at_ids listed h =
      is_whitelisted_at config i tags xs at_ids cc
  is_whitelisted_listed config (dict fs) i tags x at_ids listed h =
      cc (unreadable config (dict fs) i tags at_ids refl, h)
  is_whitelisted_listed config (str s) i tags x at_ids listed h =
      cc (unreadable config (str s) i tags at_ids refl, h)
  is_whitelisted_listed config null i tags x at_ids listed h = cc
  is_whitelisted_listed config (bool b) i tags x at_ids listed h = cc
  is_whitelisted_listed config (int z) i tags x at_ids listed h = cc
  is_whitelisted_listed config (float y) i tags x at_ids listed h = cc
