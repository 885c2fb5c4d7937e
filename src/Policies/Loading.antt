-- ===== src/Policies/Loading.antt =====
-- ui/utils/policies.py and src/core/safeguards.py: what the safeguards load of an imported policy.
use wasteless.Common.{
  ◌≡◌, refl, sym, ap, ◌∙◌, inl, inr, String, Option, none, some, List, [], ◌∷◌, str_eq, All,
  Bool-cases,
}
use wasteless.Python.{
  Numbers, ComparesInts, IsOrdered, Value, Fields, null, bool, int, float, str, list, dict, end,
  find_field, Result, ok, raised,
}
use wasteless.Safeguards.Config.{protection_bounds, check_bound, check_bounds}
use wasteless.ConfigManager.{Conversions, Disk, set_field, save_config}
use wasteless.ConfigManager.Lookups.{find_field-set_field, find_field-set_field_other}
use wasteless.ConfigManager.Bounds.{IsBounded, validated-IsBounded, protection_loads, or_empty_dict}
use wasteless.Policies.{
  Problem, limited_keys, fields_of, section_problems, later_problems, limit_each, unless_problems,
  validate_policy, ImportReply, imported, parsed, import_of, parse_policy_yaml, api_policies_import,
}
use wasteless.Policies.Limited.{
  IsDictOrMissing, IsLimited, limit_each_keeps, limit_each_problems, all-IsLimited,
}
use wasteless.Policies.Clean.{sections_clean, whitelist_clean, schedule_clean, auto_clean}

module _ {F : Type 0} ⦃n : Numbers F⦄ where
  later_clean : (fs : Fields F) (ps : List Problem) → later_problems fs ps ≡ [] → ps ≡ []
  later_clean fs ps h =
      let auto = fields_of (find_field "auto_remediation" fs) in
      let whitelist = fields_of (find_field "whitelist" fs) in
      let schedule = fields_of (find_field "schedule" fs) in
      auto_clean auto ps (whitelist_clean whitelist _ (schedule_clean schedule _ h))

  at_end :
      (fs : Fields F) (ps : List Problem) (config : Value F)
      → unless_problems fs ps ≡ ok config
      → (ps ≡ []) × (config ≡ dict fs)
  at_end fs [] config h = (refl, cc h)
  at_end fs (p ∷ ps) config h = cc

  bound_found :
      (gs : Fields F) (k : String) (lo hi : F) (o : Option (Value F))
      → find_field k gs ≡ o
      → ((v : Value F) → o ≡ some v → IsBounded v lo hi)
      → check_bound (dict gs) (k, lo, hi) ≡ ok tt
  unfolding check_bound
  bound_found gs k lo hi none is bounded = rw is refl
  bound_found gs k lo hi (some v) is bounded =
      let (number, (x, as_x, inside)) = bounded v refl in rw (is, number, as_x, inside) refl

module _ {F : Type 0} ⦃n : Numbers F⦄ (conv : Conversions F) (cmp : ComparesInts n)
    (order : IsOrdered n) where
  protected :
      (fs gs : Fields F)
      → find_field "protection" fs ≡ some (dict gs)
      → All (λ (x : String × String). IsLimited conv x.0 x.1 fs) limited_keys
      → check_bounds (dict gs) protection_bounds ≡ ok tt
  unfolding check_bounds
  protected fs gs there (_, (_, (age, (idle, (score, (most, _)))))) =
      let b1 = bound_found gs "min_instance_age_days" _ _ _ refl (λ v found.
        let (v0, valid) = age gs v there found in
        (validated-IsBounded cmp order conv "min_instance_age_days" v0 v valid).0 refl) in
      let b2 = bound_found gs "min_idle_days" _ _ _ refl (λ v found.
        let (v0, valid) = idle gs v there found in
        (validated-IsBounded cmp order conv "min_idle_days" v0 v valid).1.0 refl) in
      let b3 = bound_found gs "min_confidence_score" _ _ _ refl (λ v found.
        let (v0, valid) = score gs v there found in
        (validated-IsBounded cmp order conv "min_confidence_score" v0 v valid).1.1.0 refl) in
      let b4 = bound_found gs "max_instances_per_run" _ _ _ refl (λ v found.
        let (v0, valid) = most gs v there found in
        (validated-IsBounded cmp order conv "max_instances_per_run" v0 v valid).1.1.1.0 refl) in
      rw (b1, b2, b3, b4) refl

  missing_loads : check_bounds {F = F} (dict end) protection_bounds ≡ ok tt
  unfolding check_bounds check_bound
  missing_loads = refl

  loaded :
      (fs : Fields F) (o : Option (Value F))
      → find_field "protection" fs ≡ o
      → IsDictOrMissing "protection" fs
      → All (λ (x : String × String). IsLimited conv x.0 x.1 fs) limited_keys
      → protection_loads (dict fs) ≡ ok tt
  loaded fs none is dicts limited = rw is missing_loads
  loaded fs (some v) is dicts limited =
      let (gs, value) = dicts v is in
      let there : find_field "protection" fs ≡ some (dict gs) = is ∙ ap some value in
      rw (there, or_empty_dict gs) (protected fs gs there limited)

  still_dict :
      (s k : String) (fs gs : Fields F) (v : Value F)
      → IsDictOrMissing "protection" fs
      → IsDictOrMissing "protection" (set_field s (dict (set_field k v gs)) fs)
  still_dict s k fs gs v before w found = elim (Bool-cases (str_eq s "protection")) [
    | inl same ↦
        let now : find_field "protection" (set_field s (dict (set_field k v gs)) fs)
            ≡ some (dict (set_field k v gs)) =
          find_field-set_field "protection" s (dict (set_field k v gs)) fs ∙ rw same refl in
        (set_field k v gs, cc (sym now ∙ found))
    | inr other ↦ before w (sym (find_field-set_field_other "protection" s _ fs other) ∙ found)
  ]

  protection_loads-validate_policy :
      (document config : Value F)
      → validate_policy conv document ≡ ok config
      → protection_loads config ≡ ok tt
  unfolding validate_policy
  protection_loads-validate_policy (dict fs) config h =
      let start = section_problems fs [] in
      let st = limit_each conv limited_keys (fs, start) in
      let (none_later, is) = at_end st.0 (later_problems st.0 st.1) config h in
      let clean = later_clean st.0 st.1 none_later in
      let (_, dicts) =
        sections_clean "protection" fs [] refl
          (limit_each_problems conv limited_keys fs start clean) in
      let dicts' =
        limit_each_keeps conv (IsDictOrMissing "protection")
          (λ s k fs' gs v0 v before there valid. still_dict s k fs' gs v before) limited_keys fs
          start dicts in
      rw is (loaded st.0 _ refl dicts' (all-IsLimited conv limited_keys fs start clean))
  protection_loads-validate_policy null config h = cc
  protection_loads-validate_policy (bool b) config h = cc
  protection_loads-validate_policy (int z) config h = cc
  protection_loads-validate_policy (float x) config h = cc
  protection_loads-validate_policy (str s) config h = cc
  protection_loads-validate_policy (list xs) config h = cc

  parsed_loads :
      (r : Result (Value F)) (config : Value F)
      → parsed conv r ≡ ok config
      → protection_loads config ≡ ok tt
  parsed_loads (raised e) config h = cc
  parsed_loads (ok null) config h = cc
  parsed_loads (ok (bool b)) config h = protection_loads-validate_policy (bool b) config h
  parsed_loads (ok (int z)) config h = protection_loads-validate_policy (int z) config h
  parsed_loads (ok (float x)) config h = protection_loads-validate_policy (float x) config h
  parsed_loads (ok (str s)) config h = protection_loads-validate_policy (str s) config h
  parsed_loads (ok (list xs)) config h = protection_loads-validate_policy (list xs) config h
  parsed_loads (ok (dict fs)) config h = protection_loads-validate_policy (dict fs) config h

  import_stored :
      (r : Result (Value F)) (d d' : Disk F)
      → import_of conv r d ≡ (imported, d')
      → (config : Value F) × (r ≡ ok config) × (d'.document ≡ ok config)
  unfolding save_config
  import_stored (raised e) d d' h = cc
  import_stored (ok config) d d' h = elim (Bool-cases d.writable) [
    | inl writes ↦
        (config, refl, sym (ap (λ (x : ImportReply × Disk F). x.1.document) (rw writes at h)))
    | inr fails ↦ cc (rw fails at h)
  ]

  -- A policy that is reported as imported is on the disk, with a protection section that the
  -- safeguards load, whatever the text, the parser and the file before. It is assumed that ints
  -- compare as ints and that no float is NaN.
  pub protection_loads-api_policies_import :
      (safe_load : String → Result (Value F)) (text : String) (d d' : Disk F)
      → api_policies_import conv safe_load text d ≡ (imported, d')
      → (config : Value F) × (d'.document ≡ ok config) × (protection_loads config ≡ ok tt)
  unfolding api_policies_import parse_policy_yaml
  protection_loads-api_policies_import safe_load text d d' h =
      let (config, accepted, stored) = import_stored (parsed conv (safe_load text)) d d' h in
      (config, stored, parsed_loads (safe_load text) config accepted)
