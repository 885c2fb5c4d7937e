-- ===== src/Safeguards/Loaded.antt =====
-- What a configuration that has passed `_validate_config` guarantees to the checks.
use wasteless.Common.{String, ◌≡◌, refl, ◌⊎◌, inl, inr, true, not, none, some, arith, Option-cases}
use wasteless.Common.Int.{pos}
use wasteless.Python.{
  Numbers, Value, Fields, null, bool, int, float, str, list, dict, end, field, get, find_field,
  or_empty, is_number, as_number, error, invalid_config, ok, raise_if, >>=-eq-ok, >>-eq-ok,
}
use wasteless.Safeguards.{protection}
use wasteless.Safeguards.Config.{protection_bounds, check_bound, check_bounds, validate_config}

module _ {F : Type 0} ⦃n : Numbers F⦄ where
  pub or_empty-dict : (p : Fields F) → or_empty (dict p) ≡ dict p
  or_empty-dict end = refl
  or_empty-dict (field k v fs) = refl

  number_value : (v : Value F) → is_number v ≡ true → (x : F) × (as_number v ≡ ok x)
  number_value (int z) h = (n.of_int z, refl)
  number_value (float x) h = (x, refl)
  number_value null h = cc
  number_value (bool b) h = cc
  number_value (str s) h = cc
  number_value (list xs) h = cc
  number_value (dict fs) h = cc

  -- A key that passes its bound: absent, or a number within the bound.
  abbrev IsBounded : Fields F → String × F × F → Type 0
  IsBounded p (k, lo, hi) =
      (find_field k p ≡ none)
      ⊎ ((v : Value F) × (x : F) × (find_field k p ≡ some v)
          × (as_number v ≡ ok x)
          × (n.le lo x ≡ true)
          × (n.le x hi ≡ true))

  check_bound-IsBounded :
      (p : Fields F) (k : String) (lo hi : F)
      → check_bound (dict p) (k, lo, hi) ≡ ok tt
      → IsBounded p (k, lo, hi)
  unfolding check_bound
  check_bound-IsBounded p k lo hi e = elim (Option-cases (find_field k p)) [
    | inl absent ↦ inl absent
    | inr (v, found) ↦
        let e₁ = rw found at e in
        let (numeric, e₂) = >>-eq-ok (raise_if (not (is_number v)) (error invalid_config)) _ e₁ in
        let (x, read, e₃) = >>=-eq-ok (as_number v) _ e₂ in
        inr (v, x, found, read, ground arith, ground arith)
  ]

  -- The setting that a check reads: the default, or a number within the bound.
  abbrev IsSetting : F → F → F → F → Type 0
  IsSetting lo hi default x = (x ≡ default) ⊎ ((n.le lo x ≡ true) × (n.le x hi ≡ true))

  module _ (config : Value F) (p : Fields F)
      (section : get config "protection" (dict end) ≡ ok (dict p)) where
    protection-IsSetting :
        (k : String) (lo hi : F) (d : Value F) (default : F)
        → as_number d ≡ ok default
        → IsBounded p (k, lo, hi)
        → (x : F) × (protection config k d ≡ ok x) × IsSetting lo hi default x
    unfolding protection
    protection-IsSetting k lo hi d default reads (inl absent) =
        (default, rw (section, absent) reads, inl refl)
    protection-IsSetting k lo hi d default reads (inr (v, x, found, read, low, high)) =
        (x, rw (section, found) read, inr (low, high))

    -- The four thresholds of a validated configuration.
    pub record HasThresholds : Type 0 where
      pub age :
          (x : F) × (protection config "min_instance_age_days" (int (pos 30)) ≡ ok x)
          × IsSetting (n.of_int (pos 0)) (n.of_int (pos 3650)) (n.of_int (pos 30)) x
      pub idle :
          (x : F) × (protection config "min_idle_days" (int (pos 14)) ≡ ok x)
          × IsSetting (n.of_int (pos 0)) (n.of_int (pos 3650)) (n.of_int (pos 14)) x
      pub confidence :
          (x : F) × (protection config "min_confidence_score" (float (n.decimal 8 1)) ≡ ok x)
          × IsSetting (n.decimal 0 1) (n.decimal 10 1) (n.decimal 8 1) x
      pub limit :
          (x : F) × (protection config "max_instances_per_run" (int (pos 3)) ≡ ok x)
          × IsSetting (n.of_int (pos 1)) (n.of_int (pos 10_000)) (n.of_int (pos 3)) x

    check_bounds-HasThresholds : check_bounds (dict p) protection_bounds ≡ ok tt → HasThresholds
    unfolding check_bounds
    check_bounds-HasThresholds e =
        let (age, e₁) = >>-eq-ok (check_bound (dict p) _) _ e in
        let (idle, e₂) = >>-eq-ok (check_bound (dict p) _) _ e₁ in
        let (confidence, e₃) = >>-eq-ok (check_bound (dict p) _) _ e₂ in
        let (limit, _) = >>-eq-ok (check_bound (dict p) _) _ e₃ in
        record {
          age = protection-IsSetting _ _ _ _ _ refl (check_bound-IsBounded p _ _ _ age);
          idle = protection-IsSetting _ _ _ _ _ refl (check_bound-IsBounded p _ _ _ idle);
          confidence =
              protection-IsSetting _ _ _ _ _ refl (check_bound-IsBounded p _ _ _ confidence);
          limit = protection-IsSetting _ _ _ _ _ refl (check_bound-IsBounded p _ _ _ limit);
        }

-- Each threshold that a validated configuration hands to a check, whose protection section is a
-- dict, is the default of that check or a number within the bounds of that key.
pub validate_config-HasThresholds :
    {F : Type 0} ⦃n : Numbers F⦄ (config : Value F) (p : Fields F)
    (section : get config "protection" (dict end) ≡ ok (dict p))
    → validate_config config ≡ ok tt
    → HasThresholds config p section
unfolding validate_config
validate_config-HasThresholds config p section e =
    let e₁ = rw (section, or_empty-dict p) at e in
    check_bounds-HasThresholds config p section
      (>>-eq-ok (check_bounds (dict p) protection_bounds) _ e₁).0
