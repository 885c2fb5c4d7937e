-- ===== src/ConfigManager/Bounds.antt =====
-- ui/utils/config_manager.py and src/core/safeguards.py: what the settings page accepts as a
-- protection rule, and what the safeguards load.
use wasteless.Common.{
  or-false-left, or-false-right, ℕ, ◌≤◌, String, ◌≡◌, refl, sym, subst, ap, ◌∙◌, inl, inr, true,
  false, ◌||◌, Option, none, some, List, [], ◌∷◌, str_eq, eq_iff, arith, Bool-cases, ◌&&◌, All,
}
use wasteless.Common.Int.{ℤ, pos, negsuc, ltb_ℤ, leb_ℤ}
use wasteless.Python.{
  ok_inj, Numbers, ComparesInts, IsOrdered, Value, Fields, dict, end, float, int, find_field, field,
  get, value_or, or_empty, Result, ok, raised, is_number, as_number, error, invalid_config, ◌>>=◌,
  >>-eq-ok,
}
use wasteless.Safeguards.Config.{protection_bounds, check_bound, check_bounds}
use wasteless.ConfigManager.{edit, Conversions, Disk, set_field}
use wasteless.ConfigManager.Lookups.{
  find_field-set_field, find_field-set_field_self, find_field-set_field_other,
}
use wasteless.ConfigManager.Sections.{IsPut, put_in-IsPut}
use wasteless.ConfigManager.Saves.{edit_stored}
use wasteless.ConfigManager.Limits.{
  whole_within, real_within, to_int, to_float, validate_config_value, update_protection_rule,
  edit_valid,
}

module _ {F : Type 0} ⦃n : Numbers F⦄ where
  -- What `check_bound` asks of a value that is there.
  abbrev pub IsBounded : Value F → F → F → Type 0
  IsBounded v lo hi =
      (is_number v ≡ true) × ((x : F) × (as_number v ≡ ok x) × ((n.le lo x && n.le x hi) ≡ true))

  check_bound_set :
      (key k : String) (lo hi : F) (v : Value F) (gs : Fields F)
      → (key ≡ k → IsBounded v lo hi)
      → check_bound (dict gs) (k, lo, hi) ≡ ok tt
      → check_bound (dict (set_field key v gs)) (k, lo, hi) ≡ ok tt
  unfolding check_bound
  check_bound_set key k lo hi v gs bounded before = elim (Bool-cases (str_eq key k)) [
    | inl same ↦
        let (number, (x, as_x, inside)) = bounded ((eq_iff key k).0 same) in
        let there : find_field k (set_field key v gs) ≡ some v =
          find_field-set_field k key v gs ∙ rw same refl in
        rw (there, number, as_x, inside) refl
    | inr other ↦ rw (find_field-set_field_other k key v gs other) before
  ]

  check_bounds_set :
      (key : String) (v : Value F) (gs : Fields F) (bounds : List (String × F × F))
      → All (λ b. key ≡ b.0 → IsBounded v b.1 b.2) bounds
      → check_bounds (dict gs) bounds ≡ ok tt
      → check_bounds (dict (set_field key v gs)) bounds ≡ ok tt
  unfolding check_bounds
  check_bounds_set key v gs [] bounded before = refl
  check_bounds_set key v gs ((k, lo, hi) ∷ bounds) bounded before =
      let (first, rest) = >>-eq-ok (check_bound (dict gs) (k, lo, hi)) _ before in
      rw (check_bound_set key k lo hi v gs bounded.0 first)
        (check_bounds_set key v gs bounds bounded.1 rest)

in_range :
    (lo hi lo' hi' : ℕ) (z : ℤ)
    → lo' ≤ lo
    → hi ≤ hi'
    → (ltb_ℤ z (pos lo) || ltb_ℤ (pos hi) z) ≡ false
    → (leb_ℤ (pos lo') z && leb_ℤ z (pos hi')) ≡ true
in_range lo hi lo' hi' (pos z) p q h = ground arith
in_range lo hi lo' hi' (negsuc z) p q h = ground arith

module _ {F : Type 0} ⦃n : Numbers F⦄ (cmp : ComparesInts n) (order : IsOrdered n) where
  whole-IsBounded :
      (lo hi lo' hi' : ℕ) (z : Option ℤ) (v : Value F)
      → lo' ≤ lo
      → hi ≤ hi'
      → whole_within lo hi z ≡ ok v
      → IsBounded v (n.of_int (pos lo')) (n.of_int (pos hi'))
  whole-IsBounded lo hi lo' hi' none v p q h = cc
  whole-IsBounded lo hi lo' hi' (some z) v p q h =
      elim (Bool-cases (ltb_ℤ z (pos lo) || ltb_ℤ (pos hi) z)) [
        | inl outside ↦ cc (rw outside at h)
        | inr inside ↦
            let same : v ≡ int z = cc (rw inside at h) in
            rw same (
              refl,
              (
                n.of_int z,
                refl,
                rw (cmp.le_int (pos lo') z, cmp.le_int z (pos hi'))
                    (in_range lo hi lo' hi' z p q inside),
              ),
            )
      ]

  real-IsBounded :
      (lo hi : F) (x : Option F) (v : Value F) → real_within lo hi x ≡ ok v → IsBounded v lo hi
  real-IsBounded lo hi none v h = cc
  real-IsBounded lo hi (some x) v h = elim (Bool-cases (n.lt x lo || n.lt hi x)) [
    | inl outside ↦ cc (rw outside at h)
    | inr inside ↦
        let same : v ≡ float x = cc (rw inside at h) in
        let above = order.not_lt_le x lo (or-false-left _ _ inside) in
        let below = order.not_lt_le hi x (or-false-right _ _ inside) in
        rw same (refl, (x, refl, rw (above, below) refl))
  ]

  module _ (conv : Conversions F) where
    pub validated-IsBounded :
        (key : String) (value v : Value F)
        → validate_config_value conv key value ≡ ok v
        → All (λ b. key ≡ b.0 → IsBounded v b.1 b.2) protection_bounds
    unfolding validate_config_value
    validated-IsBounded key value v h = (
      λ e.
          whole-IsBounded 1 365 0 3650 (to_int conv value) v (omega arith) (omega arith)
            (rw e at h),
      (
        λ e.
            whole-IsBounded 1 90 0 3650 (to_int conv value) v (omega arith) (omega arith)
              (rw e at h),
        (
          λ e. real-IsBounded _ _ (to_float conv value) v (rw e at h),
          (
            λ e.
                whole-IsBounded 1 100 1 10_000 (to_int conv value) v (omega arith) (omega arith)
                  (rw e at h),
            tt,
          ),
        ),
      ),
    )

pub or_empty_dict : {F : Type 0} ⦃n : Numbers F⦄ (fs : Fields F) → or_empty (dict fs) ≡ dict fs
or_empty_dict end = refl
or_empty_dict (field k v fs) = refl

-- What the loader asks of the protection section.
abbrev pub protection_loads : {F : Type 0} ⦃n : Numbers F⦄ → Value F → Result (Unit {0})
protection_loads config =
    get config "protection" (dict end) >>= λ p. check_bounds (or_empty p) protection_bounds

module _ {F : Type 0} ⦃n : Numbers F⦄ (conv : Conversions F) where
  put_loads :
      (key : String) (v config config' : Value F) (put : IsPut "protection" key v config config')
      → All (λ b. key ≡ b.0 → IsBounded v b.1 b.2) protection_bounds
      → protection_loads config ≡ ok tt
      → protection_loads config' ≡ ok tt
  put_loads key v config config' put bounded before =
      let before' : check_bounds (dict put.gs) protection_bounds ≡ ok tt =
        sym (loads_at config put.fs put.gs put.was put.section) ∙ before in
      loads_at config' _ (set_field key v put.gs) put.becomes
        (ap (value_or (dict end)) (find_field-set_field_self "protection" _ put.opened))
      ∙ check_bounds_set key v put.gs protection_bounds bounded before'
    where
      loads_at :
          (c : Value F) (fs gs : Fields F)
          → c ≡ dict fs
          → value_or (dict end) (find_field "protection" fs) ≡ dict gs
          → protection_loads c ≡ check_bounds (dict gs) protection_bounds
      loads_at c fs gs same section = rw (same, section, or_empty_dict gs) refl

  edit_valid_stored :
      (r : Result (Value F)) (change : Value F → Value F → Result (Value F)) (d d' : Disk F)
      → edit_valid r change d ≡ (ok true, d')
      → (v : Value F) × (r ≡ ok v) × (edit (change v) d ≡ (ok true, d'))
  edit_valid_stored (raised e) change d d' h = cc
  edit_valid_stored (ok v) change d d' h = (v, refl, h)

  updated :
      (cmp : ComparesInts n) (order : IsOrdered n) (key : String) (value : Value F) (d d' : Disk F)
      → update_protection_rule conv key value d ≡ (ok true, d')
      → (config : Value F) × (config' : Value F) × (d.document ≡ ok config)
        × (d'.document ≡ ok config')
        × (protection_loads config ≡ ok tt → protection_loads config' ≡ ok tt)
  unfolding update_protection_rule
  updated cmp order key value d d' h =
      let (v, valid, edited) = edit_valid_stored (validate_config_value conv key value) _ d d' h in
      let (config, config', loaded, changed, stored) = edit_stored _ d d' edited in
      (
        config,
        config',
        loaded,
        stored,
        put_loads key v config config' (put_in-IsPut "protection" key v config config' changed)
            (validated-IsBounded cmp order conv key value v valid),
      )

  -- Once the settings page reports that a protection rule is saved, the safeguards load the new
  -- protection section if they loaded the old one, whatever the rule and the value. It is assumed
  -- that ints compare as ints and that no float is NaN.
  pub protection_loads-update_protection_rule :
      (cmp : ComparesInts n) (order : IsOrdered n) (key : String) (value config : Value F)
      (d d' : Disk F)
      → d.document ≡ ok config
      → protection_loads config ≡ ok tt
      → update_protection_rule conv key value d ≡ (ok true, d')
      → (config' : Value F) × (d'.document ≡ ok config') × (protection_loads config' ≡ ok tt)
  protection_loads-update_protection_rule cmp order key value config d d' loaded before h =
      let (old, config', loaded', stored, loads) = updated cmp order key value d d' h in
      let same : config ≡ old = ok_inj (sym loaded ∙ loaded') in
      (config', stored, loads (subst (λ c. protection_loads c ≡ ok tt) same before))

  -- NaN lies on no side of a bound, so the settings page accepts it as a confidence score, and the
  -- safeguards then refuse to load the section.
  pub validate_config_value_nan :
      (x : F) (gs : Fields F)
      → n.lt x (n.decimal 0 1) ≡ false
      → n.lt (n.decimal 10 1) x ≡ false
      → n.le (n.decimal 0 1) x ≡ false
      → (validate_config_value conv "min_confidence_score" (float x) ≡ ok (float x))
        × (check_bound
              (dict (set_field "min_confidence_score" (float x) gs))
              ("min_confidence_score", n.decimal 0 1, n.decimal 10 1)
            ≡ raised (error invalid_config))
  unfolding validate_config_value check_bound
  validate_config_value_nan x gs low high unordered = (
    rw (low, high) refl,
    rw (find_field-set_field_self "min_confidence_score" (float x) gs, unordered) refl,
  )
