-- ===== src/ConfigManager/Types.antt =====
-- ui/utils/config_manager.py, `validate_config_value`: the type of what it accepts.
use wasteless.Common.{◌≡◌, refl, sym, inl, inr, String, false, ◌||◌, Option, none, some, Bool-cases}
use wasteless.Common.Int.{ℤ, pos, ltb_ℤ}
use wasteless.Python.{Numbers, Value, int, float, ok, ok_inj}
use wasteless.ConfigManager.{Conversions, Limit, whole, real}
use wasteless.ConfigManager.Limits.{
  config_limits, limit_in, whole_within, real_within, to_int, to_float, within,
  validate_config_value,
}

module _ {F : Type 0} ⦃n : Numbers F⦄ where
  -- Of a value given and the one accepted: where the key has no limit they are one; where its limit is
  -- of ints, the accepted one is an int in the range, and of floats, a float outside neither end.
  abbrev pub IsTyped : Option (Limit F) → Value F → Value F → Type 0
  IsTyped none value v = v ≡ value
  IsTyped (some (whole lo hi)) value v =
      (z : ℤ) × (v ≡ int z) × ((ltb_ℤ z (pos lo) || ltb_ℤ (pos hi) z) ≡ false)
  IsTyped (some (real lo hi)) value v = (x : F) × (v ≡ float x) × ((n.lt x lo || n.lt hi x) ≡ false)

  whole_typed :
      (lo hi : _) (o : Option ℤ) (v : Value F)
      → whole_within lo hi o ≡ ok v
      → (z : ℤ) × (v ≡ int z) × ((ltb_ℤ z (pos lo) || ltb_ℤ (pos hi) z) ≡ false)
  whole_typed lo hi none v h = cc
  whole_typed lo hi (some z) v h = elim (Bool-cases (ltb_ℤ z (pos lo) || ltb_ℤ (pos hi) z)) [
    | inl out ↦ cc (rw out at h)
    | inr inside ↦ (z, sym (ok_inj (rw inside at h)), inside)
  ]

  real_typed :
      (lo hi : F) (o : Option F) (v : Value F)
      → real_within lo hi o ≡ ok v
      → (x : F) × (v ≡ float x) × ((n.lt x lo || n.lt hi x) ≡ false)
  real_typed lo hi none v h = cc
  real_typed lo hi (some x) v h = elim (Bool-cases (n.lt x lo || n.lt hi x)) [
    | inl out ↦ cc (rw out at h)
    | inr inside ↦ (x, sym (ok_inj (rw inside at h)), inside)
  ]

  within-IsTyped :
      (conv : Conversions F) (limit : Option (Limit F)) (value v : Value F)
      → within conv limit value ≡ ok v
      → IsTyped limit value v × (within conv limit v ≡ ok v)
  within-IsTyped conv none value v h = (sym (ok_inj h), refl)
  within-IsTyped conv (some (whole lo hi)) value v h =
      let (z, is, inside) = whole_typed lo hi (to_int conv value) v h in
      ((z, is, inside), rw (is, inside) refl)
  within-IsTyped conv (some (real lo hi)) value v h =
      let (x, is, inside) = real_typed lo hi (to_float conv value) v h in
      ((x, is, inside), rw (is, inside) refl)

  -- What is accepted for a setting has the type of its limit, an int or a float, and is neither
  -- below nor above its range, whatever was given; a setting without a limit is kept as it is
  -- given. What is accepted is accepted again and left as it is.
  pub validate_config_value-IsTyped :
      (conv : Conversions F) (key : String) (value v : Value F)
      → validate_config_value conv key value ≡ ok v
      → IsTyped (limit_in key config_limits) value v × (validate_config_value conv key v ≡ ok v)
  unfolding validate_config_value
  validate_config_value-IsTyped conv key value v h =
      within-IsTyped conv (limit_in key config_limits) value v h
