-- ===== src/ConfigManager/Lookups.antt =====
-- ui/utils/config_manager.py: what a dict holds after `fs[k] = v`, and after a section is opened.
use wasteless.Common.{
  String, ◌≡◌, refl, Bool, true, false, Option, none, some, str_eq, eq_iff, arith, if◌then◌else◌,
  is_some,
}
use text.Mathlib.Text.{find?}
use wasteless.Python.{
  Value, Items, Fields, null, bool, int, float, str, list, dict, end, field, find_field, Exn,
  Result, ok, raised, get, index, value_or, any_item, equals_str, ◌>>=◌,
}
use wasteless.ConfigManager.{set_field, with_section, set_item, set_in}

raised-ne-ok : {A : Type 0} {e : Exn} {a : A} → ¬ (raised e ≡ ok a)
raised-ne-ok h = cc

module _ {F : Type 0} where
  pub find_field-set_field :
      (j k : String) (v : Value F) (fs : Fields F)
      → find_field j (set_field k v fs) ≡ (if str_eq k j then some v else find_field j fs)
  unfolding set_field
  find_field-set_field j k v end = refl
  find_field-set_field j k v (field i w fs) =
      ground (arith, eq_iff i k, eq_iff i j, eq_iff k j, find_field-set_field j k v fs)

  pub find_field-set_field_self :
      (k : String) (v : Value F) (fs : Fields F) → find_field k (set_field k v fs) ≡ some v
  find_field-set_field_self k v fs = ground (arith, find_field-set_field k k v fs, eq_iff k k)

  pub find_field-set_field_other :
      (j k : String) (v : Value F) (fs : Fields F)
      → str_eq k j ≡ false
      → find_field j (set_field k v fs) ≡ find_field j fs
  find_field-set_field_other j k v fs h = ground (arith, find_field-set_field j k v fs)

  -- `fs` with its section `k`, `empty` where it was missing.
  pub record IsOpened (k : String) (empty : Value F) (fs fs' : Fields F) : Type 0 where
    pub inside : find_field k fs' ≡ some (value_or empty (find_field k fs))
    pub others : (j : String) → str_eq k j ≡ false → find_field j fs' ≡ find_field j fs

  module _ {A : Type 0} (k : String) (empty : Value F) (next : Value F → Value F → Result A)
      (out : A) where
    abbrev open_section : Value F → Result A
    open_section config = with_section config k empty >>= λ c. index c k >>= next c

    abbrev Opens : Value F → Type 0
    Opens config =
        (fs : Fields F) × (fs' : Fields F) × (config ≡ dict fs)
        × IsOpened k empty fs fs'
        × (next (dict fs') (value_or empty (find_field k fs)) ≡ ok out)

    list_lacks :
        (there : Bool) (xs : Items F)
        → ((if there then ok (list xs) else set_item (list xs) k empty) >>= λ c.
            index c k >>= next c)
          ≡ ok out
        → Opens (list xs)
    list_lacks true xs h = absurd (raised-ne-ok h)
    list_lacks false xs h = absurd (raised-ne-ok h)

    text_lacks :
        (there : Bool) (s : String)
        → ((if there then ok (str s) else set_item (str s) k empty) >>= λ c. index c k >>= next c)
          ≡ ok out
        → Opens (str s)
    text_lacks true s h = absurd (raised-ne-ok h)
    text_lacks false s h = absurd (raised-ne-ok h)

    dict_opens :
        (o : Option (Value F)) (fs : Fields F)
        → find_field k fs ≡ o
        → open_section (dict fs) ≡ ok out
        → Opens (dict fs)
    unfolding with_section
    dict_opens none fs absent h =
        let self = find_field-set_field_self k empty fs in
        (
          fs,
          set_field k empty fs,
          refl,
          record {
            inside = rw absent self;
            others = λ j other. find_field-set_field_other j k empty fs other;
          },
          rw absent (rw (absent, self) at h),
        )
    dict_opens (some v) fs there h = (
      fs,
      fs,
      refl,
      record { inside = rw there refl; others = λ j other. refl },
      rw there (rw (there, there) at h),
    )

    -- Only a dict gets past its section being opened and read.
    pub opened : (config : Value F) → open_section config ≡ ok out → Opens config
    unfolding with_section
    opened (dict fs) h = dict_opens (find_field k fs) fs refl h
    opened null h = absurd (raised-ne-ok h)
    opened (bool b) h = absurd (raised-ne-ok h)
    opened (int z) h = absurd (raised-ne-ok h)
    opened (float x) h = absurd (raised-ne-ok h)
    opened (str s) h = text_lacks (is_some (find? s k)) s h
    opened (list xs) h = list_lacks (any_item (equals_str k) xs) xs h

  abbrev pair_up : Value F → Value F → Result (Value F × Value F)
  pair_up c v = ok (c, v)

  pub section_opened :
      (k : String) (empty config config' section : Value F)
      → with_section config k empty ≡ ok config'
      → index config' k ≡ ok section
      → (fs : Fields F) × (fs' : Fields F) × (config ≡ dict fs)
        × (config' ≡ dict fs')
        × IsOpened k empty fs fs'
        × (section ≡ value_or empty (find_field k fs))
  section_opened k empty config config' section h i =
      let (fs, fs', same, is_open, out) =
        opened k empty pair_up (config', section) config (rw (h, i) refl) in
      (fs, fs', same, cc out, is_open, cc out)

  -- Only a dict has a `get` that answers.
  pub get-eq-ok :
      (v : Value F) (k : String) (default : Value F) {x : Value F}
      → get v k default ≡ ok x
      → (fs : Fields F) × (v ≡ dict fs) × (x ≡ value_or default (find_field k fs))
  get-eq-ok (dict fs) k default h = (fs, refl, cc)
  get-eq-ok null k default h = absurd (raised-ne-ok h)
  get-eq-ok (bool b) k default h = absurd (raised-ne-ok h)
  get-eq-ok (int z) k default h = absurd (raised-ne-ok h)
  get-eq-ok (float x) k default h = absurd (raised-ne-ok h)
  get-eq-ok (str s) k default h = absurd (raised-ne-ok h)
  get-eq-ok (list xs) k default h = absurd (raised-ne-ok h)

  pub set_in_lem :
      (section key : String) (v : Value F) (fs gs : Fields F)
      → find_field section fs ≡ some (dict gs)
      → set_in (dict fs) section key v
        ≡ ok (dict (set_field section (dict (set_field key v gs)) fs))
  unfolding set_in
  set_in_lem section key v fs gs h = rw h refl
