-- ===== src/Policies/Limited.antt =====
-- ui/utils/policies.py, the loop over _LIMITED_KEYS: what an import without a problem leaves.
use wasteless.Common.{
  ◌≡◌, refl, sym, ap, ◌∙◌, subst, inl, inr, String, Option, none, some, List, [], ◌∷◌, str_eq,
  eq_iff, All, Bool-cases,
}
use wasteless.Python.{
  Numbers, Value, Fields, null, bool, int, float, str, list, dict, find_field, Result, ok, raised,
}
use wasteless.ConfigManager.{Conversions, set_field}
use wasteless.ConfigManager.Limits.{validate_config_value}
use wasteless.ConfigManager.Lookups.{
  find_field-set_field, find_field-set_field_self, find_field-set_field_other,
}
use wasteless.Policies.{Problem, fields_of, put_limited, limit_value, limit_in_section, limit_each}

module _ {F : Type 0} where
  -- The section is missing, or a dict.
  abbrev pub IsDictOrMissing : String → Fields F → Type 0
  IsDictOrMissing s fs = (v : Value F) → find_field s fs ≡ some v → (gs : Fields F) × (v ≡ dict gs)

  pub fields_of-eq :
      (o : Option (Value F)) (gs : Fields F) → fields_of o ≡ some gs → o ≡ some (dict gs)
  fields_of-eq none gs h = cc
  fields_of-eq (some (dict fs)) gs h = cc
  fields_of-eq (some null) gs h = cc
  fields_of-eq (some (bool b)) gs h = cc
  fields_of-eq (some (int z)) gs h = cc
  fields_of-eq (some (float x)) gs h = cc
  fields_of-eq (some (str s)) gs h = cc
  fields_of-eq (some (list xs)) gs h = cc

module _ {F : Type 0} ⦃n : Numbers F⦄ (conv : Conversions F) where
  -- A value that stands under the key of the section is one that the validation gave.
  abbrev pub IsLimited : String → String → Fields F → Type 0
  IsLimited s k fs =
      (gs : Fields F) (v : Value F)
      → find_field s fs ≡ some (dict gs)
      → find_field k gs ≡ some v
      → (v0 : Value F) × (validate_config_value conv k v0 ≡ ok v)

  dict_inj :
      {gs hs : Fields F} → ◌≡◌ {A = Option (Value F)} (some (dict gs)) (some (dict hs)) → gs ≡ hs
  dict_inj h = cc

  some_inj : {v w : Value F} → some v ≡ some w → v ≡ w
  some_inj h = cc

  same_section :
      (s k k' : String) (fs gs gs' : Fields F) (v0 v' w : Value F)
      → IsLimited s k fs
      → find_field s fs ≡ some (dict gs)
      → validate_config_value conv k' v0 ≡ ok v'
      → gs' ≡ set_field k' v' gs
      → find_field k gs' ≡ some w
      → (u : Value F) × (validate_config_value conv k u ≡ ok w)
  same_section s k k' fs gs gs' v0 v' w before there valid is found =
      elim (Bool-cases (str_eq k' k)) [
        | inl same ↦
            let name = (eq_iff k' k).0 same in
            let now : find_field k gs' ≡ some v' =
              ap (find_field k) is ∙ find_field-set_field k k' v' gs ∙ rw same refl in
            let value : v' ≡ w = some_inj (sym now ∙ found) in
            (
              v0,
              subst (λ (x : String). validate_config_value conv x v0 ≡ ok w) name
                  (valid ∙ ap ok value),
            )
        | inr other ↦
            let was : find_field k gs ≡ some w =
              sym (ap (find_field k) is ∙ find_field-set_field_other k k' v' gs other) ∙ found in
            before gs w there was
      ]

  put-IsLimited :
      (s k s' k' : String) (fs gs : Fields F) (v0 v' : Value F)
      → IsLimited s k fs
      → find_field s' fs ≡ some (dict gs)
      → validate_config_value conv k' v0 ≡ ok v'
      → IsLimited s k (set_field s' (dict (set_field k' v' gs)) fs)
  put-IsLimited s k s' k' fs gs v0 v' before there valid gs' w section found =
      elim (Bool-cases (str_eq s' s)) [
        | inl same ↦
            let name = (eq_iff s' s).0 same in
            let now = find_field-set_field s s' (dict (set_field k' v' gs)) fs ∙ rw same refl in
            let is = dict_inj (sym section ∙ now) in
            same_section s k k' fs gs gs' v0 v' w before
              (subst (λ (x : String). find_field x fs ≡ some (dict gs)) name there) valid is found
        | inr other ↦
            before gs' w
              (sym (find_field-set_field_other s s' (dict (set_field k' v' gs)) fs other) ∙ section)
              found
      ]

  -- What one round does to a property of the fields that every accepted value keeps.
  module _ (P : Fields F → Type 0)
      (keeps : (s k : String) (fs gs : Fields F) (v0 v : Value F)
        → P fs
        → find_field s fs ≡ some (dict gs)
        → validate_config_value conv k v0 ≡ ok v
        → P (set_field s (dict (set_field k v gs)) fs)) where
    put_keeps :
        (s k : String) (fs gs : Fields F) (ps : List Problem) (v0 : Value F) (r : Result (Value F))
        → find_field s fs ≡ some (dict gs)
        → validate_config_value conv k v0 ≡ r
        → P fs
        → P (put_limited conv s k fs gs ps r).0
    put_keeps s k fs gs ps v0 (raised e) there is h = h
    put_keeps s k fs gs ps v0 (ok v) there is h = keeps s k fs gs v0 v h there is

    value_keeps :
        (s k : String) (fs gs : Fields F) (ps : List Problem) (o : Option (Value F))
        → find_field s fs ≡ some (dict gs)
        → P fs
        → P (limit_value conv s k fs gs ps o).0
    value_keeps s k fs gs ps none there h = h
    value_keeps s k fs gs ps (some v) there h = put_keeps s k fs gs ps v _ there refl h

    section_keeps :
        (s k : String) (fs : Fields F) (ps : List Problem) (o : Option (Fields F))
        → fields_of (find_field s fs) ≡ o
        → P fs
        → P (limit_in_section conv s k fs ps o).0
    section_keeps s k fs ps none is h = h
    section_keeps s k fs ps (some gs) is h =
        value_keeps s k fs gs ps _ (fields_of-eq (find_field s fs) gs is) h

    pub limit_each_keeps :
        (keys : List (String × String)) (fs : Fields F) (ps : List Problem)
        → P fs
        → P (limit_each conv keys (fs, ps)).0
    unfolding limit_each
    limit_each_keeps [] fs ps h = h
    limit_each_keeps ((s, k) ∷ keys) fs ps h =
        let o = fields_of (find_field s fs) in
        limit_each_keeps keys (limit_in_section conv s k fs ps o).0
          (limit_in_section conv s k fs ps o).1 (section_keeps s k fs ps o refl h)

  pair_problems :
      (s k : String) (fs gs : Fields F) (ps : List Problem) (r : Result (Value F))
      → (put_limited conv s k fs gs ps r).1 ≡ []
      → (ps ≡ []) × ((v : Value F) × (r ≡ ok v))
  pair_problems s k fs gs ps (raised e) h = cc
  pair_problems s k fs gs ps (ok v) h = (h, (v, refl))

  value_problems :
      (s k : String) (fs gs : Fields F) (ps : List Problem) (o : Option (Value F))
      → (limit_value conv s k fs gs ps o).1 ≡ []
      → ps ≡ []
  value_problems s k fs gs ps none h = h
  value_problems s k fs gs ps (some v) h = (pair_problems s k fs gs ps _ h).0

  round_problems :
      (s k : String) (fs : Fields F) (ps : List Problem) (o : Option (Fields F))
      → (limit_in_section conv s k fs ps o).1 ≡ []
      → ps ≡ []
  round_problems s k fs ps none h = h
  round_problems s k fs ps (some gs) h = value_problems s k fs gs ps _ h

  pub limit_each_problems :
      (keys : List (String × String)) (fs : Fields F) (ps : List Problem)
      → (limit_each conv keys (fs, ps)).1 ≡ []
      → ps ≡ []
  unfolding limit_each
  limit_each_problems [] fs ps h = h
  limit_each_problems ((s, k) ∷ keys) fs ps h =
      let o = fields_of (find_field s fs) in
      round_problems s k fs ps o (
        limit_each_problems keys (limit_in_section conv s k fs ps o).0
          (limit_in_section conv s k fs ps o).1 h)

  set_self :
      (s k : String) (fs gs : Fields F) (v0 v : Value F)
      → validate_config_value conv k v0 ≡ ok v
      → IsLimited s k (set_field s (dict (set_field k v gs)) fs)
  set_self s k fs gs v0 v valid gs' w section found =
      let is = dict_inj (sym section ∙ find_field-set_field_self s (dict (set_field k v gs)) fs) in
      let now = ap (find_field k) is ∙ find_field-set_field_self k v gs in
      (v0, valid ∙ ap ok (some_inj (sym now ∙ found)))

  put_own :
      (s k : String) (fs gs : Fields F) (ps : List Problem) (v0 : Value F) (r : Result (Value F))
      → validate_config_value conv k v0 ≡ r
      → (put_limited conv s k fs gs ps r).1 ≡ []
      → IsLimited s k (put_limited conv s k fs gs ps r).0
  put_own s k fs gs ps v0 (raised e) is h = cc
  put_own s k fs gs ps v0 (ok v) is h = set_self s k fs gs v0 v is

  value_own :
      (s k : String) (fs gs : Fields F) (ps : List Problem) (o : Option (Value F))
      → find_field s fs ≡ some (dict gs)
      → find_field k gs ≡ o
      → (limit_value conv s k fs gs ps o).1 ≡ []
      → IsLimited s k (limit_value conv s k fs gs ps o).0
  value_own s k fs gs ps none there is h = λ hs w section found.
      let same = dict_inj (sym section ∙ there) in cc (ap (find_field k) same, is, found)
  value_own s k fs gs ps (some v) there is h = put_own s k fs gs ps v _ refl h

  section_own :
      (s k : String) (fs : Fields F) (ps : List Problem) (o : Option (Fields F))
      → fields_of (find_field s fs) ≡ o
      → (limit_in_section conv s k fs ps o).1 ≡ []
      → IsLimited s k (limit_in_section conv s k fs ps o).0
  section_own s k fs ps none is h = λ gs w section found. cc (section, is)
  section_own s k fs ps (some gs) is h =
      value_own s k fs gs ps _ (fields_of-eq (find_field s fs) gs is) refl h

  -- A loop without a problem leaves only values that the validation gave.
  pub all-IsLimited :
      (keys : List (String × String)) (fs : Fields F) (ps : List Problem)
      → (limit_each conv keys (fs, ps)).1 ≡ []
      → All (λ (x : String × String). IsLimited x.0 x.1 (limit_each conv keys (fs, ps)).0) keys
  unfolding limit_each
  all-IsLimited [] fs ps h = tt
  all-IsLimited ((s, k) ∷ keys) fs ps h =
      let o = fields_of (find_field s fs) in
      let next = limit_in_section conv s k fs ps o in
      let clean = limit_each_problems keys next.0 next.1 h in
      (
        limit_each_keeps (IsLimited s k)
            (λ s' k' fs' gs' v0 v' before there valid.
              put-IsLimited s k s' k' fs' gs' v0 v' before there valid)
            keys next.0 next.1 (section_own s k fs ps o refl clean),
        all-IsLimited keys next.0 next.1 h,
      )
