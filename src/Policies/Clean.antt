-- ===== src/Policies/Clean.antt =====
-- ui/utils/policies.py: what each test of `validate_policy` has seen where the list of problems is
-- still empty behind it.
use wasteless.Common.{
  ◌≡◌, refl, sym, ap, ◌∙◌, inl, inr, String, Bool, true, false, not, Option, none, some, List, [],
  str_eq, eq_iff, Bool-cases,
}
use wasteless.Python.{
  Value, Items, Fields, null, bool, int, float, str, list, dict, nil, cons, end, field, find_field,
  value_or, is_dict, is_list,
}
use wasteless.Policies.{
  Problem, Kind, a_dict, a_bool, known_sections, kind_of, add_if, is_kind, add_section_problem,
  section_problems, auto_remediation_problems, id_problems, ids_problems, whitelist_problems,
  schedule_problems, are_hours, are_actions, is_bool, bad_hours, bad_days, bad_enabled, bad_actions,
}
use wasteless.Policies.Limited.{IsDictOrMissing}

pub no_problem :
    (b : Bool) (p : Problem) (ps : List Problem) → add_if b p ps ≡ [] → (b ≡ false) × (ps ≡ [])
no_problem true p ps h = cc
no_problem false p ps h = (refl, h)

pub of_not : (b : Bool) → not b ≡ false → b ≡ true
of_not true h = refl
of_not false h = cc

module _ {F : Type 0} where
  pub dict_of : (v : Value F) → is_dict v ≡ true → (gs : Fields F) × (v ≡ dict gs)
  dict_of (dict gs) h = (gs, refl)
  dict_of null h = cc
  dict_of (bool b) h = cc
  dict_of (int z) h = cc
  dict_of (float x) h = cc
  dict_of (str s) h = cc
  dict_of (list xs) h = cc

  pub section_clean :
      (kind : Option Kind) (key : String) (v : Value F) (ps : List Problem)
      → add_section_problem kind key v ps ≡ []
      → (ps ≡ []) × (kind ≡ some a_dict → (gs : Fields F) × (v ≡ dict gs))
  section_clean none key v ps h = cc
  section_clean (some a_dict) key v ps h =
      let (good, rest) = no_problem (not (is_dict v)) _ ps h in
      (rest, λ e. dict_of v (of_not (is_dict v) good))
  section_clean (some a_bool) key v ps h =
      let (good, rest) = no_problem (not (is_kind a_bool v)) _ ps h in (rest, λ e. cc)

  pub sections_clean :
      (k : String) (fs : Fields F) (ps : List Problem)
      → kind_of known_sections k ≡ some a_dict
      → section_problems fs ps ≡ []
      → (ps ≡ []) × IsDictOrMissing k fs
  unfolding section_problems
  sections_clean k end ps known h = (h, λ v found. cc)
  sections_clean k (field key v fs) ps known h =
      let (added, rest) = sections_clean k fs _ known h in
      let (before, is_section) = section_clean (kind_of known_sections key) key v ps added in
      (
        before,
        λ w found. elim (Bool-cases (str_eq key k)) [
          | inl same ↦
              let name = (eq_iff key k).0 same in
              let value : v ≡ w = cc (rw same at found) in
              let (gs, is) = is_section (ap (kind_of known_sections) name ∙ known) in
              (gs, sym value ∙ is)
          | inr other ↦ rest w (rw other at found)
        ],
      )

  pub id_clean : (xs : Items F) (ps : List Problem) → id_problems xs ps ≡ [] → ps ≡ []
  unfolding id_problems
  id_clean nil ps h = h
  id_clean (cons v vs) ps h = (no_problem _ _ ps (id_clean vs _ h)).1

  pub ids_clean : (v : Value F) (ps : List Problem) → ids_problems v ps ≡ [] → ps ≡ []
  ids_clean (list xs) ps h = id_clean xs ps h
  ids_clean null ps h = cc
  ids_clean (bool b) ps h = cc
  ids_clean (int z) ps h = cc
  ids_clean (float x) ps h = cc
  ids_clean (str s) ps h = cc
  ids_clean (dict fs) ps h = cc

  pub whitelist_clean :
      (o : Option (Fields F)) (ps : List Problem) → whitelist_problems o ps ≡ [] → ps ≡ []
  whitelist_clean none ps h = h
  whitelist_clean (some gs) ps h = ids_clean _ ps (no_problem _ _ _ h).1

  pub schedule_clean :
      (o : Option (Fields F)) (ps : List Problem) → schedule_problems o ps ≡ [] → ps ≡ []
  schedule_clean none ps h = h
  schedule_clean (some gs) ps h =
      (no_problem (not (are_hours (value_or (list nil) (find_field "allowed_hours" gs)))) bad_hours
        ps
        (no_problem (not (is_list (value_or (list nil) (find_field "allowed_days" gs)))) bad_days _
          h).1).1

  pub auto_clean :
      (o : Option (Fields F)) (ps : List Problem) → auto_remediation_problems o ps ≡ [] → ps ≡ []
  auto_clean none ps h = h
  auto_clean (some gs) ps h =
      (no_problem (not (is_bool (value_or (bool false) (find_field "enabled" gs)))) bad_enabled ps
        (no_problem (not (are_actions (value_or (dict end) (find_field "actions" gs)))) bad_actions
          _ h).1).1
