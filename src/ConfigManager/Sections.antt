-- ===== src/ConfigManager/Sections.antt =====
-- ui/utils/config_manager.py: a key of a section that is set.
use wasteless.Common.{String, ◌≡◌, refl, sym, ap, ◌∙◌, some}
use wasteless.Python.{
  Value, Fields, null, bool, int, float, str, list, dict, end, find_field, ok, index, value_or,
  >>=-eq-ok,
}
use wasteless.ConfigManager.{set_field, with_section, set_item, set_in, put_in}
use wasteless.ConfigManager.Lookups.{IsOpened, section_opened, set_in_lem}

module _ {F : Type 0} where
  set_item-eq-ok :
      (section : Value F) (key : String) (v : Value F) {out : Value F}
      → set_item section key v ≡ ok out
      → (gs : Fields F) × (section ≡ dict gs)
  set_item-eq-ok (dict gs) key v h = (gs, refl)
  set_item-eq-ok null key v h = cc
  set_item-eq-ok (bool b) key v h = cc
  set_item-eq-ok (int z) key v h = cc
  set_item-eq-ok (float x) key v h = cc
  set_item-eq-ok (str s) key v h = cc
  set_item-eq-ok (list xs) key v h = cc

  -- The document `config'` is `config` with `key` of its section `k` set to `v`.
  pub record IsPut (k key : String) (v : Value F) (config config' : Value F) : Type 0 where
    pub fs : Fields F
    pub opened : Fields F
    pub gs : Fields F
    pub was : config ≡ dict fs
    pub is_open : IsOpened k (dict end) fs opened
    pub section : value_or (dict end) (find_field k fs) ≡ dict gs
    pub becomes : config' ≡ dict (set_field k (dict (set_field key v gs)) opened)

  set_in-IsPut :
      (k key : String) (v config config' section : Value F) (fs fs' gs : Fields F)
      → config ≡ dict fs
      → IsOpened k (dict end) fs fs'
      → section ≡ value_or (dict end) (find_field k fs)
      → section ≡ dict gs
      → set_in (dict fs') k key v ≡ ok config'
      → IsPut k key v config config'
  set_in-IsPut k key v config config' section fs fs' gs was o is_section is_dict_of changed =
      let there = o.inside ∙ ap some (sym is_section ∙ is_dict_of) in
      let made = set_in_lem k key v fs' gs there in
      record {
        fs = fs;
        opened = fs';
        gs = gs;
        was = was;
        is_open = o;
        section = sym is_section ∙ is_dict_of;
        becomes = cc (made, changed);
      }

  pub put_in-IsPut :
      (k key : String) (v config config' : Value F)
      → put_in k key v config ≡ ok config'
      → IsPut k key v config config'
  unfolding put_in set_in
  put_in-IsPut k key v config config' h =
      let (c, is_open, changed) = >>=-eq-ok (with_section config k (dict end)) _ h in
      let (section, read, changed') = >>=-eq-ok (index c k) _ changed in
      let (inner, set, rest) = >>=-eq-ok (set_item section key v) _ changed' in
      let (fs, fs', was, same', o, is_section) =
        section_opened k (dict end) config c section is_open read in
      let (gs, is_dict_of) = set_item-eq-ok section key v set in
      set_in-IsPut k key v config config' section fs fs' gs was o is_section is_dict_of
        (sym (ap (λ d. set_in d k key v) same') ∙ changed)
