-- ===== src/ConfigManager/Saves.antt =====
-- ui/utils/config_manager.py: what a reported save has stored.
use wasteless.Common.{◌≡◌, refl, inl, inr, true, Bool-cases}
use wasteless.Python.{Value, Result, ok, raised, ◌>>=◌, >>=-eq-ok}
use wasteless.ConfigManager.{Disk, edit, saved, save_config}

module _ {F : Type 0} where
  save_config_stored :
      (config : Value F) (d d' : Disk F)
      → save_config config d ≡ (true, d')
      → d'.document ≡ ok config
  unfolding save_config
  save_config_stored config d d' h = elim (Bool-cases d.writable) [
    | inl writes ↦ cc (rw writes at h)
    | inr fails ↦ cc (rw fails at h)
  ]

  pub saved_stored :
      (r : Result (Value F)) (d d' : Disk F)
      → saved r d ≡ (ok true, d')
      → (config : Value F) × (r ≡ ok config) × (d'.document ≡ ok config)
  saved_stored (raised e) d d' h = cc
  saved_stored (ok config) d d' h = (config, refl, save_config_stored config d d' cc)

  -- A save that is reported has stored the changed document.
  pub edit_stored :
      (change : Value F → Result (Value F)) (d d' : Disk F)
      → edit change d ≡ (ok true, d')
      → (config : Value F) × (config' : Value F) × (d.document ≡ ok config)
        × (change config ≡ ok config')
        × (d'.document ≡ ok config')
  unfolding edit
  edit_stored change d d' h =
      let (config', changed, stored) = saved_stored (d.document >>= change) d d' h in
      let (config, loaded, same) = >>=-eq-ok d.document change changed in
      (config, config', loaded, same, stored)
