-- ===== src/Detection/Ages.antt =====
-- src/detectors and src/core/safeguards.py: how long a resource counts as idle once it is detected
-- again.
use wasteless.Common.{◌≡◌, ℕ, String, true, some, first}
use wasteless.Common.Int.{ℤ, pos}
use wasteless.Python.{Numbers, Value, int, ok, raised, safeguard, not_idle}
use wasteless.Safeguards.{protection, check_idle_duration}
use wasteless.Detection.{Detected, Tables, Item}
use wasteless.Detection.Saving.{Detector, has_key}

module _ {F : Type 0} (d : Detector F) (today : ℕ) where
  -- The row of the resource, of which there is one, was detected today.
  abbrev pub IsDated : String → Tables F → Type 0
  IsDated id t =
      (w : Detected F) × (first (has_key d id) t.wastes ≡ some w) × (w.detection_date ≡ today)

-- `idle_days` is what the query of `stop_instance` answers on the day `today` for a row that was
-- detected on a day. It is the database that takes the EXTRACT(DAY FROM …) of it; `unaged` is what
-- the query is meant to answer for a row of the same day.
module _ {F : Type 0} ⦃n : Numbers F⦄ (config : Value F) (least : F)
    (asked : protection config "min_idle_days" (int (pos 14)) ≡ ok least)
    (positive : n.lt (n.of_int (pos 0)) least ≡ true) (idle_days : ℕ → ℕ → ℤ)
    (unaged : (day : ℕ) → idle_days day day ≡ pos 0) where
  -- The row of a resource is one that the safeguard on the idle duration refuses.
  abbrev pub IsRefused : Detector F → ℕ → Tables F → Item F → Type 0
  IsRefused d today t item =
      (w : Detected F) × (first (has_key d item.resource_id) t.wastes ≡ some w)
      × (check_idle_duration config (idle_days today w.detection_date)
          ≡ raised (safeguard not_idle))
