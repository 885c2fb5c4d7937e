-- ===== src/Detection.antt =====
-- src/detectors: how the detectors fill waste_detected and recommendations.
--
-- A day is its number, and an amount a float of `Numbers`. The columns of a row that only describe
-- it, metadata among them, are left out. A statement that fails undoes the run: each detector rolls
-- its connection back.
pub mod Saving
pub mod Idle
pub mod Scores
pub mod Ages
pub mod Statuses
pub mod Revivals
pub mod Raised
mod Tests
use wasteless.Common.{ℕ, String, Bool, Option, List}
use wasteless.Store.{Status}

-- waste_detected
pub record Detected (F : Type 0) : Type 0 where
  pub id : ℕ
  pub detection_date : ℕ
  pub resource_id : String
  pub resource_type : String
  pub waste_type : String
  pub monthly_waste : F
  pub confidence_score : F

-- recommendations
pub record Advice (F : Type 0) : Type 0 where
  pub waste_id : ℕ
  pub recommendation_type : String
  pub monthly_savings : F
  pub status : Status
  pub ai_insight : Option String

pub record Tables (F : Type 0) : Type 0 where
  pub wastes : List (Detected F)
  pub recommendations : List (Advice F)
  -- the next value of waste_detected.id
  pub next_id : ℕ

-- An entry of the list that a detector saves.
pub record Item (F : Type 0) : Type 0 where
  pub resource_id : String
  pub monthly_cost : F
  pub confidence : F
