-- ===== src/Store.antt =====
-- The tables that the product keeps in PostgreSQL, and the SQL statements that change them.
--
-- sql/init.sql and sql/migrations declare the tables. A table is a list of rows, newest first; a
-- column that no modelled code reads is left out. `applied_at` and `execute_after` are microseconds.
use wasteless.Common.{
  ℕ, suc, String, Bool, Option, none, some, List, ◌∷◌, ◌==◌, first, update_where,
}
use wasteless.Common.Int.{ℤ}
use wasteless.Python.{Exn}

-- recommendations.status
pub data Status : Type 0 where
  pending scheduled pr_open approved approved_manual rejected dismissed applied obsolete : Status

-- actions_log.action_status
pub data ActionStatus : Type 0 where
  pending success failed blocked cancelled dry_run : ActionStatus

-- waste_detected, of which one row is read with its recommendation. `idle_days` is no column: it is
-- what the query of `stop_instance` computes from the row's detection_date.
pub record Waste (F : Type 0) : Type 0 where
  pub id : ℕ
  pub resource_id : String
  pub resource_type : String
  pub confidence_score : Option F
  pub idle_days : Option ℤ
  pub region : Option String

pub record Recommendation : Type 0 where
  pub id : ℕ
  pub waste_id : ℕ
  pub recommendation_type : String
  pub status : Status
  pub execute_after : Option ℕ
  pub applied_at : Option ℕ

-- actions_log
pub record ActionRow : Type 0 where
  pub id : ℕ
  pub recommendation_id : Option ℕ
  pub resource_id : String
  pub resource_type : String
  pub action_type : String
  pub status : ActionStatus
  pub dry_run : Bool
  pub error_message : Option Exn

-- rollback_snapshots
pub record Rollback : Type 0 where
  pub id : ℕ
  pub action_log_id : ℕ
  pub resource_id : String
  pub resource_type : String
  pub can_rollback : Bool
  pub rollback_expiry : ℕ
  pub rollback_ebs_snapshot_id : Option String

pub record Store (F : Type 0) : Type 0 where
  pub wastes : List (Waste F)
  pub recommendations : List Recommendation
  pub actions_log : List ActionRow
  pub rollbacks : List Rollback
  -- the SERIAL columns
  pub next_action : ℕ
  pub next_rollback : ℕ

module _ {F : Type 0} where
  unfoldable pub find_recommendation : ℕ → Store F → Option Recommendation
  find_recommendation rec_id s = first (λ r. r.id == rec_id) s.recommendations

  unfoldable pub find_waste : ℕ → Store F → Option (Waste F)
  find_waste waste_id s = first (λ w. w.id == waste_id) s.wastes

  -- `FROM recommendations r JOIN waste_detected w ON r.waste_id = w.id WHERE r.id = %s`
  unfoldable pub find_joined : ℕ → Store F → Option (Recommendation × Waste F)
  find_joined rec_id s = elim (find_recommendation rec_id s) [
    | none ↦ none
    | some r ↦ elim (find_waste r.waste_id s) [ none ↦ none | some w ↦ some (r, w) ]
  ]

  -- `UPDATE recommendations SET status = %s, applied_at = NOW() WHERE id = %s`
  unfoldable pub set_status : ℕ → Status → ℕ → Store F → Store F
  set_status rec_id status now s = record s {
    recommendations =
        update_where (λ r. r.id == rec_id)
          (λ r. record r { status = status; applied_at = some now }) s.recommendations;
  }

  -- `UPDATE actions_log SET action_status = %s, … WHERE id = %s`
  unfoldable pub set_action : ℕ → (ActionRow → ActionRow) → Store F → Store F
  set_action action_id f s = record s {
    actions_log = update_where (λ a. a.id == action_id) f s.actions_log;
  }

  -- `INSERT INTO actions_log … RETURNING id`
  unfoldable pub insert_action : (ℕ → ActionRow) → Store F → Store F
  insert_action row s = record s {
    actions_log = row s.next_action ∷ s.actions_log;
    next_action = suc s.next_action;
  }

  unfoldable pub insert_rollback : (ℕ → Rollback) → Store F → Store F
  insert_rollback row s = record s {
    rollbacks = row s.next_rollback ∷ s.rollbacks;
    next_rollback = suc s.next_rollback;
  }
