-- ===== src/Lifecycle/Jobs.antt =====
-- ui/jobs.py: the executor behind the grace period, and the end of what AWS no longer has.
use wasteless.Common.{
  String, Bool, true, false, not, ◌&&◌, ◌||◌, Option, none, some, List, ◌==◌, update_where,
  if◌then◌else◌,
}
use wasteless.Python.{Result, ok, raised, error, database}
use wasteless.Store.{Store, Waste, Recommendation, Status, ActionStatus, find_waste}
use wasteless.Lifecycle.{
  Mode, is_manual, Backend, is_syncable, moved_to, resolution, names_missing, is_vanished, log_row,
}
use wasteless.Lifecycle.Page.{mode_of, attempt}

module _ {F : Type 0} (b : Backend F) where
  unfoldable pub grace_execution_status : Bool → Option String → Mode → Status
  grace_execution_status done e m =
      if done && not b.dry_run && not (is_manual m)
      then Status.approved
      else if not done && names_missing e
      then Status.obsolete
      else Status.pending

  abbrev pub grace_done :
      Mode → Recommendation → Waste F → (Bool × Option String) × Store F → Store F
  grace_done m r w ((done, e), s) =
      let s' =
        log_row r w (b.shorten r.recommendation_type)
          (if done then ActionStatus.success else ActionStatus.failed) (b.dry_run || is_manual m) e
          s in
      record s' {
        recommendations =
            update_where (λ x. x.id == r.id)
              (λ x. record x {
                status = grace_execution_status done e m;
                applied_at = some b.now;
                execute_after = none;
              })
              s'.recommendations;
      }

  abbrev pub grace_run :
      Mode → Recommendation → Waste F → Store F → (Bool × Option String) × Store F
  grace_run Mode.remediator r w s = b.proxy r.id s
  grace_run m r w s = (attempt b m r w, s)

  -- The INSERT, the UPDATE and the commit. The proxy works on the connection of the job, so that a
  -- statement that failed in it makes the INSERT raise. What the run has left then stays, the row
  -- on the schedule among it, and the loop ends.
  abbrev pub grace_recorded :
      Bool
      → Mode
      → Recommendation
      → Waste F
      → (Bool × Option String) × Store F
      → Result (Unit {0}) × Store F
  grace_recorded true m r w (o, s) = (raised (error (database "grace")), s)
  grace_recorded false m r w x = (ok tt, grace_done m r w x)

  -- The body of the loop of `grace_executor_job`; `fails` is whether recording the run fails.
  unfoldable pub grace_step :
      Bool → Recommendation → Waste F → Store F → Result (Unit {0}) × Store F
  grace_step fails r w s =
      let m = mode_of b r.recommendation_type in grace_recorded fails m r w (grace_run m r w s)

  unfoldable pub resolve_vanished : String → List String → Store F → Store F
  resolve_vanished kind ids s = record s {
    recommendations =
        update_where (λ r. is_vanished kind ids (find_waste r.waste_id s) && is_syncable r.status)
          (λ r. moved_to (resolution r.status) (some b.now) r) s.recommendations;
  }
