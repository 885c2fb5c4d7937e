-- ===== src/Lifecycle/Page.antt =====
-- ui/routes/recommendations.py, `api_execute_actions`: what the page does to the recommendations.
use wasteless.Common.{
  ℕ, ◌+◌, ◌*◌, String, Bool, true, false, not, ◌&&◌, ◌||◌, Option, none, some, List, [], ◌∷◌, ltb,
  if◌then◌else◌,
}
use wasteless.Store.{Store, Waste, Recommendation, Status, ActionStatus, find_joined}
use wasteless.Lifecycle.{
  Mode, execution_mode, is_manual, PageAction, Reply, Backend, is_skippable, is_pending,
  is_scheduled, is_rejected, moved_to, reply, change, cancelled, replied, log_row, restatus,
}

module _ {F : Type 0} (b : Backend F) where
  unfoldable pub mode_of : String → Mode
  mode_of t =
      let m = execution_mode t in
      if not (is_manual m) && not (b.action_enabled t) then Mode.manual else m

  -- A real approval is scheduled during the grace period.
  abbrev logged : Recommendation → Waste F → Bool × Store F → Reply × Store F
  logged r w (true, s) = (
    record (reply r.id true) { scheduled = true },
    log_row r w (b.shorten r.recommendation_type) ActionStatus.pending false none s,
  )
  logged r w (false, s) = (reply r.id false, s)

  unfoldable pub schedule : Recommendation → Waste F → Store F → Reply × Store F
  schedule r w s = logged r w (
      change is_pending
        (λ x. record x {
          status = Status.scheduled;
          execute_after = some (b.now + b.grace_days * 86_400_000_000);
        })
        r.id s)

  abbrev pub new_status : Mode → Bool → Option Status
  new_status Mode.manual done = some Status.approved_manual
  new_status m done =
      if b.dry_run then none else (if done then some Status.approved else some Status.pending)

  abbrev pub restatused : ℕ → Option Status → Store F → Store F
  restatused rec_id none s = s
  restatused rec_id (some status) s = restatus b.now rec_id status s

  -- The block behind the remediators: EC2 by boto3, or a decision that is only recorded.
  abbrev decided :
      Mode → Recommendation → Waste F → Store F → Bool × Option String → Reply × Store F
  decided m r w s (done, e) = (
    record (reply r.id (b.dry_run || done)) {
      dry_run = b.dry_run && not (is_manual m);
      by_hand = is_manual m;
    },
    restatused r.id (new_status m done) (
        log_row r w (b.shorten r.recommendation_type)
          (if b.dry_run || done then ActionStatus.success else ActionStatus.failed)
          (b.dry_run || is_manual m) e s),
  )

  abbrev pub attempt : Mode → Recommendation → Waste F → Bool × Option String
  attempt Mode.boto3 r w =
      if b.dry_run then (true, none) else b.execute_ec2 w.resource_id r.recommendation_type
  attempt _ r w = (true, none)

  abbrev pub run_mode : Mode → Recommendation → Waste F → Store F → Reply × Store F
  run_mode Mode.remediator r w s = let ((done, e), s') = b.proxy r.id s in (reply r.id done, s')
  run_mode m r w s = decided m r w s (attempt m r w)

  unfoldable pub take_path : Mode → Recommendation → Waste F → Store F → Reply × Store F
  take_path m r w s =
      if ltb 0 b.grace_days && not b.dry_run && not (is_manual m)
      then schedule r w s
      else run_mode m r w s

  abbrev routed : Recommendation → Waste F → Store F → Option (Bool × Store F) → Reply × Store F
  routed r w s none = take_path (mode_of r.recommendation_type) r w s
  routed r w s (some (done, s')) = (reply r.id done, s')

  abbrev approve_found : ℕ → Store F → Option (Recommendation × Waste F) → Reply × Store F
  approve_found rec_id s none = (reply rec_id false, s)
  approve_found rec_id s (some (r, w)) = routed r w s (b.open_pr rec_id s)

  unfoldable pub approve_one : ℕ → Store F → Reply × Store F
  approve_one rec_id s = approve_found rec_id s (find_joined rec_id s)

  -- The body of the loop of `api_execute_actions`.
  unfoldable pub execute_one : PageAction → ℕ → Store F → Reply × Store F
  execute_one PageAction.reject rec_id s =
      replied rec_id (change is_skippable (moved_to Status.rejected (some b.now)) rec_id s)
  execute_one PageAction.dismiss rec_id s =
      replied rec_id (change is_skippable (moved_to Status.dismissed (some b.now)) rec_id s)
  execute_one PageAction.cancel rec_id s = replied rec_id (
      cancelled rec_id (
        change is_scheduled (λ r. record r { status = Status.pending; execute_after = none }) rec_id
          s))
  execute_one PageAction.restore rec_id s =
      replied rec_id (change is_rejected (moved_to Status.pending none) rec_id s)
  execute_one PageAction.approve rec_id s = approve_one rec_id s
  execute_one PageAction.execute rec_id s = approve_one rec_id s

  unfoldable pub api_execute_actions : PageAction → List ℕ → Store F → List Reply × Store F
  api_execute_actions a [] s = ([], s)
  api_execute_actions a (rec_id ∷ ids) s =
      let (x, s') = execute_one a rec_id s in
      let (xs, s'') = api_execute_actions a ids s' in (x ∷ xs, s'')
