-- ===== src/RegionSearch.antt =====
-- ui/jobs.py, `_execute_ec2_boto3`: the search of the regions for an instance, and what it sends.
--
-- Each AWS call answers by its region. The two texts of the end are kept as what they are made of.
pub mod Visits
pub mod Searches
pub mod Absent
mod Tests
use wasteless.Common.{
  String, Bool, true, false, not, ◌||◌, Option, none, some, List, [], ◌∷◌, ◌++◌, str_eq, keep,
  if◌then◌else◌,
}
use wasteless.Python.{Exn, error, aws, Result, ok, raised}

pub data Request : Type 0 where
  stop_instances terminate_instances : String → Request

pub record Account : Type 0 where
  -- CLOUD_REGIONS
  pub regions : List String
  -- why no client can be made in a region
  pub no_client : String → Option Exn
  -- describe_instances for the id in a region, as the state of the first instance of the first
  -- reservation, if there is a reservation
  pub describe : String → String → Result (Option String)
  -- the text of the error with which a write fails in a region
  pub answer : String → Request → Option String

-- What becomes of the search in one region.
pub data Visit : Type 0 where
  -- `return True, None`
  settled : Visit
  -- `continue`, and the end of the body
  passed : Visit
  -- an entry of `region_errors`
  failed : Exn → Visit

-- What the search returns.
pub data Outcome : Type 0 where
  done : Outcome
  -- `Errors: …`, in the order of the regions
  errors : List (String × Exn) → Outcome
  -- `Resource … not found in any region`
  not_found : Outcome

-- The requests sent, newest first, with their regions.
abbrev pub Sent : Type 0
Sent = List (String × Request)

-- `regions`, with the region of the metadata before the others
unfoldable pub regions_from : Option String → List String → List String
regions_from none regions = regions
regions_from (some stored) regions =
    if str_eq stored "" then regions else stored ∷ keep (λ r. not (str_eq r stored)) regions

abbrev pub is_ec2_action : String → Bool
is_ec2_action rec_type = str_eq rec_type "stop_instance" || str_eq rec_type "terminate_instance"

abbrev pub at_end : List (String × Exn) → Outcome
at_end [] = not_found
at_end (e ∷ es) = errors (e ∷ es)

-- Whether the loop ends here, or goes on as `next` from the errors and the requests.
abbrev pub after_visit :
    String
    → List (String × Exn)
    → (List (String × Exn) → Sent → Outcome × Sent)
    → Visit × Sent
    → Outcome × Sent
after_visit region es next (settled, sent) = (done, sent)
after_visit region es next (passed, sent) = next es sent
after_visit region es next (failed e, sent) = next (es ++ (region, e) ∷ []) sent

module _ (acc : Account) where
  abbrev pub tried : String → Request → Sent → Visit × Sent
  tried region x sent = (
    elim (acc.answer region x) [ none ↦ settled | some text ↦ failed (error (aws text)) ],
    (region, x) ∷ sent,
  )

  -- The write of the type of the recommendation.
  unfoldable pub request : String → String → String → Sent → Visit × Sent
  request rec_type id region sent =
      if str_eq rec_type "stop_instance"
      then tried region (Request.stop_instances id) sent
      else tried region (Request.terminate_instances id) sent

  -- The lines behind describe_instances.
  abbrev pub on_response : String → String → String → Result (Option String) → Sent → Visit × Sent
  on_response rec_type id region (raised e) sent = (failed e, sent)
  on_response rec_type id region (ok none) sent = (passed, sent)
  on_response rec_type id region (ok (some state)) sent =
      if str_eq state "terminated" || str_eq state "shutting-down"
      then (settled, sent)
      else request rec_type id region sent

  abbrev pub with_client : String → String → String → Option Exn → Sent → Visit × Sent
  with_client rec_type id region (some e) sent = (failed e, sent)
  with_client rec_type id region none sent =
      if is_ec2_action rec_type
      then on_response rec_type id region (acc.describe region id) sent
      else (passed, sent)

  -- The body of the loop.
  unfoldable pub visit : String → String → String → Sent → Visit × Sent
  visit rec_type id region sent = with_client rec_type id region (acc.no_client region) sent

  unfoldable pub search :
      String → String → List String → List (String × Exn) → Sent → Outcome × Sent
  search rec_type id [] es sent = (at_end es, sent)
  search rec_type id (region ∷ regions) es sent =
      after_visit region es (search rec_type id regions) (visit rec_type id region sent)

  unfoldable pub execute_ec2_boto3 : String → String → Option String → Sent → Outcome × Sent
  execute_ec2_boto3 id rec_type stored sent =
      search rec_type id (regions_from stored acc.regions) [] sent
