-- ===== src/RegionSearch/Visits.antt =====
-- ui/jobs.py, `_execute_ec2_boto3`: what the search returns, and how much it sends.
use wasteless.Common.{
  ℕ, ◌+◌, ◌≤◌, arith, ◌≡◌, refl, String, Bool, true, false, ◌||◌, Option, none, some, List, [], ◌∷◌,
  ◌++◌, str_eq, if◌then◌else◌,
}
use wasteless.Python.{Exn, error, aws, Result, ok, raised}
use wasteless.RegionSearch.{
  Account, Request, Visit, settled, passed, failed, Sent, is_ec2_action, tried, request,
  on_response, with_client, visit,
}

-- How the search fares in a region, whatever it sent before.
unfoldable pub seen : Account → String → String → String → Visit
seen acc rec_type id region = (visit acc rec_type id region []).0

abbrev pub is_settled : Visit → Bool
is_settled settled = true
is_settled passed = false
is_settled (failed e) = false

abbrev pub error_of : String → Visit → List (String × Exn)
error_of region settled = []
error_of region passed = []
error_of region (failed e) = (region, e) ∷ []

-- The errors of the regions, in their order.
abbrev pub errors_in : (String → Visit) → List String → List (String × Exn)
errors_in f [] = []
errors_in f (region ∷ regions) = error_of region (f region) ++ errors_in f regions

abbrev one : Account → String × Request → ℕ
one acc (region, x) = elim (acc.answer region x) [ none ↦ 1 | some _ ↦ 0 ]

-- How many requests AWS accepts.
abbrev pub accepted : Account → Sent → ℕ
accepted acc [] = 0
accepted acc (x ∷ sent) = one acc x + accepted acc sent

-- What a visit that settles may add to the accepted requests.
abbrev pub allowed : Visit → ℕ
allowed settled = 1
allowed passed = 0
allowed (failed e) = 0

-- A visit from `sent` that sees what another sees, and sends no more than it may.
abbrev pub Fares : Account → Sent → Visit × Sent → Visit × Sent → Type 0
Fares acc sent p q = (p.0 ≡ q.0) × (accepted acc p.1 ≤ accepted acc sent + allowed p.0)

module _ (acc : Account) where
  if-Fares :
      (b : Bool) (sent : Sent) (p q p' q' : Visit × Sent)
      → Fares acc sent p q
      → Fares acc sent p' q'
      → Fares acc sent (if b then p else p') (if b then q else q')
  if-Fares true sent p q p' q' h h' = h
  if-Fares false sent p q p' q' h h' = h'

  tried-Fares :
      (region : String) (x : Request) (sent : Sent)
      → Fares acc sent (tried acc region x sent) (tried acc region x [])
  tried-Fares region x sent = (refl, answered (acc.answer region x))
    where
      answered :
          (e : Option String)
          → elim e [ none ↦ 1 | some _ ↦ 0 ] + accepted acc sent
            ≤ accepted acc sent
              + allowed (elim e [ none ↦ settled | some text ↦ failed (error (aws text)) ])
      answered none = omega arith
      answered (some text) = omega arith

  request-Fares :
      (rec_type id region : String) (sent : Sent)
      → Fares acc sent (request acc rec_type id region sent) (request acc rec_type id region [])
  unfolding request
  request-Fares rec_type id region sent =
      if-Fares (str_eq rec_type "stop_instance") sent _ _ _ _
        (tried-Fares region (Request.stop_instances id) sent)
        (tried-Fares region (Request.terminate_instances id) sent)

  response-Fares :
      (rec_type id region : String) (r : Result (Option String)) (sent : Sent)
      → Fares acc sent
          (on_response acc rec_type id region r sent)
          (on_response acc rec_type id region r [])
  response-Fares rec_type id region (raised e) sent = (refl, omega arith)
  response-Fares rec_type id region (ok none) sent = (refl, omega arith)
  response-Fares rec_type id region (ok (some state)) sent =
      if-Fares (str_eq state "terminated" || str_eq state "shutting-down") sent _ _ _ _
        (refl, omega arith) (request-Fares rec_type id region sent)

  client-Fares :
      (rec_type id region : String) (e : Option Exn) (sent : Sent)
      → Fares acc sent
          (with_client acc rec_type id region e sent)
          (with_client acc rec_type id region e [])
  client-Fares rec_type id region (some e) sent = (refl, omega arith)
  client-Fares rec_type id region none sent =
      if-Fares (is_ec2_action rec_type) sent _ _ _ _
        (response-Fares rec_type id region (acc.describe region id) sent) (refl, omega arith)

  pub visit-Fares :
      (rec_type id region : String) (sent : Sent)
      → Fares acc sent (visit acc rec_type id region sent) (visit acc rec_type id region [])
  unfolding visit
  visit-Fares rec_type id region sent = client-Fares rec_type id region (acc.no_client region) sent
