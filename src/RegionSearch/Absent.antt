-- ===== src/RegionSearch/Absent.antt =====
-- ui/jobs.py, `_execute_ec2_boto3`: what "not found in any region" rests on.
use wasteless.Common.{
  ◌≡◌, ◌≢◌, refl, sym, ◌∙◌, subst, inl, inr, String, Bool, true, false, not, ◌||◌, Option, none,
  some, List, [], ◌∷◌, str_eq, eq_iff, keep, any, All, Bool-cases, if◌then◌else◌,
}
use wasteless.Python.{Exn, error, aws, Result, ok, raised}
use wasteless.RegionSearch.{
  Account, Visit, settled, passed, failed, done, not_found, Sent, is_ec2_action, regions_from,
  request, on_response, with_client, visit, at_end, execute_ec2_boto3,
}
use wasteless.RegionSearch.Visits.{seen, is_settled, errors_in}
use wasteless.RegionSearch.Searches.{told, execute_ec2_boto3_lem}

never_not_found {ℓ} :
    {C : Type ℓ} (b : Bool) (x : String × Exn) (es : List (String × Exn))
    → (if b then done else at_end (x ∷ es)) ≡ not_found
    → C
never_not_found true x es h = cc
never_not_found false x es h = cc

module _ (f : String → Visit) where
  told_on :
      (region : String) (regions : List String) (v : Visit)
      → f region ≡ v
      → (told f regions (errors_in f regions) ≡ not_found → All (λ r. f r ≡ passed) regions)
      → told f (region ∷ regions) (errors_in f (region ∷ regions)) ≡ not_found
      → All (λ r. f r ≡ passed) (region ∷ regions)
  told_on region regions settled e rest h = cc (rw e at h)
  told_on region regions passed e rest h = (e, rest (rw e at h))
  told_on region regions (failed x) e rest h =
      never_not_found (any (λ r. is_settled (f r)) regions) (region, x) (errors_in f regions)
        (rw e at h)

  told_not_found :
      (regions : List String)
      → told f regions (errors_in f regions) ≡ not_found
      → All (λ r. f r ≡ passed) regions
  told_not_found [] h = tt
  told_not_found (region ∷ regions) h =
      told_on region regions (f region) refl (told_not_found regions) h

-- The regions behind the stored one are the other ones.
all_others :
    (P : String → Type 0) (stored : String) (regions : List String)
    → P stored
    → All P (keep (λ r. not (str_eq r stored)) regions)
    → All P regions
all_others P stored [] p h = tt
all_others P stored (r ∷ regions) p h = elim (Bool-cases (str_eq r stored)) [
  | inl same ↦
      (subst P (sym ((eq_iff r stored).0 same)) p, all_others P stored regions p (rw same at h))
  | inr other ↦ let (q, rest) = rw other at h in (q, all_others P stored regions p rest)
]

all_regions :
    (P : String → Type 0) (stored : Option String) (regions : List String)
    → All P (regions_from stored regions)
    → All P regions
unfolding regions_from
all_regions P none regions h = h
all_regions P (some stored) regions h = elim (Bool-cases (str_eq stored "")) [
  | inl blank ↦ rw blank at h
  | inr named ↦ let (p, rest) = rw named at h in all_others P stored regions p rest
]

answered_not_passed :
    (e : Option String) → elim e [ none ↦ settled | some text ↦ failed (error (aws text)) ] ≢ passed
answered_not_passed none h = cc
answered_not_passed (some text) h = cc

module _ (acc : Account) (rec_type id region : String) where
  request_not_passed : (request acc rec_type id region []).0 ≢ passed
  unfolding request
  request_not_passed h = elim (Bool-cases (str_eq rec_type "stop_instance")) [
    | inl stops ↦ answered_not_passed _ (rw stops at h)
    | inr other ↦ answered_not_passed _ (rw other at h)
  ]

  response_absent :
      (r : Result (Option String))
      → (on_response acc rec_type id region r []).0 ≡ passed
      → r ≡ ok none
  response_absent (raised e) h = cc
  response_absent (ok none) h = refl
  response_absent (ok (some state)) h =
      elim (Bool-cases (str_eq state "terminated" || str_eq state "shutting-down")) [
        | inl gone ↦ cc (rw gone at h)
        | inr there ↦ absurd (request_not_passed (rw there at h))
      ]

  client_absent :
      (e : Option Exn)
      → is_ec2_action rec_type ≡ true
      → (with_client acc rec_type id region e []).0 ≡ passed
      → acc.describe region id ≡ ok none
  client_absent (some e) acts h = cc
  client_absent none acts h = response_absent (acc.describe region id) (rw acts at h)

  seen_absent :
      is_ec2_action rec_type ≡ true
      → seen acc rec_type id region ≡ passed
      → acc.describe region id ≡ ok none
  unfolding seen visit
  seen_absent acts h = client_absent (acc.no_client region) acts h

all_absent :
    (acc : Account) (rec_type id : String) (regions : List String)
    → is_ec2_action rec_type ≡ true
    → All (λ r. seen acc rec_type id r ≡ passed) regions
    → All (λ r. acc.describe r id ≡ ok none) regions
all_absent acc rec_type id [] acts h = tt
all_absent acc rec_type id (r ∷ regions) acts (p, h) =
    (seen_absent acc rec_type id r acts p, all_absent acc rec_type id regions acts h)

-- When stopping or terminating an instance ends in "not found in any region", then
-- describe_instances has answered in each of the CLOUD_REGIONS, and none of them has the instance:
-- a region that fails never lets it pass for one that is gone.
pub execute_ec2_boto3_not_found :
    (acc : Account) (rec_type id : String) (stored : Option String) (sent : Sent)
    → is_ec2_action rec_type ≡ true
    → (execute_ec2_boto3 acc id rec_type stored sent).0 ≡ not_found
    → All (λ r. acc.describe r id ≡ ok none) acc.regions
execute_ec2_boto3_not_found acc rec_type id stored sent acts h =
    let f = seen acc rec_type id in
    let quiet =
      told_not_found f (regions_from stored acc.regions)
        (sym (execute_ec2_boto3_lem acc rec_type id stored sent) ∙ h) in
    all_absent acc rec_type id acc.regions acts
      (all_regions (λ r. f r ≡ passed) stored acc.regions quiet)
