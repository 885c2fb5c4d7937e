-- ===== src/RegionSearch/Searches.antt =====
-- ui/jobs.py, `_execute_ec2_boto3`: what the search over all regions returns and sends.
use mathlib.Core.List.{append-nil, append_assoc}
use wasteless.Common.{
  ℕ, ◌+◌, ◌≤◌, arith, ◌≡◌, refl, sym, ap, ◌∙◌, String, Option, List, [], ◌∷◌, ◌++◌, any,
  if◌then◌else◌,
}
use wasteless.Python.{Exn}
use wasteless.RegionSearch.{
  Account, Visit, settled, passed, failed, Outcome, done, errors, not_found, Sent, regions_from,
  visit, at_end, after_visit, search, execute_ec2_boto3,
}
use wasteless.RegionSearch.Visits.{seen, is_settled, errors_in, accepted, Fares, visit-Fares}

-- What the regions let the search say.
abbrev pub told : (String → Visit) → List String → List (String × Exn) → Outcome
told f regions es = if any (λ r. is_settled (f r)) regions then done else at_end es

-- What an outcome may add to the accepted requests.
abbrev pub allowed_by : Outcome → ℕ
allowed_by done = 1
allowed_by (errors es) = 0
allowed_by not_found = 0

module _ (acc : Account) (rec_type id : String) where
  abbrev Finds : List String → List (String × Exn) → Sent → Outcome × Sent → Type 0
  Finds regions es sent p =
      (p.0 ≡ told (seen acc rec_type id) regions (es ++ errors_in (seen acc rec_type id) regions))
      × (accepted acc p.1 ≤ accepted acc sent + allowed_by p.0)

  end-Finds : (es : List (String × Exn)) (sent : Sent) → Finds [] es sent (at_end es, sent)
  end-Finds es sent = (ap at_end (sym (append-nil es)), omega arith)

  -- The lines behind a visit, when the search of the other regions is as it should be.
  after_visit-Finds :
      (region : String) (regions : List String) (es : List (String × Exn)) (sent : Sent)
      (p : Visit × Sent)
      → ((es' : List (String × Exn)) (sent' : Sent)
          → Finds regions es' sent' (search acc rec_type id regions es' sent'))
      → Fares acc sent p (visit acc rec_type id region [])
      → Finds (region ∷ regions) es sent (after_visit region es (search acc rec_type id regions) p)
  unfolding seen
  after_visit-Finds region regions es sent (settled, sent') rest (h, k) = (rw (sym h) refl, k)
  after_visit-Finds region regions es sent (passed, sent') rest (h, k) =
      let (e, l) = rest es sent' in (rw (sym h) e, omega arith)
  after_visit-Finds region regions es sent (failed e, sent') rest (h, k) =
      let (eq, l) = rest (es ++ (region, e) ∷ []) sent' in
      let f = seen acc rec_type id in
      (
        rw (sym h)
            (eq ∙ ap (told f regions) (append_assoc es ((region, e) ∷ []) (errors_in f regions))),
        omega arith,
      )

  search-Finds :
      (regions : List String) (es : List (String × Exn)) (sent : Sent)
      → Finds regions es sent (search acc rec_type id regions es sent)
  unfolding search
  search-Finds [] es sent = end-Finds es sent
  search-Finds (region ∷ regions) es sent =
      after_visit-Finds region regions es sent (visit acc rec_type id region sent)
        (search-Finds regions) (visit-Fares acc rec_type id region sent)

  -- The search returns success if in some region the instance is gone or the write is accepted,
  -- else the errors of the regions in their order, and "not found" where there is none; the stored
  -- region comes first.
  pub execute_ec2_boto3_lem :
      (stored : Option String) (sent : Sent)
      → (execute_ec2_boto3 acc id rec_type stored sent).0
        ≡ told
            (seen acc rec_type id)
            (regions_from stored acc.regions)
            (errors_in (seen acc rec_type id) (regions_from stored acc.regions))
  unfolding execute_ec2_boto3
  execute_ec2_boto3_lem stored sent = (search-Finds (regions_from stored acc.regions) [] sent).0

  -- A search of the regions has at most one of its requests accepted, and none when it
  -- reports a failure.
  pub execute_ec2_boto3_accepts :
      (stored : Option String) (sent : Sent)
      → accepted acc (execute_ec2_boto3 acc id rec_type stored sent).1
        ≤ accepted acc sent + allowed_by (execute_ec2_boto3 acc id rec_type stored sent).0
  unfolding execute_ec2_boto3
  execute_ec2_boto3_accepts stored sent = (search-Finds (regions_from stored acc.regions) [] sent).1
