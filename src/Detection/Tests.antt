-- ===== src/Detection/Tests.antt =====
-- A detection of one instance, with amounts in hundredths.
use wasteless.Common.{◌≡◌, refl, true, false, none, some, [], ◌∷◌, All}
use wasteless.Common.Int.{ℤ, pos}
use wasteless.Python.{Value, dict, end, ok, raised, safeguard, low_confidence}
use wasteless.Python.Hundredths.{hundredths, hundredths-IsOrdered}
use wasteless.Store.{Status}
use wasteless.Safeguards.{check_confidence_score, protection}
use wasteless.Detection.{Tables, Item}
use wasteless.Detection.Saving.{
  Detector, Faults, upsert_waste, save_each, save, upsert_recommendation, run,
}
use wasteless.Detection.Idle.{
  Metric, confidence_of, ec2_idle, recommendation_type_for, generate_each, generate_recommendations,
}
use wasteless.Detection.Scores.{ReadsDecimals, check_confidence_score-confidence_of}
use wasteless.Detection.Statuses.{Grows, run-Grows}
use wasteless.Detection.Raised.{IsRaised, generate_recommendations-IsRaised}

abbrev decimals : ReadsDecimals hundredths
decimals = record { zero_one = refl; zero_few = refl; zero_some = refl }

-- An average of 0.10 %, from one datapoint.
abbrev metric : Metric ℤ
metric = record {
  instance_id = "i-1";
  instance_type = some "t3.micro";
  cpu_avg = pos 10;
  datapoints = 1;
}

unsure : confidence_of (λ x. x) (pos 500) 7 metric ≡ pos 70
unfolding confidence_of
unsure = refl

least : protection (dict end) "min_confidence_score" (Value.float (pos 80)) ≡ ok (pos 80)
unfolding protection
least = refl

check_confidence_score-confidence_of_example :
    check_confidence_score (dict end) (confidence_of (λ x. x) (pos 500) 7 metric)
    ≡ raised (safeguard low_confidence)
check_confidence_score-confidence_of_example =
    check_confidence_score-confidence_of hundredths-IsOrdered decimals (dict end) (pos 80) (λ x. x)
      (pos 500) 7 metric least refl refl

abbrev faultless : Faults
faultless = record { insert_fails = λ _. false; commit_fails = false }

abbrev uncommitted : Faults
uncommitted = record faultless { commit_fails = true }

abbrev item : Item ℤ
item = record { resource_id = "i-1"; monthly_cost = pos 773; confidence = pos 95 }

-- Detected first on the day 100.
abbrev old : Tables ℤ
old = record {
  wastes =
      record {
        id = 4;
        detection_date = 100;
        resource_id = "i-1";
        resource_type = "ec2_instance";
        waste_type = "idle_compute";
        monthly_waste = pos 700;
        confidence_score = pos 90;
      }
      ∷ [];
  recommendations =
      record {
        waste_id = 4;
        recommendation_type = "stop_instance";
        monthly_savings = pos 700;
        status = Status.obsolete;
        ai_insight = none;
      }
      ∷ [];
  next_id = 5;
}

abbrev dated : Tables ℤ
dated = (save ec2_idle faultless 460 (item ∷ []) old).1

abbrev volumes : Detector ℤ
volumes = record {
  resource_type = "ebs_volume";
  waste_type = "orphan_volume";
  refreshes_type = true;
  revives = false;
  recommendation_type = λ _. "delete_volume";
}

run-Grows_example :
    Grows volumes old.recommendations
      (run volumes faultless uncommitted 460 (item ∷ []) old).1.recommendations
run-Grows_example = run-Grows volumes faultless uncommitted 460 (item ∷ []) old

abbrev raised_tables : Tables ℤ
raised_tables = (generate_recommendations faultless (4 ∷ []) dated).1

generates : generate_recommendations faultless (4 ∷ []) dated ≡ (ok 1, raised_tables)
unfolding generate_recommendations generate_each upsert_recommendation save save_each upsert_waste
    recommendation_type_for
generates = refl

generate_recommendations-IsRaised_example :
    All (IsRaised faultless dated.wastes raised_tables.recommendations) (4 ∷ [])
    × Grows ec2_idle dated.recommendations raised_tables.recommendations
generate_recommendations-IsRaised_example =
    generate_recommendations-IsRaised faultless (4 ∷ []) dated raised_tables 1 generates
