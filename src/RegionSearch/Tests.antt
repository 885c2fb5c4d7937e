-- ===== src/RegionSearch/Tests.antt =====
-- Searches of three regions: one holds the instance, one is empty, and one fails.
use wasteless.Common.{
  ◌≡◌, ◌≤◌, ◌+◌, refl, String, Option, none, some, [], ◌∷◌, str_eq, All, if◌then◌else◌,
}
use wasteless.Python.{error, aws, Result, ok, raised}
use wasteless.RegionSearch.{
  Account, stop_instances, done, errors, not_found, regions_from, execute_ec2_boto3, search, visit,
  request,
}
use wasteless.RegionSearch.Visits.{accepted}
use wasteless.RegionSearch.Searches.{allowed_by, execute_ec2_boto3_accepts}
use wasteless.RegionSearch.Absent.{execute_ec2_boto3_not_found}

abbrev answers : String → String → Result (Option String)
answers region id =
    if str_eq region "eu-west-1"
    then (if str_eq id "i-1" then ok (some "running") else ok none)
    else if str_eq region "us-east-1"
    then ok none
    else if str_eq id "i-3"
    then ok none
    else raised (error (aws "throttled"))

abbrev account : Account
account = record {
  regions = "us-east-1" ∷ "eu-west-1" ∷ "ap-south-1" ∷ [];
  no_client = λ _. none;
  describe = answers;
  answer = λ _ _. none;
}

stops_once :
    execute_ec2_boto3 account "i-1" "stop_instance" (some "ap-south-1") []
    ≡ (done, ("eu-west-1", stop_instances "i-1") ∷ [])
unfolding execute_ec2_boto3 search visit request regions_from
stops_once = refl

collects_errors :
    execute_ec2_boto3 account "i-2" "terminate_instance" none []
    ≡ (errors (("ap-south-1", error (aws "throttled")) ∷ []), [])
unfolding execute_ec2_boto3 search visit request regions_from
collects_errors = refl

loses_nothing : (execute_ec2_boto3 account "i-3" "stop_instance" none []).0 ≡ not_found
unfolding execute_ec2_boto3 search visit request regions_from
loses_nothing = refl

execute_ec2_boto3_accepts_example :
    accepted account (execute_ec2_boto3 account "i-1" "stop_instance" (some "ap-south-1") []).1
    ≤ accepted account []
      + allowed_by (execute_ec2_boto3 account "i-1" "stop_instance" (some "ap-south-1") []).0
execute_ec2_boto3_accepts_example =
    execute_ec2_boto3_accepts account "stop_instance" "i-1" (some "ap-south-1") []

execute_ec2_boto3_not_found_example : All (λ r. account.describe r "i-3" ≡ ok none) account.regions
execute_ec2_boto3_not_found_example =
    execute_ec2_boto3_not_found account "stop_instance" "i-3" none [] refl loses_nothing
