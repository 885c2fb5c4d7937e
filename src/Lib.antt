-- ===== src/Lib.antt =====
-- Wasteless finds idle cloud resources and acts on the recommendations that a user approves.
--
-- The parts of the program and their files:
--   * src/core/safeguards.py, the checks that stand before every action: Safeguards. A parsed
--     remediation.yaml is a `Value` of Python/Values; `validate_config` is what loading it asks,
--     `validate_all` what the EC2 remediator asks of one instance.
--   * src/remediators/resource_remediator.py, the guarded flow that the volume, NAT gateway, load
--     balancer, address, snapshot and image remediators share: Remediators/Kinds has what each
--     class reads and decides, Remediators/Resource the flow itself, `remediate`.
--   * src/remediators/ec2_remediator.py, stopping and starting instances and the run over the
--     pending recommendations: Remediators/Ec2. It calls `validate_all` of Safeguards.
--   * ui/routes/recommendations.py (`api_execute_actions`), ui/jobs.py and
--     ui/utils/action_registry.py, the statuses of a recommendation: Lifecycle. What these call, the
--     remediators of Remediators among them, is a `Backend`.
--   * ui/utils/remediator.py, by which the page runs the remediators on a list of ids: Proxy. It
--     composes `stop_instance` and `remediate` of Remediators on one `Desk`.
--   * ui/utils/config_manager.py, the settings page's edits of remediation.yaml: ConfigManager, on the
--     same `Value` that Safeguards reads. Actions, Listed, Bounds and Restrictions relate the two.
--   * ui/utils/policies.py and the import of ui/routes/settings.py, which replaces remediation.yaml by
--     a validated policy: Policies, over the limits and the `Disk` of ConfigManager.
--   * ui/utils/aws_sync.py and the synchronisation of ui/jobs.py: Sync. What each region answers is a
--     `Cloud`; `sync_aws_job` works on the tables of Store with `resolve_vanished` of Lifecycle/Jobs.
--   * the instance scheduler of ui/jobs.py: InstanceSchedule, with its cron jobs in
--     InstanceSchedule/Cron.
--   * `_execute_ec2_boto3` of ui/jobs.py, which stops or terminates an instance in the region that
--     has it: RegionSearch. It is what `execute_ec2` of the `Backend` of Lifecycle stands for.
--   * src/remediators/terraform_mapper.py, terraform_editor.py and terraform_pr.py, the pull request
--     that removes a resource from Terraform code: Terraform, with the definitions of the three files
--     in Terraform/Mapper, Terraform/Editor and Terraform/Proposal.
--   * src/detectors (steampipe_base.py and ec2_idle.py), which find waste and keep its rows and its
--     recommendations: Detection, with what both files do to the tables in Detection/Saving. Scores
--     and Ages relate a detection to the checks of Safeguards.
--   * src/core/finops_invariants, the checks that a figure passes before it is shown: Finops, with
--     `audit_dataset` of audit.py, which runs them over a whole dataset, in Finops/Audit, and what may
--     be said of a figure (claims.py) in Finops/Claims.
--   * ui/utils/security.py, the guard before every write request of the pages: RequestGuard.
--   * ui/utils/log_buffer.py, the ring buffer of log records that a page polls: LogBuffer.
--   * The tables of sql/init.sql and sql/migrations, with the statements that the remediators
--     execute on them: Store.
--
-- What lies outside is an argument. Floats are an interface, `Numbers`, with the few operations
-- that the code uses; the tests use hundredths. What boto3 and psycopg2 answer is an
-- `Environment`: each write request and each kind of statement may fail with any text, which may
-- depend on the tables and on the requests sent so far. `idle_days`, which the query of `stop_instance`
-- computes, is a field of the row of Store. The clock is a value, `Clock`. A failed statement aborts the connection's transaction, and PostgreSQL then
-- refuses every later statement until a rollback, which no remediator asks for. An exception is
-- modelled by the statement that raises it, `Refusal` for a SafeguardException and `Failure` for
-- every other; the text that carries numbers is left out.
--
-- In Lifecycle the database answers every statement, but for those that record a run of the grace
-- executor, and a request is one transaction; there the
-- settings, the pull requests, the remediators and boto3 are functions that may do anything.
--
-- Every loop of the modelled code runs over a list, so no definition has fuel.
--
-- Not modelled: log output and JSON metadata columns, which only record; the web pages, the reports and
-- the savings tracker, whose figures the database computes in SQL; the collectors and the connection
-- pool, which only move what AWS and the database answer; the rows of the other detectors, the
-- installers and the language model calls.
pub mod Common
pub mod Python
pub mod Safeguards
pub mod Store
pub mod Remediators
pub mod Lifecycle
pub mod ConfigManager
pub mod Policies
pub mod Proxy
pub mod Sync
pub mod InstanceSchedule
pub mod RegionSearch
pub mod Terraform
pub mod Detection
pub mod Finops
pub mod RequestGuard
pub mod LogBuffer
