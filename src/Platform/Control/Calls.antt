-- ===== src/Platform/Control/Calls.antt =====
-- What changes databases, backups and clusters, one call after another: the requests of users and administrators,
-- the handlers of jobs and what follows a job that failed for good, and the scheduler's ticks.
use eminidatabase.Base.{ℕ, Option, List, [], ◌∷◌}
use eminidatabase.Base.Action.{◌>>◌, pure}
use eminidatabase.Platform.Jobs.{JobType, Payload}
use eminidatabase.Platform.Placement.{BackupPolicy, Resources}
use eminidatabase.Platform.Control.{Control, Tx}
use eminidatabase.Platform.Control.Agent.{Agents}
use eminidatabase.Platform.Control.Orchestrator.{World}
use eminidatabase.Platform.Control.BackupJobs.{handle_job, terminal_failure}
use eminidatabase.Platform.Control.Databases.{
  Caller, DatabaseCreate, create_database, delete_database, suspend_database, resume_database,
  resize_database,
}
use eminidatabase.Platform.Control.MigrationRequest.{migrate_database}
use eminidatabase.Platform.Control.Backups.{create_backup, restore_backup, set_backup_policy}
use eminidatabase.Platform.Control.Failover.{attach_replica, trigger_failover}
use eminidatabase.Platform.Control.FailoverCheck.{check_and_failover_unhealthy_clusters}
use eminidatabase.Platform.Control.Schedule.{
  enqueue_due_backups, enqueue_due_verifications, purge_expired_automatic_backups, meter_usage,
}

-- What an organization's member can ask for.
pub data Request : Type 0 where
  creates : DatabaseCreate → (suffix : List ℕ) → Request
  deletes suspends resumes backs_up : (database_id : ℕ) → Request
  resizes : (database_id : ℕ) → Resources → Request
  restores : (database_id backup_id name : ℕ) (suffix : List ℕ) → Request
  sets_policy : (database_id : ℕ) → BackupPolicy → Request

pub data Call : Type 0 where
  requests : Caller → Request → Call
  migrates : (admin_id database_id target_node_id : ℕ) → Call
  attaches : (cluster_id node_id : ℕ) → Call
  fails_over : (cluster_id : ℕ) → Call
  runs_job : World → (endpoint : ℕ → Option ℕ) → ℕ → JobType → Payload → Call
  gives_up : ℕ → JobType → Payload → Call
  ticks : Call

unfoldable pub handle_request : Agents → Caller → Request → (now : ℕ) → Tx (Unit {0})
handle_request agents c (creates payload suffix) now =
    create_database c payload suffix now >> pure tt
handle_request agents c (deletes k) now = delete_database c k now
handle_request agents c (suspends k) now = suspend_database c k now
handle_request agents c (resumes k) now = resume_database c k now
handle_request agents c (backs_up k) now = create_backup c k now >> pure tt
handle_request agents c (resizes k limits) now = resize_database agents c k limits
handle_request agents c (restores k backup_id name suffix) now =
    restore_backup c k backup_id name suffix now >> pure tt
handle_request agents c (sets_policy k policy) now = set_backup_policy c k policy

-- One tick of the scheduler, without the invoices, which are another part's.
unfoldable pub tick : Agents → (now : ℕ) → Tx (Unit {0})
tick agents now = do
  enqueue_due_backups now
  enqueue_due_verifications now
  purge_expired_automatic_backups agents now
  check_and_failover_unhealthy_clusters agents now
  meter_usage agents
  pure tt

unfoldable pub handle : Agents → Call → (now : ℕ) → Tx (Unit {0})
unfolding handle_request tick
handle agents (requests c r) now = handle_request agents c r now
handle agents (migrates admin_id k node_id) now = migrate_database admin_id k node_id now
handle agents (attaches cluster_id node_id) now =
    attach_replica agents cluster_id node_id >> pure tt
handle agents (fails_over cluster_id) now = trigger_failover agents cluster_id now >> pure tt
handle agents (runs_job w endpoint job_id type_name job) now =
    handle_job w endpoint job_id type_name job now
handle agents (gives_up job_id type_name job) now = terminal_failure job_id type_name job now
handle agents ticks now = tick agents now

-- Calls with the time and the agents' answers of each.
unfoldable pub run : List (Agents × Call × ℕ) → Control → Control
run [] s = s
run ((agents, call, now) ∷ calls) s = run calls (handle agents call now s).1
