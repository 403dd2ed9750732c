-- ===== src/Platform/Control/BackupJobs.antt =====
-- The handlers of backup jobs (backend/app/services/backup_orchestrator.py), and what becomes of a
-- database, a backup or a delivery whose job has failed for good (backend/app/worker.py).
use eminidatabase.Base.{ℕ, Bool, true, false, not, Option, none, some, ◌&&◌, if◌then◌else◌}
use eminidatabase.Base.Table.{lookup}
use eminidatabase.Base.Action.{◌>>=◌, ◌>>◌, pure, raise_if, found, reads, writes}
use eminidatabase.Platform.Jobs.{JobType, Payload}
use eminidatabase.Platform.Placement.{Database, DatabaseStatus}
use eminidatabase.Platform.Control.{
  Tx, runtime_error, Backup, BackupStatus, EventType, WebhookEvent, WebhookDeliveryStatus,
  AgentCall, set_database, set_status, set_backup, add_event, get_database,
}
use eminidatabase.Platform.Control.Names.{role_name}
use eminidatabase.Platform.Control.Agent.{call_agent, get_primary_node}
use eminidatabase.Platform.Control.Webhooks.{emit_event, set_delivery, execute_deliver_webhook}
use eminidatabase.Platform.Control.Orchestrator.{
  World, is_running, is_some, is_shared, create_cluster, choose_node, add_credential,
  app_credential, running_on, execute_create_database, execute_delete_database,
  execute_suspend_database, execute_resume_database,
}
use eminidatabase.Platform.Control.Migration.{execute_migrate_database}

-- `status in (COMPLETED, VERIFIED)`
abbrev pub is_complete : BackupStatus → Bool
is_complete BackupStatus.completed = true
is_complete BackupStatus.verified = true
is_complete _ = false

abbrev pub get_backup_row : ℕ → Tx Backup
get_backup_row backup_id = do found runtime_error (← reads (λ s. lookup backup_id s.backups))

-- The database of a backup and its cluster, which it must have.
abbrev pub placed_database : ℕ → Tx (Database × ℕ)
placed_database database_id = do
  database ← get_database runtime_error database_id
  cluster_id ← found runtime_error database.cluster_id
  pure (database, cluster_id)

abbrev pub back_up : World → Payload → Backup → (now : ℕ) → Tx (Unit {0})
back_up w job backup now = do
  placed ← placed_database backup.database_id
  node ← get_primary_node (some placed.1)
  writes (set_backup job.subject (λ b. record b { started_at = some now }))
  body ←
      call_agent w.agents node.0 node.1
        (AgentCall.back_up (placed.0).physical_name backup.storage_key)
  writes (
      set_backup job.subject (λ b. record b {
        status = BackupStatus.completed;
        size_bytes = some body.size_bytes;
        completed_at = some now;
      }))
  emit_event job.organization_id WebhookEvent.backup_completed job.subject now

unfoldable pub execute_backup_database : World → Payload → (now : ℕ) → Tx (Unit {0})
execute_backup_database w job now = do
  backup ← get_backup_row job.subject
  if is_complete backup.status then pure tt else back_up w job backup now

-- A restore joins the cluster that the scorer found, or makes a new one.
abbrev pub restored_cluster : Database → (node_id : ℕ) → (existing_cluster : Option ℕ) → Tx ℕ
restored_cluster target node_id none =
    create_cluster target.region_id (is_shared target.isolation_level) node_id
restored_cluster target node_id (some cluster_id) = pure cluster_id

abbrev pub restore_into : World → ℕ → Payload → Database → (now : ℕ) → Tx (Unit {0})
restore_into w job_id job target now = do
  backup_id ← found runtime_error job.object
  backup ← get_backup_row backup_id
  raise_if (not (is_complete backup.status)) runtime_error
  decision ← choose_node target now
  cluster_id ← restored_cluster target decision.node_id decision.existing_cluster
  writes (set_database job.subject (λ d. record d { cluster_id = some cluster_id }))
  node ← found runtime_error (← reads (λ s. lookup decision.node_id s.fleet.nodes))
  call_agent w.agents decision.node_id node (
      AgentCall.restore target.physical_name backup.storage_key (role_name target.physical_name)
        w.fresh)
  writes (
      add_credential
        (app_credential job.subject (role_name target.physical_name) (w.encrypt_secret w.fresh)))
  writes (set_database job.subject (running_on node))
  writes (add_event job.subject job_id EventType.database_restored)
  emit_event job.organization_id WebhookEvent.restore_completed job.subject now

unfoldable pub execute_restore_database : World → ℕ → Payload → (now : ℕ) → Tx (Unit {0})
execute_restore_database w job_id job now = do
  target ← get_database runtime_error job.subject
  if is_running target.status && is_some target.cluster_id
      then pure tt
      else restore_into w job_id job target now

abbrev pub verify : World → Payload → Backup → (now : ℕ) → Tx (Unit {0})
verify w job backup now = do
  placed ← placed_database backup.database_id
  node ← get_primary_node (some placed.1)
  body ← call_agent w.agents node.0 node.1 (AgentCall.verify_backup backup.storage_key)
  writes (
      set_backup job.subject (λ b. record b {
        verified_at = some now;
        status = if body.verified then BackupStatus.verified else BackupStatus.verification_failed;
      }))

unfoldable pub execute_verify_backup : World → Payload → (now : ℕ) → Tx (Unit {0})
execute_verify_backup w job now = do
  backup ← get_backup_row job.subject
  if is_complete backup.status then verify w job backup now else pure tt

-- `ALL_HANDLERS`
unfoldable pub handle_job :
    World → (endpoint : ℕ → Option ℕ) → ℕ → JobType → Payload → (now : ℕ) → Tx (Unit {0})
handle_job w endpoint job_id JobType.create_database job now =
    execute_create_database w job_id job now
handle_job w endpoint job_id JobType.delete_database job now =
    execute_delete_database w job_id job now
handle_job w endpoint job_id JobType.suspend_database job now =
    execute_suspend_database w job_id job
handle_job w endpoint job_id JobType.resume_database job now = execute_resume_database w job_id job
handle_job w endpoint job_id JobType.migrate_database job now =
    execute_migrate_database w job_id job
handle_job w endpoint job_id JobType.backup_database job now = execute_backup_database w job now
handle_job w endpoint job_id JobType.restore_database job now =
    execute_restore_database w job_id job now
handle_job w endpoint job_id JobType.verify_backup job now = execute_verify_backup w job now
handle_job w endpoint job_id JobType.deliver_webhook job now =
    execute_deliver_webhook endpoint job.subject now

abbrev pub fail_database : ℕ → ℕ → Option Database → Tx (Unit {0})
fail_database job_id k none = pure tt
fail_database job_id k (some _) = do
  writes (set_status k DatabaseStatus.failed)
  writes (add_event k job_id EventType.database_job_failed)

unfoldable pub mark_database_failed : ℕ → Payload → (resource_id now : ℕ) → Tx (Unit {0})
mark_database_failed job_id job resource_id now = do
  database ← reads (λ s. lookup resource_id s.fleet.databases)
  fail_database job_id resource_id database
  emit_event job.organization_id WebhookEvent.database_failed resource_id now

unfoldable pub mark_backup_failed : Payload → (resource_id now : ℕ) → Tx (Unit {0})
mark_backup_failed job resource_id now = do
  writes (set_backup resource_id (λ b. record b { status = BackupStatus.failed }))
  emit_event job.organization_id WebhookEvent.backup_failed resource_id now

unfoldable pub mark_webhook_delivery_failed : (resource_id : ℕ) → Tx (Unit {0})
mark_webhook_delivery_failed resource_id =
    writes (set_delivery resource_id (λ d. record d { status = WebhookDeliveryStatus.failed }))

-- `_TERMINAL_FAILURE_HANDLERS`, without an entry for the verification of a backup.
abbrev pub fail_resource : ℕ → JobType → Payload → (resource_id now : ℕ) → Tx (Unit {0})
fail_resource job_id JobType.verify_backup job k now = pure tt
fail_resource job_id JobType.backup_database job k now = mark_backup_failed job k now
fail_resource job_id JobType.deliver_webhook job k now = mark_webhook_delivery_failed k
fail_resource job_id JobType.create_database job k now = mark_database_failed job_id job k now
fail_resource job_id JobType.delete_database job k now = mark_database_failed job_id job k now
fail_resource job_id JobType.suspend_database job k now = mark_database_failed job_id job k now
fail_resource job_id JobType.resume_database job k now = mark_database_failed job_id job k now
fail_resource job_id JobType.restore_database job k now = mark_database_failed job_id job k now
fail_resource job_id JobType.migrate_database job k now = mark_database_failed job_id job k now

-- A job without a resource has nothing to mark.
abbrev pub fail_if_any : ℕ → JobType → Payload → (now : ℕ) → Option ℕ → Tx (Unit {0})
fail_if_any job_id type_name job now none = pure tt
fail_if_any job_id type_name job now (some k) = fail_resource job_id type_name job k now

unfoldable pub terminal_failure : ℕ → JobType → Payload → (now : ℕ) → Tx (Unit {0})
terminal_failure job_id type_name job now = fail_if_any job_id type_name job now job.resource_id
