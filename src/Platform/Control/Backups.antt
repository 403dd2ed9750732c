-- ===== src/Platform/Control/Backups.antt =====
-- The endpoints of backups (backend/app/api/v1/endpoints/database_backups.py).
use eminidatabase.Base.{ℕ, Bool, true, false, not, none, some, List, ◌==◌, ◌&&◌}
use eminidatabase.Base.Table.{Table, lookup, add, rows}
use eminidatabase.Base.Action.{◌>>=◌, ◌>>◌, pure, raise_if, found, reads, writes}
use eminidatabase.Base.{suc}
use eminidatabase.Platform.Jobs.{JobType}
use eminidatabase.Platform.Placement.{DatabaseStatus, BackupPolicy}
use eminidatabase.Platform.Rbac.{database_backups_manage, database_observe}
use eminidatabase.Platform.Control.{
  Control, Tx, not_found, conflict, Backup, BackupType, BackupStatus, StorageKey, AuditAction,
  set_database, add_database, drawn, enqueue_job, transaction, record_audit, get_database_or_404,
}
use eminidatabase.Platform.Control.Orchestrator.{is_running, limits_of}
use eminidatabase.Platform.Control.BackupJobs.{is_complete}
use eminidatabase.Platform.Control.Databases.{
  Caller, restore_key, guarded_database, authorize_active, require_new_name, new_row,
}

abbrev pub add_backup : Backup → Control → Control
add_backup b s = record s { backups = add s.next_id b s.backups; next_id = suc s.next_id }

-- `backup_storage_key`
abbrev pub backup_storage_key : (database_id backup_id : ℕ) → StorageKey
backup_storage_key database_id backup_id = StorageKey.backups database_id backup_id

abbrev pub new_backup : (database_id backup_id : ℕ) → BackupType → (now : ℕ) → Backup
new_backup database_id backup_id type_name now = record {
  database_id = database_id;
  type_name = type_name;
  status = BackupStatus.pending;
  storage_key = backup_storage_key database_id backup_id;
  size_bytes = none;
  created_at = now;
  started_at = none;
  completed_at = none;
  verified_at = none;
}

unfoldable pub create_backup : Caller → (database_id now : ℕ) → Tx ℕ
create_backup c database_id now = transaction (do
  authorize_active c database_backups_manage
  database ← get_database_or_404 c.project_id database_id
  raise_if (not (is_running database.status)) conflict
  backup_id ← drawn
  writes (add_backup (new_backup database_id backup_id BackupType.manual now))
  enqueue_job JobType.backup_database
      (record {
        subject = backup_id;
        object = none;
        organization_id = some c.organization_id;
        resource_id = some backup_id;
      })
      none now
  record_audit AuditAction.backup_requested (some backup_id) (some c.organization_id) c.user_id
  pure backup_id)

abbrev pub is_purged : BackupStatus → Bool
is_purged BackupStatus.purged = true
is_purged _ = false

-- The order of the answer, by the time of creation, is left out.
unfoldable pub list_backups : Caller → (database_id : ℕ) → Tx (Table Backup)
list_backups c database_id = do
  guarded_database c database_observe database_id
  reads (λ s. rows (λ b. b.database_id == database_id && not (is_purged b.status)) s.backups)

-- The backup, if it is one of the database's.
abbrev pub backup_of : (database_id backup_id : ℕ) → Tx Backup
backup_of database_id backup_id = do
  backup ← found not_found (← reads (λ s. lookup backup_id s.backups))
  raise_if (not (backup.database_id == database_id)) not_found
  pure backup

unfoldable pub get_backup : Caller → (database_id backup_id : ℕ) → Tx Backup
get_backup c database_id backup_id = do
  guarded_database c database_observe database_id
  backup_of database_id backup_id

unfoldable pub restore_backup :
    Caller → (database_id backup_id name : ℕ) (suffix : List ℕ) (now : ℕ) → Tx ℕ
restore_backup c database_id backup_id name suffix now = transaction (do
  authorize_active c database_backups_manage
  source ← get_database_or_404 c.project_id database_id
  backup ← backup_of database_id backup_id
  raise_if (not (is_complete backup.status)) conflict
  require_new_name c.project_id name
  target_id ← drawn
  writes (
      add_database (
        new_row c.project_id source.region_id name suffix source.isolation_level
          DatabaseStatus.restoring (limits_of source)))
  enqueue_job JobType.restore_database
      (record {
        subject = target_id;
        object = some backup_id;
        organization_id = some c.organization_id;
        resource_id = some target_id;
      })
      (some (restore_key target_id)) now
  record_audit AuditAction.backup_restore_requested (some target_id) (some c.organization_id)
      c.user_id
  pure target_id)

-- A database without a policy has one that is not enabled, with the defaults.
unfoldable pub get_backup_policy : Caller → (database_id : ℕ) → Tx BackupPolicy
get_backup_policy c database_id = do
  database ← guarded_database c database_observe database_id
  pure (elim database.backup_policy [
    | none ↦ record { enabled = false; frequency_hours = 24; retention_days = 7 }
    | some policy ↦ policy
  ])

unfoldable pub set_backup_policy : Caller → (database_id : ℕ) → BackupPolicy → Tx (Unit {0})
set_backup_policy c database_id policy = transaction (do
  authorize_active c database_backups_manage
  database ← get_database_or_404 c.project_id database_id
  writes (set_database database_id (λ d. record d { backup_policy = some policy }))
  record_audit AuditAction.backup_policy_updated (some database_id) (some c.organization_id)
      c.user_id)
