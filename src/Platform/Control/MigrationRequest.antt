-- ===== src/Platform/Control/MigrationRequest.antt =====
-- The administrator's endpoint that migrates a database
-- (backend/app/api/v1/endpoints/database_admin.py).
use eminidatabase.Base.{ℕ, not, none, some, ◌==◌}
use eminidatabase.Base.Table.{lookup}
use eminidatabase.Base.Action.{◌>>=◌, ◌>>◌, raise_if, found, reads, writes}
use eminidatabase.Platform.Jobs.{JobType}
use eminidatabase.Platform.Placement.{
  Database, DatabaseStatus, is_eligible_for_placement, fits_on_node,
}
use eminidatabase.Platform.Control.{
  Tx, not_found, conflict, AuditAction, set_status, enqueue_job, transaction, record_audit,
  get_database,
}
use eminidatabase.Platform.Control.Agent.{get_primary_node}
use eminidatabase.Platform.Control.Orchestrator.{is_running, limits_of}

-- Whether the database can go to the node.
abbrev pub check_target : Database → (target_node_id now : ℕ) → Tx (Unit {0})
check_target database target_node_id now = do
  target ← found not_found (← reads (λ s. lookup target_node_id s.fleet.nodes))
  raise_if (not (is_eligible_for_placement now target)) conflict
  raise_if (not (target.region_id == database.region_id)) conflict
  current ← get_primary_node database.cluster_id
  raise_if (current.0 == target_node_id) conflict
  fits ← reads (λ s. fits_on_node s.fleet target_node_id target (limits_of database) none)
  raise_if (not fits) conflict

abbrev pub check_migration : Database → (target_node_id now : ℕ) → Tx (Unit {0})
check_migration database target_node_id now = do
  raise_if (not (is_running database.status)) conflict
  check_target database target_node_id now

abbrev pub request_migration : (admin_id database_id target_node_id now : ℕ) → Tx (Unit {0})
request_migration admin_id database_id target_node_id now = do
  enqueue_job JobType.migrate_database
      (record {
        subject = database_id;
        object = some target_node_id;
        organization_id = none;
        resource_id = some database_id;
      })
      none now
  record_audit AuditAction.database_migration_requested (some database_id) none admin_id

-- A platform administrator's request; the caller has been checked.
unfoldable pub migrate_database : (admin_id database_id target_node_id now : ℕ) → Tx (Unit {0})
migrate_database admin_id database_id target_node_id now = transaction (do
  database ← get_database not_found database_id
  check_migration database target_node_id now
  writes (set_status database_id DatabaseStatus.migrating)
  request_migration admin_id database_id target_node_id now)
