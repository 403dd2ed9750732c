-- ===== src/Platform/Control/Databases.antt =====
-- The endpoints of databases (backend/app/api/v1/endpoints/databases.py). The caller is
-- a user; a request ends in a commit, or in a rollback if it raises.
use eminidatabase.Base.{ℕ, ◌+◌, ◌*◌, Bool, not, Option, none, some, List, [], ◌∷◌, ◌==◌, ◌&&◌}
use eminidatabase.Base.Table.{Table, lookup, rows}
use eminidatabase.Base.Action.{
  ◌>>=◌, ◌>>◌, pure, raise_if, found, reads, writes, scalar_one_or_none,
}
use eminidatabase.Platform.Jobs.{JobType, Payload}
use eminidatabase.Platform.Placement.{
  Database, DatabaseStatus, IsolationLevel, Resources, is_deleted, fits_on_node,
}
use eminidatabase.Platform.Quotas.{check_database_quota}
use eminidatabase.Platform.Quotas
use eminidatabase.Platform.Rbac.{
  RbacAction, database_create, database_delete, database_manage, require_permission,
}
use eminidatabase.Platform.Control.{
  Control, Project, Tx, not_found, conflict, multiple_results, permission, quota, AuditAction,
  AgentCall, set_database, set_status, add_database, drawn, from_outcome, enqueue_job, transaction,
  record_audit, get_membership, require_active_subscription, authorize, get_project_or_404,
  get_database_or_404,
}
use eminidatabase.Platform.Control.Names.{generate_physical_identifiers}
use eminidatabase.Platform.Control.Agent.{Agents, call_agent, get_primary_node}
use eminidatabase.Platform.Control.Orchestrator.{is_running, is_suspended, is_some}

-- Who asks, and for which database.
pub record Caller : Type 0 where
  pub user_id : ℕ
  pub organization_id : ℕ
  pub project_id : ℕ

-- A payload that names a database, with the columns of its job.
abbrev pub about_database : Option ℕ → (database_id : ℕ) → Payload
about_database organization_id database_id = record {
  subject = database_id;
  object = none;
  organization_id = organization_id;
  resource_id = some database_id;
}

-- The idempotency keys `create_database:{id}`, `delete_database:{id}` and `restore_database:{id}`.
abbrev pub create_key : ℕ → ℕ
create_key id = 3 * id

abbrev pub delete_key : ℕ → ℕ
delete_key id = 3 * id + 1

abbrev pub restore_key : ℕ → ℕ
restore_key id = 3 * id + 2

-- The guards that a request for one database passes: membership, permission, project, database.
unfoldable pub guarded_database : Caller → RbacAction → (database_id : ℕ) → Tx Database
unfolding authorize get_project_or_404 get_database_or_404
guarded_database c action database_id = do
  authorize c.organization_id c.user_id action
  get_project_or_404 c.organization_id c.project_id
  get_database_or_404 c.project_id database_id

-- The same for an endpoint that wants a subscription in good standing.
abbrev pub authorize_member : Caller → RbacAction → Tx (Unit {0})
authorize_member c action = do
  membership ← get_membership c.organization_id c.user_id
  require_active_subscription c.organization_id
  from_outcome permission (require_permission membership.role action)

unfoldable pub authorize_active : Caller → RbacAction → Tx (Unit {0})
authorize_active c action = do
  authorize_member c action
  get_project_or_404 c.organization_id c.project_id
  pure tt

-- The organization's view of the databases that its quotas count.
abbrev pub quota_databases : Table Project → Table Database → List Quotas.Database
quota_databases projects [] = []
quota_databases projects ((_, d) ∷ t) = elim (lookup d.project_id projects) [
  | none ↦ quota_databases projects t
  | some project ↦
      record {
        organization_id = project.organization_id;
        status = d.status;
        cpu_limit = d.cpu_limit;
        storage_limit_gb = d.storage_limit_gb;
      }
      ∷ quota_databases projects t
]

abbrev pub quota_store : Control → Quotas.Store
quota_store s = record {
  plans = s.plans;
  subscriptions = s.subscriptions;
  databases = quota_databases s.projects s.fleet.databases;
}

abbrev pub has_name : (project_id name : ℕ) → Database → Bool
has_name project_id name d = d.project_id == project_id && d.name == name

-- `if existing.scalar_one_or_none() is not None: raise`
unfoldable pub require_new_name : (project_id name : ℕ) → Tx (Unit {0})
require_new_name project_id name = do
  existing ←
      scalar_one_or_none multiple_results
        (← reads (λ s. rows (has_name project_id name) s.fleet.databases))
  raise_if (is_some existing) conflict

pub record DatabaseCreate : Type 0 where
  pub name : ℕ
  pub region_code : ℕ
  pub isolation_level : IsolationLevel
  pub limits : Resources

abbrev pub new_row :
    (project_id region_id name : ℕ)
    → List ℕ
    → IsolationLevel
    → DatabaseStatus
    → Resources
    → Database
new_row project_id region_id name suffix level status limits = record {
  project_id = project_id;
  region_id = region_id;
  cluster_id = none;
  name = name;
  physical_name = (generate_physical_identifiers suffix).0;
  isolation_level = level;
  status = status;
  cpu_limit = limits.cpu;
  ram_limit_mb = limits.ram_mb;
  storage_limit_gb = limits.storage_gb;
  connection_host = none;
  connection_port = none;
  backup_policy = none;
  deleted_at = none;
}

abbrev pub create_body : Caller → DatabaseCreate → (suffix : List ℕ) → (now : ℕ) → Tx ℕ
create_body c payload suffix now = do
  authorize_active c database_create
  region ←
      scalar_one_or_none multiple_results
        (← reads (λ s. rows (λ r. r.code == payload.region_code && r.active) s.fleet.regions))
  region_row ← found not_found region
  require_new_name c.project_id payload.name
  verdict ← reads (λ s.
      check_database_quota (quota_store s) c.organization_id payload.limits.storage_gb
        payload.limits.cpu)
  from_outcome quota verdict
  database_id ← drawn
  writes (
      add_database (
        new_row c.project_id region_row.0 payload.name suffix payload.isolation_level
          DatabaseStatus.creating payload.limits))
  enqueue_job JobType.create_database (about_database (some c.organization_id) database_id)
      (some (create_key database_id)) now
  record_audit AuditAction.database_create_requested (some database_id) (some c.organization_id)
      c.user_id
  pure database_id

unfoldable pub create_database : Caller → DatabaseCreate → (suffix : List ℕ) → (now : ℕ) → Tx ℕ
create_database c payload suffix now = transaction (create_body c payload suffix now)

-- The rest of a request that sets a status and leaves the work to a job.
abbrev pub requested :
    Caller
    → JobType
    → DatabaseStatus
    → AuditAction
    → Option ℕ
    → (database_id now : ℕ) → Tx (Unit {0})
requested c type_name status action key database_id now = do
  writes (set_status database_id status)
  enqueue_job type_name (about_database (some c.organization_id) database_id) key now
  record_audit action (some database_id) (some c.organization_id) c.user_id

unfoldable pub delete_database : Caller → (database_id now : ℕ) → Tx (Unit {0})
delete_database c database_id now = transaction (do
  database ← guarded_database c database_delete database_id
  raise_if (is_deleted database.status) conflict
  requested c JobType.delete_database DatabaseStatus.deleting AuditAction.database_delete_requested
      (some (delete_key database_id)) database_id now)

unfoldable pub suspend_database : Caller → (database_id now : ℕ) → Tx (Unit {0})
suspend_database c database_id now = transaction (do
  database ← guarded_database c database_manage database_id
  raise_if (not (is_running database.status)) conflict
  requested c JobType.suspend_database DatabaseStatus.suspending
      AuditAction.database_suspend_requested none database_id now)

unfoldable pub resume_database : Caller → (database_id now : ℕ) → Tx (Unit {0})
resume_database c database_id now = transaction (do
  database ← guarded_database c database_manage database_id
  raise_if (not (is_suspended database.status)) conflict
  requested c JobType.resume_database DatabaseStatus.updating AuditAction.database_resume_requested
      none database_id now)

-- `CONNECTIONS_PER_CPU`
abbrev pub connections_per_cpu : ℕ
connections_per_cpu = 20

abbrev pub resized : Resources → Database → Database
resized limits d = record d {
  cpu_limit = limits.cpu;
  ram_limit_mb = limits.ram_mb;
  storage_limit_gb = limits.storage_gb;
}

unfoldable pub resize_database : Agents → Caller → (database_id : ℕ) → Resources → Tx (Unit {0})
resize_database agents c database_id limits = transaction (do
  database ← guarded_database c database_manage database_id
  raise_if (not (is_running database.status)) conflict
  node ← get_primary_node database.cluster_id
  fits ← reads (λ s. fits_on_node s.fleet node.0 node.1 limits (some database_id))
  raise_if (not fits) conflict
  call_agent agents node.0 node.1
      (AgentCall.connection_limit database.physical_name (limits.cpu * connections_per_cpu))
  writes (set_database database_id (resized limits))
  record_audit AuditAction.database_resized (some database_id) (some c.organization_id) c.user_id)
