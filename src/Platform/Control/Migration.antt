-- ===== src/Platform/Control/Migration.antt =====
-- `execute_migrate_database` of backend/app/services/orchestrator.py: quiesce and dump the source,
-- restore on the target, cut over, and only then drop the source.
pub mod Spares
use eminidatabase.Base.{ℕ, some, ◌==◌, ◌&&◌, if◌then◌else◌}
use eminidatabase.Base.Table.{lookup, rows}
use eminidatabase.Base.Action.{
  Outcome, returned, raised, ◌>>=◌, ◌>>◌, pure, raise, found, reads, writes, scalar_one,
}
use eminidatabase.Platform.Jobs.{Payload}
use eminidatabase.Platform.Placement.{Node, Database}
use eminidatabase.Platform.Control.{
  Tx, Error, runtime_error, no_result, multiple_results, agent_unreachable, DatabaseCredential,
  StorageKey, EventType, AgentCall, set_database, add_event, attempt, get_database,
}
use eminidatabase.Platform.Control.Agent.{Body, call_agent, get_primary_node}
use eminidatabase.Platform.Control.Orchestrator.{World, running_on, get_or_create_cluster_on_node}

-- Where the database is and goes, with the credential that moves along.
pub record Route : Type 0 where
  pub database_id : ℕ
  pub database : Database
  pub source_id : ℕ
  pub source : Node
  pub target_id : ℕ
  pub target : Node
  pub credential : DatabaseCredential

abbrev pub migration_key : World → Route → StorageKey
migration_key w r = StorageKey.migrations r.database_id w.fresh

abbrev pub copy_to_target : World → Route → Tx (Unit {0})
copy_to_target w r = do
  call_agent w.agents r.source_id r.source
      (AgentCall.quiesce r.database.physical_name r.credential.role_name)
  call_agent w.agents r.source_id r.source
      (AgentCall.back_up r.database.physical_name (migration_key w r))
  call_agent w.agents r.target_id r.target (
      AgentCall.restore r.database.physical_name (migration_key w r) r.credential.role_name
        (w.decrypt_secret r.credential.encrypted_password))
  pure tt

abbrev pub cut_over : Route → Tx (Unit {0})
cut_over r = do
  cluster_id ←
      get_or_create_cluster_on_node r.target_id r.database.region_id r.database.isolation_level
  writes (
      set_database r.database_id
        (λ d. record (running_on r.target d) { cluster_id = some cluster_id }))

-- `except AgentUnreachableError: pass`
abbrev pub unless_unreachable : Outcome Error Body → Tx (Unit {0})
unless_unreachable (returned _) = pure tt
unless_unreachable (raised agent_unreachable) = pure tt
unless_unreachable (raised e) = raise e

abbrev pub clean_up : World → ℕ → Route → Tx (Unit {0})
clean_up w job_id r = do
  call_agent w.agents r.source_id r.source
      (AgentCall.drop r.database.physical_name r.credential.role_name)
  outcome ←
      attempt
        (call_agent w.agents r.target_id r.target (AgentCall.delete_backup (migration_key w r)))
  unless_unreachable outcome
  writes (add_event r.database_id job_id EventType.database_migrated)

unfoldable pub migrate_along : World → ℕ → Route → Tx (Unit {0})
migrate_along w job_id r = do copy_to_target w r; cut_over r; clean_up w job_id r

-- The target node's key, which the payload names.
abbrev pub target_of : Payload → Tx ℕ
target_of job = do found runtime_error job.object

-- The database's cluster; a database that was never placed has none.
abbrev pub migrate_from :
    World → ℕ → Payload → Database → (target_id : ℕ) → Node → ℕ × Node → Tx (Unit {0})
migrate_from w job_id job database target_id target source =
    if source.0 == target_id then pure tt else (do
      credential ←
          scalar_one no_result multiple_results
            (← reads (λ s. rows (λ c. c.database_id == job.subject && c.is_primary) s.credentials))
      migrate_along w job_id (record {
        database_id = job.subject;
        database = database;
        source_id = source.0;
        source = source.1;
        target_id = target_id;
        target = target;
        credential = credential.1;
      }))

-- The migration, once the database and the target's key are known.
abbrev pub migrate_to : World → ℕ → Payload → Database → (target_id : ℕ) → Tx (Unit {0})
migrate_to w job_id job database target_id = do
  target ← found runtime_error (← reads (λ s. lookup target_id s.fleet.nodes))
  cluster_id ← found runtime_error database.cluster_id
  source ← get_primary_node (some cluster_id)
  migrate_from w job_id job database target_id target source

unfoldable pub execute_migrate_database : World → ℕ → Payload → Tx (Unit {0})
execute_migrate_database w job_id job = do
  database ← get_database runtime_error job.subject
  target_id ← target_of job
  migrate_to w job_id job database target_id
