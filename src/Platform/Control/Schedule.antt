-- ===== src/Platform/Control/Schedule.antt =====
-- The scheduler's ticks over backups and usage (backend/app/scheduler.py). A time is a number of
-- seconds. `meter_usage` reads and asks; the records that it makes are its result.
use eminidatabase.Base.{
  ℕ, suc, ◌+◌, ◌-◌, ◌*◌, Bool, true, false, not, Option, none, some, List, [], ◌∷◌, ◌++◌, ◌==◌,
  ◌&&◌, ltb, if◌then◌else◌,
}
use eminidatabase.Base.Table.{Table, rows}
use eminidatabase.Base.Action.{Outcome, returned, raised, ◌>>=◌, ◌>>◌, pure, raise, reads, writes}
use eminidatabase.Platform.Jobs.{JobType}
use eminidatabase.Platform.Placement.{Database, BackupPolicy}
use eminidatabase.Platform.Billing.{UsageMetric, cpu_hours, storage_gb_hours, connections}
use eminidatabase.Platform.Control.{
  Tx, Error, agent_unreachable, agent_refused, Backup, BackupType, BackupStatus, AgentCall,
  set_backup, drawn, enqueue_job, attempt, transaction,
}
use eminidatabase.Platform.Control.Agent.{Agents, Body, call_agent, get_primary_node}
use eminidatabase.Platform.Control.Orchestrator.{is_running}
use eminidatabase.Platform.Control.BackupJobs.{is_complete}
use eminidatabase.Platform.Control.Backups.{add_backup, new_backup, is_purged}

abbrev pub seconds_per_hour : ℕ
seconds_per_hour = 3600

abbrev pub seconds_per_day : ℕ
seconds_per_day = 86400

abbrev pub is_automatic : BackupType → Bool
is_automatic BackupType.automatic = true
is_automatic BackupType.manual = false

abbrev pub is_automatic_of : (database_id : ℕ) → Backup → Bool
is_automatic_of database_id b = b.database_id == database_id && is_automatic b.type_name

-- `order_by(created_at.desc()).limit(1)`: the time of the latest.
abbrev pub latest : Table Backup → Option ℕ
latest [] = none
latest ((_, b) ∷ t) = elim (latest t) [
  | none ↦ some b.created_at
  | some at ↦ if ltb at b.created_at then some b.created_at else some at
]

-- `age_hours < frequency_hours`
abbrev pub is_recent : (now frequency_hours : ℕ) → Option ℕ → Bool
is_recent now frequency_hours none = false
is_recent now frequency_hours (some at) = ltb (now - at) (frequency_hours * seconds_per_hour)

-- Whether a database is to be backed up now.
abbrev pub is_backup_due : (now : ℕ) → Option BackupPolicy → Option ℕ → Bool
is_backup_due now none last = false
is_backup_due now (some policy) last =
    policy.enabled && not (is_recent now policy.frequency_hours last)

abbrev pub schedule_backup : (database_id now : ℕ) → Tx ℕ
schedule_backup database_id now = do
  backup_id ← drawn
  writes (add_backup (new_backup database_id backup_id BackupType.automatic now))
  enqueue_job JobType.backup_database
      (record {
        subject = backup_id;
        object = none;
        organization_id = none;
        resource_id = some backup_id;
      })
      none now
  pure 1

abbrev pub backup_if_due : (database_id : ℕ) → Database → (now : ℕ) → Tx ℕ
backup_if_due database_id d now = do
  last ← reads (λ s. latest (rows (is_automatic_of database_id) s.backups))
  if is_backup_due now d.backup_policy last then schedule_backup database_id now else pure 0

abbrev pub backup_all : Table Database → (now : ℕ) → Tx ℕ
backup_all [] now = pure 0
backup_all ((k, d) ∷ ds) now = do n ← backup_if_due k d now; m ← backup_all ds now; pure (n + m)

unfoldable pub enqueue_due_backups : (now : ℕ) → Tx ℕ
enqueue_due_backups now = transaction (do
  databases ← reads (λ s. rows (λ d. is_running d.status) s.fleet.databases)
  backup_all databases now)

-- `REVERIFY_INTERVAL_DAYS`
abbrev pub reverify_interval_days : ℕ
reverify_interval_days = 7

-- `verified_at > now - cutoff`
abbrev pub is_fresh : (now : ℕ) → Option ℕ → Bool
is_fresh now none = false
is_fresh now (some at) = ltb now (at + reverify_interval_days * seconds_per_day)

abbrev pub verify_all : Table Backup → (now : ℕ) → Tx ℕ
verify_all [] now = pure 0
verify_all ((k, b) ∷ bs) now =
    let rest = verify_all bs now in
    if is_fresh now b.verified_at then rest else (do
      enqueue_job JobType.verify_backup
          (record { subject = k; object = none; organization_id = none; resource_id = some k }) none
          now
      n ← rest
      pure (suc n))

unfoldable pub enqueue_due_verifications : (now : ℕ) → Tx ℕ
enqueue_due_verifications now = transaction (do
  candidates ← reads (λ s. rows (λ b. is_complete b.status) s.backups)
  verify_all candidates now)

-- `created_at > now - retention`
abbrev pub is_retained : (now retention_days : ℕ) → Backup → Bool
is_retained now retention_days b = ltb now (b.created_at + retention_days * seconds_per_day)

-- The object in storage, if the database has a node to ask.
abbrev pub delete_object : Agents → Option ℕ → Backup → Tx (Unit {0})
delete_object agents none b = pure tt
delete_object agents (some cluster_id) b = do
  node ← get_primary_node (some cluster_id)
  call_agent agents node.0 node.1 (AgentCall.delete_backup b.storage_key)
  pure tt

-- `except AgentUnreachableError: continue`
abbrev pub purge_if_deleted : (backup_id : ℕ) → Outcome Error (Unit {0}) → Tx ℕ
purge_if_deleted backup_id (returned _) = do
  writes (set_backup backup_id (λ b. record b { status = BackupStatus.purged }))
  pure 1
purge_if_deleted backup_id (raised agent_unreachable) = pure 0
purge_if_deleted backup_id (raised e) = raise e

abbrev pub purge_backup : Agents → Option ℕ → (backup_id : ℕ) → Backup → Tx ℕ
purge_backup agents cluster_id backup_id b = do
  outcome ← attempt (delete_object agents cluster_id b)
  purge_if_deleted backup_id outcome

abbrev pub purge_backups : Agents → Option ℕ → (now retention_days : ℕ) → Table Backup → Tx ℕ
purge_backups agents cluster_id now retention_days [] = pure 0
purge_backups agents cluster_id now retention_days ((k, b) ∷ bs) =
    let rest = purge_backups agents cluster_id now retention_days bs in
    if is_retained now retention_days b
    then rest
    else (do n ← purge_backup agents cluster_id k b; m ← rest; pure (n + m))

-- A database without a retention keeps its backups.
abbrev pub purge_database : Agents → (database_id now : ℕ) → Option ℕ → Option BackupPolicy → Tx ℕ
purge_database agents database_id now cluster_id none = pure 0
purge_database agents database_id now cluster_id (some policy) =
    if policy.retention_days == 0 then pure 0 else (do
      expired ←
          reads
            (λ s. rows (λ b. is_automatic_of database_id b && not (is_purged b.status)) s.backups)
      purge_backups agents cluster_id now policy.retention_days expired)

abbrev pub purge_all : Agents → (now : ℕ) → Table Database → Tx ℕ
purge_all agents now [] = pure 0
purge_all agents now ((k, d) ∷ ds) = do
  n ← purge_database agents k now d.cluster_id d.backup_policy
  m ← purge_all agents now ds
  pure (n + m)

unfoldable pub purge_expired_automatic_backups : Agents → (now : ℕ) → Tx ℕ
purge_expired_automatic_backups agents now =
    transaction (do databases ← reads (λ s. s.fleet.databases); purge_all agents now databases)

-- A reading: a value is a fraction of hours times the reading's unit, over `hours_elapsed`'s 60 to
-- the hour.
pub record Reading : Type 0 where
  pub database_id : ℕ
  pub metric : UsageMetric
  pub numerator : ℕ
  pub denominator : ℕ

abbrev pub readings : (database_id cpu_limit : ℕ) → Body → List Reading
readings database_id cpu_limit body =
    record {
      database_id = database_id;
      metric = storage_gb_hours;
      numerator = body.size_bytes;
      denominator = 1073741824 * 60;
    }
    ∷ record {
      database_id = database_id;
      metric = cpu_hours;
      numerator = cpu_limit;
      denominator = 60;
    }
    ∷ record {
      database_id = database_id;
      metric = connections;
      numerator = body.active_connections;
      denominator = 1;
    }
    ∷ []

abbrev pub read_metrics : Agents → Database → Tx Body
read_metrics agents d = do
  node ← get_primary_node d.cluster_id
  call_agent agents node.0 node.1 (AgentCall.metrics d.physical_name)

-- `except (AgentUnreachableError, AgentRequestError): continue`
abbrev pub readings_from : ℕ → Database → Outcome Error Body → Tx (List Reading)
readings_from k d (returned body) = pure (readings k d.cpu_limit body)
readings_from k d (raised agent_unreachable) = pure []
readings_from k d (raised (agent_refused _)) = pure []
readings_from k d (raised e) = raise e

abbrev pub meter_all : Agents → Table Database → Tx (List Reading)
meter_all agents [] = pure []
meter_all agents ((k, d) ∷ ds) = do
  outcome ← attempt (read_metrics agents d)
  first ← readings_from k d outcome
  rest ← meter_all agents ds
  pure (first ++ rest)

unfoldable pub meter_usage : Agents → Tx (List Reading)
meter_usage agents = transaction (do
  databases ← reads (λ s. rows (λ d. is_running d.status) s.fleet.databases)
  meter_all agents databases)
