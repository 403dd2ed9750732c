-- ===== src/Platform/Control/Orchestrator.antt =====
-- The handlers of database jobs (backend/app/services/orchestrator.py). Beside the job a handler takes
-- what the agents answer, the cipher of services/secrets.py, the random password or key that it draws
-- and the time. What it wrote before it raises stays, since the worker commits all the same. The
-- answers that a handler returns for the job's `result` are left out.
use eminidatabase.Base.{
  ℕ, suc, Bool, true, false, Option, none, some, List, [], ◌∷◌, ◌++◌, ◌==◌, ◌&&◌, if◌then◌else◌,
}
use eminidatabase.Base.Table.{lookup, add, rows}
use eminidatabase.Base.Action.{◌>>=◌, ◌>>◌, pure, found, reads, writes, scalar_one_or_none}
use eminidatabase.Platform.Jobs.{Payload}
use eminidatabase.Platform.Placement.{
  Node, Database, DatabaseStatus, IsolationLevel, ClusterTopology, ClusterStatus, ClusterMemberRole,
  PlacementDecision, Resources, is_deleted, find_shared_cluster_on_node, select_node_and_cluster,
}
use eminidatabase.Platform.Control.{
  Control, Tx, runtime_error, multiple_results, placement, CredentialScope, DatabaseCredential,
  EventType, WebhookEvent, AgentCall, set_database, set_status, add_event, drawn, from_outcome,
  get_database,
}
use eminidatabase.Platform.Control.Names.{role_name, role_name_prefix}
use eminidatabase.Platform.Control.Agent.{Agents, call_agent, get_primary_node}
use eminidatabase.Platform.Control.Webhooks.{emit_event}

-- What a handler draws on: the agents, `encrypt_secret` and `decrypt_secret`, and a random value.
pub record World : Type 0 where
  pub agents : Agents
  pub encrypt_secret : ℕ → ℕ
  pub decrypt_secret : ℕ → ℕ
  pub fresh : ℕ

abbrev pub is_running : DatabaseStatus → Bool
is_running DatabaseStatus.running = true
is_running _ = false

abbrev pub is_suspended : DatabaseStatus → Bool
is_suspended DatabaseStatus.suspended = true
is_suspended _ = false

abbrev pub is_some : {A : Type 0} → Option A → Bool
is_some none = false
is_some (some _) = true

abbrev pub is_shared : IsolationLevel → Bool
is_shared IsolationLevel.shared = true
is_shared IsolationLevel.dedicated = false

abbrev pub limits_of : Database → Resources
limits_of d = record { cpu = d.cpu_limit; ram_mb = d.ram_limit_mb; storage_gb = d.storage_limit_gb }

abbrev pub add_cluster : (region_id : ℕ) → Bool → (node_id : ℕ) → Control → Control
add_cluster region_id shared node_id s = record s {
  fleet = record (s.fleet) {
    clusters =
        add s.next_id
          (record {
            region_id = region_id;
            topology = ClusterTopology.single;
            shared = shared;
            status = ClusterStatus.active;
          })
          s.fleet.clusters;
    members =
        add (suc s.next_id)
          (record {
            cluster_id = s.next_id;
            node_id = node_id;
            role = ClusterMemberRole.primary;
            replication_lag_bytes = none;
            promoted_at = none;
          })
          s.fleet.members;
  };
  next_id = suc (suc s.next_id);
}

-- A cluster of one member, the primary.
unfoldable pub create_cluster : (region_id : ℕ) → Bool → (node_id : ℕ) → Tx ℕ
create_cluster region_id shared node_id = do
  cluster_id ← drawn
  writes (add_cluster region_id shared node_id)
  pure cluster_id

abbrev pub joined_or_created : (region_id : ℕ) → Bool → (node_id : ℕ) → Option ℕ → Tx ℕ
joined_or_created region_id shared node_id none = create_cluster region_id shared node_id
joined_or_created region_id shared node_id (some cluster_id) = pure cluster_id

unfoldable pub get_or_create_cluster_on_node : (node_id region_id : ℕ) → IsolationLevel → Tx ℕ
unfolding create_cluster
get_or_create_cluster_on_node node_id region_id isolation_level = do
  existing ←
      reads (λ s.
        if is_shared isolation_level then find_shared_cluster_on_node s.fleet node_id else none)
  joined_or_created region_id (is_shared isolation_level) node_id existing

-- The region, and where the scorer puts the database.
unfoldable pub choose_node : Database → (now : ℕ) → Tx PlacementDecision
choose_node database now = do
  region ← found runtime_error (← reads (λ s. lookup database.region_id s.fleet.regions))
  fleet ← reads (λ s. s.fleet)
  from_outcome placement
      (select_node_and_cluster now fleet region.code database.isolation_level (limits_of database))

abbrev pub chosen_cluster : Database → (node_id : ℕ) → (existing_cluster : Option ℕ) → Tx ℕ
chosen_cluster database node_id none =
    get_or_create_cluster_on_node node_id database.region_id database.isolation_level
chosen_cluster database node_id (some cluster_id) = pure cluster_id

abbrev pub add_credential : DatabaseCredential → Control → Control
add_credential c s = record s {
  credentials = add s.next_id c s.credentials;
  next_id = suc s.next_id;
}

-- The credential of the role that a database is provisioned with.
abbrev pub app_credential :
    (database_id : ℕ) → List ℕ → (encrypted_password : ℕ) → DatabaseCredential
app_credential database_id role encrypted_password = record {
  database_id = database_id;
  role_name = role;
  is_primary = true;
  encrypted_password = encrypted_password;
  scope = CredentialScope.app;
}

abbrev pub running_on : Node → Database → Database
running_on node d = record d {
  connection_host = node.ip_address;
  connection_port = some node.postgres_port;
  status = DatabaseStatus.running;
}

unfoldable pub provision_database : World → ℕ → Payload → Database → (now : ℕ) → Tx (Unit {0})
provision_database w job_id job database now = do
  decision ← choose_node database now
  cluster_id ← chosen_cluster database decision.node_id decision.existing_cluster
  writes (set_database job.subject (λ d. record d { cluster_id = some cluster_id }))
  node ← found runtime_error (← reads (λ s. lookup decision.node_id s.fleet.nodes))
  call_agent w.agents decision.node_id node
      (AgentCall.provision database.physical_name (role_name database.physical_name) w.fresh)
  writes (
      add_credential
        (app_credential job.subject (role_name database.physical_name) (w.encrypt_secret w.fresh)))
  writes (set_database job.subject (running_on node))
  writes (add_event job.subject job_id EventType.database_running)
  emit_event job.organization_id WebhookEvent.database_created job.subject now

unfoldable pub execute_create_database : World → ℕ → Payload → (now : ℕ) → Tx (Unit {0})
execute_create_database w job_id job now = do
  database ← get_database runtime_error job.subject
  if is_running database.status && is_some database.cluster_id
      then pure tt
      else provision_database w job_id job database now

abbrev pub is_app : CredentialScope → Bool
is_app CredentialScope.app = true
is_app _ = false

-- "u_unknown"
abbrev pub unknown_role : List ℕ
unknown_role = role_name_prefix ++ (b'u' ∷ b'n' ∷ b'k' ∷ b'n' ∷ b'o' ∷ b'w' ∷ b'n' ∷ [])

abbrev pub role_of : Option (ℕ × DatabaseCredential) → List ℕ
role_of none = unknown_role
role_of (some (_, c)) = c.role_name

abbrev pub drop_if_placed : World → ℕ → Database → (cluster_id : Option ℕ) → Tx (Unit {0})
drop_if_placed w database_id database none = pure tt
drop_if_placed w database_id database (some cluster_id) = do
  node ← get_primary_node (some cluster_id)
  credential ←
      scalar_one_or_none multiple_results
        (← reads (λ s. rows (λ c. c.database_id == database_id && is_app c.scope) s.credentials))
  call_agent w.agents node.0 node.1 (AgentCall.drop database.physical_name (role_of credential))
  pure tt

abbrev pub delete_found : World → ℕ → Payload → (now : ℕ) → Option Database → Tx (Unit {0})
delete_found w job_id job now none = pure tt
delete_found w job_id job now (some database) = if is_deleted database.status then pure tt else (do
  drop_if_placed w job.subject database database.cluster_id
  writes (
      set_database job.subject
        (λ d. record d { status = DatabaseStatus.deleted; deleted_at = some now }))
  writes (add_event job.subject job_id EventType.database_deleted))

unfoldable pub execute_delete_database : World → ℕ → Payload → (now : ℕ) → Tx (Unit {0})
execute_delete_database w job_id job now = do
  database ← reads (λ s. lookup job.subject s.fleet.databases)
  delete_found w job_id job now database

-- The agent of the database's node is asked, and the status is set once it has answered.
abbrev pub asked_and_set :
    World → ℕ → Payload → Database → AgentCall → DatabaseStatus → EventType → Tx (Unit {0})
asked_and_set w job_id job database call status event_type = do
  node ← get_primary_node database.cluster_id
  call_agent w.agents node.0 node.1 call
  writes (set_status job.subject status)
  writes (add_event job.subject job_id event_type)

unfoldable pub execute_suspend_database : World → ℕ → Payload → Tx (Unit {0})
execute_suspend_database w job_id job = do
  database ← get_database runtime_error job.subject
  if is_suspended database.status
      then pure tt
      else asked_and_set w job_id job database (AgentCall.suspend database.physical_name)
          DatabaseStatus.suspended EventType.database_suspended

unfoldable pub execute_resume_database : World → ℕ → Payload → Tx (Unit {0})
execute_resume_database w job_id job = do
  database ← get_database runtime_error job.subject
  if is_running database.status
      then pure tt
      else asked_and_set w job_id job database (AgentCall.resume database.physical_name)
          DatabaseStatus.running EventType.database_resumed
