-- ===== src/Platform/Control/Tests.antt =====
-- Runs of the control plane's calls on small data, and the properties on them.
use eminidatabase.Base.{
  inl, inr, ap, false, ◌+◌, ◌-◌, ℕ, ◌≡◌, ◌≢◌, refl, true, none, some, List, [], ◌∷◌, length, arith,
}
use eminidatabase.Base.Table.{lookup}
use eminidatabase.Base.Action.{returned}
use eminidatabase.Platform.Placement.{
  Node, NodeStatus, ClusterStatus, ClusterTopology, ClusterMemberRole, Database, DatabaseStatus,
  IsolationLevel,
}
use eminidatabase.Platform.Rbac.{MembershipRole, require_permission, has_permission, permitted}
use eminidatabase.Platform.Jobs.{Payload, enqueue}
use eminidatabase.Platform.Control.{
  Control, enqueue_job, record_audit, get_membership, authorize, get_project_or_404,
  get_database_or_404,
}
use eminidatabase.Platform.Control.Names.{
  generate_physical_identifiers, role_name, is_valid_identifier,
  generate_physical_identifiers-role_name,
}
use eminidatabase.Platform.Control.Agent.{
  Agents, Body, answered, refused, unreachable, call_agent, get_primary_node,
}
use eminidatabase.Platform.Control.Databases.{Caller, guarded_database, delete_database}
use eminidatabase.Platform.Control.Failover.{
  Candidate, attach_replica, add_replica, trigger_failover, execute_failover,
}
use eminidatabase.Platform.Control.FailoverCheck.{
  check_clusters, check_and_failover_unhealthy_clusters,
}
use eminidatabase.Platform.Control.Schedule.{
  enqueue_due_backups, enqueue_due_verifications, purge_expired_automatic_backups, meter_usage,
}
use eminidatabase.Platform.Control.Calls.{
  Call, requests, migrates, suspends, resumes, attaches, fails_over, ticks, deletes, handle_request,
  tick, handle, run,
}
use eminidatabase.Base.Keeps.{Yields}
use eminidatabase.Platform.Control.Orchestrator.{World}
use eminidatabase.Platform.Control.Migration.{execute_migrate_database}
use eminidatabase.Platform.Control.Migration.Spares.{
  NoRestore, drops, execute_migrate_database-Spares,
}
use eminidatabase.Platform.Control.Freshest.{IsIn}
use eminidatabase.Platform.Control.Freshest.Promoted.{IsPromoted}
use eminidatabase.Platform.Control.Freshest.Promotes.{IsPromotable, execute_failover-Promotes}
use eminidatabase.Platform.Control.Statuses.{run-IsReached}
use eminidatabase.Platform.Control.Statuses.Steps.{IsReached}
use eminidatabase.Platform.Control.Members.{MemberRequest, adds, removes, change_members}
use eminidatabase.Platform.Control.Members.Owners.{HasOwner, change_members-HasOwner}
use eminidatabase.Platform.Control.Primary.{HasOnePrimary, run-HasOnePrimary}
use eminidatabase.Platform.Control.NoFailover.{check_and_failover-Idle}
use eminidatabase.Platform.Control.Isolation.{handle_request-Isolated}

abbrev node : Node
node = record {
  region_id = 1;
  cpu_total = 8;
  ram_total_mb = 8;
  storage_total_gb = 100;
  status = NodeStatus.active;
  last_heartbeat_at = some 1000;
  ip_address = some 77;
  postgres_port = 5432;
}

-- Two databases that run on one cluster, of two projects.
abbrev database : (project_id name : ℕ) → Database
database project_id name = record {
  project_id = project_id;
  region_id = 1;
  cluster_id = some 10;
  name = name;
  physical_name = b'd' ∷ b'b' ∷ b'_' ∷ b'a' ∷ [];
  isolation_level = IsolationLevel.shared;
  status = DatabaseStatus.running;
  cpu_limit = 1;
  ram_limit_mb = 1;
  storage_limit_gb = 10;
  connection_host = some 77;
  connection_port = some 5432;
  backup_policy = none;
  deleted_at = none;
}

-- User 5 owns organization 1, which has project 1; project 2 is organization 2's.
abbrev session : Control
session = record {
  fleet = record {
    regions = (1, record { code = 3; active = true }) ∷ [];
    nodes = (11, node) ∷ (12, node) ∷ [];
    clusters =
        (
          10,
          record {
            region_id = 1;
            topology = ClusterTopology.single;
            shared = true;
            status = ClusterStatus.active;
          },
        )
        ∷ [];
    members =
        (
          20,
          record {
            cluster_id = 10;
            node_id = 11;
            role = ClusterMemberRole.primary;
            replication_lag_bytes = none;
            promoted_at = none;
          },
        )
        ∷ [];
    databases = (30, database 1 7) ∷ (31, database 2 8) ∷ [];
  };
  users = (5, record { email = 50 }) ∷ (6, record { email = 60 }) ∷ [];
  memberships = record { user_id = 5; organization_id = 1; role = MembershipRole.owner } ∷ [];
  projects = (1, record { organization_id = 1 }) ∷ (2, record { organization_id = 2 }) ∷ [];
  plans = [];
  subscriptions = [];
  credentials = [];
  backups = [];
  database_events = [];
  cluster_events = [];
  webhooks = [];
  deliveries = [];
  audit_logs = [];
  jobs = record { jobs = []; next_id = 1 };
  next_id = 40;
  sent = [];
}

-- Every agent is a standby, and answers.
abbrev standbys : Agents
standbys = λ _ _. answered (record {
  is_standby = true;
  lag_bytes = some 4;
  size_bytes = 100;
  active_connections = 2;
  verified = true;
})

abbrev caller : Caller
caller = record { user_id = 5; organization_id = 1; project_id = 1 }

abbrev calls : List (Agents × Call × ℕ)
calls =
    (standbys, attaches 10 12, 1010)
    ∷ (standbys, requests caller (deletes 30), 1015)
    ∷ (standbys, fails_over 10, 1020)
    ∷ (standbys, ticks, 1030)
    ∷ []

-- The replica is the primary now, and the old one is gone.
run_members : length (run calls session).fleet.members ≡ 1
unfolding run handle handle_request attach_replica add_replica call_agent delete_database
    guarded_database authorize get_membership require_permission has_permission permitted
    get_project_or_404 get_database_or_404 enqueue_job enqueue record_audit trigger_failover
    execute_failover tick enqueue_due_backups enqueue_due_verifications
    purge_expired_automatic_backups check_and_failover_unhealthy_clusters check_clusters meter_usage
    get_primary_node
run_members = refl

session-HasOnePrimary : HasOnePrimary session
session-HasOnePrimary = record {
  clusters_below = (omega arith, tt);
  members = record {
    keyed = (refl, tt);
    below = (omega arith, tt);
    of_clusters = λ c le. ground arith;
    one = λ c. ground arith;
  };
}

run-HasOnePrimary_example : HasOnePrimary (run calls session)
run-HasOnePrimary_example = run-HasOnePrimary calls session session-HasOnePrimary

check_and_failover-Idle_example :
    check_and_failover_unhealthy_clusters standbys 5000 (run calls session)
    ≡ (returned tt, run calls session)
check_and_failover-Idle_example = check_and_failover-Idle calls standbys 5000 session refl

two_one : ◌≢◌ {A = ℕ} 2 1
two_one h = cc

handle_request-Isolated_example :
    lookup 31 (handle_request standbys caller (deletes 31) 1010 session).1.fleet.databases
    ≡ some (database 2 8)
handle_request-Isolated_example =
    handle_request-Isolated standbys caller (deletes 31) 1010 31 (database 2 8)
      (record { organization_id = 2 }) session refl refl two_one

abbrev suffix : List ℕ
suffix = b'0' ∷ b'f' ∷ b'3' ∷ []

generate_physical_identifiers-role_name_example :
    let (database, role) = generate_physical_identifiers suffix in
    (is_valid_identifier database ≡ true)
    × (is_valid_identifier role ≡ true)
    × (role_name database ≡ role)
generate_physical_identifiers-role_name_example =
    generate_physical_identifiers-role_name suffix refl (omega arith) (omega arith)

-- The session with a replica attached on the second node.
abbrev replicated : Control
replicated = record session {
  fleet = record (session.fleet) {
    members =
        (
          20,
          record {
            cluster_id = 10;
            node_id = 11;
            role = ClusterMemberRole.primary;
            replication_lag_bytes = none;
            promoted_at = none;
          },
        )
        ∷ (
          21,
          record {
            cluster_id = 10;
            node_id = 12;
            role = ClusterMemberRole.replica;
            replication_lag_bytes = none;
            promoted_at = none;
          },
        )
        ∷ [];
  };
}

abbrev standby : Candidate
standby = record { member_id = 21; node_id = 12; node = node; lag = 4 }

abbrev answer : Body
answer = record {
  is_standby = true;
  lag_bytes = some 4;
  size_bytes = 100;
  active_connections = 2;
  verified = true;
}

standby-IsPromotable : (c : Candidate) → IsIn c (standby ∷ []) → IsPromotable standbys c
standby-IsPromotable c (inl here) =
    ((77, ap (λ (x : Candidate). x.node.ip_address) here), (answer, refl))
standby-IsPromotable c (inr there) = elim there [ ]

execute_failover-Promotes_example :
    Yields
      (IsPromoted 10 1010 (standby ∷ []) replicated.fleet)
      (execute_failover standbys 10 false 1010 replicated)
execute_failover-Promotes_example =
    execute_failover-Promotes standbys 10 false 1010 replicated
      (record {
        region_id = 1;
        topology = ClusterTopology.single;
        shared = true;
        status = ClusterStatus.active;
      })
      standby (refl, (refl, tt)) refl ((node, refl), willing, tt) (inl refl) standby-IsPromotable
  where
    willing : (code : ℕ) → answered answer ≡ refused code → ⊥
    willing code e = cc

-- No agent can be reached.
abbrev world : World
world = record {
  agents = λ _ _. unreachable;
  encrypt_secret = λ n. n + 1;
  decrypt_secret = λ n. n - 1;
  fresh = 9;
}

abbrev migration : Payload
migration = record { subject = 30; object = some 12; organization_id = none; resource_id = some 30 }

unreachable-NoRestore : NoRestore world.agents 12
unreachable-NoRestore name key role password body e = cc

execute_migrate_database-Spares_example :
    let t = (execute_migrate_database world 50 migration session).1 in
    (t.fleet ≡ session.fleet) × (drops t.sent ≡ drops session.sent)
execute_migrate_database-Spares_example =
    execute_migrate_database-Spares world 50 12 migration session refl unreachable-NoRestore

-- The second request finds the database suspending.
abbrev asked : List (Agents × Call × ℕ)
asked =
    (standbys, requests caller (suspends 30), 1010)
    ∷ (standbys, requests caller (resumes 30), 1011)
    ∷ (standbys, migrates 5 30 12, 1012)
    ∷ (standbys, requests caller (deletes 30), 1013)
    ∷ []

run-IsReached_example :
    (e : Database) × (lookup 30 (run asked session).fleet.databases ≡ some e)
    × IsReached DatabaseStatus.running e.status
    × (DatabaseStatus.running ≡ DatabaseStatus.deleted → e.status ≡ DatabaseStatus.deleted)
run-IsReached_example =
    run-IsReached asked 30 (database 1 7) session (tt, (tt, (tt, (tt, tt)))) refl

-- An owner is added, the first one goes, and the other does not.
abbrev changes : List MemberRequest
changes = adds 5 1 60 MembershipRole.owner ∷ removes 6 1 5 ∷ removes 6 1 6 ∷ []

change_members-HasOwner_example : HasOwner 1 (change_members changes session)
change_members-HasOwner_example = change_members-HasOwner changes 1 session (omega arith)
