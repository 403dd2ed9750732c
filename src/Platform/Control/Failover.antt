-- ===== src/Platform/Control/Failover.antt =====
-- Replicas and failover (backend/app/services/ha_orchestrator.py), and the administrator's endpoints
-- for them (api/v1/endpoints/clusters.py).
use eminidatabase.Base.{
  ℕ, suc, Bool, false, not, Option, none, some, List, [], ◌∷◌, ◌++◌, ◌==◌, ◌&&◌, ltb, if◌then◌else◌,
}
use eminidatabase.Base.Table.{Table, lookup, modify, add, rows}
use eminidatabase.Base.Action.{
  Outcome, returned, raised, ◌>>=◌, ◌>>◌, pure, raise, raise_if, found, reads, writes,
}
use eminidatabase.Platform.Placement.{Node, ClusterMember, ClusterMemberRole, Database}
use eminidatabase.Platform.Control.{
  Control, Tx, Error, not_found, value_error, runtime_error, no_healthy_replica, agent_unreachable,
  ClusterEvent, AgentCall, drawn, attempt, transaction,
}
use eminidatabase.Platform.Control.Agent.{Agents, Body, call_agent, is_primary, is_primary_of}
use eminidatabase.Platform.Control.Orchestrator.{is_running}

-- `db.delete(member)`
abbrev pub remove : {R : Type 0} → ℕ → Table R → Table R
remove k [] = []
remove k ((j, r) ∷ t) = if j == k then remove k t else (j, r) ∷ remove k t

abbrev pub add_member : ClusterMember → Control → Control
add_member m s = record s {
  fleet = record (s.fleet) { members = add s.next_id m s.fleet.members };
  next_id = suc s.next_id;
}

abbrev pub add_cluster_event : ClusterEvent → Control → Control
add_cluster_event e s = record s { cluster_events = s.cluster_events ++ (e ∷ []) }

abbrev pub get_member_replication_status : Agents → ℕ → Node → Tx Body
get_member_replication_status agents node_id node =
    call_agent agents node_id node AgentCall.replication_status

-- A row for the replica, whose agent has answered.
abbrev pub add_standby : (cluster_id node_id : ℕ) → Body → Tx ℕ
add_standby cluster_id node_id status = do
  raise_if (not status.is_standby) value_error
  member_id ← drawn
  writes (
      add_member (record {
        cluster_id = cluster_id;
        node_id = node_id;
        role = ClusterMemberRole.replica;
        replication_lag_bytes = status.lag_bytes;
        promoted_at = none;
      }))
  writes (add_cluster_event (ClusterEvent.replica_attached cluster_id node_id))
  pure member_id

unfoldable pub add_replica : Agents → (cluster_id node_id : ℕ) → Node → Tx ℕ
add_replica agents cluster_id node_id node = do
  status ← get_member_replication_status agents node_id node
  add_standby cluster_id node_id status

-- The node of a member; a foreign key says that it is there.
abbrev pub node_of : ClusterMember → Tx Node
node_of m = do found runtime_error (← reads (λ s. lookup m.node_id s.fleet.nodes))

-- A replica that is reachable and standing by, with its lag.
pub record Candidate : Type 0 where
  pub member_id : ℕ
  pub node_id : ℕ
  pub node : Node
  pub lag : ℕ

abbrev pub lag_of : Option ℕ → ℕ
lag_of none = 0
lag_of (some n) = n

abbrev pub candidate_if_standby : ℕ → ℕ → Node → Body → List Candidate
candidate_if_standby member_id node_id node status =
    if status.is_standby
    then record {
      member_id = member_id;
      node_id = node_id;
      node = node;
      lag = lag_of status.lag_bytes;
    }
      ∷ []
    else []

-- `except AgentUnreachableError: continue`; any other error goes on.
abbrev pub candidate_from : ℕ → ℕ → Node → Outcome Error Body → Tx (List Candidate)
candidate_from member_id node_id node (returned status) =
    pure (candidate_if_standby member_id node_id node status)
candidate_from member_id node_id node (raised agent_unreachable) = pure []
candidate_from member_id node_id node (raised e) = raise e

-- A turn of the loop over the replicas, and the loop.
abbrev pub candidate_of : Agents → (member_id : ℕ) → ClusterMember → Tx (List Candidate)
candidate_of agents member_id m = do
  node ← node_of m
  status ← attempt (get_member_replication_status agents m.node_id node)
  candidate_from member_id m.node_id node status

abbrev pub candidates : Agents → Table ClusterMember → Tx (List Candidate)
candidates agents [] = pure []
candidates agents ((member_id, m) ∷ ms) = do
  first ← candidate_of agents member_id m
  rest ← candidates agents ms
  pure (first ++ rest)

-- The head of `candidates.sort(key=lag)`, a stable sort: the first of those with the least lag.
abbrev pub least_lag : Candidate → List Candidate → Candidate
least_lag c [] = c
least_lag c (d ∷ ds) = if ltb d.lag c.lag then least_lag d ds else least_lag c ds

abbrev pub chosen : List Candidate → Tx Candidate
chosen [] = raise no_healthy_replica
chosen (c ∷ cs) = pure (least_lag c cs)

abbrev pub promoted : (now : ℕ) → ClusterMember → ClusterMember
promoted now m = record m {
  role = ClusterMemberRole.primary;
  promoted_at = some now;
  replication_lag_bytes = none;
}

abbrev pub remove_if_any : Option (ℕ × ClusterMember) → Table ClusterMember → Table ClusterMember
remove_if_any none t = t
remove_if_any (some (k, _)) t = remove k t

-- `database.cluster_id == cluster_id`
abbrev pub is_in : (cluster_id : ℕ) → Option ℕ → Bool
is_in cluster_id none = false
is_in cluster_id (some c) = c == cluster_id

abbrev pub is_moved : (cluster_id : ℕ) → Database → Bool
is_moved cluster_id d = is_in cluster_id d.cluster_id && is_running d.status

abbrev pub repointed : Node → Database → Database
repointed node d = record d {
  connection_host = node.ip_address;
  connection_port = some node.postgres_port;
}

-- The running databases of the cluster are pointed at the node.
abbrev pub repoint_all : (cluster_id : ℕ) → Node → Table Database → Table Database
repoint_all cluster_id node [] = []
repoint_all cluster_id node ((k, d) ∷ t) =
    (k, if is_moved cluster_id d then repointed node d else d) ∷ repoint_all cluster_id node t

abbrev pub failed_over :
    (cluster_id now : ℕ) → Candidate → Option (ℕ × ClusterMember) → Control → Control
failed_over cluster_id now c old s = record s {
  fleet = record (s.fleet) {
    members = remove_if_any old (modify c.member_id (promoted now) s.fleet.members);
    databases = repoint_all cluster_id c.node s.fleet.databases;
  };
}

abbrev pub first_row : {R : Type 0} → Table R → Option (ℕ × R)
first_row [] = none
first_row (x ∷ _) = some x

abbrev pub node_before : Option (ℕ × ClusterMember) → Option ℕ
node_before none = none
node_before (some (_, m)) = some m.node_id

abbrev pub is_replica_of : (cluster_id : ℕ) → ClusterMember → Bool
is_replica_of cluster_id m = m.cluster_id == cluster_id && not (is_primary m.role)

-- `if not replica_members: raise`
abbrev pub require_replica : Table ClusterMember → Tx (Unit {0})
require_replica [] = raise no_healthy_replica
require_replica (_ ∷ _) = pure tt

-- What a failover writes once the replica's agent has promoted it.
abbrev pub record_failover :
    (cluster_id : ℕ) (automatic : Bool) (now : ℕ) → Option (ℕ × ClusterMember) → Candidate → Tx ℕ
record_failover cluster_id automatic now old c = do
  writes (failed_over cluster_id now c old)
  writes (
      add_cluster_event
        (ClusterEvent.failover_completed cluster_id automatic c.node_id c.lag (node_before old)))
  pure c.node_id

abbrev pub promote_candidate :
    Agents
    → (cluster_id : ℕ) (automatic : Bool) (now : ℕ) → Option (ℕ × ClusterMember)
    → Candidate
    → Tx ℕ
promote_candidate agents cluster_id automatic now old c = do
  call_agent agents c.node_id c.node AgentCall.promote
  record_failover cluster_id automatic now old c

abbrev pub promote_chosen :
    Agents
    → (cluster_id : ℕ) (automatic : Bool) (now : ℕ) → Option (ℕ × ClusterMember)
    → List Candidate
    → Tx ℕ
promote_chosen agents cluster_id automatic now old cs =
    chosen cs >>= promote_candidate agents cluster_id automatic now old

-- The failover once the members have been read: the first primary, if any, and the replicas.
abbrev pub promote :
    Agents
    → (cluster_id : ℕ) (automatic : Bool) (now : ℕ) → Option (ℕ × ClusterMember)
    → Table ClusterMember
    → Tx ℕ
promote agents cluster_id automatic now old replicas = do
  require_replica replicas
  cs ← candidates agents replicas
  promote_chosen agents cluster_id automatic now old cs

-- The failover of a cluster that is there.
abbrev pub failover_of : Agents → (cluster_id : ℕ) (automatic : Bool) (now : ℕ) → Tx ℕ
failover_of agents cluster_id automatic now = do
  old ← reads (λ s. first_row (rows (is_primary_of (some cluster_id)) s.fleet.members))
  replicas ← reads (λ s. rows (is_replica_of cluster_id) s.fleet.members)
  promote agents cluster_id automatic now old replicas

-- The node that is promoted.
unfoldable pub execute_failover : Agents → (cluster_id : ℕ) (automatic : Bool) (now : ℕ) → Tx ℕ
execute_failover agents cluster_id automatic now = do
  cluster ← found value_error (← reads (λ s. lookup cluster_id s.fleet.clusters))
  failover_of agents cluster_id automatic now

-- The administrator's endpoints; the caller has been checked.
abbrev pub attach_to : Agents → (cluster_id node_id : ℕ) → Tx ℕ
attach_to agents cluster_id node_id = do
  node ← found not_found (← reads (λ s. lookup node_id s.fleet.nodes))
  add_replica agents cluster_id node_id node

unfoldable pub attach_replica : Agents → (cluster_id node_id : ℕ) → Tx ℕ
attach_replica agents cluster_id node_id = transaction (do
  cluster ← found not_found (← reads (λ s. lookup cluster_id s.fleet.clusters))
  attach_to agents cluster_id node_id)

unfoldable pub trigger_failover : Agents → (cluster_id now : ℕ) → Tx ℕ
trigger_failover agents cluster_id now = transaction (do
  cluster ← found not_found (← reads (λ s. lookup cluster_id s.fleet.clusters))
  execute_failover agents cluster_id false now)
