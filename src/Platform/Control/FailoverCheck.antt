-- ===== src/Platform/Control/FailoverCheck.antt =====
-- The scheduler's check of clusters (`check_and_failover_unhealthy_clusters` of
-- backend/app/scheduler.py).
use eminidatabase.Base.{ℕ, Bool, true, false, Option, none, some, [], ◌∷◌, ◌&&◌, if◌then◌else◌}
use eminidatabase.Base.Table.{Table, lookup, rows}
use eminidatabase.Base.Action.{
  Outcome, returned, raised, ◌>>=◌, ◌>>◌, pure, raise, reads, writes, scalar_one_or_none,
}
use eminidatabase.Platform.Placement.{
  Node, Cluster, ClusterTopology, ClusterMember, is_active, is_eligible_for_placement,
}
use eminidatabase.Platform.Control.{
  Tx, Error, multiple_results, no_healthy_replica, ClusterEvent, attempt, transaction,
}
use eminidatabase.Platform.Control.Agent.{Agents, is_primary_of}
use eminidatabase.Platform.Control.Failover.{add_cluster_event, execute_failover}

abbrev pub has_replicas : ClusterTopology → Bool
has_replicas ClusterTopology.primary_replica = true
has_replicas ClusterTopology.single = false

-- `topology == PRIMARY_REPLICA, status == ACTIVE`
abbrev pub is_watched : Cluster → Bool
is_watched c = has_replicas c.topology && is_active c.status

abbrev pub is_healthy : (now : ℕ) → Option Node → Bool
is_healthy now none = false
is_healthy now (some node) = is_eligible_for_placement now node

-- `except NoHealthyReplicaError`: a failover that finds no replica leaves an event.
abbrev pub failover_outcome : (cluster_id : ℕ) → Outcome Error ℕ → Tx ℕ
failover_outcome cluster_id (returned _) = pure 1
failover_outcome cluster_id (raised no_healthy_replica) = do
  writes (add_cluster_event (ClusterEvent.failover_failed cluster_id))
  pure 0
failover_outcome cluster_id (raised e) = raise e

-- One turn of the loop, for a cluster with a primary.
abbrev pub check_primary : Agents → (cluster_id now : ℕ) → Option (ℕ × ClusterMember) → Tx ℕ
check_primary agents cluster_id now none = pure 0
check_primary agents cluster_id now (some (_, m)) = do
  node ← reads (λ s. lookup m.node_id s.fleet.nodes)
  if is_healthy now node then pure 0 else (do
    outcome ← attempt (execute_failover agents cluster_id true now)
    failover_outcome cluster_id outcome)

unfoldable pub check_cluster : Agents → (cluster_id now : ℕ) → Tx ℕ
check_cluster agents cluster_id now = do
  primary ←
      scalar_one_or_none multiple_results
        (← reads (λ s. rows (is_primary_of (some cluster_id)) s.fleet.members))
  check_primary agents cluster_id now primary

-- Each turn that acts commits; what raises ends the loop, and its own turn is rolled back.
unfoldable pub check_clusters : Agents → Table Cluster → (now : ℕ) → Tx (Unit {0})
check_clusters agents [] now = pure tt
check_clusters agents ((k, _) ∷ cs) now = do
  transaction (check_cluster agents k now)
  check_clusters agents cs now

unfoldable pub check_and_failover_unhealthy_clusters : Agents → (now : ℕ) → Tx (Unit {0})
check_and_failover_unhealthy_clusters agents now = do
  clusters ← reads (λ s. rows is_watched s.fleet.clusters)
  check_clusters agents clusters now
