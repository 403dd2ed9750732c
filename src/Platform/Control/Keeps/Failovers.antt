-- ===== src/Platform/Control/Keeps/Failovers.antt =====
-- Attaching a replica and failing over keep a property of clusters and members: the replica's cluster
-- is there, and the member that is promoted is a replica of the cluster.
use eminidatabase.Base.{
  ℕ, ◌≡◌, refl, Bool, true, false, Option, none, some, List, [], ◌∷◌, ◌++◌, All, ap, sym, ◌∙◌,
  subst,
}
use eminidatabase.Base.Table.{Table, lookup, rows}
use eminidatabase.Base.Action.{
  Outcome, returned, raised, WhenReturned, WhenReturned-mono, ◌>>=◌, found,
}
use eminidatabase.Base.Preserves.{Keeps}
use eminidatabase.Base.Keeps.{
  keeps_rules, Keeps-pure, Keeps-raise, Keeps-bind, >>=-after, Keeps-reads,
}
use eminidatabase.Platform.Placement.{Node, Cluster, ClusterMember, Fleet}
use eminidatabase.Platform.Control.{
  Control, Error, not_found, agent_unreachable, no_healthy_replica, AgentCall, ClusterEvent,
}
use eminidatabase.Platform.Control.Agent.{Agents, Body, call_agent, is_primary_of}
use eminidatabase.Platform.Control.Failover.{
  Candidate, add_replica, node_of, candidate_from, candidate_of, candidates, least_lag, failed_over,
  first_row, is_replica_of, record_failover, add_standby, attach_to, get_member_replication_status,
  promote, promote_chosen, promote_candidate, failover_of, node_before, execute_failover,
  attach_replica, trigger_failover,
}
use eminidatabase.Platform.Control.FailoverCheck.{
  check_primary, check_cluster, check_clusters, check_and_failover_unhealthy_clusters,
  failover_outcome,
}
use eminidatabase.Platform.Control.Keeps.{
  IsRow, IsStable, control_rules, call_agent-Keeps, transaction-Keeps, add_cluster_event-Keeps,
}
use eminidatabase.Platform.Control.Keeps.Candidates.{
  call_agent-fleet, InKeys, rows-IsRow, All-map, least_lag-All, OfMembers, candidates-OfMembers,
}

module _ {P : Control → Type 0} (stable : IsStable P) where
  node_of-Keeps : (m : ClusterMember) → Keeps P (node_of m)
  node_of-Keeps m = search keeps_rules depth 8

  candidate_from-Keeps :
      (k node_id : ℕ) (node : Node) (o : Outcome Error Body)
      → Keeps P (candidate_from k node_id node o)
  candidate_from-Keeps k node_id node (returned status) = Keeps-pure _
  candidate_from-Keeps k node_id node (raised agent_unreachable) = Keeps-pure []
  candidate_from-Keeps k node_id node (raised e) = Keeps-raise _

  candidate_of-Keeps :
      (agents : Agents) (k : ℕ) (m : ClusterMember) → Keeps P (candidate_of agents k m)
  candidate_of-Keeps agents k m =
      search (control_rules, node_of-Keeps, candidate_from-Keeps) depth 12

  candidates-Keeps : (agents : Agents) (ms : Table ClusterMember) → Keeps P (candidates agents ms)
  candidates-Keeps agents [] = Keeps-pure []
  candidates-Keeps agents ((k, m) ∷ ms) =
      let ih = candidates-Keeps agents ms in
      Keeps-bind _ _ (candidate_of-Keeps agents k m)
        (λ first. Keeps-bind _ _ ih (λ rest. Keeps-pure (first ++ rest)))

  -- The failover from a session whose members are those that were read.
  promote-after :
      (agents : Agents) (cluster_id : ℕ) (automatic : Bool) (now : ℕ) (s : Control)
      → P s
      → P
          (promote agents cluster_id automatic now
            (first_row (rows (is_primary_of (some cluster_id)) s.fleet.members))
            (rows (is_replica_of cluster_id) s.fleet.members)
            s).1
  promote-after agents cluster_id automatic now s h =
      from_replicas (rows (is_replica_of cluster_id) s.fleet.members)
        (λ k. rows-IsRow (is_replica_of cluster_id) k s.fleet.members)
    where
      old : Option (ℕ × ClusterMember)
      old = first_row (rows (is_primary_of (some cluster_id)) s.fleet.members)

      promoted_fleet :
          (c : Candidate) (t : Control)
          → t.fleet ≡ s.fleet
          → WhenReturned
              (λ _ u. u.fleet ≡ s.fleet)
              (call_agent agents c.node_id c.node AgentCall.promote t)
      promoted_fleet c t e =
          WhenReturned-mono (λ _ u. u.fleet ≡ t.fleet) (λ _ u. u.fleet ≡ s.fleet) _
            (call_agent-fleet agents c.node_id c.node AgentCall.promote t) (λ _ u same. same ∙ e)

      with_candidate :
          (c : Candidate) (t : Control)
          → t.fleet ≡ s.fleet
          → IsRow (is_replica_of cluster_id) c.member_id s.fleet.members
          → P t
          → P (promote_candidate agents cluster_id automatic now old c t).1
      with_candidate c t e row p =
          >>=-after (λ _ u. u.fleet ≡ s.fleet)
            (call_agent agents c.node_id c.node AgentCall.promote)
            (λ _. record_failover cluster_id automatic now old c) t
            ((call_agent-Keeps stable agents c.node_id c.node AgentCall.promote).after t p)
            (promoted_fleet c t e)
            (λ _ u same q.
              (add_cluster_event-Keeps stable (
                  ClusterEvent.failover_completed cluster_id automatic c.node_id c.lag
                    (node_before old))).after
                (failed_over cluster_id now c old u)
                (subst
                  (λ (fleet : Fleet). P (
                    failed_over cluster_id now c
                      (first_row (rows (is_primary_of (some cluster_id)) fleet.members)) u))
                  same
                  (stable.new_primary cluster_id now c u
                    (subst
                      (λ (fleet : Fleet).
                        IsRow (is_replica_of cluster_id) c.member_id fleet.members)
                      (sym same) row)
                    q)))

      from_candidates :
          (cs : List Candidate) (t : Control)
          → t.fleet ≡ s.fleet
          → All (λ c. IsRow (is_replica_of cluster_id) c.member_id s.fleet.members) cs
          → P t
          → P (promote_chosen agents cluster_id automatic now old cs t).1
      from_candidates [] t e all p = p
      from_candidates (c ∷ cs) t e all p =
          with_candidate (least_lag c cs) t e (least_lag-All _ c cs all.0 all.1) p

      from_replicas :
          (replicas : Table ClusterMember)
          → ((k : ℕ) → InKeys k replicas → IsRow (is_replica_of cluster_id) k s.fleet.members)
          → P (promote agents cluster_id automatic now old replicas s).1
      from_replicas [] row = h
      from_replicas (x ∷ xs) row =
          >>=-after (OfMembers (x ∷ xs) s) (candidates agents (x ∷ xs))
            (promote_chosen agents cluster_id automatic now old) s
            ((candidates-Keeps agents (x ∷ xs)).after s h)
            ((candidates-OfMembers agents (x ∷ xs)).at s)
            (λ cs t from p.
              from_candidates cs t from.0 (All-map _ _ cs (λ c key. row c.member_id key) from.1) p)

  failover_of-Keeps :
      (agents : Agents) (cluster_id : ℕ) (automatic : Bool) (now : ℕ)
      → Keeps P (failover_of agents cluster_id automatic now)
  failover_of-Keeps agents cluster_id automatic now = record {
    after = λ s h. promote-after agents cluster_id automatic now s h;
  }

  execute_failover-Keeps :
      (agents : Agents) (cluster_id : ℕ) (automatic : Bool) (now : ℕ)
      → Keeps P (execute_failover agents cluster_id automatic now)
  unfolding execute_failover
  execute_failover-Keeps agents cluster_id automatic now =
      search (keeps_rules, failover_of-Keeps) depth 10

  failover_outcome-Keeps :
      (cluster_id : ℕ) (o : Outcome Error ℕ) → Keeps P (failover_outcome cluster_id o)
  failover_outcome-Keeps cluster_id (returned k) = Keeps-pure 1
  failover_outcome-Keeps cluster_id (raised no_healthy_replica) = search control_rules depth 8
  failover_outcome-Keeps cluster_id (raised e) = Keeps-raise e

  check_primary-Keeps :
      (agents : Agents) (cluster_id now : ℕ) (o : Option (ℕ × ClusterMember))
      → Keeps P (check_primary agents cluster_id now o)
  check_primary-Keeps agents cluster_id now none = Keeps-pure 0
  check_primary-Keeps agents cluster_id now (some (k, m)) =
      search (control_rules, execute_failover-Keeps, failover_outcome-Keeps) depth 12

  check_cluster-Keeps :
      (agents : Agents) (cluster_id now : ℕ) → Keeps P (check_cluster agents cluster_id now)
  unfolding check_cluster
  check_cluster-Keeps agents cluster_id now = search (keeps_rules, check_primary-Keeps) depth 12

  check_clusters-Keeps :
      (agents : Agents) (cs : Table Cluster) (now : ℕ) → Keeps P (check_clusters agents cs now)
  unfolding check_clusters
  check_clusters-Keeps agents [] now = Keeps-pure tt
  check_clusters-Keeps agents ((k, c) ∷ cs) now =
      Keeps-bind _ _ (transaction-Keeps stable _ (check_cluster-Keeps agents k now))
        (λ _. check_clusters-Keeps agents cs now)

  pub check_and_failover-Keeps :
      (agents : Agents) (now : ℕ) → Keeps P (check_and_failover_unhealthy_clusters agents now)
  unfolding check_and_failover_unhealthy_clusters
  check_and_failover-Keeps agents now =
      Keeps-bind _ _ (Keeps-reads _) (λ cs. check_clusters-Keeps agents cs now)

  pub trigger_failover-Keeps :
      (agents : Agents) (cluster_id now : ℕ) → Keeps P (trigger_failover agents cluster_id now)
  unfolding trigger_failover
  trigger_failover-Keeps agents cluster_id now =
      search (control_rules, execute_failover-Keeps) depth 12

  -- The cluster that a replica is attached to is there.
  standby-after :
      (cluster_id node_id : ℕ) (status : Body) (c : Cluster) (s : Control)
      → lookup cluster_id s.fleet.clusters ≡ some c
      → P s
      → P (add_standby cluster_id node_id status s).1
  standby-after cluster_id node_id status c s there h = standing_by status.is_standby refl
    where
      standing_by :
          (b : Bool) → status.is_standby ≡ b → P (add_standby cluster_id node_id status s).1
      standing_by true e = rw e (
          (add_cluster_event-Keeps stable (ClusterEvent.replica_attached cluster_id node_id)).after
            _ (stable.new_replica cluster_id node_id status.lag_bytes c s there h))
      standing_by false e = rw e h

  replica-after :
      (agents : Agents) (cluster_id node_id : ℕ) (node : Node) (c : Cluster) (s : Control)
      → lookup cluster_id s.fleet.clusters ≡ some c
      → P s
      → P (add_replica agents cluster_id node_id node s).1
  unfolding add_replica
  replica-after agents cluster_id node_id node c s there h =
      >>=-after (λ _ u. u.fleet ≡ s.fleet) (get_member_replication_status agents node_id node)
        (add_standby cluster_id node_id) s
        ((call_agent-Keeps stable agents node_id node AgentCall.replication_status).after s h)
        (call_agent-fleet agents node_id node AgentCall.replication_status s)
        (λ status u same q.
          standby-after cluster_id node_id status c u
            (ap (λ (fleet : Fleet). lookup cluster_id fleet.clusters) same ∙ there) q)

  attach_to-after :
      (agents : Agents) (cluster_id node_id : ℕ) (c : Cluster) (s : Control)
      → lookup cluster_id s.fleet.clusters ≡ some c
      → P s
      → P (attach_to agents cluster_id node_id s).1
  attach_to-after agents cluster_id node_id c s there h = at_node (lookup node_id s.fleet.nodes)
    where
      at_node :
          (o : Option Node) → P ((found not_found o >>= add_replica agents cluster_id node_id) s).1
      at_node none = h
      at_node (some node) = replica-after agents cluster_id node_id node c s there h

  pub attach_replica-Keeps :
      (agents : Agents) (cluster_id node_id : ℕ)
      → Keeps P (attach_replica agents cluster_id node_id)
  unfolding attach_replica
  attach_replica-Keeps agents cluster_id node_id =
      transaction-Keeps stable _
        (record { after = λ s h. at_cluster s h (lookup cluster_id s.fleet.clusters) refl })
    where
      at_cluster :
          (s : Control)
          → P s
          → (o : Option Cluster) → lookup cluster_id s.fleet.clusters ≡ o
          → P ((found not_found o >>= λ (_ : Cluster). attach_to agents cluster_id node_id) s).1
      at_cluster s h none e = h
      at_cluster s h (some c) e = attach_to-after agents cluster_id node_id c s e h
