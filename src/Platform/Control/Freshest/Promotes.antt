-- ===== src/Platform/Control/Freshest/Promotes.antt =====
-- A failover of a cluster with a replica that stands by does promote one.
use eminidatabase.Base.{ℕ, ◌≡◌, refl, sym, subst, Bool, Option, none, some, List, [], ◌∷◌, ◌++◌}
use eminidatabase.Base.Table.{Table, lookup, rows, IsKeyed}
use eminidatabase.Base.Action.{◌>>=◌, pure, found}
use eminidatabase.Base.Keeps.{Returns, Returns-bind, Yields, Yields-Returns}
use eminidatabase.Platform.Placement.{Node, Cluster, ClusterMember}
use eminidatabase.Platform.Control.{Control, runtime_error, value_error, AgentCall, attempt}
use eminidatabase.Platform.Control.Agent.{
  Agents, Answer, answered, refused, unreachable, Body, from_answer, log_call, reach, call_agent,
  is_primary_of,
}
use eminidatabase.Platform.Control.Failover.{
  Candidate, get_member_replication_status, candidate_from, candidate_of, candidates, least_lag,
  first_row, is_replica_of, record_failover, promote_chosen, promote, failover_of, execute_failover,
}
use eminidatabase.Platform.Control.Keeps.Candidates.{call_agent-fleet}
use eminidatabase.Platform.Control.Freshest.{
  standbys, IsCandidates, candidate_of-standby_on, candidates-standbys, standby_on, IsIn,
  least_lag-IsFreshest,
}
use eminidatabase.Platform.Control.Freshest.Promoted.{IsPromoted, execute_failover-IsPromoted}

-- Every replica's node is there, and no agent refuses to say whether it stands by.
abbrev pub IsAsked : Agents → Table Node → Table ClusterMember → Type 0
IsAsked agents nodes [] = Unit
IsAsked agents nodes ((k, m) ∷ ms) =
    ((node : Node) × (lookup m.node_id nodes ≡ some node))
    × ((code : ℕ) → agents m.node_id AgentCall.replication_status ≡ refused code → ⊥)
    × IsAsked agents nodes ms

-- The agent of the candidate's node can be reached and promotes it.
abbrev pub IsPromotable : Agents → Candidate → Type 0
IsPromotable agents c =
    ((ip : ℕ) × (c.node.ip_address ≡ some ip))
    × ((body : Body) × (agents c.node_id AgentCall.promote ≡ answered body))

candidate_of-Returns :
    (agents : Agents) (k : ℕ) (m : ClusterMember) (s : Control) (node : Node)
    → lookup m.node_id s.fleet.nodes ≡ some node
    → ((code : ℕ) → agents m.node_id AgentCall.replication_status ≡ refused code → ⊥)
    → Returns (candidate_of agents k m s)
unfolding call_agent
candidate_of-Returns agents k m s node there willing = on (lookup m.node_id s.fleet.nodes) there
  where
    answer :
        (a : Answer) (t : Control)
        → agents m.node_id AgentCall.replication_status ≡ a
        → (n : Node) → Returns ((attempt (from_answer a) >>= candidate_from k m.node_id n) t)
    answer (answered body) t e n = tt
    answer (refused code) t e n = willing code e
    answer unreachable t e n = tt

    reached :
        (n : Node) (ip : Option ℕ)
        → Returns (
            (attempt (reach agents m.node_id AgentCall.replication_status ip)
                >>= candidate_from k m.node_id n)
              s)
    reached n none = tt
    reached n (some _) =
        answer (agents m.node_id AgentCall.replication_status)
          (log_call m.node_id AgentCall.replication_status s) refl n

    on :
        (o : Option Node)
        → o ≡ some node
        → Returns (
            (found runtime_error o >>= λ (n : Node).
            attempt (get_member_replication_status agents m.node_id n)
            >>= candidate_from k m.node_id n)
              s)
    on none e = cc
    on (some n) e = reached n n.ip_address

candidates-Returns :
    (agents : Agents) (ms : Table ClusterMember) (s : Control)
    → IsAsked agents s.fleet.nodes ms
    → Returns (candidates agents ms s)
candidates-Returns agents [] s asked = tt
candidates-Returns agents ((k, m) ∷ ms) s (there, willing, asked) =
    Returns-bind (IsCandidates (standby_on agents k m.node_id (lookup m.node_id s.fleet.nodes)) s)
      (candidate_of agents k m) (λ first. candidates agents ms >>= λ rest. pure (first ++ rest)) s
      (candidate_of-Returns agents k m s there.0 there.1 willing)
      (candidate_of-standby_on agents k m s)
      (λ first t one.
        Returns-bind (IsCandidates (standbys agents t.fleet.nodes ms) t) (candidates agents ms)
          (λ rest. pure (first ++ rest)) t
          (candidates-Returns agents ms t
            (subst (λ fleet. IsAsked agents fleet.nodes ms) (sym one.1) asked))
          (candidates-standbys agents ms t) (λ rest u others. tt))

promote_call-Returns :
    (agents : Agents) (c : Candidate) (s : Control)
    → IsPromotable agents c
    → Returns (call_agent agents c.node_id c.node AgentCall.promote s)
unfolding call_agent
promote_call-Returns agents c s (address, willing) = rw address.1 (rw willing.1 tt)

module _ (agents : Agents) (cluster_id : ℕ) (automatic : Bool) (now : ℕ) where
  promote_chosen-Returns :
      (old : Option (ℕ × ClusterMember)) (cs : List Candidate) (s : Control) (d : Candidate)
      → IsIn d cs
      → ((c : Candidate) → IsIn c cs → IsPromotable agents c)
      → Returns (promote_chosen agents cluster_id automatic now old cs s)
  promote_chosen-Returns old [] s d here able = elim here [ ]
  promote_chosen-Returns old (c ∷ cs) s d here able =
      let best = least_lag c cs in
      Returns-bind (λ _ u. u.fleet ≡ s.fleet)
        (call_agent agents best.node_id best.node AgentCall.promote)
        (λ _. record_failover cluster_id automatic now old best) s
        (promote_call-Returns agents best s (able best (least_lag-IsFreshest c cs).0))
        (call_agent-fleet agents best.node_id best.node AgentCall.promote s) (λ _ u same. tt)

  promote-Returns :
      (old : Option (ℕ × ClusterMember)) (replicas : Table ClusterMember) (s : Control)
      (d : Candidate)
      → IsAsked agents s.fleet.nodes replicas
      → IsIn d (standbys agents s.fleet.nodes replicas)
      → ((c : Candidate) → IsIn c (standbys agents s.fleet.nodes replicas) → IsPromotable agents c)
      → Returns (promote agents cluster_id automatic now old replicas s)
  promote-Returns old [] s d asked here able = elim here [ ]
  promote-Returns old (x ∷ xs) s d asked here able =
      Returns-bind (IsCandidates (standbys agents s.fleet.nodes (x ∷ xs)) s)
        (candidates agents (x ∷ xs)) (promote_chosen agents cluster_id automatic now old) s
        (candidates-Returns agents (x ∷ xs) s asked) (candidates-standbys agents (x ∷ xs) s)
        (λ cs t these.
          promote_chosen-Returns old cs t d (subst (IsIn d) (sym these.0) here)
            (λ c there. able c (subst (IsIn c) these.0 there)))

  -- A failover of a cluster that is there, with a replica that stands by, returns, and has promoted a
  -- replica: one of those that stand by and with the least lag. The last call that was sent told its
  -- agent to promote it, its row has become the primary's, promoted now, the row of the old primary
  -- is deleted, and the running databases of the cluster are pointed at its node. No key of a member
  -- stands twice, the node of each replica is there, no replica's agent refuses to say whether it
  -- stands by, and the agent of each one that does can be reached and promotes it.
  pub execute_failover-Promotes :
      (s : Control) (cluster : Cluster) (d : Candidate)
      → let replicas = rows (is_replica_of cluster_id) s.fleet.members in
        IsKeyed s.fleet.members
        → lookup cluster_id s.fleet.clusters ≡ some cluster
        → IsAsked agents s.fleet.nodes replicas
        → IsIn d (standbys agents s.fleet.nodes replicas)
        → ((c : Candidate)
            → IsIn c (standbys agents s.fleet.nodes replicas)
            → IsPromotable agents c)
        → Yields
            (IsPromoted cluster_id now (standbys agents s.fleet.nodes replicas) s.fleet)
            (execute_failover agents cluster_id automatic now s)
  unfolding execute_failover
  execute_failover-Promotes s cluster d keyed there asked here able =
      Yields-Returns _ _ (of_cluster (lookup cluster_id s.fleet.clusters) there)
        (execute_failover-IsPromoted agents cluster_id automatic now s keyed)
    where
      of_cluster :
          (o : Option Cluster)
          → o ≡ some cluster
          → Returns (
              (found value_error o >>= λ (_ : Cluster). failover_of agents cluster_id automatic now)
                s)
      of_cluster none e = cc
      of_cluster (some c) e =
          promote-Returns (first_row (rows (is_primary_of (some cluster_id)) s.fleet.members))
            (rows (is_replica_of cluster_id) s.fleet.members) s d asked here able
