-- ===== src/Platform/Control/Freshest/Promoted.antt =====
-- What a failover has done when it returns: one of the freshest replicas was told to take over and is
-- the primary, the old primary is gone, and the databases are pointed at the new one.
use eminidatabase.Base.{
  ℕ, ◌≡◌, refl, sym, ◌∙◌, subst, Bool, true, false, not, Option, none, some, List, [], ◌∷◌, ◌++◌,
  ◌==◌, ==→eq, &&-true,
}
use eminidatabase.Base.Table.{Table, lookup, modify, rows, IsKeyed}
use eminidatabase.Base.Action.{WhenReturned, ◌>>=◌, found, >>=-WhenReturned}
use eminidatabase.Platform.Placement.{Cluster, ClusterMember, ClusterMemberRole, Database, Fleet}
use eminidatabase.Platform.Control.{Control, value_error, AgentCall}
use eminidatabase.Platform.Control.Agent.{Agents, call_agent, is_primary, is_primary_of}
use eminidatabase.Platform.Control.Failover.{
  Candidate, candidates, least_lag, is_moved, remove_if_any, promoted, first_row, is_replica_of,
  record_failover, promote_candidate, promote_chosen, promote, failover_of, execute_failover,
}
use eminidatabase.Platform.Control.Keeps.{IsRow}
use eminidatabase.Platform.Control.Keeps.Counts.{lookup-IsRow}
use eminidatabase.Platform.Control.Freshest.{
  standbys, IsCandidates, candidates-standbys, IsIn, IsFreshest, least_lag-IsFreshest,
}
use eminidatabase.Platform.Control.Freshest.Rows.{
  lookup-repoint_all, is_on_node, standbys-IsRow, promote_call-sent, lookup-promoted, lookup-gone,
}

-- What a failover has done, with the candidates that there were and the fleet before it.
pub record IsPromoted (cluster_id now : ℕ) (cs : List Candidate) (fleet : Fleet) (node_id : ℕ)
    (t : Control) : Type 0 where
  pub candidate : Candidate
  pub is_freshest : IsFreshest cs candidate
  pub its_node : candidate.node_id ≡ node_id
  -- The last call that was sent told its node to promote.
  pub is_told :
      (before : List (ℕ × AgentCall)) × (t.sent ≡ before ++ ((node_id, AgentCall.promote) ∷ []))
  -- Its row was a replica of the cluster on that node, and is the primary.
  pub member : ClusterMember
  pub its_member : lookup candidate.member_id fleet.members ≡ some member
  pub was_replica :
      (member.cluster_id ≡ cluster_id)
      × (member.node_id ≡ node_id)
      × (is_primary member.role ≡ false)
  pub is_primary_now :
      lookup candidate.member_id t.fleet.members
      ≡ some (record member {
        role = ClusterMemberRole.primary;
        replication_lag_bytes = none;
        promoted_at = some now;
      })
  -- The row of the old primary is deleted.
  pub is_gone :
      (k : ℕ) (m : ClusterMember)
      → first_row (rows (is_primary_of (some cluster_id)) fleet.members) ≡ some (k, m)
      → lookup k t.fleet.members ≡ none
  pub repointed :
      (k : ℕ) (d : Database)
      → lookup k t.fleet.databases ≡ some d
      → is_moved cluster_id d ≡ true
      → (d.connection_host ≡ candidate.node.ip_address)
        × (d.connection_port ≡ some candidate.node.postgres_port)

-- A candidate's row.
abbrev IsOfRow : ℕ → Table ClusterMember → Candidate → Type 0
IsOfRow cluster_id members c =
    IsRow (is_on_node (is_replica_of cluster_id) c.node_id) c.member_id members

follower : (b : Bool) → not b ≡ true → b ≡ false
follower false e = refl
follower true e = cc

-- The failover of a session whose fleet is the one that was read.
module _ (agents : Agents) (cluster_id : ℕ) (automatic : Bool) (now : ℕ) (fleet : Fleet)
    (keyed : IsKeyed fleet.members) where
  abbrev old_primary : Option (ℕ × ClusterMember)
  old_primary = first_row (rows (is_primary_of (some cluster_id)) fleet.members)

  failed_over-IsPromoted :
      (cs : List Candidate) (c : Candidate) (s u : Control)
      → IsFreshest cs c
      → IsOfRow cluster_id fleet.members c
      → u.fleet ≡ fleet
      → u.sent ≡ s.sent ++ ((c.node_id, AgentCall.promote) ∷ [])
      → WhenReturned
          (IsPromoted cluster_id now cs fleet)
          (record_failover cluster_id automatic now old_primary c u)
  failed_over-IsPromoted cs c s u best row same sent =
      let (m, there, kept) =
        lookup-IsRow (is_on_node (is_replica_of cluster_id) c.node_id) c.member_id fleet.members
          keyed row in
      let (replica, on_node) = &&-true (is_replica_of cluster_id m) _ kept in
      let (in_cluster, follows) = &&-true (m.cluster_id == cluster_id) _ replica in
      record {
        candidate = c;
        is_freshest = best;
        its_node = refl;
        is_told = (s.sent, sent);
        member = m;
        its_member = there;
        was_replica =
            (==→eq _ _ in_cluster, ==→eq _ _ on_node, follower (is_primary m.role) follows);
        is_primary_now =
            subst
              (λ (f : Fleet).
                lookup c.member_id
                  (remove_if_any old_primary (modify c.member_id (promoted now) f.members))
                ≡ some (record m {
                  role = ClusterMemberRole.primary;
                  replication_lag_bytes = none;
                  promoted_at = some now;
                }))
              (sym same)
              (lookup-promoted cluster_id now fleet.members keyed c.member_id m old_primary there
                replica refl);
        is_gone = λ k q first.
            subst
              (λ (f : Fleet).
                lookup k (remove_if_any old_primary (modify c.member_id (promoted now) f.members))
                ≡ none)
              (sym same)
              (lookup-gone cluster_id now fleet.members keyed c.member_id k q old_primary first);
        repointed = λ k d. lookup-repoint_all cluster_id c.node k d u.fleet.databases;
      }

  promote_candidate-IsPromoted :
      (cs : List Candidate) (c : Candidate) (s : Control)
      → IsFreshest cs c
      → IsOfRow cluster_id fleet.members c
      → s.fleet ≡ fleet
      → WhenReturned
          (IsPromoted cluster_id now cs fleet)
          (promote_candidate agents cluster_id automatic now old_primary c s)
  promote_candidate-IsPromoted cs c s best row same =
      >>=-WhenReturned
        (λ _ u. (u.fleet ≡ s.fleet) × (u.sent ≡ s.sent ++ ((c.node_id, AgentCall.promote) ∷ [])))
        (IsPromoted cluster_id now cs fleet) (call_agent agents c.node_id c.node AgentCall.promote)
        (λ _. record_failover cluster_id automatic now old_primary c) s
        (promote_call-sent agents c.node_id c.node AgentCall.promote s)
        (λ _ u told. failed_over-IsPromoted cs c s u best row (told.0 ∙ same) told.1)

  promote_chosen-IsPromoted :
      (cs : List Candidate) (s : Control)
      → ((c : Candidate) → IsIn c cs → IsOfRow cluster_id fleet.members c)
      → s.fleet ≡ fleet
      → WhenReturned
          (IsPromoted cluster_id now cs fleet)
          (promote_chosen agents cluster_id automatic now old_primary cs s)
  promote_chosen-IsPromoted [] s of_row same = tt
  promote_chosen-IsPromoted (c ∷ cs) s of_row same =
      let best = least_lag-IsFreshest c cs in
      promote_candidate-IsPromoted (c ∷ cs) (least_lag c cs) s best (of_row (least_lag c cs) best.0)
        same

  promote-IsPromoted :
      (replicas : Table ClusterMember) (s : Control)
      → ((c : Candidate)
          → IsIn c (standbys agents s.fleet.nodes replicas)
          → IsOfRow cluster_id fleet.members c)
      → s.fleet ≡ fleet
      → WhenReturned
          (IsPromoted cluster_id now (standbys agents s.fleet.nodes replicas) fleet)
          (promote agents cluster_id automatic now old_primary replicas s)
  promote-IsPromoted [] s of_row same = tt
  promote-IsPromoted (x ∷ xs) s of_row same =
      >>=-WhenReturned (IsCandidates (standbys agents s.fleet.nodes (x ∷ xs)) s)
        (IsPromoted cluster_id now (standbys agents s.fleet.nodes (x ∷ xs)) fleet)
        (candidates agents (x ∷ xs)) (promote_chosen agents cluster_id automatic now old_primary) s
        (candidates-standbys agents (x ∷ xs) s)
        (λ cs t these.
          subst
            (λ l.
              WhenReturned (IsPromoted cluster_id now l fleet)
                (promote_chosen agents cluster_id automatic now old_primary cs t))
            these.0
            (promote_chosen-IsPromoted cs t (λ c i. of_row c (subst (IsIn c) these.0 i))
              (these.1 ∙ same)))

-- A failover that returns has promoted a replica of the cluster that stands by, as its agent says,
-- and no replica that stands by lags less: its agent was told to promote it, its row is the
-- primary's and the old primary's is deleted; and every running database of the cluster is pointed
-- at its node. No key of a member stands twice.
pub execute_failover-IsPromoted :
    (agents : Agents) (cluster_id : ℕ) (automatic : Bool) (now : ℕ) (s : Control)
    → IsKeyed s.fleet.members
    → WhenReturned
        (IsPromoted cluster_id now
          (standbys agents s.fleet.nodes (rows (is_replica_of cluster_id) s.fleet.members))
          s.fleet)
        (execute_failover agents cluster_id automatic now s)
unfolding execute_failover
execute_failover-IsPromoted agents cluster_id automatic now s keyed =
    of_cluster (lookup cluster_id s.fleet.clusters)
  where
    of_cluster :
        (o : Option Cluster)
        → WhenReturned
            (IsPromoted cluster_id now
              (standbys agents s.fleet.nodes (rows (is_replica_of cluster_id) s.fleet.members))
              s.fleet)
            ((found value_error o >>= λ (_ : Cluster). failover_of agents cluster_id automatic now)
              s)
    of_cluster none = tt
    of_cluster (some c) =
        promote-IsPromoted agents cluster_id automatic now s.fleet keyed
          (rows (is_replica_of cluster_id) s.fleet.members) s
          (λ d. standbys-IsRow agents s.fleet.nodes (is_replica_of cluster_id) s.fleet.members d)
          refl
