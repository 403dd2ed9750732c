-- ===== src/Platform/Control/Freshest.antt =====
-- Which replica a failover promotes: of those that stand by, one with the least lag; and that it
-- does promote one, if one stands by.
pub mod Promoted
pub mod Promotes
pub mod Rows
use eminidatabase.Base.{
  ℕ, ◌≤◌, ◌≡◌, ◌⊎◌, inl, inr, refl, ap, sym, ◌∙◌, subst, Bool, true, false, Option, none, some,
  some-injective, List, [], ◌∷◌, ◌++◌, All, ltb, ◌==◌, ◌&&◌, if◌then◌else◌, Bool-cases, arith,
}
use eminidatabase.Base.Table.{Table, lookup, rows}
use eminidatabase.Base.Action.{
  Outcome, returned, raised, WhenReturned, WhenReturned-mono, ◌>>=◌, ◌>>◌, pure, raise, found,
  reads, writes, >>=-WhenReturned,
}
use eminidatabase.Platform.Placement.{Node, Cluster, ClusterMember, Database}
use eminidatabase.Platform.Control.{
  Control, Tx, Error, runtime_error, value_error, AgentCall, ClusterEvent, attempt,
}
use eminidatabase.Platform.Control.Agent.{
  Agents, Answer, answered, refused, unreachable, Body, from_answer, log_call, reach, call_agent,
  is_primary_of,
}
use eminidatabase.Platform.Control.Failover.{
  Candidate, get_member_replication_status, node_of, candidate_if_standby, candidate_from,
  candidate_of, candidates, least_lag, chosen, is_moved, repointed, repoint_all, failed_over,
  first_row, is_replica_of, require_replica, record_failover, promote_candidate, promote_chosen,
  promote, failover_of, execute_failover,
}
use eminidatabase.Platform.Control.Keeps.Candidates.{call_agent-fleet}

-- The candidates, without the calls: the members whose node's agent says that it stands by.
abbrev pub standby_answered : (member_id node_id : ℕ) → Node → Answer → List Candidate
standby_answered member_id node_id node (answered status) =
    candidate_if_standby member_id node_id node status
standby_answered member_id node_id node _ = []

abbrev pub standby_reached :
    Agents → (member_id node_id : ℕ) → Node → (ip_address : Option ℕ) → List Candidate
standby_reached agents member_id node_id node none = []
standby_reached agents member_id node_id node (some _) =
    standby_answered member_id node_id node (agents node_id AgentCall.replication_status)

abbrev pub standby_on : Agents → (member_id node_id : ℕ) → Option Node → List Candidate
standby_on agents member_id node_id none = []
standby_on agents member_id node_id (some node) =
    standby_reached agents member_id node_id node node.ip_address

abbrev pub standbys : Agents → Table Node → Table ClusterMember → List Candidate
standbys agents nodes [] = []
standbys agents nodes ((k, m) ∷ ms) =
    standby_on agents k m.node_id (lookup m.node_id nodes) ++ standbys agents nodes ms

abbrev IsCandidates : List Candidate → Control → List Candidate → Control → Type 0
IsCandidates expected s l t = (l ≡ expected) × (t.fleet ≡ s.fleet)

pub candidate_of-standby_on :
    (agents : Agents) (k : ℕ) (m : ClusterMember) (s : Control)
    → WhenReturned
        (IsCandidates (standby_on agents k m.node_id (lookup m.node_id s.fleet.nodes)) s)
        (candidate_of agents k m s)
unfolding call_agent
candidate_of-standby_on agents k m s = on (lookup m.node_id s.fleet.nodes)
  where
    answer :
        (node : Node) (a : Answer) (t : Control)
        → t.fleet ≡ s.fleet
        → WhenReturned
            (IsCandidates (standby_answered k m.node_id node a) s)
            ((attempt (from_answer a) >>= candidate_from k m.node_id node) t)
    answer node (answered body) t e = (refl, e)
    answer node (refused code) t e = tt
    answer node unreachable t e = (refl, e)

    reached :
        (node : Node) (ip : Option ℕ)
        → WhenReturned (IsCandidates (standby_reached agents k m.node_id node ip) s) (
            (attempt (reach agents m.node_id AgentCall.replication_status ip)
                >>= candidate_from k m.node_id node)
              s)
    reached node none = (refl, refl)
    reached node (some _) =
        answer node (agents m.node_id AgentCall.replication_status)
          (log_call m.node_id AgentCall.replication_status s) refl

    on :
        (o : Option Node)
        → WhenReturned (IsCandidates (standby_on agents k m.node_id o) s) (
            (found runtime_error o >>= λ (node : Node).
            attempt (get_member_replication_status agents m.node_id node)
            >>= candidate_from k m.node_id node)
              s)
    on none = tt
    on (some node) = reached node node.ip_address

-- The loop over the replicas gives the candidates of the reference.
pub candidates-standbys :
    (agents : Agents) (ms : Table ClusterMember) (s : Control)
    → WhenReturned (IsCandidates (standbys agents s.fleet.nodes ms) s) (candidates agents ms s)
candidates-standbys agents [] s = (refl, refl)
candidates-standbys agents ((k, m) ∷ ms) s =
    >>=-WhenReturned
      (IsCandidates (standby_on agents k m.node_id (lookup m.node_id s.fleet.nodes)) s)
      (IsCandidates (standbys agents s.fleet.nodes ((k, m) ∷ ms)) s) (candidate_of agents k m)
      (λ first. candidates agents ms >>= λ rest. pure (first ++ rest)) s
      (candidate_of-standby_on agents k m s)
      (λ first t one.
        >>=-WhenReturned (IsCandidates (standbys agents t.fleet.nodes ms) t)
          (IsCandidates (standbys agents s.fleet.nodes ((k, m) ∷ ms)) s) (candidates agents ms)
          (λ rest. pure (first ++ rest)) t (candidates-standbys agents ms t)
          (λ rest u others. (
            subst
                (λ fleet.
                  first ++ rest
                  ≡ standby_on agents k m.node_id (lookup m.node_id s.fleet.nodes)
                    ++ standbys agents fleet.nodes ms)
                one.1 (rw (one.0, others.0) refl),
            others.1 ∙ one.1,
          )))

abbrev pub IsIn : Candidate → List Candidate → Type 0
IsIn c [] = ⊥
IsIn c (d ∷ ds) = (c ≡ d) ⊎ IsIn c ds

-- One of the candidates, and none of them lags less.
abbrev pub IsFreshest : List Candidate → Candidate → Type 0
IsFreshest cs c = IsIn c cs × All (λ d. c.lag ≤ d.lag) cs

pub least_lag-IsFreshest :
    (c : Candidate) (cs : List Candidate) → IsFreshest (c ∷ cs) (least_lag c cs)
least_lag-IsFreshest c [] = (inl refl, (omega arith, tt))
least_lag-IsFreshest c (d ∷ ds) = elim (Bool-cases (ltb d.lag c.lag)) [
  | inl less ↦
      subst (IsFreshest (c ∷ d ∷ ds)) {x = least_lag d ds} {y = least_lag c (d ∷ ds)} (rw less refl)
        (closer less (least_lag-IsFreshest d ds))
  | inr more ↦
      subst (IsFreshest (c ∷ d ∷ ds)) {x = least_lag c ds} {y = least_lag c (d ∷ ds)} (rw more refl)
        (further more (least_lag-IsFreshest c ds))
]
  where
    closer :
        ltb d.lag c.lag ≡ true
        → IsFreshest (d ∷ ds) (least_lag d ds)
        → IsFreshest (c ∷ d ∷ ds) (least_lag d ds)
    closer less (there, (first, rest)) = (inr there, (ground arith, (first, rest)))

    further :
        ltb d.lag c.lag ≡ false
        → IsFreshest (c ∷ ds) (least_lag c ds)
        → IsFreshest (c ∷ d ∷ ds) (least_lag c ds)
    further more (inl here, (first, rest)) = (inl here, (first, (ground arith, rest)))
    further more (inr there, (first, rest)) = (inr (inr there), (first, (ground arith, rest)))
