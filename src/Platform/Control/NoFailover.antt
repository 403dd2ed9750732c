-- ===== src/Platform/Control/NoFailover.antt =====
-- No call makes a cluster one of a primary and replicas, and the scheduler fails over no other.
use eminidatabase.Base.{ℕ, ◌≡◌, refl, ap, ◌∙◌, false, List, [], ◌∷◌, arith}
use eminidatabase.Base.Table.{Table, add, rows}
use eminidatabase.Base.Action.{returned}
use eminidatabase.Platform.Placement.{Cluster}
use eminidatabase.Platform.Control.{Control}
use eminidatabase.Platform.Control.Agent.{Agents}
use eminidatabase.Platform.Control.FailoverCheck.{
  is_watched, check_clusters, check_and_failover_unhealthy_clusters,
}
use eminidatabase.Platform.Control.Calls.{Call, run}
use eminidatabase.Platform.Control.Keeps.{IsStable}
use eminidatabase.Platform.Control.Keeps.Calls.{run-Keeps}

-- No cluster is one that the scheduler's check looks at.
abbrev pub HasNoneWatched : Control → Type 0
HasNoneWatched s = rows is_watched s.fleet.clusters ≡ []

rows-add_unwatched :
    (k : ℕ) (c : Cluster) (t : Table Cluster)
    → is_watched c ≡ false
    → rows is_watched t ≡ []
    → rows is_watched (add k c t) ≡ []
rows-add_unwatched k c [] h e = rw h refl
rows-add_unwatched k c ((j, q) ∷ t) h e = ground (arith, rows-add_unwatched k c t h)

unwatched : IsStable HasNoneWatched
unwatched = record {
  ignores = λ s t clusters members le h. ap (rows is_watched) clusters ∙ h;
  new_cluster =
      λ region_id shared node_id s h. rows-add_unwatched s.next_id _ s.fleet.clusters refl h;
  new_replica = λ cluster_id node_id lag c s there h. h;
  new_primary = λ cluster_id now c s row h. h;
}

-- From a session in which no active cluster has the topology of a primary and replicas, no calls,
-- whatever they are, in whatever order, at whatever times and with whatever agents, lead to one in
-- which the scheduler's check of unhealthy clusters does anything: it returns and the session is as
-- it was, with nothing sent to an agent.
pub check_and_failover-Idle :
    (calls : List (Agents × Call × ℕ)) (agents : Agents) (now : ℕ) (s : Control)
    → HasNoneWatched s
    → check_and_failover_unhealthy_clusters agents now (run calls s) ≡ (returned tt, run calls s)
unfolding check_and_failover_unhealthy_clusters check_clusters
check_and_failover-Idle calls agents now s h =
    ap (λ cs. check_clusters agents cs now (run calls s)) (run-Keeps unwatched calls s h)
