-- ===== src/Platform/Placement.antt =====
-- Where a new database goes (backend/app/services/placement.py and node_health.py, with the rows of
-- backend/app/models it reads). A score is a float in the code and an exact fraction here, whose
-- order is compared by cross products; totals are positive, or `_score` divides by zero.
pub mod Best
use eminidatabase.Base.{
  ℕ, ◌+◌, ◌-◌, ◌*◌, Bool, true, false, not, Option, none, some, List, [], ◌∷◌, ◌==◌, ◌&&◌, ◌||◌,
  ltb, leb, length, if◌then◌else◌,
}
use eminidatabase.Base.Table.{Table, lookup, rows}
use eminidatabase.Base.Action.{Outcome, returned, raised}

pub data NodeStatus : Type 0 where
  active maintenance draining : NodeStatus

pub record Node : Type 0 where
  pub region_id : ℕ
  pub cpu_total : ℕ
  pub ram_total_mb : ℕ
  pub storage_total_gb : ℕ
  pub status : NodeStatus
  pub last_heartbeat_at : Option ℕ
  pub ip_address : Option ℕ
  pub postgres_port : ℕ

pub record Region : Type 0 where
  pub code : ℕ
  pub active : Bool

pub data ClusterStatus : Type 0 where
  provisioning active degraded deleted : ClusterStatus

pub data ClusterTopology : Type 0 where
  single primary_replica : ClusterTopology

pub record Cluster : Type 0 where
  pub region_id : ℕ
  pub topology : ClusterTopology
  pub shared : Bool
  pub status : ClusterStatus

pub data ClusterMemberRole : Type 0 where
  primary replica : ClusterMemberRole

pub record ClusterMember : Type 0 where
  pub cluster_id : ℕ
  pub node_id : ℕ
  pub role : ClusterMemberRole
  pub replication_lag_bytes : Option ℕ
  pub promoted_at : Option ℕ

pub data DatabaseStatus : Type 0 where
  creating running updating suspending suspended restoring migrating failing failed deleting
        deleted :
      DatabaseStatus

pub data IsolationLevel : Type 0 where
  shared dedicated : IsolationLevel

-- `backup_policy`, if it is not empty.
pub record BackupPolicy : Type 0 where
  pub enabled : Bool
  pub frequency_hours : ℕ
  pub retention_days : ℕ

pub record Database : Type 0 where
  pub project_id : ℕ
  pub region_id : ℕ
  pub cluster_id : Option ℕ
  pub name : ℕ
  pub physical_name : List ℕ
  pub isolation_level : IsolationLevel
  pub status : DatabaseStatus
  pub cpu_limit : ℕ
  pub ram_limit_mb : ℕ
  pub storage_limit_gb : ℕ
  pub connection_host : Option ℕ
  pub connection_port : Option ℕ
  pub backup_policy : Option BackupPolicy
  pub deleted_at : Option ℕ

pub record Fleet : Type 0 where
  pub regions : Table Region
  pub nodes : Table Node
  pub clusters : Table Cluster
  pub members : Table ClusterMember
  pub databases : Table Database

-- `effective_status(node) == "active"`: an active node whose last heartbeat is a minute old at most.
abbrev pub is_eligible_for_placement : ℕ → Node → Bool
is_eligible_for_placement now node = elim node.status [
  | active ↦ elim node.last_heartbeat_at [ none ↦ false | some at ↦ not (ltb 60 (now - at)) ]
  | _ ↦ false
]

pub record Resources : Type 0 where
  pub cpu : ℕ
  pub ram_mb : ℕ
  pub storage_gb : ℕ

-- The members on the node of a cluster that there is.
abbrev pub hosting : Fleet → ℕ → ℕ → Table ClusterMember
hosting s node_id c = elim (lookup c s.clusters) [
  | none ↦ []
  | some _ ↦ rows (λ m. m.cluster_id == c && m.node_id == node_id) s.members
]

abbrev pub is_deleted : DatabaseStatus → Bool
is_deleted deleted = true
is_deleted _ = false

-- How often the join has the database's row: once for each of its cluster's members on the node.
abbrev pub row_count : Fleet → ℕ → Option ℕ → ℕ → Database → ℕ
row_count s node_id exclude i d =
    if is_deleted d.status || (elim exclude [ none ↦ false | some e ↦ e == i ])
    then 0
    else elim d.cluster_id [ none ↦ 0 | some c ↦ length (hosting s node_id c) ]

abbrev pub sum_rows : (ℕ → Database → ℕ) → (Database → ℕ) → Table Database → ℕ
sum_rows count limit [] = 0
sum_rows count limit ((i, d) ∷ t) = count i d * limit d + sum_rows count limit t

unfoldable pub allocated_resources : Fleet → ℕ → Option ℕ → Resources
allocated_resources s node_id exclude = record {
  cpu = sum_rows (row_count s node_id exclude) (λ d. d.cpu_limit) s.databases;
  ram_mb = sum_rows (row_count s node_id exclude) (λ d. d.ram_limit_mb) s.databases;
  storage_gb = sum_rows (row_count s node_id exclude) (λ d. d.storage_limit_gb) s.databases;
}

-- `used` and the database's limits together are within the node's totals.
abbrev pub has_room : Resources → Resources → Node → Bool
has_room used limits node =
    leb (used.cpu + limits.cpu) node.cpu_total
    && (leb (used.ram_mb + limits.ram_mb) node.ram_total_mb
        && leb (used.storage_gb + limits.storage_gb) node.storage_total_gb)

unfoldable pub fits_on_node : Fleet → ℕ → Node → Resources → Option ℕ → Bool
fits_on_node s node_id node limits exclude =
    has_room (allocated_resources s node_id exclude) limits node

-- `_score`: the three free fractions added up, over their common denominator.
pub record Score : Type 0 where
  pub numerator : ℕ
  pub denominator : ℕ

abbrev pub score : Node → Resources → Score
score node used = record {
  numerator =
      (node.cpu_total - used.cpu) * node.ram_total_mb * node.storage_total_gb
      + node.cpu_total * (node.ram_total_mb - used.ram_mb) * node.storage_total_gb
      + node.cpu_total * node.ram_total_mb * (node.storage_total_gb - used.storage_gb);
  denominator = node.cpu_total * node.ram_total_mb * node.storage_total_gb;
}

abbrev pub less_score : Score → Score → Bool
less_score a b = ltb (a.numerator * b.denominator) (b.numerator * a.denominator)

pub record Scored : Type 0 where
  pub node_id : ℕ
  pub node : Node
  pub points : Score

-- The loop over the eligible nodes.
abbrev pub scored : Fleet → Resources → Table Node → List Scored
scored s limits [] = []
scored s limits ((i, node) ∷ t) =
    let used = allocated_resources s i none in
    if has_room used limits node
    then record { node_id = i; node = node; points = score node used } ∷ scored s limits t
    else scored s limits t

-- The head of `scored.sort(key=…, reverse=True)`, a stable sort: the first of those with the most.
abbrev pub best : List Scored → Option Scored
best [] = none
best (x ∷ l) = elim (best l) [
  | none ↦ some x
  | some y ↦ if less_score x.points y.points then some y else some x
]

pub record PlacementDecision : Type 0 where
  pub node_id : ℕ
  pub existing_cluster : Option ℕ

pub data PlacementError : Type 0 where
  unknown_region multiple_regions no_active_node no_capacity : PlacementError

abbrev pub is_active : ClusterStatus → Bool
is_active active = true
is_active _ = false

-- A shared, active cluster with a member on the node; of several, the first.
abbrev pub find_shared_cluster_on_node : Fleet → ℕ → Option ℕ
find_shared_cluster_on_node s node_id = first_shared s.clusters
  where
    first_shared : Table Cluster → Option ℕ
    first_shared [] = none
    first_shared ((c, cluster) ∷ t) =
        if cluster.shared && is_active cluster.status && ltb 0 (length (hosting s node_id c))
        then some c
        else first_shared t

abbrev pub decide :
    Fleet → IsolationLevel → Option Scored → Outcome PlacementError PlacementDecision
decide s level none = raised no_capacity
decide s dedicated (some x) = returned (record { node_id = x.node_id; existing_cluster = none })
decide s shared (some x) =
    returned
      (record { node_id = x.node_id; existing_cluster = find_shared_cluster_on_node s x.node_id })

-- The eligible nodes of a region.
abbrev pub eligible : ℕ → ℕ → Fleet → Table Node
eligible now region_id s =
    rows (λ node. node.region_id == region_id && is_eligible_for_placement now node) s.nodes

abbrev pub place :
    ℕ → Fleet → IsolationLevel → Resources → Table Region → Outcome PlacementError PlacementDecision
place now s level limits [] = raised unknown_region
place now s level limits ((region_id, _) ∷ []) = elim (eligible now region_id s) [
  | [] ↦ raised no_active_node
  | (x ∷ t) ↦ decide s level (best (scored s limits (x ∷ t)))
]
place now s level limits (_ ∷ _ ∷ _) = raised multiple_regions

unfoldable pub select_node_and_cluster :
    ℕ → Fleet → ℕ → IsolationLevel → Resources → Outcome PlacementError PlacementDecision
select_node_and_cluster now s region_code level limits =
    place now s level limits (rows (λ r. r.code == region_code && r.active) s.regions)
