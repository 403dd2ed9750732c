-- ===== src/Platform/Control/Freshest/Rows.antt =====
-- The rows that a failover writes: the member of a candidate, the old primary's and the databases'.
use eminidatabase.Base.{
  ℕ, ◌≡◌, ◌≢◌, ◌⊎◌, inl, inr, refl, ap, sym, ◌∙◌, subst, Bool, true, false, not, Option, none, some,
  some-injective, List, [], ◌∷◌, ◌++◌, ◌==◌, ◌&&◌, Bool-cases, arith, ==_self, &&-true,
}
use eminidatabase.Base.Table.{Table, lookup, modify, rows, IsKeyed, lookup-modify}
use eminidatabase.Base.Action.{WhenReturned}
use eminidatabase.Platform.Placement.{Node, ClusterMember, ClusterMemberRole, Database}
use eminidatabase.Platform.Control.{Control, AgentCall}
use eminidatabase.Platform.Control.Agent.{
  Agents, Answer, answered, refused, unreachable, from_answer, log_call, reach, call_agent,
  is_primary, is_primary_of,
}
use eminidatabase.Platform.Control.Failover.{
  Candidate, lag_of, candidate_if_standby, is_moved, repointed, repoint_all, remove, remove_if_any,
  promoted, first_row, is_replica_of,
}
use eminidatabase.Platform.Control.Keeps.{IsRow}
use eminidatabase.Platform.Control.Keeps.Counts.{first_row-IsRow, lookup-IsRow}
use eminidatabase.Platform.Control.Freshest.{
  standby_answered, standby_reached, standby_on, standbys, IsIn,
}

pub lookup-repoint_all :
    (cluster_id : ℕ) (node : Node) (k : ℕ) (d : Database) (t : Table Database)
    → lookup k (repoint_all cluster_id node t) ≡ some d
    → is_moved cluster_id d ≡ true
    → (d.connection_host ≡ node.ip_address) × (d.connection_port ≡ some node.postgres_port)
lookup-repoint_all cluster_id node k d [] h moved = cc
lookup-repoint_all cluster_id node k d ((j, q) ∷ t) h moved = elim (Bool-cases (j == k)) [
  | inr miss ↦ lookup-repoint_all cluster_id node k d t (ground arith) moved
  | inl hit ↦ elim (Bool-cases (is_moved cluster_id q)) [
    | inl its ↦ at_node (some-injective (repointed node q) d (ground arith))
    | inr other ↦ kept (some-injective q d (ground arith)) other
  ]
]
  where
    at_node :
        repointed node q ≡ d
        → (d.connection_host ≡ node.ip_address) × (d.connection_port ≡ some node.postgres_port)
    at_node e =
        subst
          (λ (x : Database).
            (x.connection_host ≡ node.ip_address) × (x.connection_port ≡ some node.postgres_port))
          e (refl, refl)

    kept :
        q ≡ d
        → is_moved cluster_id q ≡ false
        → (d.connection_host ≡ node.ip_address) × (d.connection_port ≡ some node.postgres_port)
    kept e other = let never = sym moved ∙ ap (is_moved cluster_id) (sym e) ∙ other in cc

module _ {R : Type 0} where
  lookup-remove_self : (k : ℕ) (t : Table R) → lookup k (remove k t) ≡ none
  lookup-remove_self k [] = refl
  lookup-remove_self k ((j, r) ∷ t) = ground (arith, lookup-remove_self k t)

  lookup-remove_ne : (j k : ℕ) (t : Table R) → j ≢ k → lookup k (remove j t) ≡ lookup k t
  lookup-remove_ne j k [] h = refl
  lookup-remove_ne j k ((i, r) ∷ t) h = ground (arith, lookup-remove_ne j k t h)

-- A candidate is a row that the query returned, and stands on that row's node.
abbrev pub is_on_node : (ClusterMember → Bool) → ℕ → ClusterMember → Bool
is_on_node p node_id m = p m && m.node_id == node_id

IsIn-append : (c : Candidate) (xs ys : List Candidate) → IsIn c (xs ++ ys) → IsIn c xs ⊎ IsIn c ys
IsIn-append c [] ys h = inr h
IsIn-append c (x ∷ xs) ys (inl here) = inl (inl here)
IsIn-append c (x ∷ xs) ys (inr there) = elim (IsIn-append c xs ys there) [
  | inl left ↦ inl (inr left)
  | inr right ↦ inr right
]

standby_on-ids :
    (agents : Agents) (k node_id : ℕ) (o : Option Node) (c : Candidate)
    → IsIn c (standby_on agents k node_id o)
    → (c.member_id ≡ k) × (c.node_id ≡ node_id)
standby_on-ids agents k node_id none c h = elim h [ ]
standby_on-ids agents k node_id (some node) c h = reached node.ip_address h
  where
    answer :
        (a : Answer)
        → IsIn c (standby_answered k node_id node a)
        → (c.member_id ≡ k) × (c.node_id ≡ node_id)
    answer (answered status) i = standing status.is_standby refl
      where
        of_standby : Candidate
        of_standby = record {
          member_id = k;
          node_id = node_id;
          node = node;
          lag = lag_of status.lag_bytes;
        }

        standing : (b : Bool) → status.is_standby ≡ b → (c.member_id ≡ k) × (c.node_id ≡ node_id)
        standing true e =
            elim (subst (IsIn c) {x = candidate_if_standby k node_id node status}
              {y = of_standby ∷ []} (rw e refl) i) [
                | inl here ↦ (
                  ap (λ (x : Candidate). x.member_id) here,
                  ap (λ (x : Candidate). x.node_id) here,
                )
                | inr there ↦ elim there [ ]
              ]
        standing false e =
            elim (subst (IsIn c) {x = candidate_if_standby k node_id node status} {y = []}
              (rw e refl) i) [ ]
    answer (refused code) i = elim i [ ]
    answer unreachable i = elim i [ ]

    reached :
        (ip : Option ℕ)
        → IsIn c (standby_reached agents k node_id node ip)
        → (c.member_id ≡ k) × (c.node_id ≡ node_id)
    reached none i = elim i [ ]
    reached (some _) i = answer (agents node_id AgentCall.replication_status) i

pub standbys-IsRow :
    (agents : Agents) (nodes : Table Node) (p : ClusterMember → Bool) (t : Table ClusterMember)
    (c : Candidate)
    → IsIn c (standbys agents nodes (rows p t))
    → IsRow (is_on_node p c.node_id) c.member_id t
standbys-IsRow agents nodes p [] c h = elim h [ ]
standbys-IsRow agents nodes p ((k, m) ∷ t) c h = elim (Bool-cases (p m)) [
  | inr left ↦ inr (
      standbys-IsRow agents nodes p t c
        (subst (λ l. IsIn c (standbys agents nodes l)) {y = rows p t} (rw left refl) h))
  | inl kept ↦
      elim (IsIn-append c (standby_on agents k m.node_id (lookup m.node_id nodes)) _
        (subst (λ l. IsIn c (standbys agents nodes l)) {y = (k, m) ∷ rows p t} (rw kept refl) h)) [
          | inl here ↦
              let ids = standby_on-ids agents k m.node_id (lookup m.node_id nodes) c here in
              inl (sym ids.0, rw (kept, ids.1, ==_self m.node_id) refl)
          | inr there ↦ inr (standbys-IsRow agents nodes p t c there)
        ]
]

-- The call that returns was sent.
pub promote_call-sent :
    (agents : Agents) (k : ℕ) (node : Node) (c : AgentCall) (s : Control)
    → WhenReturned
        (λ _ u. (u.fleet ≡ s.fleet) × (u.sent ≡ s.sent ++ ((k, c) ∷ [])))
        (call_agent agents k node c s)
unfolding call_agent
promote_call-sent agents k node c s = reached node.ip_address
  where
    answer :
        (a : Answer)
        → WhenReturned
            (λ _ u. (u.fleet ≡ s.fleet) × (u.sent ≡ s.sent ++ ((k, c) ∷ [])))
            (from_answer a (log_call k c s))
    answer (answered b) = (refl, refl)
    answer (refused code) = tt
    answer unreachable = tt

    reached :
        (ip : Option ℕ)
        → WhenReturned
            (λ _ u. (u.fleet ≡ s.fleet) × (u.sent ≡ s.sent ++ ((k, c) ∷ [])))
            (reach agents k c ip s)
    reached none = tt
    reached (some _) = answer (agents k c)

-- The members after the two writes of a failover.
module _ (cluster_id now : ℕ) (members : Table ClusterMember) (keyed : IsKeyed members) where
  pub lookup-promoted :
      (k : ℕ) (m : ClusterMember) (old : Option (ℕ × ClusterMember))
      → lookup k members ≡ some m
      → is_replica_of cluster_id m ≡ true
      → first_row (rows (is_primary_of (some cluster_id)) members) ≡ old
      → lookup k (remove_if_any old (modify k (promoted now) members))
        ≡ some (record m {
          role = ClusterMemberRole.primary;
          replication_lag_bytes = none;
          promoted_at = some now;
        })
  lookup-promoted k m none there replica first =
      lookup-modify k k (promoted now) m members there ∙ rw (==_self k) refl
  lookup-promoted k m (some (j, q)) there replica first =
      lookup-remove_ne j k (modify k (promoted now) members) differs ∙ lookup-promoted_row
    where
      lookup-promoted_row : lookup k (modify k (promoted now) members) ≡ some (promoted now m)
      lookup-promoted_row = lookup-modify k k (promoted now) m members there ∙ rw (==_self k) refl

      differs : j ≢ k
      differs e =
          let found =
            lookup-IsRow (is_primary_of (some cluster_id)) j members keyed
              (first_row-IsRow (is_primary_of (some cluster_id)) members j q first) in
          let same : found.0 ≡ m =
            some-injective found.0 m (sym found.1 ∙ ap (λ i. lookup i members) e ∙ there) in
          let leads : is_primary m.role ≡ true =
            ap (λ (x : ClusterMember). is_primary x.role) (sym same)
            ∙ (&&-true ((found.0).cluster_id == cluster_id) _ found.2).1 in
          let follows : not (is_primary m.role) ≡ true =
            (&&-true (m.cluster_id == cluster_id) _ replica).1 in
          let never : not true ≡ true = ap not (sym leads) ∙ follows in cc

  pub lookup-gone :
      (k j : ℕ) (m : ClusterMember) (old : Option (ℕ × ClusterMember))
      → old ≡ some (j, m)
      → lookup j (remove_if_any old (modify k (promoted now) members)) ≡ none
  lookup-gone k j m none e = cc
  lookup-gone k j m (some (i, q)) e =
      let same : i ≡ j = ap (λ (x : ℕ × ClusterMember). x.0) (some-injective (i, q) (j, m) e) in
      subst (λ n. lookup n (remove i (modify k (promoted now) members)) ≡ none) same
        (lookup-remove_self i (modify k (promoted now) members))
