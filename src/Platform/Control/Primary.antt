-- ===== src/Platform/Control/Primary.antt =====
-- Every cluster has at most one primary, whatever calls the control plane takes.
use eminidatabase.Base.{
  ℕ, suc, ◌≤◌, ◌<◌, ◌≡◌, inl, inr, refl, sym, subst, Bool, true, false, Option, none, some, List,
  ◌==◌, arith, Bool-cases, &&-true, ==→eq,
}
use eminidatabase.Base.Table.{Table, lookup, modify, add, rows, IsKeyed}
use eminidatabase.Base.Keys.{
  KeysBelow, KeysBelow-mono, KeysBelow-modify, KeysBelow-add, lt_of_lookup, lookup-none,
  IsKeyed-modify, IsKeyed-add,
}
use eminidatabase.Platform.Placement.{ClusterMember}
use eminidatabase.Platform.Control.{Control}
use eminidatabase.Platform.Control.Agent.{Agents, is_primary, is_primary_of}
use eminidatabase.Platform.Control.Failover.{remove_if_any, promoted, first_row, is_replica_of}
use eminidatabase.Platform.Control.Calls.{Call, run}
use eminidatabase.Platform.Control.Keeps.{IsStable}
use eminidatabase.Platform.Control.Keeps.Counts.{
  count, count-add, count-modify_le, count-modify_same, count-remove_le, count-remove_row,
  count-implied, count_zero, first_row-IsRow, IsRow-modify, lookup-IsRow, IsKeyed-remove,
  KeysBelow-remove,
}
use eminidatabase.Platform.Control.Keeps.Calls.{run-Keeps}

abbrev pub in_cluster : ℕ → ClusterMember → Bool
in_cluster c m = m.cluster_id == c

-- How many members of the cluster are primaries.
abbrev pub primaries : ℕ → Table ClusterMember → ℕ
primaries c t = count (is_primary_of (some c)) t

-- The members' table, with the bound of the keys that were drawn.
pub record IsTable (n : ℕ) (t : Table ClusterMember) : Type 0 where
  pub keyed : IsKeyed t
  pub below : KeysBelow n t
  pub of_clusters : (c : ℕ) → n ≤ c → count (in_cluster c) t ≡ 0
  pub one : (c : ℕ) → primaries c t ≤ 1

pub record HasOnePrimary (s : Control) : Type 0 where
  pub clusters_below : KeysBelow s.next_id s.fleet.clusters
  pub members : IsTable s.next_id s.fleet.members

IsTable-mono : (n m : ℕ) (t : Table ClusterMember) → n ≤ m → IsTable n t → IsTable m t
IsTable-mono n m t h i = record {
  keyed = i.keyed;
  below = KeysBelow-mono n m t h i.below;
  of_clusters = λ c le. i.of_clusters c (omega arith);
  one = i.one;
}

in_cluster-implied : (c : ℕ) (t : Table ClusterMember) → primaries c t ≤ count (in_cluster c) t
in_cluster-implied c t =
    count-implied (is_primary_of (some c)) (in_cluster c) t (λ m h. (&&-true _ _ h).0)

IsTable-add :
    (n : ℕ) (m : ClusterMember) (t : Table ClusterMember)
    → IsTable n t
    → m.cluster_id < n
    → ((c : ℕ) → is_primary_of (some c) m ≡ true → primaries c t ≡ 0)
    → IsTable (suc n) (add n m t)
IsTable-add n m t i lt alone = record {
  keyed = IsKeyed-add n m t (lookup-none n t i.below) i.keyed;
  below = KeysBelow-add n m t i.below;
  of_clusters =
      λ c le. grind (arith, count-add (in_cluster c) n m t, i.of_clusters c (omega arith), lt);
  one = λ c. elim (Bool-cases (is_primary_of (some c) m)) [
    | inl hit ↦ grind (arith, count-add (is_primary_of (some c)) n m t, alone c hit, hit)
    | inr miss ↦ grind (arith, count-add (is_primary_of (some c)) n m t, i.one c, miss)
  ];
}

IsTable-new :
    (n : ℕ) (m : ClusterMember) (t : Table ClusterMember)
    → IsTable n t
    → m.cluster_id ≡ n
    → IsTable (suc (suc n)) (add (suc n) m t)
IsTable-new n m t i e =
    IsTable-add (suc n) m t (IsTable-mono n (suc n) t (omega arith) i) (omega arith) (λ c hit.
      let same = ==→eq m.cluster_id c (&&-true _ _ hit).0 in
      omega (arith, in_cluster-implied c t, i.of_clusters c (omega arith)))

-- Without the old primary, if there is one, every cluster has one primary again.
one-promoted :
    (n cluster_id now k c : ℕ) (t : Table ClusterMember) (m : ClusterMember)
    → IsTable n t
    → lookup k t ≡ some m
    → m.cluster_id ≡ cluster_id
    → (o : Option (ℕ × ClusterMember)) → first_row (rows (is_primary_of (some cluster_id)) t) ≡ o
    → primaries c (remove_if_any o (modify k (promoted now) t)) ≤ 1
one-promoted n cluster_id now k c t m i there e o first = elim (Bool-cases (cluster_id == c)) [
  | inr other ↦ omega (arith, no_more o, kept other, i.one c)
  | inl same ↦ within (==→eq cluster_id c same) o first
]
  where
    after : Table ClusterMember
    after = modify k (promoted now) t

    no_more :
        (o : Option (ℕ × ClusterMember)) → primaries c (remove_if_any o after) ≤ primaries c after
    no_more none = omega arith
    no_more (some (j, q)) = count-remove_le (is_primary_of (some c)) j after

    kept : (cluster_id == c) ≡ false → primaries c after ≡ primaries c t
    kept other =
        count-modify_same (is_primary_of (some c)) k (promoted now) m t there (rw (e, other) refl)

    within :
        cluster_id ≡ c
        → (o : Option (ℕ × ClusterMember))
        → first_row (rows (is_primary_of (some cluster_id)) t) ≡ o
        → primaries c (remove_if_any o after) ≤ 1
    within same none first = omega (
      arith,
      count-modify_le (is_primary_of (some c)) k (promoted now) t,
      count_zero (is_primary_of (some c)) t
          (subst (λ d. first_row (rows (is_primary_of (some d)) t) ≡ none) same first),
    )
    within same (some (j, q)) first = omega (
      arith,
      i.one c,
      count-modify_le (is_primary_of (some c)) k (promoted now) t,
      count-remove_row (is_primary_of (some c)) j after (
          IsRow-modify (is_primary_of (some c)) j k (promoted now) t
            (λ r h. rw ((&&-true (r.cluster_id == c) (is_primary r.role) h).0) refl)
            (first_row-IsRow (is_primary_of (some c)) t j q
              (subst (λ d. first_row (rows (is_primary_of (some d)) t) ≡ some (j, q)) same first))),
    )

IsTable-promoted :
    (n cluster_id now k : ℕ) (t : Table ClusterMember) (m : ClusterMember)
    → IsTable n t
    → lookup k t ≡ some m
    → m.cluster_id ≡ cluster_id
    → (o : Option (ℕ × ClusterMember)) → first_row (rows (is_primary_of (some cluster_id)) t) ≡ o
    → IsTable n (remove_if_any o (modify k (promoted now) t))
IsTable-promoted n cluster_id now k t m i there e o first = record {
  keyed = keyed o;
  below = below o;
  of_clusters = λ c le. omega (arith, fewer c o, i.of_clusters c le, same c);
  one = λ c. one-promoted n cluster_id now k c t m i there e o first;
}
  where
    after : Table ClusterMember
    after = modify k (promoted now) t

    keyed : (o : Option (ℕ × ClusterMember)) → IsKeyed (remove_if_any o after)
    keyed none = IsKeyed-modify k (promoted now) t i.keyed
    keyed (some (j, q)) = IsKeyed-remove j after (IsKeyed-modify k (promoted now) t i.keyed)

    below : (o : Option (ℕ × ClusterMember)) → KeysBelow n (remove_if_any o after)
    below none = KeysBelow-modify n k (promoted now) t i.below
    below (some (j, q)) = KeysBelow-remove n j after (KeysBelow-modify n k (promoted now) t i.below)

    same : (c : ℕ) → count (in_cluster c) after ≡ count (in_cluster c) t
    same c = count-modify_same (in_cluster c) k (promoted now) m t there refl

    fewer :
        (c : ℕ) (o : Option (ℕ × ClusterMember))
        → count (in_cluster c) (remove_if_any o after) ≤ count (in_cluster c) after
    fewer c none = omega arith
    fewer c (some (j, q)) = count-remove_le (in_cluster c) j after

one_primary : IsStable HasOnePrimary
one_primary = record {
  ignores = λ s t clusters members le h. record {
    clusters_below =
        subst (KeysBelow t.next_id) (sym clusters)
          (KeysBelow-mono s.next_id t.next_id _ le h.clusters_below);
    members =
        subst (IsTable t.next_id) (sym members) (IsTable-mono s.next_id t.next_id _ le h.members);
  };
  new_cluster = λ region_id shared node_id s h. record {
    clusters_below =
        KeysBelow-mono (suc s.next_id) (suc (suc s.next_id)) _ (omega arith)
          (KeysBelow-add s.next_id _ s.fleet.clusters h.clusters_below);
    members = IsTable-new s.next_id _ s.fleet.members h.members refl;
  };
  new_replica = λ cluster_id node_id lag c s there h. record {
    clusters_below =
        KeysBelow-mono s.next_id (suc s.next_id) s.fleet.clusters (omega arith) h.clusters_below;
    members =
        IsTable-add s.next_id _ s.fleet.members h.members
          (lt_of_lookup s.next_id cluster_id c s.fleet.clusters h.clusters_below there)
          (λ d hit. let no = (&&-true (cluster_id == d) false hit).1 in cc);
  };
  new_primary = λ cluster_id now c s row h.
      let found =
        lookup-IsRow (is_replica_of cluster_id) c.member_id s.fleet.members h.members.keyed row in
      record {
        clusters_below = h.clusters_below;
        members =
            IsTable-promoted s.next_id cluster_id now c.member_id s.fleet.members found.0 h.members
              found.1 (==→eq _ _ (&&-true _ _ found.2).0) _ refl;
      };
}

-- From a session in which the tables are well formed and every cluster has at most one primary, any
-- calls, in whatever order, at whatever times and with whatever agents, requests, jobs that are
-- handled or given up, replicas that are attached, failovers of an administrator and the
-- scheduler's, lead to one in which every cluster has at most one primary, no member's key stands
-- twice, and the keys and the members' clusters lie below the next key.
pub run-HasOnePrimary :
    (calls : List (Agents × Call × ℕ)) (s : Control) → HasOnePrimary s → HasOnePrimary (run calls s)
run-HasOnePrimary calls s h = run-Keeps one_primary calls s h
