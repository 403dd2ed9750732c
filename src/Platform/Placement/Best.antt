-- ===== src/Platform/Placement/Best.antt =====
-- The node that is chosen is eligible, has room, and scores best.
use eminidatabase.Base.{
  ℕ, ◌*◌, ◌≤◌, ◌<◌, ◌≡◌, ◌⊎◌, refl, inl, inr, Bool, true, false, Option, none, some, some-injective,
  List, [], ◌∷◌, arith, ◌==◌, ==→eq, ◌&&◌, &&-true, Option-cases, Bool-cases, sym, subst, All,
}
use native.Mathlib.Nat.{mul-le-mul_right, le_of_mul-le-mul_right}
use eminidatabase.Base.Table.{Table, rows}
use eminidatabase.Base.Action.{Outcome, returned, raised}
use eminidatabase.Platform.Placement.{
  Node, Region, Fleet, IsolationLevel, shared, dedicated, Resources, Score, score, less_score,
  Scored, scored, best, has_room, fits_on_node, allocated_resources, is_eligible_for_placement,
  eligible, PlacementDecision, PlacementError, no_active_node, decide, place,
  select_node_and_cluster,
}

-- The table has the row under the key.
abbrev pub Has : {R : Type 0} → ℕ → R → Table R → Type 0
Has k r [] = ⊥
Has k r (x ∷ t) = (x ≡ (k, r)) ⊎ Has k r t

kept_row :
    {R : Type 0} (p : R → Bool) (k : ℕ) (r : R) (x : ℕ × R) (A B : Type 0)
    → p x.1 ≡ true
    → (x ≡ (k, r)) ⊎ A
    → (A → B × (p r ≡ true))
    → ((x ≡ (k, r)) ⊎ B) × (p r ≡ true)
kept_row p k r x A B ok (inl here) f = (inl here, subst (λ y. p y.1 ≡ true) here ok)
kept_row p k r x A B ok (inr later) f = let (b, ok') = f later in (inr b, ok')

Has-rows :
    {R : Type 0} (p : R → Bool) (k : ℕ) (r : R) (t : Table R)
    → Has k r (rows p t)
    → Has k r t × (p r ≡ true)
Has-rows p k r [] h = elim h [ ]
Has-rows p k r ((j, q) ∷ t) h = elim (Bool-cases (p q)) [
  | inr skipped ↦ let (there, ok) = Has-rows p k r t (rw skipped at h) in (inr there, ok)
  | inl kept ↦
      kept_row p k r (j, q) (Has k r (rows p t)) (Has k r t) kept (rw kept at h) (Has-rows p k r t)
]

All-rows :
    {R : Type 0} (p : R → Bool) (P : ℕ × R → Type 0) (t : Table R)
    → All P (rows p t)
    → All (λ x. p x.1 ≡ true → P x) t
All-rows p P [] h = tt
All-rows p P ((j, q) ∷ t) h = elim (Bool-cases (p q)) [
  | inr skipped ↦ ((λ ok. cc), All-rows p P t (rw skipped at h))
  | inl kept ↦
      let both : P (j, q) × All P (rows p t) = rw kept at h in
      ((λ _. both.0), All-rows p P t both.1)
]

-- A score that is not less than another, by cross products.
abbrev AtLeast : Score → Score → Type 0
AtLeast a b = b.numerator * a.denominator ≤ a.numerator * b.denominator

AtLeast-trans : (a b c : Score) → 0 < b.denominator → AtLeast a b → AtLeast b c → AtLeast a c
AtLeast-trans a b c positive h k =
    le_of_mul-le-mul_right
      (omega (arith, mul-le-mul_right c.denominator h, mul-le-mul_right a.denominator k)) positive

AtLeast-refl : (a : Score) → AtLeast a a
AtLeast-refl a = omega arith

best-none : (l : List Scored) → best l ≡ none → l ≡ []
best-none [] h = refl
best-none (y ∷ l) h = elim (Option-cases (best l)) [
  | inl last ↦ let e : some y ≡ none = rw last at h in cc
  | inr (z, e) ↦ elim (Bool-cases (less_score y.points z.points)) [
    | inl less ↦ let e' : some z ≡ none = rw (e, less) at h in cc
    | inr not_less ↦ let e' : some y ≡ none = rw (e, not_less) at h in cc
  ]
]

-- What holds of every scored node holds of the best.
All-best : (P : Scored → Type 0) (l : List Scored) (x : Scored) → All P l → best l ≡ some x → P x
All-best P [] x ps h = cc
All-best P (y ∷ l) x (p, ps) h = elim (Option-cases (best l)) [
  | inl last ↦ subst P (some-injective y x (rw last at h)) p
  | inr (z, e) ↦ elim (Bool-cases (less_score y.points z.points)) [
    | inl less ↦ subst P (some-injective z x (rw (e, less) at h)) (All-best P l z ps e)
    | inr not_less ↦ subst P (some-injective y x (rw (e, not_less) at h)) p
  ]
]

All-map : {A : Type 0} {P Q : A → Type 0} (l : List A) → ((a : A) → P a → Q a) → All P l → All Q l
All-map [] f ps = tt
All-map (x ∷ l) f (p, ps) = (f x p, All-map l f ps)

abbrev Beats : List Scored → Scored → Type 0
Beats l x = All (λ (y : Scored). AtLeast x.points y.points) l

best-AtLeast :
    (l : List Scored) (x : Scored)
    → All (λ (y : Scored). 0 < y.points.denominator) l
    → best l ≡ some x
    → All (λ (y : Scored). AtLeast x.points y.points) l
best-AtLeast [] x pos h = tt
best-AtLeast (y ∷ l) x (first, pos) h = elim (Option-cases (best l)) [
  | inl last ↦
      subst (Beats (y ∷ l)) (some-injective y x (rw last at h))
        (AtLeast-refl y.points, subst (λ m. Beats m y) (sym (best-none l last)) tt)
  | inr (z, e) ↦ elim (Bool-cases (less_score y.points z.points)) [
    | inl less ↦
        subst (Beats (y ∷ l)) (some-injective z x (rw (e, less) at h))
          (ground arith, best-AtLeast l z pos e)
    | inr not_less ↦ subst (Beats (y ∷ l)) (some-injective y x (rw (e, not_less) at h)) (
      AtLeast-refl y.points,
      All-map l
          (λ w k.
            AtLeast-trans y.points z.points w.points
              (All-best (λ (u : Scored). 0 < u.points.denominator) l z pos e) (ground arith) k)
          (best-AtLeast l z pos e),
    )
  ]
]

scored-Has :
    (s : Fleet) (limits : Resources) (t : Table Node) (x : Scored)
    → best (scored s limits t) ≡ some x
    → Has x.node_id x.node t
      × (fits_on_node s x.node_id x.node limits none ≡ true)
      × (x.points ≡ score x.node (allocated_resources s x.node_id none))
unfolding fits_on_node
scored-Has s limits t x h =
    All-best
      (λ x.
        Has x.node_id x.node t
        × (fits_on_node s x.node_id x.node limits none ≡ true)
        × (x.points ≡ score x.node (allocated_resources s x.node_id none)))
      (scored s limits t) x (each t (λ k node there. there)) h
  where
    each :
        (u : Table Node)
        → ((k : ℕ) (node : Node) → Has k node u → Has k node t)
        → All
            (λ (x : Scored).
              Has x.node_id x.node t
              × (fits_on_node s x.node_id x.node limits none ≡ true)
              × (x.points ≡ score x.node (allocated_resources s x.node_id none)))
            (scored s limits u)
    each [] within = tt
    each ((i, node) ∷ u) within =
        elim (Bool-cases (has_room (allocated_resources s i none) limits node)) [
          | inr full ↦ rw (scored, full) (each u (λ k n there. within k n (inr there)))
          | inl room ↦
              rw (scored, room)
                (
                  (within i node (inl refl), room, refl),
                  each u (λ k n there. within k n (inr there)),
                )
        ]

All-scored :
    (P : Scored → Type 0) (s : Fleet) (limits : Resources) (t : Table Node)
    → All P (scored s limits t)
    → All
        (λ (x : ℕ × Node).
          fits_on_node s x.0 x.1 limits none ≡ true
          → P (record {
            node_id = x.0;
            node = x.1;
            points = score x.1 (allocated_resources s x.0 none);
          }))
        t
unfolding fits_on_node
All-scored P s limits [] ps = tt
All-scored P s limits ((i, node) ∷ t) ps =
    elim (Bool-cases (has_room (allocated_resources s i none) limits node)) [
      | inr full ↦ ((λ ok. cc), All-scored P s limits t (rw full at ps))
      | inl room ↦
          let both : P (record {
            node_id = i;
            node = node;
            points = score node (allocated_resources s i none);
          })
              × All P (scored s limits t) =
            rw room at ps in
          ((λ _. both.0), All-scored P s limits t both.1)
    ]

-- A node that has some of everything.
abbrev pub IsEquipped : Node → Type 0
IsEquipped node = 0 < node.cpu_total * node.ram_total_mb * node.storage_total_gb

scored-positive :
    (s : Fleet) (limits : Resources) (t : Table Node)
    → All (λ (x : ℕ × Node). IsEquipped x.1) t
    → All (λ (y : Scored). 0 < y.points.denominator) (scored s limits t)
scored-positive s limits [] pos = tt
scored-positive s limits ((i, node) ∷ t) (first, pos) =
    elim (Bool-cases (has_room (allocated_resources s i none) limits node)) [
      | inr full ↦ rw (scored, full) (scored-positive s limits t pos)
      | inl room ↦ rw (scored, room) (first, scored-positive s limits t pos)
    ]

rows-All :
    {R : Type 0} (p : R → Bool) (P : ℕ × R → Type 0) (t : Table R) → All P t → All P (rows p t)
rows-All p P [] h = tt
rows-All p P ((j, q) ∷ t) (first, rest) = elim (Bool-cases (p q)) [
  | inr skipped ↦ rw (rows, skipped) (rows-All p P t rest)
  | inl kept ↦ rw (rows, kept) (first, rows-All p P t rest)
]

-- The node `k` is eligible and has room, and no other node of its region that is eligible and has
-- room scores more.
pub record IsBest (now : ℕ) (s : Fleet) (limits : Resources) (k : ℕ) : Type 0 where
  pub node : Node
  pub there : Has k node s.nodes
  pub eligible_node : is_eligible_for_placement now node ≡ true
  pub room : fits_on_node s k node limits none ≡ true
  pub most :
      All
        (λ (x : ℕ × Node).
          (x.1.region_id == node.region_id && is_eligible_for_placement now x.1) ≡ true
          → fits_on_node s x.0 x.1 limits none ≡ true
          → less_score
              (score node (allocated_resources s k none))
              (score x.1 (allocated_resources s x.0 none))
            ≡ false)
        s.nodes

decide_node :
    (s : Fleet) (level : IsolationLevel) (o : Option Scored) (d : PlacementDecision)
    → decide s level o ≡ returned d
    → (x : Scored) × (o ≡ some x) × (d.node_id ≡ x.node_id)
decide_node s level none d h = cc
decide_node s dedicated (some x) d h = (x, refl, ground arith)
decide_node s shared (some x) d h = (x, refl, ground arith)

less_score-AtLeast : (a b : Score) → AtLeast a b → less_score a b ≡ false
less_score-AtLeast a b h = ground arith

chosen-IsBest :
    (now region_id : ℕ) (s : Fleet) (limits : Resources) (x : Scored)
    → All (λ (x : ℕ × Node). IsEquipped x.1) s.nodes
    → best (scored s limits (eligible now region_id s)) ≡ some x
    → IsBest now s limits x.node_id
chosen-IsBest now region_id s limits x pos h =
    let in_region : Node → Bool =
      λ node. node.region_id == region_id && is_eligible_for_placement now node in
    let (listed, room, points) = scored-Has s limits (eligible now region_id s) x h in
    let (there, ok) = Has-rows in_region x.node_id x.node s.nodes listed in
    let (region, healthy) =
      &&-true (x.node.region_id == region_id) (is_eligible_for_placement now x.node) ok in
    let beaten =
      best-AtLeast (scored s limits (eligible now region_id s)) x
        (scored-positive s limits (eligible now region_id s)
          (rows-All in_region (λ (x : ℕ × Node). IsEquipped x.1) s.nodes pos))
        h in
    record {
      node = x.node;
      there = there;
      eligible_node = healthy;
      room = room;
      most =
          All-map s.nodes
            (λ y compare same fits.
              less_score-AtLeast (score x.node (allocated_resources s x.node_id none))
                (score y.1 (allocated_resources s y.0 none))
                (subst (λ u. AtLeast u (score y.1 (allocated_resources s y.0 none))) points
                  (compare
                    (subst (λ r. (y.1.region_id == r && is_eligible_for_placement now y.1) ≡ true)
                      (==→eq x.node.region_id region_id region) same)
                    fits)))
            (All-rows in_region
              (λ (y : ℕ × Node).
                fits_on_node s y.0 y.1 limits none ≡ true
                → AtLeast x.points (score y.1 (allocated_resources s y.0 none)))
              s.nodes
              (All-scored (λ (y : Scored). AtLeast x.points y.points) s limits
                (eligible now region_id s) beaten));
    }

-- A placement that succeeds names a node that the fleet has, that is eligible, that has room for the
-- database beside what it already hosts, and than which no eligible node of its region with room
-- scores more; nodes are taken to have some of each resource.
pub select_node_and_cluster-IsBest :
    (now : ℕ) (s : Fleet) (region_code : ℕ) (level : IsolationLevel) (limits : Resources)
    (d : PlacementDecision)
    → All (λ (x : ℕ × Node). IsEquipped x.1) s.nodes
    → select_node_and_cluster now s region_code level limits ≡ returned d
    → IsBest now s limits d.node_id
unfolding select_node_and_cluster
select_node_and_cluster-IsBest now s region_code level limits d pos h =
    by_region (rows (λ r. r.code == region_code && r.active) s.regions) h
  where
    by_nodes :
        (region_id : ℕ) (t : Table Node)
        → eligible now region_id s ≡ t
        → (elim t as (λ _. Outcome PlacementError PlacementDecision) [
          | [] ↦ raised no_active_node
          | (x ∷ u) ↦ decide s level (best (scored s limits (x ∷ u)))
        ])
          ≡ returned d
        → IsBest now s limits d.node_id
    by_nodes region_id [] e h = cc
    by_nodes region_id (x ∷ u) e h =
        let (y, found, same) = decide_node s level (best (scored s limits (x ∷ u))) d h in
        subst (IsBest now s limits) (sym same) (
          chosen-IsBest now region_id s limits y pos
            (subst (λ t. best (scored s limits t) ≡ some y) (sym e) found))

    by_region :
        (l : Table Region) → place now s level limits l ≡ returned d → IsBest now s limits d.node_id
    by_region [] h = cc
    by_region ((region_id, _) ∷ []) h = by_nodes region_id (eligible now region_id s) refl h
    by_region (_ ∷ _ ∷ _) h = cc
