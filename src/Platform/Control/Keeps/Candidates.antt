-- ===== src/Platform/Control/Keeps/Candidates.antt =====
-- What a failover's candidates are: members that the query returned; asking them changes no row.
use eminidatabase.Base.{
  ℕ, ◌≡◌, refl, Bool, true, false, Option, none, some, List, [], ◌∷◌, ◌++◌, All, ap, sym, ◌∙◌, ◌⊎◌,
  subst, ltb, Bool-cases, inl, inr,
}
use eminidatabase.Base.Table.{Table, lookup, rows}
use eminidatabase.Base.Action.{
  Outcome, returned, raised, WhenReturned, WhenReturned-mono, pure, found-WhenReturned,
}
use eminidatabase.Base.Keeps.{Does, Does-bind}
use eminidatabase.Platform.Placement.{Node, ClusterMember}
use eminidatabase.Platform.Control.{
  Control, Error, runtime_error, agent_unreachable, AgentCall, attempt,
}
use eminidatabase.Platform.Control.Agent.{
  Agents, Answer, answered, refused, unreachable, Body, from_answer, reach, call_agent,
}
use eminidatabase.Platform.Control.Failover.{
  Candidate, node_of, candidate_if_standby, candidate_from, candidate_of, candidates, least_lag,
}
use eminidatabase.Platform.Control.Keeps.{IsRow}

-- The call changes nothing but `sent`.
abbrev pub SameFleet : Control → Control → Type 0
SameFleet s t = t.fleet ≡ s.fleet

pub call_agent-SameFleet :
    (agents : Agents) (k : ℕ) (node : Node) (c : AgentCall) (s : Control)
    → (call_agent agents k node c s).1.fleet ≡ s.fleet
unfolding call_agent
call_agent-SameFleet agents k node c s = reached node.ip_address
  where
    answer : (a : Answer) (t : Control) → (from_answer a t).1.fleet ≡ t.fleet
    answer (answered b) t = refl
    answer (refused code) t = refl
    answer unreachable t = refl

    reached : (ip : Option ℕ) → (reach agents k c ip s).1.fleet ≡ s.fleet
    reached none = refl
    reached (some _) = answer (agents k c) _

-- If it returns.
pub call_agent-fleet :
    (agents : Agents) (k : ℕ) (node : Node) (c : AgentCall) (s : Control)
    → WhenReturned (λ _ u. u.fleet ≡ s.fleet) (call_agent agents k node c s)
call_agent-fleet agents k node c s =
    after_call (call_agent agents k node c s) (call_agent-SameFleet agents k node c s)
  where
    after_call :
        (o : Outcome Error Body × Control)
        → o.1.fleet ≡ s.fleet
        → WhenReturned (λ _ u. u.fleet ≡ s.fleet) o
    after_call (returned b, u) e = e
    after_call (raised x, u) e = tt

-- The key of a row.
abbrev pub InKeys : ℕ → Table ClusterMember → Type 0
InKeys k [] = ⊥
InKeys k ((j, m) ∷ ms) = (j ≡ k) ⊎ InKeys k ms

pub rows-IsRow :
    (p : ClusterMember → Bool) (k : ℕ) (t : Table ClusterMember) → InKeys k (rows p t) → IsRow p k t
rows-IsRow p k [] h = h
rows-IsRow p k ((j, m) ∷ t) h = elim (Bool-cases (p m)) [
  | inl kept ↦
      go (rows-IsRow p k t) (subst (InKeys k) {y = (j, m) ∷ rows p t} (rw kept refl) h) kept
  | inr left ↦ inr (rows-IsRow p k t (subst (InKeys k) {y = rows p t} (rw left refl) h))
]
  where
    go :
        (InKeys k (rows p t) → IsRow p k t)
        → InKeys k ((j, m) ∷ rows p t)
        → p m ≡ true
        → IsRow p k ((j, m) ∷ t)
    go ih (inl here) kept = inl (here, kept)
    go ih (inr there) kept = inr (ih there)

All-append :
    (P : Candidate → Type 0) (xs ys : List Candidate) → All P xs → All P ys → All P (xs ++ ys)
All-append P [] ys hx hy = hy
All-append P (x ∷ xs) ys hx hy = (hx.0, All-append P xs ys hx.1 hy)

pub All-map :
    (P Q : Candidate → Type 0) (xs : List Candidate)
    → ((c : Candidate) → P c → Q c)
    → All P xs
    → All Q xs
All-map P Q [] f h = tt
All-map P Q (x ∷ xs) f h = (f x h.0, All-map P Q xs f h.1)

-- The fleet is as it was, and the candidates are of one member.
abbrev OfMember : ℕ → Control → List Candidate → Control → Type 0
OfMember k s l t = (t.fleet ≡ s.fleet) × All (λ c. c.member_id ≡ k) l

candidate_from-OfMember :
    (k node_id : ℕ) (node : Node) (o : Outcome Error Body)
    → Does (OfMember k) (candidate_from k node_id node o)
candidate_from-OfMember k node_id node (returned status) = record {
  at = λ s. (refl, standing_by status.is_standby refl);
}
  where
    standing_by :
        (b : Bool)
        → status.is_standby ≡ b
        → All (λ c. c.member_id ≡ k) (candidate_if_standby k node_id node status)
    standing_by true e = rw (candidate_if_standby, e) (refl, tt)
    standing_by false e = rw (candidate_if_standby, e) tt
candidate_from-OfMember k node_id node (raised agent_unreachable) = record { at = λ s. (refl, tt) }
candidate_from-OfMember k node_id node (raised e) = record { at = λ s. tt }

node_of-Does : (m : ClusterMember) → Does (λ s _ t. t.fleet ≡ s.fleet) (node_of m)
node_of-Does m = record {
  at = λ s.
      WhenReturned-mono _ (λ _ t. t.fleet ≡ s.fleet) (node_of m s)
        (found-WhenReturned runtime_error (lookup m.node_id s.fleet.nodes) s)
        (λ a t h. ap (λ (x : Control). x.fleet) h.1);
}

attempt-Does :
    (agents : Agents) (k : ℕ) (node : Node) (c : AgentCall)
    → Does (λ s _ t. t.fleet ≡ s.fleet) (attempt (call_agent agents k node c))
attempt-Does agents k node c = record { at = λ s. call_agent-SameFleet agents k node c s }

pub candidate_of-OfMember :
    (agents : Agents) (k : ℕ) (m : ClusterMember) → Does (OfMember k) (candidate_of agents k m)
candidate_of-OfMember agents k m =
    Does-bind (λ _ s l u. OfMember k s l u) _ _ (node_of-Does m)
      (λ node.
        Does-bind (λ _ s l u. OfMember k s l u) _ _
          (attempt-Does agents m.node_id node AgentCall.replication_status)
          (λ status. candidate_from-OfMember k m.node_id node status)
          (λ s status t l u e h. (h.0 ∙ e, h.1)))
      (λ s node t l u e h. (h.0 ∙ e, h.1))

pure-Does :
    (first rest : List Candidate)
    → Does {S = Control} {E = Error} {A = List Candidate}
        (λ s l u. (l ≡ first ++ rest) × (u.fleet ≡ s.fleet))
        (pure (first ++ rest))
pure-Does first rest = record { at = λ s. (refl, refl) }

abbrev pub OfMembers : Table ClusterMember → Control → List Candidate → Control → Type 0
OfMembers ms s l t = (t.fleet ≡ s.fleet) × All (λ c. InKeys c.member_id ms) l

-- The candidates are members that the query returned, and the fleet is as it was.
pub candidates-OfMembers :
    (agents : Agents) (ms : Table ClusterMember) → Does (OfMembers ms) (candidates agents ms)
candidates-OfMembers agents [] = record { at = λ s. (refl, tt) }
candidates-OfMembers agents ((k, m) ∷ ms) =
    let ih = candidates-OfMembers agents ms in
    Does-bind (λ first s l u. (rest : List Candidate) × (l ≡ first ++ rest) × OfMembers ms s rest u)
      _ _ (candidate_of-OfMember agents k m)
      (λ first.
        Does-bind (λ rest s l u. (l ≡ first ++ rest) × (u.fleet ≡ s.fleet)) (candidates agents ms)
          (λ rest. pure (first ++ rest)) ih (λ rest. pure-Does first rest)
          (λ s rest t l u h g. (rest, g.0, (g.1 ∙ h.0, h.1))))
      (λ s first t l u h g. (
        g.2.0 ∙ h.0,
        subst (All (λ c. InKeys c.member_id ((k, m) ∷ ms))) (sym g.1) (
            All-append _ first g.0 (All-map _ _ first (λ c here. inl (sym here)) h.1)
              (All-map _ _ g.0 (λ c there. inr there) g.2.1)),
      ))

pub least_lag-All :
    (P : Candidate → Type 0) (c : Candidate) (cs : List Candidate)
    → P c
    → All P cs
    → P (least_lag c cs)
least_lag-All P c [] h hs = h
least_lag-All P c (d ∷ ds) h (hd, hs) = elim (Bool-cases (ltb d.lag c.lag)) [
  | inl less ↦ rw less (least_lag-All P d ds hd hs)
  | inr more ↦ rw more (least_lag-All P c ds h hs)
]
