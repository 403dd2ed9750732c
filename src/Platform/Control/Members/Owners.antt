-- ===== src/Platform/Control/Members/Owners.antt =====
-- An organization does not lose its last owner.
use eminidatabase.Base.{
  ℕ, ◌+◌, ◌≤◌, ◌≡◌, refl, ap, sym, ◌∙◌, Bool, true, false, Option, none, some, List, [], ◌∷◌, ◌++◌,
  ◌==◌, ◌&&◌, leb, if◌then◌else◌, arith, ==→eq,
}
use eminidatabase.Base.Action.{Outcome, returned, raised, ◌>>◌, raise_if, writes}
use eminidatabase.Base.Preserves.{Keeps}
use eminidatabase.Base.Keeps.{keeps_rules, Keeps-pure, Keeps-raise, Keeps-writes}
use eminidatabase.Platform.Rbac.{MembershipRole, RbacAction}
use eminidatabase.Platform.Control.{
  Control, Tx, Error, bad_request, Membership, AuditAction, memberships_of, transaction,
  record_audit, from_outcome, authorize, get_membership,
}
use eminidatabase.Platform.Control.Members.{
  is_owner, owners_count, delete_member, set_memberships, add_member, delete_target, remove_target,
  find_and_remove, remove_member, MemberRequest, adds, removes, change_members,
}

abbrev pub HasOwner : ℕ → Control → Type 0
HasOwner o s = 1 ≤ owners_count o s.memberships

owners_count-append :
    (o : ℕ) (m : Membership) (ms : List Membership)
    → owners_count o ms ≤ owners_count o (ms ++ (m ∷ []))
owners_count-append o m [] = omega arith
owners_count-append o m (n ∷ ms) = ground (arith, owners_count-append o m ms)

delete_member-nobody :
    (org u : ℕ) (ms : List Membership) → memberships_of org u ms ≡ [] → delete_member org u ms ≡ ms
delete_member-nobody org u [] h = refl
delete_member-nobody org u (n ∷ ms) h = ground (arith, delete_member-nobody org u ms)

-- The one row goes, and the owners go by one if it is one of theirs.
owners_count-delete_member :
    (o org u : ℕ) (m : Membership) (ms : List Membership)
    → memberships_of org u ms ≡ m ∷ []
    → owners_count o (delete_member org u ms)
        + (if m.organization_id == o && is_owner m.role then 1 else 0)
      ≡ owners_count o ms
owners_count-delete_member o org u m [] h = cc
owners_count-delete_member o org u m (n ∷ ms) h =
    ground (arith, delete_member-nobody org u ms, owners_count-delete_member o org u m ms)

memberships_of-organization :
    (org u : ℕ) (m : Membership) (ms : List Membership)
    → memberships_of org u ms ≡ m ∷ []
    → m.organization_id ≡ org
memberships_of-organization org u m [] h = cc
memberships_of-organization org u m (n ∷ ms) h =
    ground (arith, memberships_of-organization org u m ms)

module _ (o : ℕ) where
  outcome-Keeps :
      {E A : Type 0} (f : E → Error) (r : Outcome E A) → Keeps (HasOwner o) (from_outcome f r)
  outcome-Keeps f (returned a) = Keeps-pure a
  outcome-Keeps f (raised e) = Keeps-raise (f e)

  authorize-Keeps :
      (org user_id : ℕ) (a : RbacAction) → Keeps (HasOwner o) (authorize org user_id a)
  unfolding authorize get_membership
  authorize-Keeps org user_id a = search (keeps_rules, outcome-Keeps) depth 14

  audit-Keeps :
      (a : AuditAction) (j org : Option ℕ) (user_id : ℕ)
      → Keeps (HasOwner o) (record_audit a j org user_id)
  unfolding record_audit
  audit-Keeps a j org user_id = Keeps-writes _ (λ s h. h)

  transaction-Keeps :
      {A : Type 0} (m : Tx A) → Keeps (HasOwner o) m → Keeps (HasOwner o) (transaction m)
  transaction-Keeps {A} m km = record { after = λ s h. ended s h (m s) (km.after s h) }
    where
      ended :
          (s : Control)
          → HasOwner o s
          → (r : Outcome Error A × Control) → HasOwner o r.1
          → HasOwner o (transaction (λ _. r) s).1
      ended s h (returned a, t) g = g
      ended s h (raised e, t) g = h

  appended-Keeps :
      (m : Membership)
      → Keeps (HasOwner o) (writes {E = Error} (set_memberships (λ ms. ms ++ (m ∷ []))))
  appended-Keeps m = Keeps-writes _ (λ s h. omega (arith, h, owners_count-append o m s.memberships))

  add-Keeps :
      (user_id org email : ℕ) (role : MembershipRole)
      → Keeps (HasOwner o) (add_member user_id org email role)
  unfolding add_member
  add-Keeps user_id org email role =
      search (keeps_rules, transaction-Keeps, authorize-Keeps, appended-Keeps, audit-Keeps) depth 24

  deleted-after :
      (user_id org u : ℕ) (m : Membership) (s : Control)
      → memberships_of org u s.memberships ≡ m ∷ []
      → HasOwner o s
      → HasOwner o (delete_target user_id org u m s).1
  unfolding record_audit
  deleted-after user_id org u m s only h =
      allowed (is_owner m.role && leb (owners_count org s.memberships) 1) refl
    where
      one_less :
          (its owns : Bool)
          → (m.organization_id == o) ≡ its
          → is_owner m.role ≡ owns
          → owners_count o (delete_member org u s.memberships) + (if its && owns then 1 else 0)
            ≡ owners_count o s.memberships
          → (owns && leb (owners_count org s.memberships) 1) ≡ false
          → 1 ≤ owners_count o (delete_member org u s.memberships)
      one_less false owns at role fewer e = omega (arith, fewer, h)
      one_less true false at role fewer e = omega (arith, fewer, h)
      one_less true true at role fewer e =
          let same =
            ap (λ i. owners_count i s.memberships)
              (sym (memberships_of-organization org u m s.memberships only)
                ∙ ==→eq m.organization_id o at) in
          ground (arith, fewer, same, e)

      allowed :
          (b : Bool)
          → (is_owner m.role && leb (owners_count org s.memberships) 1) ≡ b
          → HasOwner o
              ((raise_if b bad_request
                  >> (writes (set_memberships (delete_member org u))
                      >> record_audit AuditAction.member_removed none (some org) user_id))
                s).1
      allowed true e = h
      allowed false e =
          one_less (m.organization_id == o) (is_owner m.role) refl refl
            (owners_count-delete_member o org u m s.memberships only) e

  found-Keeps : (user_id org u : ℕ) → Keeps (HasOwner o) (find_and_remove user_id org u)
  found-Keeps user_id org u = record {
    after = λ s h. removed s h (memberships_of org u s.memberships) refl;
  }
    where
      removed :
          (s : Control)
          → HasOwner o s
          → (rows : List Membership) → memberships_of org u s.memberships ≡ rows
          → HasOwner o (remove_target user_id org u rows s).1
      removed s h [] e = h
      removed s h (m ∷ []) e = deleted-after user_id org u m s e h
      removed s h (m ∷ n ∷ ms) e = h

  remove-Keeps : (user_id org u : ℕ) → Keeps (HasOwner o) (remove_member user_id org u)
  unfolding remove_member
  remove-Keeps user_id org u =
      search (keeps_rules, transaction-Keeps, authorize-Keeps, found-Keeps) depth 8

-- Whatever members are added and removed, by whomever and in whatever order, an organization that
-- has an owner has one afterwards.
pub change_members-HasOwner :
    (requests : List MemberRequest) (o : ℕ) (s : Control)
    → HasOwner o s
    → HasOwner o (change_members requests s)
unfolding change_members
change_members-HasOwner [] o s h = h
change_members-HasOwner (adds user_id org email role ∷ rs) o s h =
    change_members-HasOwner rs o _ ((add-Keeps o user_id org email role).after s h)
change_members-HasOwner (removes user_id org u ∷ rs) o s h =
    change_members-HasOwner rs o _ ((remove-Keeps o user_id org u).after s h)
