-- ===== src/Platform/Control/Members.antt =====
-- The members of an organization (`add_member` and `remove_member` of
-- backend/app/api/v1/endpoints/organizations.py).
pub mod Owners
use eminidatabase.Base.{
  ℕ, suc, ◌+◌, ◌≤◌, ◌≡◌, refl, ap, sym, subst, Bool, true, false, not, Option, none, some, List, [],
  ◌∷◌, ◌++◌, ◌==◌, ◌&&◌, leb, if◌then◌else◌, arith, Bool-cases, inl, inr,
}
use eminidatabase.Base.Table.{Table, rows}
use eminidatabase.Base.Action.{
  Outcome, returned, raised, WhenReturned, ◌>>=◌, ◌>>◌, pure, raise, raise_if, found, reads, writes,
  scalar_one_or_none,
}
use eminidatabase.Base.Preserves.{Keeps}
use eminidatabase.Base.Keeps.{
  keeps_rules, Keeps-pure, Keeps-raise, Keeps-writes, Keeps-bind, Keeps-bind_when,
}
use eminidatabase.Platform.Rbac.{MembershipRole, RbacAction, org_manage_members, owner}
use eminidatabase.Platform.Control.{
  Control, Tx, Error, not_found, conflict, bad_request, multiple_results, Membership, AuditAction,
  memberships_of, transaction, record_audit, from_outcome, authorize, get_membership,
}
use eminidatabase.Platform.Control.Orchestrator.{is_some}

abbrev pub is_owner : MembershipRole → Bool
is_owner owner = true
is_owner _ = false

-- How many owners the organization has.
abbrev pub owners_count : (organization_id : ℕ) → List Membership → ℕ
owners_count organization_id [] = 0
owners_count organization_id (m ∷ ms) =
    if m.organization_id == organization_id && is_owner m.role
    then suc (owners_count organization_id ms)
    else owners_count organization_id ms

-- `db.delete(target)`, of the one row of the user in the organization.
abbrev pub delete_member : (organization_id user_id : ℕ) → List Membership → List Membership
delete_member organization_id user_id [] = []
delete_member organization_id user_id (m ∷ ms) =
    if m.organization_id == organization_id && m.user_id == user_id
    then delete_member organization_id user_id ms
    else m ∷ delete_member organization_id user_id ms

abbrev pub set_memberships : (List Membership → List Membership) → Control → Control
set_memberships f s = record s { memberships = f s.memberships }

unfoldable pub add_member : (user_id organization_id email : ℕ) → MembershipRole → Tx (Unit {0})
add_member user_id organization_id email role = transaction (do
  authorize organization_id user_id org_manage_members
  user ← scalar_one_or_none multiple_results (← reads (λ s. rows (λ u. u.email == email) s.users))
  target_user ← found not_found user
  existing ←
      scalar_one_or_none multiple_results
        (← reads (λ s. memberships_of organization_id target_user.0 s.memberships))
  raise_if (is_some existing) conflict
  writes (
      set_memberships (λ ms.
        ms
        ++ (record { user_id = target_user.0; organization_id = organization_id; role = role }
            ∷ [])))
  record_audit AuditAction.member_added none (some organization_id) user_id)

-- The last owner stays.
abbrev pub delete_target : (user_id organization_id target_user_id : ℕ) → Membership → Tx (Unit {0})
delete_target user_id organization_id target_user_id target = do
  owners ← reads (λ s. owners_count organization_id s.memberships)
  raise_if (is_owner target.role && leb owners 1) bad_request
  writes (set_memberships (delete_member organization_id target_user_id))
  record_audit AuditAction.member_removed none (some organization_id) user_id

abbrev pub remove_target :
    (user_id organization_id target_user_id : ℕ) → List Membership → Tx (Unit {0})
remove_target user_id organization_id target_user_id found_rows = do
  target ← found not_found (← scalar_one_or_none multiple_results found_rows)
  delete_target user_id organization_id target_user_id target

abbrev pub find_and_remove : (user_id organization_id target_user_id : ℕ) → Tx (Unit {0})
find_and_remove user_id organization_id target_user_id = do
  found_rows ← reads (λ s. memberships_of organization_id target_user_id s.memberships)
  remove_target user_id organization_id target_user_id found_rows

unfoldable pub remove_member : (user_id organization_id target_user_id : ℕ) → Tx (Unit {0})
remove_member user_id organization_id target_user_id = transaction (do
  authorize organization_id user_id org_manage_members
  find_and_remove user_id organization_id target_user_id)

pub data MemberRequest : Type 0 where
  adds : (user_id organization_id email : ℕ) → MembershipRole → MemberRequest
  removes : (user_id organization_id target_user_id : ℕ) → MemberRequest

unfoldable pub change_members : List MemberRequest → Control → Control
change_members [] s = s
change_members (adds user_id organization_id email role ∷ rs) s =
    change_members rs (add_member user_id organization_id email role s).1
change_members (removes user_id organization_id target_user_id ∷ rs) s =
    change_members rs (remove_member user_id organization_id target_user_id s).1
