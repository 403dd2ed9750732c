-- ===== src/Platform/Rbac.antt =====
-- The permission matrix of the control plane (backend/app/services/rbac.py). A set of roles is its
-- membership test; `other` is any action that the table does not list.
use eminidatabase.Base.{◌≡◌, Bool, true, false, arith}
use eminidatabase.Base.Action.{Outcome, returned, raised}

pub data MembershipRole : Type 0 where
  owner admin developer billing readonly : MembershipRole

pub data RbacAction : Type 0 where
  org_delete org_update_settings org_manage_members org_read : RbacAction
  project_create project_delete project_read api_key_manage billing_read : RbacAction
  database_create database_read database_delete database_manage database_connect : RbacAction
  database_roles_manage database_extensions_manage database_sql_execute : RbacAction
  database_observe database_backups_manage webhooks_manage subscription_manage other : RbacAction

pub data RbacError : Type 0 where
  unknown_action forbidden : RbacError

abbrev only_owner : MembershipRole → Bool
only_owner owner = true
only_owner _ = false

abbrev admins : MembershipRole → Bool
admins owner = true
admins admin = true
admins _ = false

abbrev builders : MembershipRole → Bool
builders developer = true
builders r = admins r

abbrev accountants : MembershipRole → Bool
accountants billing = true
accountants r = admins r

-- `_PERMISSIONS[action]`, for an action that the table lists.
unfoldable pub permitted : RbacAction → MembershipRole → Bool
permitted org_delete r = only_owner r
permitted org_update_settings r = admins r
permitted org_manage_members r = admins r
permitted org_read r = true
permitted project_create r = builders r
permitted project_delete r = admins r
permitted project_read r = true
permitted api_key_manage r = admins r
permitted billing_read r = accountants r
permitted database_create r = builders r
permitted database_read r = true
permitted database_delete r = admins r
permitted database_manage r = builders r
permitted database_connect r = builders r
permitted database_roles_manage r = builders r
permitted database_extensions_manage r = builders r
permitted database_sql_execute r = builders r
permitted database_observe r = true
permitted database_backups_manage r = builders r
permitted webhooks_manage r = admins r
permitted subscription_manage r = only_owner r
permitted other r = false

unfoldable pub has_permission : MembershipRole → RbacAction → Outcome RbacError Bool
unfolding permitted
has_permission r other = raised unknown_action
has_permission r a = returned (permitted a r)

unfoldable pub require_permission : MembershipRole → RbacAction → Outcome RbacError (Unit {0})
unfolding has_permission
require_permission r a = elim (has_permission r a) [
  | raised e ↦ raised e
  | returned true ↦ returned tt
  | returned false ↦ raised forbidden
]

-- The roles from the least to the most powerful; billing stands beside the developer.
pub data Below : MembershipRole → MembershipRole → Type 0 where
  readonly_billing : Below readonly billing
  readonly_developer : Below readonly developer
  billing_admin : Below billing admin
  developer_admin : Below developer admin
  admin_owner : Below admin owner

-- What a role may do, each role above it may do too: nothing is granted to a read-only member that
-- billing and developers lack, nothing to these that an admin lacks, and nothing to an admin that the
-- owner lacks.
pub require_permission-Below :
    (a : RbacAction) (r r' : MembershipRole)
    → Below r r'
    → require_permission r a ≡ returned tt
    → require_permission r' a ≡ returned tt
unfolding require_permission
require_permission-Below a _ _ readonly_billing h = ground arith
require_permission-Below a _ _ readonly_developer h = ground arith
require_permission-Below a _ _ billing_admin h = ground arith
require_permission-Below a _ _ developer_admin h = ground arith
require_permission-Below a _ _ admin_owner h = ground arith
