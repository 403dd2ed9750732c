-- ===== src/Platform/Control.antt =====
-- The session of the control plane: the rows of backend/app/models that its orchestrators, its
-- database endpoints and its scheduler share, and the lookups and dependencies that guard an endpoint
-- (backend/app/services/database_lookup.py, core/dependencies.py, services/audit.py).
pub mod Names
pub mod Agent
pub mod Webhooks
pub mod Orchestrator
pub mod Migration
pub mod BackupJobs
pub mod Databases
pub mod Connection
pub mod MigrationRequest
pub mod Backups
pub mod Failover
pub mod FailoverCheck
pub mod Schedule
pub mod Calls
pub mod Keeps
pub mod Primary
pub mod Freshest
pub mod NoFailover
pub mod Own
pub mod Rules
pub mod Isolation
pub mod Statuses
pub mod Members
mod Tests
use eminidatabase.Base.{
  ℕ, suc, Bool, true, false, not, Option, none, some, List, [], ◌∷◌, ◌++◌, ◌==◌, ◌&&◌,
  if◌then◌else◌,
}
use eminidatabase.Base.Table.{Table, lookup, modify, add, rows}
use eminidatabase.Base.Action.{
  Action, Outcome, returned, raised, ◌>>=◌, ◌>>◌, pure, raise, raise_if, found, reads, writes,
  scalar_one_or_none,
}
use eminidatabase.Platform.Jobs.{JobType, Payload, Queue, enqueue}
use eminidatabase.Platform.Jobs
use eminidatabase.Platform.Payments.{SubscriptionStatus, is_past_due}
use eminidatabase.Platform.Placement.{
  Fleet, Database, Cluster, ClusterMember, PlacementError, DatabaseStatus,
}
use eminidatabase.Platform.Quotas.{Plan, Subscription, QuotaError}
use eminidatabase.Platform.Rbac.{MembershipRole, RbacAction, RbacError, require_permission}

pub record Membership : Type 0 where
  pub user_id : ℕ
  pub organization_id : ℕ
  pub role : MembershipRole

pub record User : Type 0 where
  pub email : ℕ

pub record Project : Type 0 where
  pub organization_id : ℕ

pub data CredentialScope : Type 0 where
  app readonly admin : CredentialScope

pub record DatabaseCredential : Type 0 where
  pub database_id : ℕ
  pub role_name : List ℕ
  pub is_primary : Bool
  pub encrypted_password : ℕ
  pub scope : CredentialScope

pub data BackupType : Type 0 where
  automatic manual : BackupType

pub data BackupStatus : Type 0 where
  pending completed failed verified verification_failed purged : BackupStatus

-- The object storage keys `backups/{database}/{backup}.dump.enc` and
-- `migrations/{database}/{uuid}.dump.enc`.
pub data StorageKey : Type 0 where
  backups migrations : ℕ → ℕ → StorageKey

pub record Backup : Type 0 where
  pub database_id : ℕ
  pub type_name : BackupType
  pub status : BackupStatus
  pub storage_key : StorageKey
  pub size_bytes : Option ℕ
  pub created_at : ℕ
  pub started_at : Option ℕ
  pub completed_at : Option ℕ
  pub verified_at : Option ℕ

pub data EventType : Type 0 where
  database_running database_deleted database_suspended database_resumed : EventType
  database_migrated database_restored database_job_failed : EventType

pub record DatabaseEvent : Type 0 where
  pub database_id : ℕ
  pub job_id : ℕ
  pub event_type : EventType

pub data ClusterEvent : Type 0 where
  replica_attached : (cluster_id node_id : ℕ) → ClusterEvent
  failover_completed :
      (cluster_id : ℕ) (automatic : Bool) (promoted_node_id lag : ℕ) (previous : Option ℕ)
      → ClusterEvent
  failover_failed : (cluster_id : ℕ) → ClusterEvent

-- The event types that organizations can subscribe to.
pub data WebhookEvent : Type 0 where
  database_created database_failed backup_completed backup_failed restore_completed : WebhookEvent
  invoice_paid : WebhookEvent

pub record Webhook : Type 0 where
  pub organization_id : ℕ
  pub event_types : List WebhookEvent
  pub is_active : Bool

pub data WebhookDeliveryStatus : Type 0 where
  pending succeeded failed : WebhookDeliveryStatus

pub record WebhookDelivery : Type 0 where
  pub webhook_id : ℕ
  pub event_type : WebhookEvent
  pub subject : ℕ
  pub status : WebhookDeliveryStatus
  pub response_code : Option ℕ
  pub delivered_at : Option ℕ

pub data AuditAction : Type 0 where
  database_create_requested database_delete_requested database_suspend_requested : AuditAction
  database_resume_requested database_resized database_migration_requested : AuditAction
  backup_requested backup_restore_requested backup_policy_updated : AuditAction
  member_added member_removed : AuditAction

pub record AuditLog : Type 0 where
  pub action : AuditAction
  pub resource_id : Option ℕ
  pub organization_id : Option ℕ
  pub user_id : ℕ

-- What the control plane asks of the agent on a node. A database is named by its physical name.
pub data AgentCall : Type 0 where
  provision : (database role : List ℕ) (password : ℕ) → AgentCall
  drop : (database role : List ℕ) → AgentCall
  suspend resume metrics : (database : List ℕ) → AgentCall
  quiesce : (database role : List ℕ) → AgentCall
  connection_limit : (database : List ℕ) (limit : ℕ) → AgentCall
  back_up : (database : List ℕ) (key : StorageKey) → AgentCall
  restore : (database : List ℕ) (key : StorageKey) (role : List ℕ) (password : ℕ) → AgentCall
  delete_backup verify_backup : (key : StorageKey) → AgentCall
  replication_status promote : AgentCall

-- The session. `sent` is no table: it is what has gone out to the agents, by node, the latest last.
pub record Control : Type 0 where
  pub fleet : Fleet
  pub users : Table User
  pub memberships : List Membership
  pub projects : Table Project
  pub plans : Table Plan
  pub subscriptions : Table Subscription
  pub credentials : Table DatabaseCredential
  pub backups : Table Backup
  pub database_events : List DatabaseEvent
  pub cluster_events : List ClusterEvent
  pub webhooks : Table Webhook
  pub deliveries : Table WebhookDelivery
  pub audit_logs : List AuditLog
  pub jobs : Queue
  pub next_id : ℕ
  pub sent : List (ℕ × AgentCall)

-- What is raised. An endpoint that turns an agent's error into an HTTP status raises the same here.
pub data Error : Type 0 where
  not_found conflict bad_request payment_required runtime_error value_error : Error
  no_result multiple_results no_healthy_replica agent_unreachable : Error
  agent_refused : ℕ → Error
  permission : RbacError → Error
  quota : QuotaError → Error
  placement : PlacementError → Error
  queue : Jobs.Error → Error

abbrev pub Tx : Type 0 → Type 0
Tx A = Action Control Error A

-- Writes to the tables.
abbrev pub set_database : ℕ → (Database → Database) → Control → Control
set_database k f s = record s {
  fleet = record (s.fleet) { databases = modify k f s.fleet.databases };
}

abbrev pub add_database : Database → Control → Control
add_database d s = record s {
  fleet = record (s.fleet) { databases = add s.next_id d s.fleet.databases };
  next_id = suc s.next_id;
}

abbrev pub set_status : ℕ → DatabaseStatus → Control → Control
set_status k status = set_database k (λ d. record d { status = status })

abbrev pub set_members : (Table ClusterMember → Table ClusterMember) → Control → Control
set_members f s = record s { fleet = record (s.fleet) { members = f s.fleet.members } }

abbrev pub set_backup : ℕ → (Backup → Backup) → Control → Control
set_backup k f s = record s { backups = modify k f s.backups }

abbrev pub add_event : ℕ → ℕ → EventType → Control → Control
add_event database_id job_id event_type s = record s {
  database_events =
      s.database_events
      ++ (record { database_id = database_id; job_id = job_id; event_type = event_type } ∷ []);
}

abbrev pub drawn : Tx ℕ
drawn = reads (λ s. s.next_id)

-- A request's commit, or the rollback that an exception causes, which takes back no call to an agent.
abbrev pub transaction : {A : Type 0} → Tx A → Tx A
transaction m s =
    let (r, t) = m s in
    elim r [ returned a ↦ (returned a, t) | raised e ↦ (raised e, record s { sent = t.sent }) ]

-- `except … as exc`: what a call came to, as a value.
abbrev pub attempt : {A : Type 0} → Tx A → Tx (Outcome Error A)
attempt m s = let (r, t) = m s in (returned r, t)

abbrev pub from_outcome : {E A : Type 0} → (E → Error) → Outcome E A → Tx A
from_outcome f (returned a) = pure a
from_outcome f (raised e) = raise (f e)

abbrev pub enqueued : Outcome Jobs.Error ℕ × Queue → Control → Outcome Error ℕ × Control
enqueued (returned k, q) s = (returned k, record s { jobs = q })
enqueued (raised e, q) s = (raised (queue e), record s { jobs = q })

-- `enqueue`, in this session.
unfoldable pub enqueue_job : JobType → Payload → Option ℕ → ℕ → Tx ℕ
enqueue_job type_name payload key now s = enqueued (enqueue type_name payload key now s.jobs) s

unfoldable pub record_audit : AuditAction → Option ℕ → Option ℕ → ℕ → Tx (Unit {0})
record_audit action resource_id organization_id user_id = writes (λ s. record s {
  audit_logs =
      s.audit_logs
      ++ (record {
        action = action;
        resource_id = resource_id;
        organization_id = organization_id;
        user_id = user_id;
      }
          ∷ []);
})

abbrev pub memberships_of : (organization_id user_id : ℕ) → List Membership → List Membership
memberships_of organization_id user_id [] = []
memberships_of organization_id user_id (m ∷ ms) =
    if m.organization_id == organization_id && m.user_id == user_id
    then m ∷ memberships_of organization_id user_id ms
    else memberships_of organization_id user_id ms

unfoldable pub get_membership : (organization_id user_id : ℕ) → Tx Membership
get_membership organization_id user_id = do
  membership ←
      scalar_one_or_none multiple_results
        (← reads (λ s. memberships_of organization_id user_id s.memberships))
  found not_found membership

unfoldable pub require_active_subscription : (organization_id : ℕ) → Tx (Unit {0})
require_active_subscription organization_id = do
  subscription ←
      scalar_one_or_none multiple_results
        (← reads (λ s. rows (λ x. x.organization_id == organization_id) s.subscriptions))
  raise_if (elim subscription [ none ↦ false | some (_, x) ↦ is_past_due x.status ])
      payment_required

-- `get_membership` and `require_permission`.
unfoldable pub authorize : (organization_id user_id : ℕ) → RbacAction → Tx (Unit {0})
unfolding get_membership
authorize organization_id user_id action = do
  membership ← get_membership organization_id user_id
  from_outcome permission (require_permission membership.role action)

unfoldable pub get_project_or_404 : (organization_id project_id : ℕ) → Tx Project
get_project_or_404 organization_id project_id = do
  project ← found not_found (← reads (λ s. lookup project_id s.projects))
  raise_if (not (project.organization_id == organization_id)) not_found
  pure project

unfoldable pub get_database_or_404 : (project_id database_id : ℕ) → Tx Database
get_database_or_404 project_id database_id = do
  database ← found not_found (← reads (λ s. lookup database_id s.fleet.databases))
  raise_if (not (database.project_id == project_id)) not_found
  pure database

-- The row that a handler or an administrator's request names.
abbrev pub get_database : Error → ℕ → Tx Database
get_database e database_id = do found e (← reads (λ s. lookup database_id s.fleet.databases))
