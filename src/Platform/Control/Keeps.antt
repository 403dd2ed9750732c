-- ===== src/Platform/Control/Keeps.antt =====
-- Properties of clusters and members that every call keeps: what they have to allow, and a rule for
-- each call that the larger ones are made of.
pub mod Handlers
pub mod Candidates
pub mod Failovers
pub mod Calls
pub mod Counts
use eminidatabase.Base.{
  ℕ, suc, ◌≤◌, ◌≡◌, ◌⊎◌, refl, Bool, true, false, Option, none, some, List, [], ◌∷◌, arith,
  if◌then◌else◌,
}
use eminidatabase.Base.Table.{Table, lookup, modify, rows}
use eminidatabase.Base.Action.{
  Outcome, returned, raised, ◌>>=◌, ◌>>◌, pure, raise, reads, writes, found,
}
use eminidatabase.Base.Preserves.{Keeps}
use eminidatabase.Base.Keeps.{
  keeps_rules, Keeps-pure, Keeps-raise, Keeps-writes, Keeps-bind, Keeps-if,
}
use eminidatabase.Platform.Jobs.{JobType, Payload, Queue, enqueue}
use eminidatabase.Platform.Jobs
use eminidatabase.Platform.Placement.{
  Node, Database, Cluster, ClusterMember, ClusterMemberRole, DatabaseStatus, IsolationLevel,
  PlacementDecision,
}
use eminidatabase.Platform.Rbac.{RbacAction}
use eminidatabase.Platform.Control.{
  Control, Tx, Error, EventType, ClusterEvent, Backup, DatabaseCredential, WebhookDelivery,
  WebhookEvent, Webhook, AuditAction, AgentCall, set_database, add_database, set_status, set_backup,
  add_event, attempt, transaction, from_outcome, enqueued, enqueue_job, record_audit,
  get_membership, require_active_subscription, authorize, get_project_or_404, get_database_or_404,
}
use eminidatabase.Platform.Control.Agent.{
  Agents, Answer, answered, refused, unreachable, Body, from_answer, log_call, reach, call_agent,
  get_primary_node,
}
use eminidatabase.Platform.Control.Webhooks.{
  add_delivery, set_delivery, subscribes, deliver, deliver_all, emit_event, posted,
  execute_deliver_webhook,
}
use eminidatabase.Platform.Control.Orchestrator.{add_cluster, add_credential}
use eminidatabase.Platform.Control.Backups.{add_backup}
use eminidatabase.Platform.Control.Failover.{
  add_member, add_cluster_event, failed_over, Candidate, first_row, is_replica_of,
}
use eminidatabase.Platform.Control.Agent.{is_primary_of}

-- There is a row under the key that a query keeps.
abbrev pub IsRow : {R : Type 0} → (R → Bool) → ℕ → Table R → Type 0
IsRow p k [] = ⊥
IsRow p k ((j, r) ∷ t) = ((j ≡ k) × (p r ≡ true)) ⊎ IsRow p k t

pub record IsStable (P : Control → Type 0) : Type 0 where
  -- Only clusters, members and the keys that were drawn matter.
  pub ignores :
      (s t : Control)
      → t.fleet.clusters ≡ s.fleet.clusters
      → t.fleet.members ≡ s.fleet.members
      → s.next_id ≤ t.next_id
      → P s
      → P t
  pub new_cluster :
      (region_id : ℕ) (shared : Bool) (node_id : ℕ) (s : Control)
      → P s
      → P (add_cluster region_id shared node_id s)
  pub new_replica :
      (cluster_id node_id : ℕ) (lag : Option ℕ) (c : Cluster) (s : Control)
      → lookup cluster_id s.fleet.clusters ≡ some c
      → P s
      → P (
          add_member
            (record {
              cluster_id = cluster_id;
              node_id = node_id;
              role = ClusterMemberRole.replica;
              replication_lag_bytes = lag;
              promoted_at = none;
            })
            s)
  pub new_primary :
      (cluster_id now : ℕ) (c : Candidate) (s : Control)
      → IsRow (is_replica_of cluster_id) c.member_id s.fleet.members
      → P s
      → P (
          failed_over cluster_id now c
            (first_row (rows (is_primary_of (some cluster_id)) s.fleet.members))
            s)

module _ {P : Control → Type 0} (stable : IsStable P) where
  Keeps-ignored :
      (f : Control → Control)
      → ((s : Control)
          → ((f s).fleet.clusters ≡ s.fleet.clusters)
            × ((f s).fleet.members ≡ s.fleet.members)
            × (s.next_id ≤ (f s).next_id))
      → Keeps P (writes {E = Error} f)
  Keeps-ignored f same =
      Keeps-writes f (λ s h. stable.ignores s (f s) (same s).0 (same s).1 (same s).2 h)

  pub set_database-Keeps :
      (k : ℕ) (f : Database → Database) → Keeps P (writes {E = Error} (set_database k f))
  set_database-Keeps k f = Keeps-ignored _ (λ s. (refl, refl, omega arith))

  pub add_database-Keeps : (d : Database) → Keeps P (writes {E = Error} (add_database d))
  add_database-Keeps d = Keeps-ignored _ (λ s. (refl, refl, omega arith))

  pub set_backup-Keeps :
      (k : ℕ) (f : Backup → Backup) → Keeps P (writes {E = Error} (set_backup k f))
  set_backup-Keeps k f = Keeps-ignored _ (λ s. (refl, refl, omega arith))

  pub add_backup-Keeps : (b : Backup) → Keeps P (writes {E = Error} (add_backup b))
  add_backup-Keeps b = Keeps-ignored _ (λ s. (refl, refl, omega arith))

  pub add_event-Keeps :
      (k job_id : ℕ) (e : EventType) → Keeps P (writes {E = Error} (add_event k job_id e))
  add_event-Keeps k job_id e = Keeps-ignored _ (λ s. (refl, refl, omega arith))

  pub add_cluster_event-Keeps :
      (e : ClusterEvent) → Keeps P (writes {E = Error} (add_cluster_event e))
  add_cluster_event-Keeps e = Keeps-ignored _ (λ s. (refl, refl, omega arith))

  pub add_credential-Keeps :
      (c : DatabaseCredential) → Keeps P (writes {E = Error} (add_credential c))
  add_credential-Keeps c = Keeps-ignored _ (λ s. (refl, refl, omega arith))

  add_delivery-Keeps : (d : WebhookDelivery) → Keeps P (writes {E = Error} (add_delivery d))
  add_delivery-Keeps d = Keeps-ignored _ (λ s. (refl, refl, omega arith))

  pub set_delivery-Keeps :
      (k : ℕ) (f : WebhookDelivery → WebhookDelivery)
      → Keeps P (writes {E = Error} (set_delivery k f))
  set_delivery-Keeps k f = Keeps-ignored _ (λ s. (refl, refl, omega arith))

  log_call-Keeps : (k : ℕ) (c : AgentCall) → Keeps P (writes {E = Error} (log_call k c))
  log_call-Keeps k c = Keeps-ignored _ (λ s. (refl, refl, omega arith))

  pub record_audit-Keeps :
      (a : AuditAction) (k o : Option ℕ) (user_id : ℕ) → Keeps P (record_audit a k o user_id)
  unfolding record_audit
  record_audit-Keeps a k o user_id = Keeps-ignored _ (λ s. (refl, refl, omega arith))

  pub enqueue_job-Keeps :
      (t : JobType) (job : Payload) (key : Option ℕ) (now : ℕ) → Keeps P (enqueue_job t job key now)
  unfolding enqueue_job
  enqueue_job-Keeps t job key now = record {
    after = λ s h. stored (enqueue t job key now s.jobs) s h;
  }
    where
      stored : (r : Outcome Jobs.Error ℕ × Queue) (s : Control) → P s → P (enqueued r s).1
      stored (returned k, q) s h = stable.ignores s _ refl refl (omega arith) h
      stored (raised e, q) s h = stable.ignores s _ refl refl (omega arith) h

  pub transaction-Keeps : {A : Type 0} (m : Tx A) → Keeps P m → Keeps P (transaction m)
  transaction-Keeps {A} m km = record { after = λ s h. ended s h (m s) (km.after s h) }
    where
      ended :
          (s : Control)
          → P s
          → (o : Outcome Error A × Control) → P o.1
          → P (transaction (λ _. o) s).1
      ended s h (returned a, t) k = k
      ended s h (raised e, t) k = stable.ignores s _ refl refl (omega arith) h

  pub attempt-Keeps : {A : Type 0} (m : Tx A) → Keeps P m → Keeps P (attempt m)
  attempt-Keeps m km = record { after = λ s h. km.after s h }

  pub from_outcome-Keeps :
      {E A : Type 0} (f : E → Error) (o : Outcome E A) → Keeps P (from_outcome f o)
  from_outcome-Keeps f (returned a) = Keeps-pure a
  from_outcome-Keeps f (raised e) = Keeps-raise (f e)

  reach-Keeps :
      (agents : Agents) (k : ℕ) (c : AgentCall) (ip : Option ℕ) → Keeps P (reach agents k c ip)
  reach-Keeps agents k c none = Keeps-raise _
  reach-Keeps agents k c (some _) =
      Keeps-bind _ _ (log_call-Keeps k c) (λ _. from_answer-Keeps (agents k c))
    where
      from_answer-Keeps : (a : Answer) → Keeps P (from_answer a)
      from_answer-Keeps (answered body) = Keeps-pure body
      from_answer-Keeps (refused code) = Keeps-raise _
      from_answer-Keeps unreachable = Keeps-raise _

  pub call_agent-Keeps :
      (agents : Agents) (k : ℕ) (node : Node) (c : AgentCall) → Keeps P (call_agent agents k node c)
  unfolding call_agent
  call_agent-Keeps agents k node c = reach-Keeps agents k c node.ip_address

  pub get_primary_node-Keeps : (o : Option ℕ) → Keeps P (get_primary_node o)
  unfolding get_primary_node
  get_primary_node-Keeps o = search keeps_rules depth 10

  pub get_membership-Keeps : (o u : ℕ) → Keeps P (get_membership o u)
  unfolding get_membership
  get_membership-Keeps o u = search keeps_rules depth 10

  pub require_active-Keeps : (o : ℕ) → Keeps P (require_active_subscription o)
  unfolding require_active_subscription
  require_active-Keeps o = search keeps_rules depth 10

  pub authorize-Keeps : (o u : ℕ) (a : RbacAction) → Keeps P (authorize o u a)
  unfolding authorize
  authorize-Keeps o u a = search (keeps_rules, get_membership-Keeps, from_outcome-Keeps) depth 10

  pub get_project-Keeps : (o p : ℕ) → Keeps P (get_project_or_404 o p)
  unfolding get_project_or_404
  get_project-Keeps o p = search keeps_rules depth 10

  pub get_database-Keeps : (p k : ℕ) → Keeps P (get_database_or_404 p k)
  unfolding get_database_or_404
  get_database-Keeps p k = search keeps_rules depth 10

  deliver-Keeps : (k : ℕ) (e : WebhookEvent) (subject now : ℕ) → Keeps P (deliver k e subject now)
  deliver-Keeps k e subject now =
      search (keeps_rules, add_delivery-Keeps, enqueue_job-Keeps) depth 12

  deliver_all-Keeps :
      (ws : Table Webhook) (e : WebhookEvent) (subject now : ℕ)
      → Keeps P (deliver_all ws e subject now)
  deliver_all-Keeps [] e subject now = Keeps-pure tt
  deliver_all-Keeps ((k, w) ∷ ws) e subject now =
      let ih = deliver_all-Keeps ws e subject now in
      Keeps-if (subscribes e w.event_types) _ _
        (Keeps-bind _ _ (deliver-Keeps k e subject now) (λ _. ih)) ih

  pub emit_event-Keeps :
      (o : Option ℕ) (e : WebhookEvent) (subject now : ℕ) → Keeps P (emit_event o e subject now)
  unfolding emit_event
  emit_event-Keeps none e subject now = Keeps-pure tt
  emit_event-Keeps (some o) e subject now = search (keeps_rules, deliver_all-Keeps) depth 10

  posted-Keeps : (k now : ℕ) (code : Option ℕ) → Keeps P (posted k now code)
  posted-Keeps k now none = Keeps-raise _
  posted-Keeps k now (some code) = search (keeps_rules, set_delivery-Keeps) depth 10

  pub execute_deliver-Keeps :
      (endpoint : ℕ → Option ℕ) (k now : ℕ) → Keeps P (execute_deliver_webhook endpoint k now)
  unfolding execute_deliver_webhook
  execute_deliver-Keeps endpoint k now =
      search (keeps_rules, posted-Keeps, set_delivery-Keeps) depth 12

pub ruleset control_rules = (
  keeps_rules, set_database-Keeps, add_database-Keeps, set_backup-Keeps, add_backup-Keeps,
  add_event-Keeps, add_cluster_event-Keeps, add_credential-Keeps, set_delivery-Keeps,
  record_audit-Keeps, enqueue_job-Keeps, transaction-Keeps, attempt-Keeps, from_outcome-Keeps,
  call_agent-Keeps, get_primary_node-Keeps, authorize-Keeps, get_membership-Keeps,
  require_active-Keeps, get_project-Keeps, get_database-Keeps, emit_event-Keeps,
)
