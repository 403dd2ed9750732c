-- ===== src/Platform/Control/Rules.antt =====
-- The calls that requests are made of, one rule for each, for a property of the databases and projects
-- that allows for new databases.
use eminidatabase.Base.{ℕ, ◌≡◌, refl, Option, none, some}
use eminidatabase.Base.Action.{Outcome, returned, raised, writes}
use eminidatabase.Base.Preserves.{Keeps}
use eminidatabase.Base.Keeps.{
  keeps_rules, Keeps-pure, Keeps-raise, Keeps-writes, Keeps-bind, Keeps-bind_when, >>=-after, Does,
  Does-bind,
}
use eminidatabase.Platform.Jobs.{JobType, Payload, Queue, enqueue}
use eminidatabase.Platform.Jobs
use eminidatabase.Platform.Placement.{Node, Database}
use eminidatabase.Platform.Rbac.{RbacAction}
use eminidatabase.Platform.Control.{
  Control, Tx, Error, AuditAction, AgentCall, Backup, add_database, transaction, from_outcome,
  enqueued, enqueue_job, record_audit, get_membership, require_active_subscription, authorize,
  get_project_or_404, get_database_or_404,
}
use eminidatabase.Platform.Control.Agent.{
  Agents, Answer, answered, refused, unreachable, from_answer, log_call, reach, call_agent,
  get_primary_node,
}
use eminidatabase.Platform.Control.Databases.{
  Caller, guarded_database, authorize_active, require_new_name,
}
use eminidatabase.Platform.Control.Backups.{add_backup, backup_of}

-- What a property of the databases and projects has to allow.
pub record IsFramed (P : Control → Type 0) : Type 0 where
  pub ignores :
      (s t : Control) → t.fleet.databases ≡ s.fleet.databases → t.projects ≡ s.projects → P s → P t
  pub new_database : (e : Database) (s : Control) → P s → P (add_database e s)

module _ {P : Control → Type 0} (framed : IsFramed P) where
  Keeps-ignored :
      (f : Control → Control)
      → ((s : Control)
          → ((f s).fleet.databases ≡ s.fleet.databases) × ((f s).projects ≡ s.projects))
      → Keeps P (writes {E = Error} f)
  Keeps-ignored f same = Keeps-writes f (λ s h. framed.ignores s (f s) (same s).0 (same s).1 h)

  pub add_database-Keeps : (e : Database) → Keeps P (writes {E = Error} (add_database e))
  add_database-Keeps e = Keeps-writes _ (framed.new_database e)

  pub add_backup-Keeps : (b : Backup) → Keeps P (writes {E = Error} (add_backup b))
  add_backup-Keeps b = Keeps-ignored _ (λ s. (refl, refl))

  log_call-Keeps : (j : ℕ) (c : AgentCall) → Keeps P (writes {E = Error} (log_call j c))
  log_call-Keeps j c = Keeps-ignored _ (λ s. (refl, refl))

  pub record_audit-Keeps :
      (a : AuditAction) (j org : Option ℕ) (user_id : ℕ) → Keeps P (record_audit a j org user_id)
  unfolding record_audit
  record_audit-Keeps a j org user_id = Keeps-ignored _ (λ s. (refl, refl))

  pub enqueue_job-Keeps :
      (t : JobType) (job : Payload) (key : Option ℕ) (now : ℕ) → Keeps P (enqueue_job t job key now)
  unfolding enqueue_job
  enqueue_job-Keeps t job key now = record {
    after = λ s h. stored (enqueue t job key now s.jobs) s h;
  }
    where
      stored : (r : Outcome Jobs.Error ℕ × Queue) (s : Control) → P s → P (enqueued r s).1
      stored (returned j, q) s h = framed.ignores s _ refl refl h
      stored (raised e, q) s h = framed.ignores s _ refl refl h

  pub transaction-Keeps : {A : Type 0} (m : Tx A) → Keeps P m → Keeps P (transaction m)
  transaction-Keeps {A} m km = record { after = λ s h. ended s h (m s) (km.after s h) }
    where
      ended :
          (s : Control)
          → P s
          → (r : Outcome Error A × Control) → P r.1
          → P (transaction (λ _. r) s).1
      ended s h (returned a, t) g = g
      ended s h (raised e, t) g = framed.ignores s _ refl refl h

  pub from_outcome-Keeps :
      {E A : Type 0} (f : E → Error) (r : Outcome E A) → Keeps P (from_outcome f r)
  from_outcome-Keeps f (returned a) = Keeps-pure a
  from_outcome-Keeps f (raised e) = Keeps-raise (f e)

  pub call_agent-Keeps :
      (agents : Agents) (j : ℕ) (node : Node) (c : AgentCall) → Keeps P (call_agent agents j node c)
  unfolding call_agent
  call_agent-Keeps agents j node c = reach-Keeps node.ip_address
    where
      answer-Keeps : (a : Answer) → Keeps P (from_answer a)
      answer-Keeps (answered body) = Keeps-pure body
      answer-Keeps (refused code) = Keeps-raise _
      answer-Keeps unreachable = Keeps-raise _

      reach-Keeps : (ip : Option ℕ) → Keeps P (reach agents j c ip)
      reach-Keeps none = Keeps-raise _
      reach-Keeps (some _) = Keeps-bind _ _ (log_call-Keeps j c) (λ _. answer-Keeps (agents j c))

  pub get_primary_node-Keeps : (c : Option ℕ) → Keeps P (get_primary_node c)
  unfolding get_primary_node
  get_primary_node-Keeps c = search keeps_rules depth 10

  authorize-Keeps : (org user_id : ℕ) (a : RbacAction) → Keeps P (authorize org user_id a)
  unfolding authorize get_membership
  authorize-Keeps org user_id a = search (keeps_rules, from_outcome-Keeps) depth 14

  project-Keeps : (org p : ℕ) → Keeps P (get_project_or_404 org p)
  unfolding get_project_or_404
  project-Keeps org p = search keeps_rules depth 10

  pub database-Keeps : (p j : ℕ) → Keeps P (get_database_or_404 p j)
  unfolding get_database_or_404
  database-Keeps p j = search keeps_rules depth 10

  pub authorize_active-Keeps : (c : Caller) (a : RbacAction) → Keeps P (authorize_active c a)
  unfolding authorize_active get_membership require_active_subscription
  authorize_active-Keeps c a = search (keeps_rules, from_outcome-Keeps, project-Keeps) depth 20

  pub guarded-Keeps : (c : Caller) (a : RbacAction) (j : ℕ) → Keeps P (guarded_database c a j)
  unfolding guarded_database
  guarded-Keeps c a j =
      search (keeps_rules, authorize-Keeps, project-Keeps, database-Keeps) depth 12

  pub new_name-Keeps : (p name : ℕ) → Keeps P (require_new_name p name)
  unfolding require_new_name
  new_name-Keeps p name = search keeps_rules depth 10

  pub backup_of-Keeps : (j b : ℕ) → Keeps P (backup_of j b)
  backup_of-Keeps j b = search keeps_rules depth 10

  pub ruleset request_rules = (
    keeps_rules, add_database-Keeps, add_backup-Keeps, record_audit-Keeps, enqueue_job-Keeps,
    transaction-Keeps, from_outcome-Keeps, call_agent-Keeps, get_primary_node-Keeps, database-Keeps,
    authorize_active-Keeps, new_name-Keeps, backup_of-Keeps,
  )
