-- ===== src/Platform/Control/Keeps/Calls.antt =====
-- The requests, the ticks and a whole run keep a property of clusters and members that allows for new
-- clusters, replicas and primaries.
use eminidatabase.Base.{ℕ, Option, none, some, List, [], ◌∷◌, ◌+◌, ◌++◌}
use eminidatabase.Base.Table.{Table}
use eminidatabase.Base.Action.{Outcome, returned, raised}
use eminidatabase.Base.Preserves.{Keeps}
use eminidatabase.Base.Keeps.{keeps_rules, Keeps-pure, Keeps-raise, Keeps-bind, Keeps-if}
use eminidatabase.Platform.Jobs.{JobType}
use eminidatabase.Platform.Placement.{Database, BackupPolicy, Resources}
use eminidatabase.Platform.Rbac.{RbacAction}
use eminidatabase.Platform.Placement.{DatabaseStatus}
use eminidatabase.Platform.Control.{
  Control, Error, agent_unreachable, agent_refused, Backup, AuditAction,
}
use eminidatabase.Platform.Control.Agent.{Agents, Body}
use eminidatabase.Platform.Control.Databases.{
  Caller, DatabaseCreate, guarded_database, authorize_active, require_new_name, requested,
  create_database, delete_database, suspend_database, resume_database, resize_database,
}
use eminidatabase.Platform.Control.MigrationRequest.{migrate_database}
use eminidatabase.Platform.Control.Backups.{
  backup_of, create_backup, restore_backup, set_backup_policy,
}
use eminidatabase.Platform.Control.Schedule.{
  schedule_backup, backup_all, enqueue_due_backups, verify_all, enqueue_due_verifications,
  delete_object, purge_if_deleted, purge_backup, is_retained, purge_backups, purge_database,
  purge_all, purge_expired_automatic_backups, read_metrics, readings_from, meter_all, meter_usage,
}
use eminidatabase.Platform.Control.Calls.{
  Request, creates, deletes, suspends, resumes, backs_up, resizes, restores, sets_policy, Call,
  requests, migrates, attaches, fails_over, runs_job, gives_up, ticks, handle_request, tick, handle,
  run,
}
use eminidatabase.Platform.Control.Keeps.{IsStable, control_rules, add_backup-Keeps, attempt-Keeps}
use eminidatabase.Platform.Control.Keeps.Handlers.{handle_job-Keeps, terminal_failure-Keeps}
use eminidatabase.Platform.Control.Keeps.Failovers.{
  check_and_failover-Keeps, trigger_failover-Keeps, attach_replica-Keeps,
}

module _ {P : Control → Type 0} (stable : IsStable P) where
  guarded-Keeps : (c : Caller) (a : RbacAction) (k : ℕ) → Keeps P (guarded_database c a k)
  unfolding guarded_database
  guarded-Keeps c a k = search control_rules depth 10

  authorize_active-Keeps : (c : Caller) (a : RbacAction) → Keeps P (authorize_active c a)
  unfolding authorize_active
  authorize_active-Keeps c a = search control_rules depth 12

  new_name-Keeps : (project_id name : ℕ) → Keeps P (require_new_name project_id name)
  unfolding require_new_name
  new_name-Keeps project_id name = search keeps_rules depth 10

  requested-Keeps :
      (c : Caller) (t : JobType) (status : DatabaseStatus) (a : AuditAction) (key : Option ℕ)
      (k now : ℕ)
      → Keeps P (requested c t status a key k now)
  requested-Keeps c t status a key k now = search control_rules depth 12

  backup_of-Keeps : (k backup_id : ℕ) → Keeps P (backup_of k backup_id)
  backup_of-Keeps k backup_id = search keeps_rules depth 10

  create-Keeps :
      (c : Caller) (payload : DatabaseCreate) (suffix : List ℕ) (now : ℕ)
      → Keeps P (create_database c payload suffix now)
  unfolding create_database
  create-Keeps c payload suffix now =
      search (control_rules, authorize_active-Keeps, new_name-Keeps) depth 24

  delete-Keeps : (c : Caller) (k now : ℕ) → Keeps P (delete_database c k now)
  unfolding delete_database
  delete-Keeps c k now = search (control_rules, guarded-Keeps, requested-Keeps) depth 12

  suspend-Keeps : (c : Caller) (k now : ℕ) → Keeps P (suspend_database c k now)
  unfolding suspend_database
  suspend-Keeps c k now = search (control_rules, guarded-Keeps, requested-Keeps) depth 12

  resume-Keeps : (c : Caller) (k now : ℕ) → Keeps P (resume_database c k now)
  unfolding resume_database
  resume-Keeps c k now = search (control_rules, guarded-Keeps, requested-Keeps) depth 12

  resize-Keeps :
      (agents : Agents) (c : Caller) (k : ℕ) (limits : Resources)
      → Keeps P (resize_database agents c k limits)
  unfolding resize_database
  resize-Keeps agents c k limits = search (control_rules, guarded-Keeps) depth 20

  migrate-Keeps : (admin_id k node_id now : ℕ) → Keeps P (migrate_database admin_id k node_id now)
  unfolding migrate_database
  migrate-Keeps admin_id k node_id now = search control_rules depth 28

  backup-Keeps : (c : Caller) (k now : ℕ) → Keeps P (create_backup c k now)
  unfolding create_backup
  backup-Keeps c k now = search (control_rules, authorize_active-Keeps, add_backup-Keeps) depth 20

  restore-Keeps :
      (c : Caller) (k backup_id name : ℕ) (suffix : List ℕ) (now : ℕ)
      → Keeps P (restore_backup c k backup_id name suffix now)
  unfolding restore_backup
  restore-Keeps c k backup_id name suffix now =
      search (control_rules, authorize_active-Keeps, new_name-Keeps, backup_of-Keeps) depth 24

  policy-Keeps : (c : Caller) (k : ℕ) (p : BackupPolicy) → Keeps P (set_backup_policy c k p)
  unfolding set_backup_policy
  policy-Keeps c k p = search (control_rules, authorize_active-Keeps) depth 14

  handle_request-Keeps :
      (agents : Agents) (c : Caller) (r : Request) (now : ℕ)
      → Keeps P (handle_request agents c r now)
  unfolding handle_request
  handle_request-Keeps agents c (creates payload suffix) now =
      search (keeps_rules, create-Keeps) depth 6
  handle_request-Keeps agents c (deletes k) now = delete-Keeps c k now
  handle_request-Keeps agents c (suspends k) now = suspend-Keeps c k now
  handle_request-Keeps agents c (resumes k) now = resume-Keeps c k now
  handle_request-Keeps agents c (backs_up k) now = search (keeps_rules, backup-Keeps) depth 6
  handle_request-Keeps agents c (resizes k limits) now = resize-Keeps agents c k limits
  handle_request-Keeps agents c (restores k backup_id name suffix) now =
      search (keeps_rules, restore-Keeps) depth 6
  handle_request-Keeps agents c (sets_policy k p) now = policy-Keeps c k p

  schedule-Keeps : (k now : ℕ) → Keeps P (schedule_backup k now)
  schedule-Keeps k now = search (control_rules, add_backup-Keeps) depth 14

  backup_all-Keeps : (ds : Table Database) (now : ℕ) → Keeps P (backup_all ds now)
  backup_all-Keeps [] now = Keeps-pure 0
  backup_all-Keeps ((k, d) ∷ ds) now =
      search (keeps_rules, schedule-Keeps, backup_all-Keeps ds) depth 14

  due_backups-Keeps : (now : ℕ) → Keeps P (enqueue_due_backups now)
  unfolding enqueue_due_backups
  due_backups-Keeps now = search (control_rules, backup_all-Keeps) depth 10

  verify_all-Keeps : (bs : Table Backup) (now : ℕ) → Keeps P (verify_all bs now)
  verify_all-Keeps [] now = Keeps-pure 0
  verify_all-Keeps ((k, b) ∷ bs) now = search (control_rules, verify_all-Keeps bs) depth 14

  due_verifications-Keeps : (now : ℕ) → Keeps P (enqueue_due_verifications now)
  unfolding enqueue_due_verifications
  due_verifications-Keeps now = search (control_rules, verify_all-Keeps) depth 10

  delete_object-Keeps :
      (agents : Agents) (o : Option ℕ) (b : Backup) → Keeps P (delete_object agents o b)
  delete_object-Keeps agents none b = Keeps-pure tt
  delete_object-Keeps agents (some c) b = search control_rules depth 12

  purge_if_deleted-Keeps : (k : ℕ) (o : Outcome Error (Unit {0})) → Keeps P (purge_if_deleted k o)
  purge_if_deleted-Keeps k (returned u) = search control_rules depth 8
  purge_if_deleted-Keeps k (raised agent_unreachable) = Keeps-pure 0
  purge_if_deleted-Keeps k (raised e) = Keeps-raise e

  purge_backup-Keeps :
      (agents : Agents) (o : Option ℕ) (k : ℕ) (b : Backup) → Keeps P (purge_backup agents o k b)
  purge_backup-Keeps agents o k b =
      search (control_rules, delete_object-Keeps, purge_if_deleted-Keeps) depth 12

  purge_backups-Keeps :
      (agents : Agents) (o : Option ℕ) (now days : ℕ) (bs : Table Backup)
      → Keeps P (purge_backups agents o now days bs)
  purge_backups-Keeps agents o now days [] = Keeps-pure 0
  purge_backups-Keeps agents o now days ((k, b) ∷ bs) =
      let ih = purge_backups-Keeps agents o now days bs in
      Keeps-if (is_retained now days b) _ _ ih (
        Keeps-bind _ _ (purge_backup-Keeps agents o k b)
          (λ n. Keeps-bind _ _ ih (λ m. Keeps-pure (n + m))))

  purge_database-Keeps :
      (agents : Agents) (k now : ℕ) (o : Option ℕ) (p : Option BackupPolicy)
      → Keeps P (purge_database agents k now o p)
  purge_database-Keeps agents k now o none = Keeps-pure 0
  purge_database-Keeps agents k now o (some p) =
      search (control_rules, purge_backups-Keeps) depth 12

  purge_all-Keeps :
      (agents : Agents) (now : ℕ) (ds : Table Database) → Keeps P (purge_all agents now ds)
  purge_all-Keeps agents now [] = Keeps-pure 0
  purge_all-Keeps agents now ((k, d) ∷ ds) =
      let ih = purge_all-Keeps agents now ds in
      Keeps-bind _ _ (purge_database-Keeps agents k now d.cluster_id d.backup_policy)
        (λ n. Keeps-bind _ _ ih (λ m. Keeps-pure (n + m)))

  purge-Keeps : (agents : Agents) (now : ℕ) → Keeps P (purge_expired_automatic_backups agents now)
  unfolding purge_expired_automatic_backups
  purge-Keeps agents now = search (control_rules, purge_all-Keeps) depth 10

  readings_from-Keeps :
      (k : ℕ) (d : Database) (o : Outcome Error Body) → Keeps P (readings_from k d o)
  readings_from-Keeps k d (returned b) = Keeps-pure _
  readings_from-Keeps k d (raised agent_unreachable) = Keeps-pure []
  readings_from-Keeps k d (raised (agent_refused code)) = Keeps-pure []
  readings_from-Keeps k d (raised e) = Keeps-raise e

  read_metrics-Keeps : (agents : Agents) (d : Database) → Keeps P (read_metrics agents d)
  read_metrics-Keeps agents d = search control_rules depth 12

  meter_all-Keeps : (agents : Agents) (ds : Table Database) → Keeps P (meter_all agents ds)
  meter_all-Keeps agents [] = Keeps-pure []
  meter_all-Keeps agents ((k, d) ∷ ds) =
      let ih = meter_all-Keeps agents ds in
      Keeps-bind _ _ (attempt-Keeps stable _ (read_metrics-Keeps agents d)) (λ o.
        Keeps-bind _ _ (readings_from-Keeps k d o)
          (λ first. Keeps-bind _ _ ih (λ rest. Keeps-pure (first ++ rest))))

  meter-Keeps : (agents : Agents) → Keeps P (meter_usage agents)
  unfolding meter_usage
  meter-Keeps agents = search (control_rules, meter_all-Keeps) depth 10

  tick-Keeps : (agents : Agents) (now : ℕ) → Keeps P (tick agents now)
  unfolding tick
  tick-Keeps agents now =
      search
        (
          keeps_rules, due_backups-Keeps, due_verifications-Keeps, purge-Keeps,
          check_and_failover-Keeps, meter-Keeps,
        )
        depth 14

  handle-Keeps : (agents : Agents) (c : Call) (now : ℕ) → Keeps P (handle agents c now)
  unfolding handle
  handle-Keeps agents (requests c r) now = handle_request-Keeps agents c r now
  handle-Keeps agents (migrates admin_id k node_id) now = migrate-Keeps admin_id k node_id now
  handle-Keeps agents (attaches cluster_id node_id) now =
      search (keeps_rules, attach_replica-Keeps) depth 6
  handle-Keeps agents (fails_over cluster_id) now =
      search (keeps_rules, trigger_failover-Keeps) depth 6
  handle-Keeps agents (runs_job w endpoint job_id t job) now =
      handle_job-Keeps stable w endpoint job_id t job now
  handle-Keeps agents (gives_up job_id t job) now = terminal_failure-Keeps stable job_id t job now
  handle-Keeps agents ticks now = tick-Keeps agents now

  pub run-Keeps : (calls : List (Agents × Call × ℕ)) (s : Control) → P s → P (run calls s)
  unfolding run
  run-Keeps [] s h = h
  run-Keeps ((agents, call, now) ∷ calls) s h =
      run-Keeps calls _ ((handle-Keeps agents call now).after s h)
