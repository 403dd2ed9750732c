-- ===== src/Platform/Control/Keeps/Handlers.antt =====
-- Every call keeps a property of clusters and members that allows for new clusters, replicas and
-- primaries.
use eminidatabase.Base.{ℕ, Bool, Option, none, some, arith}
use eminidatabase.Base.Action.{Outcome, returned, raised}
use eminidatabase.Base.Preserves.{Keeps}
use eminidatabase.Base.Keeps.{Keeps-pure, Keeps-writes, Keeps-bind, Keeps-reads}
use eminidatabase.Platform.Jobs.{JobType, Payload}
use eminidatabase.Platform.Placement.{Node, Database, IsolationLevel}
use eminidatabase.Platform.Control.{Control, Error}
use eminidatabase.Platform.Control.Agent.{Body}
use eminidatabase.Platform.Control.Orchestrator.{
  World, create_cluster, joined_or_created, get_or_create_cluster_on_node, choose_node,
  chosen_cluster, provision_database, execute_create_database, drop_if_placed, delete_found,
  execute_delete_database, execute_suspend_database, execute_resume_database, is_shared,
}
use eminidatabase.Platform.Control.Migration.{
  Route, unless_unreachable, migrate_along, migrate_from, execute_migrate_database,
}
use eminidatabase.Platform.Control.BackupJobs.{
  execute_backup_database, restored_cluster, restore_into, execute_restore_database,
  execute_verify_backup, handle_job, fail_database, mark_database_failed, mark_backup_failed,
  mark_webhook_delivery_failed, fail_resource, fail_if_any, terminal_failure,
}
use eminidatabase.Platform.Control.Keeps.{
  IsStable, control_rules, execute_deliver-Keeps, set_delivery-Keeps,
}

module _ {P : Control → Type 0} (stable : IsStable P) where
  create_cluster-Keeps :
      (region_id : ℕ) (shared : Bool) (node_id : ℕ)
      → Keeps P (create_cluster region_id shared node_id)
  unfolding create_cluster
  create_cluster-Keeps region_id shared node_id = Keeps-bind _ _ (Keeps-reads _) (λ k.
      Keeps-bind _ _ (Keeps-writes _ (stable.new_cluster region_id shared node_id))
        (λ _. Keeps-pure k))

  joined-Keeps :
      (region_id : ℕ) (shared : Bool) (node_id : ℕ) (o : Option ℕ)
      → Keeps P (joined_or_created region_id shared node_id o)
  joined-Keeps region_id shared node_id none = create_cluster-Keeps region_id shared node_id
  joined-Keeps region_id shared node_id (some k) = Keeps-pure k

  get_or_create-Keeps :
      (node_id region_id : ℕ) (level : IsolationLevel)
      → Keeps P (get_or_create_cluster_on_node node_id region_id level)
  unfolding get_or_create_cluster_on_node
  get_or_create-Keeps node_id region_id level =
      Keeps-bind _ _ (Keeps-reads _) (joined-Keeps region_id (is_shared level) node_id)

  chosen_cluster-Keeps :
      (d : Database) (node_id : ℕ) (o : Option ℕ) → Keeps P (chosen_cluster d node_id o)
  chosen_cluster-Keeps d node_id none = get_or_create-Keeps node_id d.region_id d.isolation_level
  chosen_cluster-Keeps d node_id (some k) = Keeps-pure k

  choose_node-Keeps : (d : Database) (now : ℕ) → Keeps P (choose_node d now)
  unfolding choose_node
  choose_node-Keeps d now = search control_rules depth 12

  provision-Keeps :
      (w : World) (job_id : ℕ) (job : Payload) (d : Database) (now : ℕ)
      → Keeps P (provision_database w job_id job d now)
  unfolding provision_database
  provision-Keeps w job_id job d now =
      search (control_rules, choose_node-Keeps, chosen_cluster-Keeps) depth 20

  create-Keeps :
      (w : World) (job_id : ℕ) (job : Payload) (now : ℕ)
      → Keeps P (execute_create_database w job_id job now)
  unfolding execute_create_database
  create-Keeps w job_id job now = search (control_rules, provision-Keeps) depth 12

  drop_if_placed-Keeps :
      (w : World) (k : ℕ) (d : Database) (o : Option ℕ) → Keeps P (drop_if_placed w k d o)
  drop_if_placed-Keeps w k d none = Keeps-pure tt
  drop_if_placed-Keeps w k d (some c) = search control_rules depth 14

  delete_found-Keeps :
      (w : World) (job_id : ℕ) (job : Payload) (now : ℕ) (o : Option Database)
      → Keeps P (delete_found w job_id job now o)
  delete_found-Keeps w job_id job now none = Keeps-pure tt
  delete_found-Keeps w job_id job now (some d) =
      search (control_rules, drop_if_placed-Keeps) depth 14

  delete-Keeps :
      (w : World) (job_id : ℕ) (job : Payload) (now : ℕ)
      → Keeps P (execute_delete_database w job_id job now)
  unfolding execute_delete_database
  delete-Keeps w job_id job now = search (control_rules, delete_found-Keeps) depth 12

  suspend-Keeps :
      (w : World) (job_id : ℕ) (job : Payload) → Keeps P (execute_suspend_database w job_id job)
  unfolding execute_suspend_database
  suspend-Keeps w job_id job = search control_rules depth 16

  resume-Keeps :
      (w : World) (job_id : ℕ) (job : Payload) → Keeps P (execute_resume_database w job_id job)
  unfolding execute_resume_database
  resume-Keeps w job_id job = search control_rules depth 16

  unless_unreachable-Keeps : (o : Outcome Error Body) → Keeps P (unless_unreachable o)
  unless_unreachable-Keeps (returned b) = Keeps-pure tt
  unless_unreachable-Keeps (raised e) = record { after = λ s h. ground arith }

  migrate_along-Keeps : (w : World) (job_id : ℕ) (r : Route) → Keeps P (migrate_along w job_id r)
  unfolding migrate_along
  migrate_along-Keeps w job_id r =
      search (control_rules, get_or_create-Keeps, unless_unreachable-Keeps) depth 24

  migrate_from-Keeps :
      (w : World) (job_id : ℕ) (job : Payload) (d : Database) (k : ℕ) (n : Node) (source : ℕ × Node)
      → Keeps P (migrate_from w job_id job d k n source)
  migrate_from-Keeps w job_id job d k n source =
      search (control_rules, migrate_along-Keeps) depth 14

  migrate-Keeps :
      (w : World) (job_id : ℕ) (job : Payload) → Keeps P (execute_migrate_database w job_id job)
  unfolding execute_migrate_database
  migrate-Keeps w job_id job = search (control_rules, migrate_from-Keeps) depth 16

  backup-Keeps : (w : World) (job : Payload) (now : ℕ) → Keeps P (execute_backup_database w job now)
  unfolding execute_backup_database
  backup-Keeps w job now = search control_rules depth 24

  restored_cluster-Keeps :
      (d : Database) (node_id : ℕ) (o : Option ℕ) → Keeps P (restored_cluster d node_id o)
  restored_cluster-Keeps d node_id none = create_cluster-Keeps d.region_id _ node_id
  restored_cluster-Keeps d node_id (some k) = Keeps-pure k

  restore_into-Keeps :
      (w : World) (job_id : ℕ) (job : Payload) (d : Database) (now : ℕ)
      → Keeps P (restore_into w job_id job d now)
  restore_into-Keeps w job_id job d now =
      search (control_rules, choose_node-Keeps, restored_cluster-Keeps) depth 24

  restore-Keeps :
      (w : World) (job_id : ℕ) (job : Payload) (now : ℕ)
      → Keeps P (execute_restore_database w job_id job now)
  unfolding execute_restore_database
  restore-Keeps w job_id job now = search (control_rules, restore_into-Keeps) depth 12

  verify-Keeps : (w : World) (job : Payload) (now : ℕ) → Keeps P (execute_verify_backup w job now)
  unfolding execute_verify_backup
  verify-Keeps w job now = search control_rules depth 20

  pub handle_job-Keeps :
      (w : World) (endpoint : ℕ → Option ℕ) (job_id : ℕ) (type_name : JobType) (job : Payload)
      (now : ℕ)
      → Keeps P (handle_job w endpoint job_id type_name job now)
  unfolding handle_job
  handle_job-Keeps w endpoint job_id JobType.create_database job now = create-Keeps w job_id job now
  handle_job-Keeps w endpoint job_id JobType.delete_database job now = delete-Keeps w job_id job now
  handle_job-Keeps w endpoint job_id JobType.suspend_database job now = suspend-Keeps w job_id job
  handle_job-Keeps w endpoint job_id JobType.resume_database job now = resume-Keeps w job_id job
  handle_job-Keeps w endpoint job_id JobType.migrate_database job now = migrate-Keeps w job_id job
  handle_job-Keeps w endpoint job_id JobType.backup_database job now = backup-Keeps w job now
  handle_job-Keeps w endpoint job_id JobType.restore_database job now =
      restore-Keeps w job_id job now
  handle_job-Keeps w endpoint job_id JobType.verify_backup job now = verify-Keeps w job now
  handle_job-Keeps w endpoint job_id JobType.deliver_webhook job now =
      execute_deliver-Keeps stable endpoint job.subject now

  fail_database-Keeps : (job_id k : ℕ) (o : Option Database) → Keeps P (fail_database job_id k o)
  fail_database-Keeps job_id k none = Keeps-pure tt
  fail_database-Keeps job_id k (some d) = search control_rules depth 8

  database_failed-Keeps :
      (job_id : ℕ) (job : Payload) (k now : ℕ) → Keeps P (mark_database_failed job_id job k now)
  unfolding mark_database_failed
  database_failed-Keeps job_id job k now = search (control_rules, fail_database-Keeps) depth 10

  backup_failed-Keeps : (job : Payload) (k now : ℕ) → Keeps P (mark_backup_failed job k now)
  unfolding mark_backup_failed
  backup_failed-Keeps job k now = search control_rules depth 10

  fail_resource-Keeps :
      (job_id : ℕ) (type_name : JobType) (job : Payload) (k now : ℕ)
      → Keeps P (fail_resource job_id type_name job k now)
  unfolding mark_webhook_delivery_failed
  fail_resource-Keeps job_id JobType.verify_backup job k now = Keeps-pure tt
  fail_resource-Keeps job_id JobType.backup_database job k now = backup_failed-Keeps job k now
  fail_resource-Keeps job_id JobType.deliver_webhook job k now = set_delivery-Keeps stable k _
  fail_resource-Keeps job_id JobType.create_database job k now =
      database_failed-Keeps job_id job k now
  fail_resource-Keeps job_id JobType.delete_database job k now =
      database_failed-Keeps job_id job k now
  fail_resource-Keeps job_id JobType.suspend_database job k now =
      database_failed-Keeps job_id job k now
  fail_resource-Keeps job_id JobType.resume_database job k now =
      database_failed-Keeps job_id job k now
  fail_resource-Keeps job_id JobType.restore_database job k now =
      database_failed-Keeps job_id job k now
  fail_resource-Keeps job_id JobType.migrate_database job k now =
      database_failed-Keeps job_id job k now

  fail_if_any-Keeps :
      (job_id : ℕ) (type_name : JobType) (job : Payload) (now : ℕ) (o : Option ℕ)
      → Keeps P (fail_if_any job_id type_name job now o)
  fail_if_any-Keeps job_id type_name job now none = Keeps-pure tt
  fail_if_any-Keeps job_id type_name job now (some k) =
      fail_resource-Keeps job_id type_name job k now

  pub terminal_failure-Keeps :
      (job_id : ℕ) (type_name : JobType) (job : Payload) (now : ℕ)
      → Keeps P (terminal_failure job_id type_name job now)
  unfolding terminal_failure
  terminal_failure-Keeps job_id type_name job now =
      fail_if_any-Keeps job_id type_name job now job.resource_id
