-- ===== src/Platform/Control/Statuses.antt =====
-- The statuses that requests take a database through (docs/architecture/02, section 2.3).
pub mod Steps
use eminidatabase.Base.{ℕ, ◌≡◌, ◌≢◌, refl, sym, subst, ap, ◌∙◌, not, some, List, [], ◌∷◌, All}
use eminidatabase.Base.Table.{lookup}
use eminidatabase.Base.Action.{
  WhenReturned, WhenReturned-mono, found-WhenReturned, ◌>>=◌, ◌>>◌, writes,
}
use eminidatabase.Base.Preserves.{Keeps}
use eminidatabase.Base.Keeps.{keeps_rules, Keeps-bind_when, >>=-after}
use eminidatabase.Platform.Placement.{
  Database, DatabaseStatus, running, suspending, suspended, updating, migrating, deleting, deleted,
  BackupPolicy, Resources, is_deleted,
}
use eminidatabase.Platform.Control.{
  Control, Error, not_found, set_database, set_status, get_database,
}
use eminidatabase.Platform.Control.Agent.{Agents, get_primary_node}
use eminidatabase.Platform.Control.Orchestrator.{is_running, is_suspended}
use eminidatabase.Platform.Control.Databases.{
  Caller, DatabaseCreate, create_database, delete_database, suspend_database, resume_database,
  resize_database, resized,
}
use eminidatabase.Platform.Control.MigrationRequest.{
  check_migration, request_migration, migrate_database,
}
use eminidatabase.Platform.Control.Backups.{create_backup, restore_backup, set_backup_policy}
use eminidatabase.Platform.Control.Calls.{
  Request, creates, deletes, suspends, resumes, backs_up, resizes, restores, sets_policy, Call,
  requests, migrates, attaches, fails_over, runs_job, gives_up, ticks, handle_request, handle, run,
}
use eminidatabase.Platform.Control.Rules.{request_rules, transaction-Keeps, guarded-Keeps}
use eminidatabase.Platform.Control.Statuses.Steps.{
  StatusStep, suspend_requested, resume_requested, delete_requested, migration_requested, IsReached,
  here, next, HasReached, is_running-eq, is_suspended-eq, HasReached-framed, set_database-after,
  set_database-Keeps, guarded_request-Keeps, not-false, check_migration-Running,
}

module _ {k : ℕ} {x : DatabaseStatus} where
  delete-Keeps : (c : Caller) (j now : ℕ) → Keeps (HasReached k x) (delete_database c j now)
  unfolding delete_database
  delete-Keeps c j now =
      transaction-Keeps HasReached-framed _
        (guarded_request-Keeps c _ is_deleted _ _ _ _ j now (λ y live. delete_requested y live))

  suspend-Keeps : (c : Caller) (j now : ℕ) → Keeps (HasReached k x) (suspend_database c j now)
  unfolding suspend_database
  suspend-Keeps c j now = transaction-Keeps HasReached-framed _ (
      guarded_request-Keeps c _ (λ y. not (is_running y)) _ _ _ _ j now
        (λ y e.
          subst (λ z. StatusStep z suspending) (sym (is_running-eq y (not-false _ e)))
            suspend_requested))

  resume-Keeps : (c : Caller) (j now : ℕ) → Keeps (HasReached k x) (resume_database c j now)
  unfolding resume_database
  resume-Keeps c j now = transaction-Keeps HasReached-framed _ (
      guarded_request-Keeps c _ (λ y. not (is_suspended y)) _ _ _ _ j now
        (λ y e.
          subst (λ z. StatusStep z updating) (sym (is_suspended-eq y (not-false _ e)))
            resume_requested))

  resized-Keeps :
      (j : ℕ) (limits : Resources)
      → Keeps (HasReached k x) (writes {E = Error} (set_database j (resized limits)))
  resized-Keeps j limits = set_database-Keeps j (resized limits) (λ d. refl)

  resize-Keeps :
      (agents : Agents) (c : Caller) (j : ℕ) (limits : Resources)
      → Keeps (HasReached k x) (resize_database agents c j limits)
  unfolding resize_database
  resize-Keeps agents c j limits =
      search (request_rules, HasReached-framed, guarded-Keeps, resized-Keeps) depth 24

  with_policy-Keeps :
      (j : ℕ) (p : BackupPolicy)
      → Keeps
          (HasReached k x)
          (writes {E = Error} (set_database j (λ d. record d { backup_policy = some p })))
  with_policy-Keeps j p = set_database-Keeps j _ (λ d. refl)

  policy-Keeps :
      (c : Caller) (j : ℕ) (p : BackupPolicy) → Keeps (HasReached k x) (set_backup_policy c j p)
  unfolding set_backup_policy
  policy-Keeps c j p = search (request_rules, HasReached-framed, with_policy-Keeps) depth 20

  create-Keeps :
      (c : Caller) (payload : DatabaseCreate) (suffix : List ℕ) (now : ℕ)
      → Keeps (HasReached k x) (create_database c payload suffix now)
  unfolding create_database
  create-Keeps c payload suffix now = search (request_rules, HasReached-framed) depth 24

  backup-Keeps : (c : Caller) (j now : ℕ) → Keeps (HasReached k x) (create_backup c j now)
  unfolding create_backup
  backup-Keeps c j now = search (request_rules, HasReached-framed) depth 20

  restore-Keeps :
      (c : Caller) (j backup_id name : ℕ) (suffix : List ℕ) (now : ℕ)
      → Keeps (HasReached k x) (restore_backup c j backup_id name suffix now)
  unfolding restore_backup
  restore-Keeps c j backup_id name suffix now = search (request_rules, HasReached-framed) depth 24

  request-Keeps :
      (agents : Agents) (c : Caller) (r : Request) (now : ℕ)
      → Keeps (HasReached k x) (handle_request agents c r now)
  unfolding handle_request
  request-Keeps agents c (creates payload suffix) now = search (keeps_rules, create-Keeps) depth 6
  request-Keeps agents c (deletes j) now = delete-Keeps c j now
  request-Keeps agents c (suspends j) now = suspend-Keeps c j now
  request-Keeps agents c (resumes j) now = resume-Keeps c j now
  request-Keeps agents c (backs_up j) now = search (keeps_rules, backup-Keeps) depth 6
  request-Keeps agents c (resizes j limits) now = resize-Keeps agents c j limits
  request-Keeps agents c (restores j backup_id name suffix) now =
      search (keeps_rules, restore-Keeps) depth 6
  request-Keeps agents c (sets_policy j p) now = policy-Keeps c j p

  check_migration-Keeps :
      (d : Database) (node_id now : ℕ) → Keeps (HasReached k x) (check_migration d node_id now)
  unfolding get_primary_node
  check_migration-Keeps d node_id now = search keeps_rules depth 24

  -- An administrator's request to migrate a running database.
  migrate-Keeps :
      (admin_id j node_id now : ℕ)
      → Keeps (HasReached k x) (migrate_database admin_id j node_id now)
  unfolding migrate_database
  migrate-Keeps admin_id j node_id now = transaction-Keeps HasReached-framed _ (
      Keeps-bind_when (λ row s. lookup j s.fleet.databases ≡ some row) (get_database not_found j)
        (λ row.
          check_migration row node_id now
          >> (writes (set_status j migrating) >> request_migration admin_id j node_id now))
        (search keeps_rules depth 8) row_there (λ row s there h. checked row s there h))
    where
      row_there :
          (s : Control)
          → HasReached k x s
          → WhenReturned
              (λ row t. lookup j t.fleet.databases ≡ some row)
              (get_database not_found j s)
      row_there s h =
          WhenReturned-mono _ (λ row t. lookup j t.fleet.databases ≡ some row)
            (get_database not_found j s)
            (found-WhenReturned not_found (lookup j s.fleet.databases) s)
            (λ row t it.
              subst (λ (v : Control). lookup j v.fleet.databases ≡ some row) (sym it.1) it.0)

      rest : Keeps (HasReached k x) (request_migration admin_id j node_id now)
      rest = search (request_rules, HasReached-framed) depth 8

      checked :
          (row : Database) (s : Control)
          → lookup j s.fleet.databases ≡ some row
          → HasReached k x s
          → HasReached k x
              ((check_migration row node_id now
                  >> (writes (set_status j migrating) >> request_migration admin_id j node_id now))
                s).1
      checked row s there h =
          >>=-after (λ _ t. (t ≡ s) × (row.status ≡ running)) (check_migration row node_id now)
            (λ _. writes (set_status j migrating) >> request_migration admin_id j node_id now) s
            ((check_migration-Keeps row node_id now).after s h)
            ((check_migration-Running row node_id now).at s)
            (λ _ t ok g. rest.after (set_status j migrating t) (
              set_database-after j (λ d. record d { status = migrating }) row t
                (subst (λ (v : Control). lookup j v.fleet.databases ≡ some row) (sym ok.0) there)
                (λ y r. next r (subst (λ z. StatusStep z migrating) (sym ok.1) migration_requested))
                g))

-- What asks for something in the name of a user.
abbrev pub IsRequest : Agents × Call × ℕ → Type 0
IsRequest (agents, requests c r, now) = Unit
IsRequest (agents, migrates admin_id j node_id, now) = Unit
IsRequest (agents, call, now) = ⊥

call-HasReached :
    {k : ℕ} {x : DatabaseStatus} (agents : Agents) (call : Call) (now : ℕ) (s : Control)
    → IsRequest (agents, call, now)
    → HasReached k x s
    → HasReached k x (handle agents call now s).1
unfolding handle
call-HasReached agents (requests c r) now s is h = (request-Keeps agents c r now).after s h
call-HasReached agents (migrates admin_id j node_id) now s is h =
    (migrate-Keeps admin_id j node_id now).after s h
call-HasReached agents (attaches cluster_id node_id) now s is h = elim is [ ]
call-HasReached agents (fails_over cluster_id) now s is h = elim is [ ]
call-HasReached agents (runs_job w endpoint job_id t job) now s is h = elim is [ ]
call-HasReached agents (gives_up job_id t job) now s is h = elim is [ ]
call-HasReached agents ticks now s is h = elim is [ ]

run-HasReached :
    {k : ℕ} {x : DatabaseStatus} (calls : List (Agents × Call × ℕ)) (s : Control)
    → All IsRequest calls
    → HasReached k x s
    → HasReached k x (run calls s)
unfolding run
run-HasReached [] s are h = h
run-HasReached ((agents, call, now) ∷ calls) s are h =
    run-HasReached calls _ are.1 (call-HasReached agents call now s are.0 h)

deleted-NoStep : {y z : DatabaseStatus} → StatusStep y z → y ≢ deleted
deleted-NoStep suspend_requested e = cc
deleted-NoStep resume_requested e = cc
deleted-NoStep (delete_requested x live) e = let never = sym live ∙ ap is_deleted e in cc
deleted-NoStep migration_requested e = cc

deleted-Final : {x y : DatabaseStatus} → IsReached x y → x ≡ deleted → y ≡ deleted
deleted-Final here e = e
deleted-Final (next r step) e = absurd (deleted-NoStep step (deleted-Final r e))

-- Whatever users ask for and administrators ask to migrate, in any order and however each request
-- ends, a database that was there is there, and its status is one that these steps lead to: from
-- running to suspending, from suspended to updating, from any but deleted to deleting, from running
-- to migrating. A deleted database stays deleted.
pub run-IsReached :
    (calls : List (Agents × Call × ℕ)) (k : ℕ) (d : Database) (s : Control)
    → All IsRequest calls
    → lookup k s.fleet.databases ≡ some d
    → (e : Database) × (lookup k (run calls s).fleet.databases ≡ some e)
      × IsReached d.status e.status
      × (d.status ≡ deleted → e.status ≡ deleted)
run-IsReached calls k d s are there =
    let end =
      run-HasReached {x = d.status} calls s are
        (record { database = d; row = there; reached = here }) in
    (end.database, end.row, end.reached, deleted-Final end.reached)
