-- ===== src/Platform/Control/Isolation.antt =====
-- What a member of one organization asks for leaves the databases of the others alone.
use eminidatabase.Base.{ℕ, ◌≡◌, ◌≢◌, refl, sym, subst, ap, ◌∙◌, some, some-injective, List}
use eminidatabase.Base.Table.{lookup, lookup-modify_ne}
use eminidatabase.Base.Keys.{lookup-add}
use eminidatabase.Base.Action.{WhenReturned-mono, ◌>>=◌, ◌>>◌, writes}
use eminidatabase.Base.Preserves.{Keeps}
use eminidatabase.Base.Keeps.{keeps_rules, Keeps-writes, Keeps-bind_when, >>=-after}
use eminidatabase.Platform.Placement.{Database, BackupPolicy, Resources}
use eminidatabase.Platform.Rbac.{RbacAction}
use eminidatabase.Platform.Control.{Control, Project, Tx, Error, set_database, get_database_or_404}
use eminidatabase.Platform.Control.Agent.{Agents}
use eminidatabase.Platform.Control.Databases.{
  Caller, DatabaseCreate, guarded_database, authorize_active, create_database, delete_database,
  suspend_database, resume_database, resize_database,
}
use eminidatabase.Platform.Control.Backups.{create_backup, restore_backup, set_backup_policy}
use eminidatabase.Platform.Control.Calls.{
  Request, creates, deletes, suspends, resumes, backs_up, resizes, restores, sets_policy,
  handle_request,
}
use eminidatabase.Platform.Control.Own.{
  IsOwn, database-Own, HasProject, IsOwn-database, guarded-Own, active-Own,
}
use eminidatabase.Platform.Control.Rules.{
  IsFramed, request_rules, database-Keeps, authorize_active-Keeps, guarded-Keeps,
}

-- The database `k` is the row `d`, of a project of another organization.
pub record IsForeign (organization_id k : ℕ) (d : Database) (s : Control) : Type 0 where
  pub row : lookup k s.fleet.databases ≡ some d
  pub project : Project
  pub its_project : lookup d.project_id s.projects ≡ some project
  pub is_foreign : project.organization_id ≢ organization_id

IsOwn-ne :
    (c : Caller) (j k : ℕ) (d : Database) (s : Control)
    → IsOwn c j s
    → IsForeign c.organization_id k d s
    → j ≢ k
IsOwn-ne c j k d s own foreign same = foreign.is_foreign (
    ap (λ (x : Project). x.organization_id)
      (some-injective foreign.project own.project
        (sym foreign.its_project ∙ there ∙ own.its_project))
    ∙ own.is_own)
  where
    one_row : d ≡ own.database
    one_row =
        some-injective d own.database
          (sym foreign.row ∙ ap (λ i. lookup i s.fleet.databases) (sym same) ∙ own.row)

    there : lookup d.project_id s.projects ≡ lookup c.project_id s.projects
    there =
        ap (λ i. lookup i s.projects)
          (ap (λ (x : Database). x.project_id) one_row ∙ own.its_database)

IsForeign-framed : {o k : ℕ} {d : Database} → IsFramed (IsForeign o k d)
IsForeign-framed {o} {k} {d} = record {
  ignores = λ s t databases projects h. record {
    row = ap (lookup k) databases ∙ h.row;
    project = h.project;
    its_project = ap (lookup d.project_id) projects ∙ h.its_project;
    is_foreign = h.is_foreign;
  };
  new_database = λ e s h. record {
    row = rw (lookup-add s.next_id k e s.fleet.databases, h.row) refl;
    project = h.project;
    its_project = h.its_project;
    is_foreign = h.is_foreign;
  };
}

set_database-Keeps :
    {o k : ℕ} {d : Database} (j : ℕ) (f : Database → Database)
    → j ≢ k
    → Keeps (IsForeign o k d) (writes {E = Error} (set_database j f))
set_database-Keeps {o} {k} {d} j f other = Keeps-writes _ (λ s h. record {
  row = lookup-modify_ne j k f s.fleet.databases other ∙ h.row;
  project = h.project;
  its_project = h.its_project;
  is_foreign = h.is_foreign;
})

module _ (c : Caller) {k : ℕ} {d : Database} where
  -- After the guards, the database that is asked for is another.
  guarded-then :
      {A : Type 0} (a : RbacAction) (j : ℕ) (f : Database → Tx A)
      → ((row : Database) → j ≢ k → Keeps (IsForeign c.organization_id k d) (f row))
      → Keeps (IsForeign c.organization_id k d) (guarded_database c a j >>= f)
  guarded-then a j f kf =
      Keeps-bind_when (λ _ t. IsOwn c j t) (guarded_database c a j) f
        (guarded-Keeps IsForeign-framed c a j) (λ s h. (guarded-Own c a j).at s)
        (λ row t own h. (kf row (IsOwn-ne c j k d t own h)).after t h)

  create-Keeps :
      (payload : DatabaseCreate) (suffix : List ℕ) (now : ℕ)
      → Keeps (IsForeign c.organization_id k d) (create_database c payload suffix now)
  unfolding create_database
  create-Keeps payload suffix now = search (request_rules, IsForeign-framed) depth 24

  delete-Keeps : (j now : ℕ) → Keeps (IsForeign c.organization_id k d) (delete_database c j now)
  unfolding delete_database
  delete-Keeps j now =
      search (request_rules, IsForeign-framed, guarded-then, set_database-Keeps) depth 16

  suspend-Keeps : (j now : ℕ) → Keeps (IsForeign c.organization_id k d) (suspend_database c j now)
  unfolding suspend_database
  suspend-Keeps j now =
      search (request_rules, IsForeign-framed, guarded-then, set_database-Keeps) depth 16

  resume-Keeps : (j now : ℕ) → Keeps (IsForeign c.organization_id k d) (resume_database c j now)
  unfolding resume_database
  resume-Keeps j now =
      search (request_rules, IsForeign-framed, guarded-then, set_database-Keeps) depth 16

  resize-Keeps :
      (agents : Agents) (j : ℕ) (limits : Resources)
      → Keeps (IsForeign c.organization_id k d) (resize_database agents c j limits)
  unfolding resize_database
  resize-Keeps agents j limits =
      search (request_rules, IsForeign-framed, guarded-then, set_database-Keeps) depth 24

  backup-Keeps : (j now : ℕ) → Keeps (IsForeign c.organization_id k d) (create_backup c j now)
  unfolding create_backup
  backup-Keeps j now = search (request_rules, IsForeign-framed) depth 20

  restore-Keeps :
      (j backup_id name : ℕ) (suffix : List ℕ) (now : ℕ)
      → Keeps (IsForeign c.organization_id k d) (restore_backup c j backup_id name suffix now)
  unfolding restore_backup
  restore-Keeps j backup_id name suffix now = search (request_rules, IsForeign-framed) depth 24

  -- The same for the guards of an endpoint that wants a subscription in good standing.
  active-then :
      {A : Type 0} (a : RbacAction) (j : ℕ) (f : Database → Tx A)
      → ((row : Database) → j ≢ k → Keeps (IsForeign c.organization_id k d) (f row))
      → Keeps
          (IsForeign c.organization_id k d)
          (authorize_active c a >> (get_database_or_404 c.project_id j >>= f))
  active-then a j f kf =
      Keeps-bind_when (λ _ t. HasProject c t) (authorize_active c a)
        (λ _. get_database_or_404 c.project_id j >>= f)
        (authorize_active-Keeps IsForeign-framed c a)
        (λ s h.
          WhenReturned-mono _ (λ _ t. HasProject c t) (authorize_active c a s)
            ((active-Own c a).at s) (λ _ t has. subst (HasProject c) (sym has.0) has.1))
        (λ _ s has h.
          >>=-after (λ _ t. IsOwn c j t) (get_database_or_404 c.project_id j) f s
            ((database-Keeps IsForeign-framed c.project_id j).after s h)
            (WhenReturned-mono _ (λ _ t. IsOwn c j t) (get_database_or_404 c.project_id j s)
              ((database-Own c.project_id j).at s)
              (λ row t here. IsOwn-database c j s t row has here))
            (λ row t own h. (kf row (IsOwn-ne c j k d t own h)).after t h))

  policy-Keeps :
      (j : ℕ) (p : BackupPolicy) → Keeps (IsForeign c.organization_id k d) (set_backup_policy c j p)
  unfolding set_backup_policy
  policy-Keeps j p =
      search (request_rules, IsForeign-framed, active-then, set_database-Keeps) depth 20

  request-Keeps :
      (agents : Agents) (r : Request) (now : ℕ)
      → Keeps (IsForeign c.organization_id k d) (handle_request agents c r now)
  unfolding handle_request
  request-Keeps agents (creates payload suffix) now = search (keeps_rules, create-Keeps) depth 6
  request-Keeps agents (deletes j) now = delete-Keeps j now
  request-Keeps agents (suspends j) now = suspend-Keeps j now
  request-Keeps agents (resumes j) now = resume-Keeps j now
  request-Keeps agents (backs_up j) now = search (keeps_rules, backup-Keeps) depth 6
  request-Keeps agents (resizes j limits) now = resize-Keeps agents j limits
  request-Keeps agents (restores j backup_id name suffix) now =
      search (keeps_rules, restore-Keeps) depth 6
  request-Keeps agents (sets_policy j p) now = policy-Keeps j p

-- Whatever a user asks for in the name of an organization (to create, delete, suspend, resume or
-- resize a database, to back one up or restore it, or to set its policy, for any project and any
-- database), and however the request ends, the row of a database in a project of another
-- organization is as it was.
pub handle_request-Isolated :
    (agents : Agents) (c : Caller) (r : Request) (now k : ℕ) (d : Database) (project : Project)
    (s : Control)
    → lookup k s.fleet.databases ≡ some d
    → lookup d.project_id s.projects ≡ some project
    → project.organization_id ≢ c.organization_id
    → lookup k (handle_request agents c r now s).1.fleet.databases ≡ some d
handle_request-Isolated agents c r now k d project s row its_project is_foreign =
    let after = (request-Keeps c agents r now).after s (record {
      row = row;
      project = project;
      its_project = its_project;
      is_foreign = is_foreign;
    }) in
    after.row
