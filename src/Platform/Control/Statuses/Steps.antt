-- ===== src/Platform/Control/Statuses/Steps.antt =====
-- The steps between a database's statuses that requests take (docs/architecture/02, section 2.3), and
-- the request that takes one.
use eminidatabase.Base.{
  ℕ, ◌≡◌, refl, sym, subst, ap, ◌∙◌, Bool, true, false, not, Option, some, some-injective, ◌==◌,
  Bool-cases, inl, inr, ==→eq,
}
use eminidatabase.Base.Table.{lookup}
use eminidatabase.Base.Keys.{lookup-add, lookup-modify_lem}
use eminidatabase.Base.Action.{WhenReturned, WhenReturned-mono, ◌>>=◌, ◌>>◌, raise_if, writes}
use eminidatabase.Base.Preserves.{Keeps}
use eminidatabase.Base.Keeps.{keeps_rules, Keeps-writes, Keeps-bind_when, Does, Does-any, Does-bind}
use eminidatabase.Platform.Jobs.{JobType}
use eminidatabase.Platform.Placement.{
  Database, DatabaseStatus, running, suspending, suspended, updating, migrating, deleting,
  is_deleted,
}
use eminidatabase.Platform.Rbac.{RbacAction}
use eminidatabase.Platform.Control.{
  Control, Error, conflict, AuditAction, enqueue_job, record_audit, set_database, set_status,
  get_project_or_404, get_database_or_404, authorize,
}
use eminidatabase.Platform.Control.Agent.{get_primary_node}
use eminidatabase.Platform.Control.Orchestrator.{is_running, is_suspended}
use eminidatabase.Platform.Control.Databases.{Caller, about_database, guarded_database, requested}
use eminidatabase.Platform.Control.MigrationRequest.{check_target, check_migration}
use eminidatabase.Platform.Control.Own.{Reads, database-Own}
use eminidatabase.Platform.Control.Rules.{IsFramed, request_rules, guarded-Keeps}

pub data StatusStep : DatabaseStatus → DatabaseStatus → Type 0 where
  suspend_requested : StatusStep running suspending
  resume_requested : StatusStep suspended updating
  delete_requested : (x : DatabaseStatus) → is_deleted x ≡ false → StatusStep x deleting
  migration_requested : StatusStep running migrating

pub data IsReached (x : DatabaseStatus) : DatabaseStatus → Type 0 where
  here : IsReached x x
  next : {y z : DatabaseStatus} → IsReached x y → StatusStep y z → IsReached x z

-- The database is there, in a status that the steps reach.
pub record HasReached (k : ℕ) (x : DatabaseStatus) (s : Control) : Type 0 where
  pub database : Database
  pub row : lookup k s.fleet.databases ≡ some database
  pub reached : IsReached x database.status

pub is_running-eq : (x : DatabaseStatus) → is_running x ≡ true → x ≡ running
is_running-eq running h = refl
is_running-eq _ h = cc

pub is_suspended-eq : (x : DatabaseStatus) → is_suspended x ≡ true → x ≡ suspended
is_suspended-eq suspended h = refl
is_suspended-eq _ h = cc

pub HasReached-framed : {k : ℕ} {x : DatabaseStatus} → IsFramed (HasReached k x)
HasReached-framed {k} {x} = record {
  ignores = λ s t databases projects h. record {
    database = h.database;
    row = ap (lookup k) databases ∙ h.row;
    reached = h.reached;
  };
  new_database = λ e s h. record {
    database = h.database;
    row = rw (lookup-add s.next_id k e s.fleet.databases, h.row) refl;
    reached = h.reached;
  };
}

-- A write to a row, by what it does to the status.
pub set_database-after :
    {k : ℕ} {x : DatabaseStatus} (j : ℕ) (f : Database → Database) (row : Database) (t : Control)
    → lookup j t.fleet.databases ≡ some row
    → ((y : DatabaseStatus) → IsReached y row.status → IsReached y (f row).status)
    → HasReached k x t
    → HasReached k x (set_database j f t)
set_database-after {k} {x} j f row t there moves h = elim (Bool-cases (j == k)) [
  | inr miss ↦ record {
    database = h.database;
    row = rw (lookup-modify_lem j k f t.fleet.databases, h.row, miss) refl;
    reached = h.reached;
  }
  | inl hit ↦
      let it = subst (λ i. lookup i t.fleet.databases ≡ some row) (==→eq j k hit) there in
      record {
        database = f row;
        row = rw (lookup-modify_lem j k f t.fleet.databases, it, hit) refl;
        reached = moves x (
            subst (λ (d : Database). IsReached x d.status)
              (some-injective h.database row (sym h.row ∙ it)) h.reached);
      }
]

guarded-Row :
    (c : Caller) (a : RbacAction) (j : ℕ)
    → Does (λ _ row t. lookup j t.fleet.databases ≡ some row) (guarded_database c a j)
unfolding guarded_database
guarded-Row c a j =
    Does-bind (λ _ _ row u. lookup j u.fleet.databases ≡ some row) _ _
      (Does-any (authorize c.organization_id c.user_id a))
      (λ _.
        Does-bind (λ _ _ row u. lookup j u.fleet.databases ≡ some row) _ _
          (Does-any (get_project_or_404 c.organization_id c.project_id))
          (λ _. record {
            at = λ s.
                WhenReturned-mono _ (λ row u. lookup j u.fleet.databases ≡ some row)
                  (get_database_or_404 c.project_id j s) ((database-Own c.project_id j).at s)
                  (λ row u own.
                    subst (λ (v : Control). lookup j v.fleet.databases ≡ some row) (sym own.0)
                      own.1);
          })
          (λ s _ t row u _ it. it))
      (λ s _ t row u _ it. it)

pub not-false : (b : Bool) → not b ≡ false → b ≡ true
not-false true h = refl
not-false false h = cc

check_target-Reads :
    (d : Database) (node_id now : ℕ) (s : Control) → Keeps (λ t. t ≡ s) (check_target d node_id now)
unfolding get_primary_node
check_target-Reads d node_id now s = search keeps_rules depth 24

pub check_migration-Running :
    (d : Database) (node_id now : ℕ)
    → Does (λ s _ t. (t ≡ s) × (d.status ≡ running)) (check_migration d node_id now)
check_migration-Running d node_id now = record {
  at = λ s. tested s (is_running d.status) (is_running-eq d.status);
}
  where
    tested :
        (s : Control) (b : Bool)
        → (b ≡ true → d.status ≡ running)
        → WhenReturned
            (λ _ t. (t ≡ s) × (d.status ≡ running))
            ((raise_if (not b) conflict >> check_target d node_id now) s)
    tested s false is = tt
    tested s true is =
        WhenReturned-mono (λ _ t. t ≡ s) (λ _ t. (t ≡ s) × (d.status ≡ running))
          (check_target d node_id now s)
          ((Reads (check_target d node_id now) (check_target-Reads d node_id now)).at s)
          (λ _ t same. (same, is refl))

module _ {k : ℕ} {x : DatabaseStatus} where
  -- A write that leaves the status.
  pub set_database-Keeps :
      (j : ℕ) (f : Database → Database)
      → ((d : Database) → (f d).status ≡ d.status)
      → Keeps (HasReached k x) (writes {E = Error} (set_database j f))
  set_database-Keeps j f same = Keeps-writes _ (λ s h. elim (Bool-cases (j == k)) [
    | inr miss ↦ record {
      database = h.database;
      row = rw (lookup-modify_lem j k f s.fleet.databases, h.row, miss) refl;
      reached = h.reached;
    }
    | inl hit ↦ record {
      database = f h.database;
      row = rw (lookup-modify_lem j k f s.fleet.databases, h.row, hit) refl;
      reached = subst (IsReached x) (sym (same h.database)) h.reached;
    }
  ])

  requested-after :
      (c : Caller) (t : JobType) (status : DatabaseStatus) (a : AuditAction) (key : Option ℕ)
      (j now : ℕ) (row : Database) (s : Control)
      → lookup j s.fleet.databases ≡ some row
      → StatusStep row.status status
      → HasReached k x s
      → HasReached k x (requested c t status a key j now s).1
  requested-after c t status a key j now row s there step h =
      rest.after (set_status j status s) (
        set_database-after j (λ d. record d { status = status }) row s there (λ y r. next r step) h)
    where
      rest : Keeps (HasReached k x) (
          enqueue_job t (about_database (some c.organization_id) j) key now
          >> record_audit a (some j) (some c.organization_id) c.user_id)
      rest = search (request_rules, HasReached-framed) depth 8

  -- The guards, a test of the status, and the request.
  pub guarded_request-Keeps :
      (c : Caller) (b : RbacAction) (refuses : DatabaseStatus → Bool) (t : JobType)
      (status : DatabaseStatus) (a : AuditAction) (key : Option ℕ) (j now : ℕ)
      → ((y : DatabaseStatus) → refuses y ≡ false → StatusStep y status)
      → Keeps (HasReached k x) (
          guarded_database c b j >>= λ (row : Database).
          raise_if (refuses row.status) conflict >> requested c t status a key j now)
  guarded_request-Keeps c b refuses t status a key j now allowed =
      Keeps-bind_when (λ row s. lookup j s.fleet.databases ≡ some row) (guarded_database c b j)
        (λ row. raise_if (refuses row.status) conflict >> requested c t status a key j now)
        (guarded-Keeps HasReached-framed c b j) (λ s h. (guarded-Row c b j).at s)
        (λ row s there h. tested row s there h (refuses row.status) refl)
    where
      tested :
          (row : Database) (s : Control)
          → lookup j s.fleet.databases ≡ some row
          → HasReached k x s
          → (r : Bool) → refuses row.status ≡ r
          → HasReached k x ((raise_if r conflict >> requested c t status a key j now) s).1
      tested row s there h true e = h
      tested row s there h false e =
          requested-after c t status a key j now row s there (allowed row.status e) h
