-- ===== src/Platform/Control/Own.antt =====
-- What an endpoint's guards say of the database that they let through.
use eminidatabase.Base.{
  ℕ, ◌≡◌, refl, sym, subst, ◌∙◌, not, Option, none, some, ◌==◌, Bool-cases, ==→eq, inl, inr,
}
use eminidatabase.Base.Table.{lookup}
use eminidatabase.Base.Action.{
  Outcome, returned, raised, WhenReturned, ◌>>=◌, ◌>>◌, pure, raise_if, found,
}
use eminidatabase.Base.Preserves.{Keeps}
use eminidatabase.Base.Keeps.{keeps_rules, Keeps-pure, Keeps-raise, Does, Does-bind}
use eminidatabase.Platform.Placement.{Database}
use eminidatabase.Platform.Rbac.{RbacAction}
use eminidatabase.Platform.Control.{
  Control, Project, Tx, Error, not_found, from_outcome, get_membership, require_active_subscription,
  authorize, get_project_or_404, get_database_or_404,
}
use eminidatabase.Platform.Control.Databases.{
  Caller, guarded_database, authorize_member, authorize_active,
}

-- The project is the caller's organization's, and the database is one of the project's.
pub record IsOwn (c : Caller) (j : ℕ) (s : Control) : Type 0 where
  pub project : Project
  pub its_project : lookup c.project_id s.projects ≡ some project
  pub is_own : project.organization_id ≡ c.organization_id
  pub database : Database
  pub row : lookup j s.fleet.databases ≡ some database
  pub its_database : database.project_id ≡ c.project_id

-- The project that was checked is the organization's.
project-Own :
    (o p : ℕ)
    → Does
        (λ s row t. (t ≡ s) × (lookup p s.projects ≡ some row) × (row.organization_id ≡ o))
        (get_project_or_404 o p)
unfolding get_project_or_404
project-Own o p = record { at = λ s. checked s (lookup p s.projects) refl }
  where
    checked :
        (s : Control) (r : Option Project)
        → lookup p s.projects ≡ r
        → WhenReturned
            (λ row t. (t ≡ s) × (lookup p s.projects ≡ some row) × (row.organization_id ≡ o))
            ((found not_found r >>= λ (row : Project).
                raise_if (not (row.organization_id == o)) not_found >> pure row)
              s)
    checked s none e = tt
    checked s (some row) e = elim (Bool-cases (row.organization_id == o)) [
      | inl hit ↦ rw hit (refl, e, ==→eq row.organization_id o hit)
      | inr miss ↦ rw miss tt
    ]

-- The database that was checked is one of the project's.
pub database-Own :
    (p j : ℕ)
    → Does
        (λ s row t. (t ≡ s) × (lookup j s.fleet.databases ≡ some row) × (row.project_id ≡ p))
        (get_database_or_404 p j)
unfolding get_database_or_404
database-Own p j = record { at = λ s. checked s (lookup j s.fleet.databases) refl }
  where
    checked :
        (s : Control) (r : Option Database)
        → lookup j s.fleet.databases ≡ r
        → WhenReturned
            (λ row t. (t ≡ s) × (lookup j s.fleet.databases ≡ some row) × (row.project_id ≡ p))
            ((found not_found r >>= λ (row : Database).
                raise_if (not (row.project_id == p)) not_found >> pure row)
              s)
    checked s none e = tt
    checked s (some row) e = elim (Bool-cases (row.project_id == p)) [
      | inl hit ↦ rw hit (refl, e, ==→eq row.project_id p hit)
      | inr miss ↦ rw miss tt
    ]

-- What reads the session and no more.
pub Reads :
    {A : Type 0} (m : Tx A) → ((s : Control) → Keeps (λ t. t ≡ s) m) → Does (λ s _ t. t ≡ s) m
Reads {A} m km = record { at = λ s. unchanged s (m s) ((km s).after s refl) }
  where
    unchanged :
        (s : Control) (r : Outcome Error A × Control) → r.1 ≡ s → WhenReturned (λ _ t. t ≡ s) r
    unchanged s (returned a, t) h = h
    unchanged s (raised e, t) h = tt

outcome-Reads :
    (s : Control) {E A : Type 0} (f : E → Error) (r : Outcome E A)
    → Keeps (λ t. t ≡ s) (from_outcome f r)
outcome-Reads s f (returned a) = Keeps-pure a
outcome-Reads s f (raised e) = Keeps-raise (f e)

authorize-Reads : (o user_id : ℕ) (a : RbacAction) → Does (λ s _ t. t ≡ s) (authorize o user_id a)
unfolding authorize get_membership
authorize-Reads o user_id a = Reads _ (λ s. search (keeps_rules, outcome-Reads) depth 14)

-- The caller's project is the caller's organization's.
abbrev pub HasProject : Caller → Control → Type 0
HasProject c s =
    (project : Project) × (lookup c.project_id s.projects ≡ some project)
    × (project.organization_id ≡ c.organization_id)

pub IsOwn-database :
    (c : Caller) (j : ℕ) (s t : Control) (row : Database)
    → HasProject c s
    → (t ≡ s) × (lookup j s.fleet.databases ≡ some row) × (row.project_id ≡ c.project_id)
    → IsOwn c j t
IsOwn-database c j s t row has here = subst (IsOwn c j) (sym here.0) (record {
  project = has.0;
  its_project = has.1;
  is_own = has.2;
  database = row;
  row = here.1;
  its_database = here.2;
})

pub guarded-Own :
    (c : Caller) (a : RbacAction) (j : ℕ) → Does (λ s _ t. IsOwn c j t) (guarded_database c a j)
unfolding guarded_database
guarded-Own c a j =
    Does-bind (λ _ _ _ u. IsOwn c j u) _ _ (authorize-Reads c.organization_id c.user_id a)
      (λ _.
        Does-bind
          (λ project s row u.
            (u ≡ s) × (lookup j s.fleet.databases ≡ some row) × (row.project_id ≡ c.project_id))
          _ _ (project-Own c.organization_id c.project_id) (λ project. database-Own c.project_id j)
          (λ s project t row u has here.
            IsOwn-database c j t u row
              (
                project,
                subst (λ (x : Control). lookup c.project_id x.projects ≡ some project) (sym has.0)
                    has.1,
                has.2,
              )
              here))
      (λ s _ t row u same own. own)

-- A membership with the permission, a subscription in good standing, and then the project.
pub active-Own :
    (c : Caller) (a : RbacAction) → Does (λ s _ t. (t ≡ s) × HasProject c s) (authorize_active c a)
unfolding authorize_active get_membership require_active_subscription
active-Own c a =
    Does-bind (λ _ s _ u. (u ≡ s) × HasProject c s) (authorize_member c a)
      (λ _. get_project_or_404 c.organization_id c.project_id >> pure tt)
      (Reads _ (λ s. search (keeps_rules, outcome-Reads) depth 20))
      (λ _.
        Does-bind (λ _ s _ u. u ≡ s) (get_project_or_404 c.organization_id c.project_id)
          (λ _. pure tt) (project-Own c.organization_id c.project_id)
          (λ _. record { at = λ s. refl })
          (λ s project t _ u has same. (same ∙ has.0, (project, has.1, has.2))))
      (λ s _ t _ u same has. (has.0 ∙ same, subst (HasProject c) same has.1))
