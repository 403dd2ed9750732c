-- ===== src/Platform/Quotas.antt =====
-- The quotas of an organization's plan (backend/app/services/quotas.py), and databases created one
-- after another under the organization's lock (the create endpoint of
-- backend/app/api/v1/endpoints/databases.py). A database's project is replaced by its organization.
use eminidatabase.Base.{
  ℕ, ◌+◌, ◌≡◌, refl, ap, sym, subst, ==→eq, ◌∙◌, inl, inr, Bool, true, false, not, Option, none,
  some, List, [], ◌∷◌, arith, ◌==◌, ◌&&◌, ltb, length, select, if◌then◌else◌, Bool-cases,
}
use eminidatabase.Base.Table.{Table, lookup, rows}
use eminidatabase.Base.Action.{Outcome, returned, raised}
use eminidatabase.Platform.Payments.{SubscriptionStatus}
use eminidatabase.Platform.Placement.{DatabaseStatus, creating, deleting, deleted}

pub record Plan : Type 0 where
  pub max_databases : Option ℕ
  pub max_storage_gb : Option ℕ
  pub max_cpu_total : Option ℕ

pub record Subscription : Type 0 where
  pub organization_id : ℕ
  pub plan_id : ℕ
  pub status : SubscriptionStatus

pub record Database : Type 0 where
  pub organization_id : ℕ
  pub status : DatabaseStatus
  pub cpu_limit : ℕ
  pub storage_limit_gb : ℕ

pub record Store : Type 0 where
  pub plans : Table Plan
  pub subscriptions : Table Subscription
  pub databases : List Database

pub data QuotaError : Type 0 where
  no_subscription multiple_subscriptions missing_plan : QuotaError
  too_many_databases too_much_storage too_much_cpu : QuotaError

abbrev pub plan_of : Table Plan → Table Subscription → Outcome QuotaError Plan
plan_of plans [] = raised no_subscription
plan_of plans ((_, subscription) ∷ []) = elim (lookup subscription.plan_id plans) [
  | none ↦ raised missing_plan
  | some plan ↦ returned plan
]
plan_of plans (_ ∷ _ ∷ _) = raised multiple_subscriptions

unfoldable pub get_active_plan : Store → ℕ → Outcome QuotaError Plan
get_active_plan s organization_id =
    plan_of s.plans (rows (λ x. x.organization_id == organization_id) s.subscriptions)

-- `_TERMINAL_STATUSES`
abbrev pub is_terminal : DatabaseStatus → Bool
is_terminal deleting = true
is_terminal deleted = true
is_terminal _ = false

-- The organization's databases that count.
abbrev pub counted : ℕ → List Database → List Database
counted organization_id databases =
    select (λ d. d.organization_id == organization_id && not (is_terminal d.status)) databases

abbrev pub sum : (Database → ℕ) → List Database → ℕ
sum f [] = 0
sum f (d ∷ ds) = f d + sum f ds

-- `limit is not None and used > limit`
abbrev pub exceeds : Option ℕ → ℕ → Bool
exceeds none used = false
exceeds (some limit) used = ltb limit used

abbrev pub within_plan : Plan → List Database → (storage cpu : ℕ) → Outcome QuotaError (Unit {0})
within_plan plan databases storage cpu =
    if exceeds plan.max_databases (length databases + 1)
    then raised too_many_databases
    else (if exceeds plan.max_storage_gb (sum (λ d. d.storage_limit_gb) databases + storage)
        then raised too_much_storage
        else (if exceeds plan.max_cpu_total (sum (λ d. d.cpu_limit) databases + cpu)
            then raised too_much_cpu
            else returned tt))

pub check_database_quota : Store → ℕ → (storage cpu : ℕ) → Outcome QuotaError (Unit {0})
unfolding get_active_plan
check_database_quota s organization_id storage cpu = elim (get_active_plan s organization_id) [
  | raised e ↦ raised e
  | returned plan ↦ within_plan plan (counted organization_id s.databases) storage cpu
]

abbrev pub new_database : ℕ → (storage cpu : ℕ) → Database
new_database organization_id storage cpu = record {
  organization_id = organization_id;
  status = creating;
  cpu_limit = cpu;
  storage_limit_gb = storage;
}

abbrev pub if_passed : ℕ → (storage cpu : ℕ) → Store → Outcome QuotaError (Unit {0}) → Store
if_passed organization_id storage cpu s (raised _) = s
if_passed organization_id storage cpu s (returned _) = record s {
  databases = new_database organization_id storage cpu ∷ s.databases;
}

-- The check, and the creation that follows it under the lock.
pub create_database : ℕ → (storage cpu : ℕ) → Store → Store
unfolding check_database_quota
create_database organization_id storage cpu s =
    if_passed organization_id storage cpu s (check_database_quota s organization_id storage cpu)

pub record Request : Type 0 where
  pub organization_id : ℕ
  pub storage : ℕ
  pub cpu : ℕ

-- Requests of any organizations, each under its lock.
pub create_all : List Request → Store → Store
unfolding create_database
create_all [] s = s
create_all (r ∷ rs) s = create_all rs (create_database r.organization_id r.storage r.cpu s)

abbrev IsWithin : Plan → List Database → Type 0
IsWithin plan databases =
    (exceeds plan.max_databases (length databases) ≡ false)
    × (exceeds plan.max_storage_gb (sum (λ d. d.storage_limit_gb) databases) ≡ false)
    × (exceeds plan.max_cpu_total (sum (λ d. d.cpu_limit) databases) ≡ false)

-- The organization's databases are within the quotas of its plan.
pub record Respects (organization_id : ℕ) (plan : Plan) (s : Store) : Type 0 where
  pub active_plan : get_active_plan s organization_id ≡ returned plan
  pub within : IsWithin plan (counted organization_id s.databases)

within_plan-IsWithin :
    (plan : Plan) (databases : List Database) (d : Database)
    → within_plan plan databases d.storage_limit_gb d.cpu_limit ≡ returned tt
    → IsWithin plan (d ∷ databases)
within_plan-IsWithin plan databases d h =
    elim (Bool-cases (exceeds plan.max_databases (length databases + 1))) [
      | inl many ↦ let e : raised too_many_databases ≡ returned tt = rw many at h in cc
      | inr few ↦
          elim (Bool-cases (
            exceeds plan.max_storage_gb
              (sum (λ d. d.storage_limit_gb) databases + d.storage_limit_gb))) [
                | inl much ↦
                    let e : raised too_much_storage ≡ returned tt = rw (few, much) at h in cc
                | inr little ↦
                    elim (Bool-cases (
                      exceeds plan.max_cpu_total
                        (sum (λ d. d.cpu_limit) databases + d.cpu_limit))) [
                          | inl most ↦
                              let e : raised too_much_cpu ≡ returned tt =
                                rw (few, little, most) at h in
                              cc
                          | inr less ↦ (
                            ap (exceeds plan.max_databases) (omega arith) ∙ few,
                            ap (exceeds plan.max_storage_gb) (omega arith) ∙ little,
                            ap (exceeds plan.max_cpu_total) (omega arith) ∙ less,
                          )
                        ]
              ]
    ]

counted_new :
    (organization_id other storage cpu : ℕ) (databases : List Database)
    → counted organization_id (new_database other storage cpu ∷ databases) ≡ (
        if other == organization_id
        then new_database other storage cpu ∷ counted organization_id databases
        else counted organization_id databases)
counted_new organization_id other storage cpu databases = ground arith

-- A creation that the check lets through.
created-Respects :
    (organization_id other storage cpu : ℕ) (plan : Plan) (s : Store)
    → check_database_quota s other storage cpu ≡ returned tt
    → Respects organization_id plan s
    → Respects organization_id plan
        (record s { databases = new_database other storage cpu ∷ s.databases })
unfolding check_database_quota get_active_plan
created-Respects organization_id other storage cpu plan s h r =
    elim (Bool-cases (other == organization_id)) [
      | inr differs ↦ record {
        active_plan = r.active_plan;
        within =
            subst (IsWithin plan) {x = counted organization_id s.databases}
              (sym (counted_new organization_id other storage cpu s.databases ∙ rw differs refl))
              r.within;
      }
      | inl same ↦
          let known : get_active_plan s other ≡ returned plan =
            ap (get_active_plan s) (==→eq other organization_id same) ∙ r.active_plan in
          let passed : within_plan plan (counted other s.databases) storage cpu ≡ returned tt =
            rw (check_database_quota, known) at h in
          record {
            active_plan = r.active_plan;
            within =
                subst (IsWithin plan)
                  {x = new_database other storage cpu ∷ counted organization_id s.databases}
                  (sym (counted_new organization_id other storage cpu s.databases ∙ rw same refl))
                  (within_plan-IsWithin plan (counted organization_id s.databases)
                    (new_database other storage cpu)
                    (subst (λ k. within_plan plan (counted k s.databases) storage cpu ≡ returned tt)
                      (==→eq other organization_id same) passed));
          }
    ]

create_database-Respects :
    (organization_id other storage cpu : ℕ) (plan : Plan) (s : Store)
    → Respects organization_id plan s
    → Respects organization_id plan (create_database other storage cpu s)
unfolding create_database
create_database-Respects organization_id other storage cpu plan s r =
    by_check (check_database_quota s other storage cpu) refl
  where
    by_check :
        (o : Outcome QuotaError (Unit {0}))
        → check_database_quota s other storage cpu ≡ o
        → Respects organization_id plan (if_passed other storage cpu s o)
    by_check (raised e) h = r
    by_check (returned tt) h = created-Respects organization_id other storage cpu plan s h r

-- From databases within their plan's quotas, no list of creation requests, of this or of other
-- organizations, each served under its organization's lock, takes an organization over a quota of its
-- plan: not the number of databases, nor their storage, nor their CPUs.
pub create_all-Respects :
    (organization_id : ℕ) (plan : Plan) (requests : List Request) (s : Store)
    → Respects organization_id plan s
    → Respects organization_id plan (create_all requests s)
unfolding create_all
create_all-Respects organization_id plan [] s r = r
create_all-Respects organization_id plan (q ∷ requests) s r =
    create_all-Respects organization_id plan requests
      (create_database q.organization_id q.storage q.cpu s)
      (create_database-Respects organization_id q.organization_id q.storage q.cpu plan s r)
