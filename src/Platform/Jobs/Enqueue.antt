-- ===== src/Platform/Jobs/Enqueue.antt =====
-- The order of claims, keys that are used again, and the delay of a retry.
use eminidatabase.Base.{
  ℕ, suc, ◌+◌, ◌*◌, ◌-◌, ◌^◌, ◌≤◌, ◌≡◌, refl, inl, inr, true, min, some, [], ◌∷◌, sym, ap, subst,
  some-injective, ==_self, arith, Option-cases, ◌∙◌,
}
use native.Mathlib.Nat.{one-le-pow, two-pow-succ}
use eminidatabase.Base.Table.{
  Table, lookup, modify, rows, IsKeyed, lookup-modify, lookup-modify_ne, rows-add,
}
use eminidatabase.Base.Keys.{lookup-first_by}
use eminidatabase.Base.Action.{returned, raised, WhenReturned}
use eminidatabase.Platform.Jobs.{
  Job, JobType, Payload, Queue, new_job, added, bears, enqueue, multiple_results, is_due, started,
  candidate, claim_next_job, backoff,
}
use eminidatabase.Platform.Jobs.Order.{first_by_least}

-- The claim takes a job that waits and is due, such that no other that waits and is due was created
-- before it; it is started, which counts an attempt, and every other job is as it was.
pub claim_next_job_oldest :
    (now k : ℕ) (q t : Queue)
    → IsKeyed q.jobs
    → claim_next_job now q ≡ (some k, t)
    → (job : Job) × (lookup k q.jobs ≡ some job)
      × (is_due now job ≡ true)
      × ((i : ℕ) (other : Job)
          → lookup i q.jobs ≡ some other
          → is_due now other ≡ true
          → job.created_at ≤ other.created_at)
      × (lookup k t.jobs ≡ some (started now job))
      × ((i : ℕ) → (i ≡ k → ⊥) → lookup i t.jobs ≡ lookup i q.jobs)
unfolding claim_next_job
claim_next_job_oldest now k q t u h = elim (Option-cases (candidate now q)) [
  | inl nothing ↦ ground arith
  | inr ((j, job), first) ↦
      let (there, due) =
        lookup-first_by (is_due now) (λ job. job.created_at) j job q.jobs u first in
      let e : (some j, record q { jobs = modify j (started now) q.jobs }) ≡ (some k, t) =
        sym (rw (claim_next_job, first) refl) ∙ h in
      let same = some-injective _ _ (ap (λ x. x.0) e) in
      let after = ap (λ x. x.1) e in
      (
        job,
        ap (λ i. lookup i q.jobs) (sym same) ∙ there,
        due,
        (λ i other found waits.
            first_by_least (is_due now) (λ job. job.created_at) j i job other q.jobs first found
              waits),
        ap (λ u. lookup k u.jobs) (sym after)
            ∙ subst (λ i. lookup i (modify j (started now) q.jobs) ≡ some (started now job)) same
                (lookup-modify j j (started now) job q.jobs there ∙ rw (==_self j) refl),
        (λ i differs.
            ap (λ u. lookup i u.jobs) (sym after)
            ∙ lookup-modify_ne j i (started now) q.jobs (λ x. differs (sym x ∙ same))),
      )
]

doubled :
    (x : ℕ)
    → 1 ≤ x
    → (y : ℕ) → y ≡ x + x
    → (5 ≤ min (5 * x) 300)
      × (min (5 * x) 300 ≤ 300)
      × (min (5 * y) 300 ≡ min (2 * min (5 * x) 300) 300)
doubled x h y e = (omega arith, omega arith, omega arith)

pred_suc : (n : ℕ) → suc n - 1 ≡ n
pred_suc n = omega arith

-- An attempt is followed by a delay of five seconds at least and of five minutes at most, which
-- doubles with every attempt until then.
backoff_bounds :
    (n : ℕ)
    → (5 ≤ backoff (suc n))
      × (backoff (suc n) ≤ 300)
      × (backoff (suc (suc n)) ≡ min (2 * backoff (suc n)) 300)
unfolding backoff
backoff_bounds n =
    rw (pred_suc n, pred_suc (suc n))
      (doubled (2 ^ n) (one-le-pow n 2 (omega arith)) (2 ^ suc n) (two-pow-succ n))

enqueue_existing :
    (type_name : JobType) (payload : Payload) (key now : ℕ) (q : Queue) (x : ℕ × Job)
    → rows (bears key) q.jobs ≡ x ∷ []
    → enqueue type_name payload (some key) now q ≡ (returned x.0, q)
unfolding enqueue
enqueue_existing type_name payload key now q x h = ground arith

enqueue_new :
    (type_name : JobType) (payload : Payload) (key now : ℕ) (q : Queue)
    → rows (bears key) q.jobs ≡ []
    → enqueue type_name payload (some key) now q
      ≡ (returned q.next_id, added type_name payload (some key) now q)
unfolding enqueue
enqueue_new type_name payload key now q h = ground arith

enqueue_many :
    (type_name : JobType) (payload : Payload) (key now : ℕ) (q : Queue) (x y : ℕ × Job)
    (l : Table Job)
    → rows (bears key) q.jobs ≡ x ∷ y ∷ l
    → enqueue type_name payload (some key) now q ≡ (raised multiple_results, q)
unfolding enqueue
enqueue_many type_name payload key now q x y l h = ground arith

-- Sent twice with one key, a request for a job that returned is answered by the same job the second
-- time, and adds none, whatever it asks for.
pub enqueue_twice :
    (type_name type_name' : JobType) (payload payload' : Payload) (key now later : ℕ) (q : Queue)
    → WhenReturned
        (λ k t. enqueue type_name' payload' (some key) later t ≡ (returned k, t))
        (enqueue type_name payload (some key) now q)
enqueue_twice type_name type_name' payload payload' key now later q =
    by_rows (rows (bears key) q.jobs) refl
  where
    by_rows :
        (l : Table Job)
        → rows (bears key) q.jobs ≡ l
        → WhenReturned
            (λ k t. enqueue type_name' payload' (some key) later t ≡ (returned k, t))
            (enqueue type_name payload (some key) now q)
    by_rows [] e = rw (enqueue_new type_name payload key now q e) (
        enqueue_existing type_name' payload' key later (added type_name payload (some key) now q)
          (q.next_id, new_job type_name payload (some key) now)
          (rows-add (bears key) q.next_id (new_job type_name payload (some key) now) q.jobs
              (==_self key)
            ∙ rw e refl))
    by_rows (x ∷ []) e =
        rw (enqueue_existing type_name payload key now q x e)
          (enqueue_existing type_name' payload' key later q x e)
    by_rows (x ∷ y ∷ l) e = rw (enqueue_many type_name payload key now q x y l e) tt
