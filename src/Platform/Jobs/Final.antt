-- ===== src/Platform/Jobs/Final.antt =====
-- A job that has succeeded, or has failed for good, is left alone by the worker.
use eminidatabase.Base.{
  ℕ, ◌≡◌, ◌≢◌, refl, inl, inr, true, false, Option, none, some, List, [], ◌∷◌, arith, leb, &&-true,
  Option-cases, ◌∙◌, sym, ap, subst, some-injective,
}
use eminidatabase.Base.Table.{lookup, lookup-modify_ne, IsKeyed}
use eminidatabase.Base.Action.{Outcome, returned, raised}
use eminidatabase.Platform.Jobs.{
  Job, Queue, Error, is_waiting, is_due, candidate, claim_next_job, mark_succeeded,
  mark_failed_or_retry,
}
use eminidatabase.Platform.Jobs.Enqueue.{claim_next_job_oldest}
use eminidatabase.Platform.Jobs.Worker.{
  Handlers, handled, gave_up, finished, work, dispatched, run_once, poll,
}
use eminidatabase.Platform.Jobs.Valid.{IsValid, Behaves, run_once-IsValid}

-- The handlers leave the job `k` alone, as long as it does not wait.
pub record Spares (hs : Handlers) (k : ℕ) (job : Job) : Type 0 where
  pub handled_spares :
      (i : ℕ) (other : Job) (q : Queue)
      → lookup k q.jobs ≡ some job
      → lookup k (handled hs i other q).1.jobs ≡ some job
  pub gave_up_spares :
      (i : ℕ) (o : Option Job) (q : Queue)
      → lookup k q.jobs ≡ some job
      → lookup k (gave_up hs i o q).jobs ≡ some job

is_due-waiting : (now : ℕ) (job : Job) → is_due now job ≡ true → is_waiting job.status ≡ true
is_due-waiting now job due = (&&-true (is_waiting job.status) (leb job.next_run_at now) due).0

-- The claim takes another job.
claim_spares :
    (now k i : ℕ) (job : Job) (q t : Queue)
    → IsKeyed q.jobs
    → is_waiting job.status ≡ false
    → lookup k q.jobs ≡ some job
    → claim_next_job now q ≡ (some i, t)
    → (i ≢ k) × (lookup k t.jobs ≡ some job)
claim_spares now k i job q t u over there h =
    let (other, found, due, oldest, begun, rest) = claim_next_job_oldest now i q t u h in
    let differs : i ≢ k = λ same.
      let one = some-injective _ _ (sym found ∙ ap (λ j. lookup j q.jobs) same ∙ there) in
      let waits = subst (λ x. is_waiting x.status ≡ true) one (is_due-waiting now other due) in
      cc in
    (differs, rest k (λ same. differs (sym same)) ∙ there)

claim_none : (now : ℕ) (q t : Queue) → claim_next_job now q ≡ (none, t) → t.jobs ≡ q.jobs
unfolding claim_next_job
claim_none now q t h = elim (Option-cases (candidate now q)) [
  | inl nothing ↦ ground arith
  | inr (found, first) ↦ ground arith
]

module _ (hs : Handlers) (k : ℕ) (job : Job) (spares : Spares hs k job) where
  finished_spares :
      (now i : ℕ) (o : Outcome Error ℕ × Queue)
      → i ≢ k
      → lookup k o.1.jobs ≡ some job
      → lookup k (finished hs now i o).jobs ≡ some job
  finished_spares now i (returned result, q) differs there =
      lookup-modify_ne i k (mark_succeeded now result) q.jobs differs ∙ there
  finished_spares now i (raised e, q) differs there =
      spares.gave_up_spares i _ _
        (lookup-modify_ne i k (mark_failed_or_retry now e) q.jobs differs ∙ there)

  work_spares :
      (now i : ℕ) (q : Queue)
      → i ≢ k
      → lookup k q.jobs ≡ some job
      → lookup k (work hs now i q).jobs ≡ some job
  work_spares now i q differs there = elim (Option-cases (lookup i q.jobs)) [
    | inl missing ↦ rw (work, missing) there
    | inr (other, found) ↦
        rw (work, found)
          (finished_spares now i (handled hs i other q) differs
            (spares.handled_spares i other q there))
  ]

  run_once_spares :
      (now : ℕ) (q : Queue)
      → IsKeyed q.jobs
      → is_waiting job.status ≡ false
      → lookup k q.jobs ≡ some job
      → lookup k (run_once hs now q).1.jobs ≡ some job
  unfolding run_once
  run_once_spares now q u over there = by_claim (claim_next_job now q) refl
    where
      by_claim :
          (r : Option ℕ × Queue)
          → claim_next_job now q ≡ r
          → lookup k (dispatched hs now r).1.jobs ≡ some job
      by_claim (none, t) e = ap (λ jobs. lookup k jobs) (claim_none now q t e) ∙ there
      by_claim (some i, t) e =
          let (differs, still) = claim_spares now k i job q t u over there e in
          work_spares now i t differs still

  -- However often the worker polls, a job that does not wait, as one that has succeeded or has failed
  -- for good, stays exactly as it is, if the handlers leave it alone and the queue is valid: it is
  -- never claimed, attempted or marked again.
  pub poll_spares :
      (times : List ℕ) (q : Queue)
      → Behaves hs
      → IsValid q
      → is_waiting job.status ≡ false
      → lookup k q.jobs ≡ some job
      → lookup k (poll hs times q).jobs ≡ some job
  unfolding poll
  poll_spares [] q b v over there = there
  poll_spares (now ∷ later) q b v over there =
      poll_spares later (run_once hs now q).1 b (run_once-IsValid hs now q b v) over
        (run_once_spares now q v.keyed over there)
