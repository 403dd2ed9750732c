-- ===== src/Platform/Jobs/Worker.antt =====
-- The worker (backend/app/worker.py): one job at a time, and a job that has failed for good goes to
-- its terminal handler. The handlers of the job types, `ALL_HANDLERS` and
-- `_TERMINAL_FAILURE_HANDLERS`, are parameters, for what they do to the queue.
use eminidatabase.Base.{ℕ, Bool, true, false, Option, none, some, List, [], ◌∷◌}
use eminidatabase.Base.Table.{lookup, modify}
use eminidatabase.Base.Action.{Outcome, returned, raised}
use eminidatabase.Platform.Jobs.{
  Job, JobType, failed, Queue, Error, no_handler, Tx, claim_next_job, mark_succeeded,
  mark_failed_or_retry,
}

abbrev pub Handler : Type 0
Handler = ℕ → Job → Tx ℕ

-- The two tables, by the type of a job.
pub record Handlers : Type 0 where
  pub handler : JobType → Option Handler
  pub terminal : JobType → Option (ℕ → Job → Queue → Queue)

abbrev pub handled : Handlers → ℕ → Job → Tx ℕ
handled hs k job q = elim (hs.handler job.type_name) [
  | none ↦ (raised no_handler, q)
  | some h ↦ h k job q
]

-- `if job.status == JobStatus.FAILED: …`
abbrev pub gave_up : Handlers → ℕ → Option Job → Queue → Queue
gave_up hs k none q = q
gave_up hs k (some job) q = elim job.status [
  | failed ↦ elim (hs.terminal job.type_name) [ none ↦ q | some h ↦ h k job q ]
  | _ ↦ q
]

abbrev pub mark : ℕ → (Job → Job) → Queue → Queue
mark k f q = record q { jobs = modify k f q.jobs }

abbrev pub finished : Handlers → ℕ → ℕ → Outcome Error ℕ × Queue → Queue
finished hs now k (returned result, q) = mark k (mark_succeeded now result) q
finished hs now k (raised e, q) =
    let q' = mark k (mark_failed_or_retry now e) q in gave_up hs k (lookup k q'.jobs) q'

-- The job under `k`, in a session of its own.
abbrev pub work : Handlers → ℕ → ℕ → Queue → Queue
work hs now k q = elim (lookup k q.jobs) [
  | none ↦ q
  | some job ↦ finished hs now k (handled hs k job q)
]

abbrev pub dispatched : Handlers → ℕ → Option ℕ × Queue → Bool × Queue
dispatched hs now (none, q) = (false, q)
dispatched hs now (some k, q) = (true, work hs now k q)

-- Whether there was a job.
unfoldable pub run_once : Handlers → ℕ → Queue → Bool × Queue
run_once hs now q = dispatched hs now (claim_next_job now q)

-- The loop of `main`, over the times at which it polls.
unfoldable pub poll : Handlers → List ℕ → Queue → Queue
poll hs [] q = q
poll hs (now ∷ later) q = poll hs later (run_once hs now q).1
