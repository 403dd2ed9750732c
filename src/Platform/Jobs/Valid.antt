-- ===== src/Platform/Jobs/Valid.antt =====
-- A job is attempted `max_attempts` times at most, and what is finished stays as it is.
use eminidatabase.Base.{
  ℕ, ◌≤◌, ◌<◌, ◌≡◌, refl, inl, inr, true, Option, none, some, List, [], ◌∷◌, arith, subst, sym, ap,
  ◌∙◌, some-injective, ==→eq, Option-cases, Bool-cases, ◌==◌,
}
use eminidatabase.Base.Table.{lookup, IsKeyed}
use eminidatabase.Base.Keys.{
  IsKeyed-modify, IsKeyed-add, KeysBelow, KeysBelow-modify, KeysBelow-add, lookup-none,
  lookup-modify_lem, lookup-add, lookup-first_by,
}
use eminidatabase.Base.Action.{Outcome, returned, raised}
use eminidatabase.Platform.Jobs.{
  Job, JobType, Payload, JobStatus, queued, running, succeeded, failed, retrying, Queue, Error,
  new_job, added, is_due, started, candidate, claim_next_job, mark_succeeded, mark_failed_or_retry,
}
use eminidatabase.Platform.Jobs.Worker.{
  Handlers, handled, gave_up, mark, finished, work, dispatched, run_once, poll,
}

-- The attempts of a job against its status.
abbrev pub IsCounted : Job → Type 0
IsCounted job = elim job.status [
  | queued ↦ job.attempts < job.max_attempts
  | running ↦ job.attempts ≤ job.max_attempts
  | succeeded ↦ job.attempts ≤ job.max_attempts
  | failed ↦ job.attempts ≡ job.max_attempts
  | retrying ↦ job.attempts < job.max_attempts
]

pub record IsValid (q : Queue) : Type 0 where
  pub keyed : IsKeyed q.jobs
  pub drawn : KeysBelow q.next_id q.jobs
  pub counted : (k : ℕ) (job : Job) → lookup k q.jobs ≡ some job → IsCounted job

mark-IsValid :
    (k : ℕ) (f : Job → Job) (q : Queue)
    → ((job : Job) → lookup k q.jobs ≡ some job → IsCounted job → IsCounted (f job))
    → IsValid q
    → IsValid (mark k f q)
mark-IsValid k f q keeps v = record {
  keyed = IsKeyed-modify k f q.jobs v.keyed;
  drawn = KeysBelow-modify q.next_id k f q.jobs v.drawn;
  counted = λ j job found. elim (Option-cases (lookup j q.jobs)) [
    | inl missing ↦ ground (arith, lookup-modify_lem k j f q.jobs)
    | inr (old, there) ↦
        let old_counted = v.counted j old there in
        elim (Bool-cases (k == j)) [
          | inl same ↦
              subst IsCounted {x = f old}
                (some-injective _ _
                  (sym (lookup-modify_lem k j f q.jobs ∙ rw (there, same) refl) ∙ found))
                (keeps old (ap (λ i. lookup i q.jobs) (==→eq k j same) ∙ there) old_counted)
          | inr other ↦
              subst IsCounted {x = old}
                (some-injective _ _
                  (sym (lookup-modify_lem k j f q.jobs ∙ rw (there, other) refl) ∙ found))
                old_counted
        ]
  ];
}

-- A job that is added has a key of its own, and no attempt yet.
pub added-IsValid :
    (type_name : JobType) (payload : Payload) (key : Option ℕ) (now : ℕ) (q : Queue)
    → IsValid q
    → IsValid (added type_name payload key now q)
added-IsValid type_name payload key now q v =
    let job = new_job type_name payload key now in
    record {
      keyed = IsKeyed-add q.next_id job q.jobs (lookup-none q.next_id q.jobs v.drawn) v.keyed;
      drawn = KeysBelow-add q.next_id job q.jobs v.drawn;
      counted = λ k old found. elim (Option-cases (lookup k q.jobs)) [
        | inl missing ↦ ground (arith, lookup-add q.next_id k job q.jobs)
        | inr (other, there) ↦ ground (arith, lookup-add q.next_id k job q.jobs, v.counted k other)
      ];
    }

is_due-counted :
    (now : ℕ) (job : Job) (x : JobStatus)
    → job.status ≡ x
    → is_due now job ≡ true
    → IsCounted job
    → job.attempts < job.max_attempts
is_due-counted now job queued e due c = ground arith
is_due-counted now job running e due c = ground arith
is_due-counted now job succeeded e due c = ground arith
is_due-counted now job failed e due c = ground arith
is_due-counted now job retrying e due c = ground arith

IsCounted-le : (job : Job) → IsCounted job → job.attempts ≤ job.max_attempts
IsCounted-le job c = ground arith

mark_failed-IsCounted :
    (now : ℕ) (e : Error) (job : Job) → IsCounted job → IsCounted (mark_failed_or_retry now e job)
mark_failed-IsCounted now e job c = ground (arith, IsCounted-le job c)

pub claim_next_job-IsValid : (now : ℕ) (q : Queue) → IsValid q → IsValid (claim_next_job now q).1
unfolding claim_next_job
claim_next_job-IsValid now q v = elim (Option-cases (candidate now q)) [
  | inl nothing ↦ rw (claim_next_job, nothing) v
  | inr ((k, job), first) ↦
      let (there, due) =
        lookup-first_by (is_due now) (λ job. job.created_at) k job q.jobs v.keyed first in
      rw (claim_next_job, first)
        (mark-IsValid k (started now) q
          (λ old found c.
            is_due-counted now old old.status refl
              (subst (λ x. is_due now x ≡ true) (some-injective _ _ (sym there ∙ found)) due) c)
          v)
]

-- The handlers keep the queue valid, as adding jobs does.
pub record Behaves (hs : Handlers) : Type 0 where
  pub handled_valid : (k : ℕ) (job : Job) (q : Queue) → IsValid q → IsValid (handled hs k job q).1
  pub gave_up_valid : (k : ℕ) (o : Option Job) (q : Queue) → IsValid q → IsValid (gave_up hs k o q)

finished-IsValid :
    (hs : Handlers) (now k : ℕ) (o : Outcome Error ℕ × Queue)
    → Behaves hs
    → IsValid o.1
    → IsValid (finished hs now k o)
finished-IsValid hs now k (returned result, q) b v =
    mark-IsValid k (mark_succeeded now result) q (λ job _ c. IsCounted-le job c) v
finished-IsValid hs now k (raised e, q) b v =
    b.gave_up_valid k _ _ (
      mark-IsValid k (mark_failed_or_retry now e) q (λ job _ c. mark_failed-IsCounted now e job c)
        v)

work-IsValid :
    (hs : Handlers) (now k : ℕ) (q : Queue) → Behaves hs → IsValid q → IsValid (work hs now k q)
work-IsValid hs now k q b v = elim (Option-cases (lookup k q.jobs)) [
  | inl missing ↦ rw (work, missing) v
  | inr (job, there) ↦
      rw (work, there)
        (finished-IsValid hs now k (handled hs k job q) b (b.handled_valid k job q v))
]

pub run_once-IsValid :
    (hs : Handlers) (now : ℕ) (q : Queue) → Behaves hs → IsValid q → IsValid (run_once hs now q).1
unfolding run_once
run_once-IsValid hs now q b v = by_claim (claim_next_job now q) (claim_next_job-IsValid now q v)
  where
    by_claim : (r : Option ℕ × Queue) → IsValid r.1 → IsValid (dispatched hs now r).1
    by_claim (none, q') v' = v'
    by_claim (some k, q') v' = work-IsValid hs now k q' b v'

-- However often the worker polls, and whatever its handlers answer, no job is attempted more often
-- than its `max_attempts`, a job that has failed for good has had all of them, and one that waits
-- for a retry has some left; the handlers keep this, as they do when they only enqueue jobs.
pub poll-IsValid :
    (hs : Handlers) (times : List ℕ) (q : Queue)
    → Behaves hs
    → IsValid q
    → IsValid (poll hs times q)
unfolding poll
poll-IsValid hs [] q b v = v
poll-IsValid hs (now ∷ later) q b v =
    poll-IsValid hs later (run_once hs now q).1 b (run_once-IsValid hs now q b v)
