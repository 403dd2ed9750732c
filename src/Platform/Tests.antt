-- ===== src/Platform/Tests.antt =====
-- Runs of the control plane on small data, and the properties on them.
use eminidatabase.Base.{
  ℕ, ◌≤◌, ◌≡◌, ◌≢◌, refl, true, Option, none, some, List, [], ◌∷◌, arith, sym, subst, ◌⊎◌,
}
use eminidatabase.Base.Int.{pos}
use eminidatabase.Base.Table.{lookup}
use eminidatabase.Base.Keys.{lookup-add}
use eminidatabase.Platform.Payments
use eminidatabase.Base.Action.{returned, WhenReturned}
use eminidatabase.Base.Preserves.{Preserves}
use eminidatabase.Platform.Jobs.{
  Job, JobType, create_database, delete_database, suspend_database, deliver_webhook, Payload,
  succeeded, Queue, new_job, added, enqueue, claim_next_job, is_due, started,
}
use eminidatabase.Platform.Jobs.Worker.{Handlers, gave_up, poll}
use eminidatabase.Platform.Jobs.Valid.{IsValid, Behaves, added-IsValid, poll-IsValid}
use eminidatabase.Platform.Jobs.Enqueue.{claim_next_job_oldest, enqueue_twice}
use eminidatabase.Platform.Jobs.Final.{Spares, poll_spares}
use eminidatabase.Platform.Placement.{
  Node, NodeStatus, ClusterStatus, ClusterTopology, ClusterMemberRole, DatabaseStatus, Fleet,
  Resources, IsolationLevel, select_node_and_cluster, allocated_resources,
}
use eminidatabase.Platform.Placement.Best.{IsBest, select_node_and_cluster-IsBest}
use eminidatabase.Platform.Quotas.{
  Plan, Store, Request, Respects, get_active_plan, create_all, create_all-Respects,
}
use eminidatabase.Platform.RateLimit.Window.{Trace, IsLimited, requests, requests-IsLimited}
use eminidatabase.Platform.Rbac.{
  admin, owner, admin_owner, database_connect, permitted, has_permission, require_permission,
  require_permission-Below,
}
use eminidatabase.Platform.Payments.{
  Invoice, finalized, paid, past_due, active, Subscription, mark_invoice_paid, finished, approved,
  handle_nowpayments_webhook, handle_fedapay_webhook,
}
use eminidatabase.Platform.Payments.Reactivated.{OwesOther, mark_invoice_paid-subscriptions}
use eminidatabase.Platform.Payments.Settled.{
  HasInvoice, handle_nowpayments_webhook-HasInvoice, handle_fedapay_webhook-HasInvoice,
}

abbrev about : ℕ → Payload
about k = record { subject = k; object = none; organization_id = none; resource_id = some k }

-- Two jobs wait, of which the second was created first; a third has succeeded.
abbrev done : Job
done = record (new_job create_database (about 6) none 3) { status = succeeded; attempts = 1 }

abbrev queue : Queue
queue = record {
  jobs =
      (1, new_job suspend_database (about 7) none 20)
      ∷ (2, new_job delete_database (about 8) (some 5) 10)
      ∷ (3, done)
      ∷ [];
  next_id = 4;
}

queue-IsValid : IsValid queue
queue-IsValid = record {
  keyed = (refl, (refl, (refl, tt)));
  drawn = (omega arith, (omega arith, (omega arith, tt)));
  counted = λ k job found. ground arith;
}

-- Every type has a handler, which enqueues a delivery.
abbrev handlers : Handlers
handlers = record {
  handler = λ _. some (λ k job q. (returned q.next_id, added deliver_webhook (about k) none 0 q));
  terminal = λ _. none;
}

gave_up_nothing : (k : ℕ) (o : Option Job) (q : Queue) → gave_up handlers k o q ≡ q
gave_up_nothing k none q = refl
gave_up_nothing k (some job) q = ground arith

handlers-Behaves : Behaves handlers
handlers-Behaves = record {
  handled_valid = λ k job q v. added-IsValid deliver_webhook (about k) none 0 q v;
  gave_up_valid = λ k o q v. subst IsValid (sym (gave_up_nothing k o q)) v;
}

poll-IsValid_example : IsValid (poll handlers (20 ∷ 21 ∷ 22 ∷ []) queue)
poll-IsValid_example =
    poll-IsValid handlers (20 ∷ 21 ∷ 22 ∷ []) queue handlers-Behaves queue-IsValid

abbrev claimed : Queue
claimed = record queue {
  jobs =
      (1, new_job suspend_database (about 7) none 20)
      ∷ (2, started 30 (new_job delete_database (about 8) (some 5) 10))
      ∷ (3, done)
      ∷ [];
}

claim_next_job_oldest_example :
    (job : Job) × (lookup 2 queue.jobs ≡ some job)
    × (is_due 30 job ≡ true)
    × ((i : ℕ) (other : Job)
        → lookup i queue.jobs ≡ some other
        → is_due 30 other ≡ true
        → job.created_at ≤ other.created_at)
    × (lookup 2 claimed.jobs ≡ some (started 30 job))
    × ((i : ℕ) → (i ≡ 2 → ⊥) → lookup i claimed.jobs ≡ lookup i queue.jobs)
unfolding claim_next_job
claim_next_job_oldest_example =
    claim_next_job_oldest 30 2 queue claimed (refl, (refl, (refl, tt))) refl

enqueue_twice_example :
    WhenReturned
      (λ k t. enqueue delete_database (about 0) (some 6) 40 t ≡ (returned k, t))
      (enqueue create_database (about 0) (some 6) 30 queue)
enqueue_twice_example =
    enqueue_twice create_database delete_database (about 0) (about 0) 6 30 40 queue

added_spares :
    (q : Queue) (type_name : JobType) (payload : Payload)
    → lookup 3 q.jobs ≡ some done
    → lookup 3 (added type_name payload none 0 q).jobs ≡ some done
added_spares q type_name payload there =
    ground (arith, lookup-add q.next_id 3 (new_job type_name payload none 0) q.jobs)

handlers-Spares : Spares handlers 3 done
handlers-Spares = record {
  handled_spares = λ i other q there. added_spares q deliver_webhook (about i) there;
  gave_up_spares =
      λ i o q there. subst (λ t. lookup 3 t.jobs ≡ some done) (sym (gave_up_nothing i o q)) there;
}

poll_spares_example : lookup 3 (poll handlers (20 ∷ 21 ∷ 22 ∷ []) queue).jobs ≡ some done
poll_spares_example =
    poll_spares handlers 3 done handlers-Spares (20 ∷ 21 ∷ 22 ∷ []) queue handlers-Behaves
      queue-IsValid refl refl

-- Two nodes, of which the second has more room left.
abbrev node : ℕ → Node
node cpu = record {
  region_id = 1;
  cpu_total = cpu;
  ram_total_mb = 8000;
  storage_total_gb = 100;
  status = NodeStatus.active;
  last_heartbeat_at = some 95;
  ip_address = some 9;
  postgres_port = 5432;
}

abbrev fleet : Fleet
fleet = record {
  regions = (1, record { code = 33; active = true }) ∷ [];
  nodes = (2, node 4) ∷ (3, node 8) ∷ [];
  clusters =
      (
        5,
        record {
          region_id = 1;
          topology = ClusterTopology.single;
          shared = true;
          status = ClusterStatus.active;
        },
      )
      ∷ [];
  members =
      (
        6,
        record {
          cluster_id = 5;
          node_id = 2;
          role = ClusterMemberRole.primary;
          replication_lag_bytes = none;
          promoted_at = none;
        },
      )
      ∷ [];
  databases =
      (
        7,
        record {
          project_id = 1;
          region_id = 1;
          cluster_id = some 5;
          name = 1;
          physical_name = [];
          isolation_level = IsolationLevel.shared;
          status = DatabaseStatus.running;
          cpu_limit = 2;
          ram_limit_mb = 1000;
          storage_limit_gb = 10;
          connection_host = some 9;
          connection_port = some 5432;
          backup_policy = none;
          deleted_at = none;
        },
      )
      ∷ [];
}

abbrev asked : Resources
asked = record { cpu = 1; ram_mb = 500; storage_gb = 5 }

select_node_and_cluster-IsBest_example : IsBest 100 fleet asked 3
unfolding select_node_and_cluster allocated_resources
select_node_and_cluster-IsBest_example =
    select_node_and_cluster-IsBest 100 fleet 33 IsolationLevel.shared asked
      (record { node_id = 3; existing_cluster = none }) (omega arith, (omega arith, tt)) refl

-- A plan of one database, and two requests.
abbrev plan : Plan
plan = record { max_databases = some 1; max_storage_gb = some 20; max_cpu_total = none }

abbrev store : Store
store = record {
  plans = (1, plan) ∷ [];
  subscriptions = (2, record { organization_id = 4; plan_id = 1; status = active }) ∷ [];
  databases = [];
}

abbrev creations : List Request
creations =
    record { organization_id = 4; storage = 5; cpu = 1 }
    ∷ record { organization_id = 4; storage = 5; cpu = 1 }
    ∷ []

create_all-Respects_example : Respects 4 plan (create_all creations store)
unfolding get_active_plan
create_all-Respects_example =
    create_all-Respects 4 plan creations store
      (record { active_plan = refl; within = (refl, refl, refl) })

-- Five requests of one key, with a limit of two.
abbrev quiet : Trace
quiet = record { buckets = λ _. []; history = [] }

requests-IsLimited_example : IsLimited 1 2 70 (requests 1 2 (5 ∷ 6 ∷ 7 ∷ 66 ∷ 70 ∷ []) quiet)
requests-IsLimited_example =
    requests-IsLimited 1 2 0 (5 ∷ 6 ∷ 7 ∷ 66 ∷ 70 ∷ []) quiet
      (omega arith, (omega arith, (omega arith, (omega arith, (omega arith, tt)))))
      (record { bucket = refl; ordered = tt; few = omega arith })

require_permission-Below_example : require_permission owner database_connect ≡ returned tt
unfolding require_permission has_permission permitted
require_permission-Below_example =
    require_permission-Below database_connect admin owner admin_owner refl

abbrev invoice : Invoice
invoice = record {
  subscription_id = 1;
  status = paid;
  paid_at = some 9;
  payment_reference = some 8;
}

handle_nowpayments_webhook-HasInvoice_example :
    Preserves
      (HasInvoice 5 invoice)
      (handle_nowpayments_webhook true (pos 5) 77 finished (pos 100) (pos 100) 30)
handle_nowpayments_webhook-HasInvoice_example =
    handle_nowpayments_webhook-HasInvoice 5 invoice refl true (pos 5) 77 finished (pos 100)
      (pos 100) 30

handle_fedapay_webhook-HasInvoice_example :
    Preserves (HasInvoice 5 invoice) (handle_fedapay_webhook true 77 approved 30)
handle_fedapay_webhook-HasInvoice_example =
    handle_fedapay_webhook-HasInvoice 5 invoice refl true 77 approved 30

abbrev owed : Invoice
owed = record { subscription_id = 1; status = finalized; paid_at = none; payment_reference = none }

abbrev ledger : Payments.Store
ledger = record {
  invoices = (5, owed) ∷ [];
  subscriptions = (1, record { status = past_due }) ∷ [];
  payments = [];
}

mark_invoice_paid-subscriptions_example :
    let t = mark_invoice_paid 5 owed 8 30 ledger in
    (((past_due ≡ past_due)
        × (OwesOther 1 5 ledger.invoices → ⊥)
        × (lookup 1 t.subscriptions ≡ some (record { status = active })))
      ⊎ (((past_due ≢ past_due) ⊎ OwesOther 1 5 ledger.invoices)
          × (lookup 1 t.subscriptions ≡ some (record { status = past_due }))))
    × ((j : ℕ) → 1 ≢ j → lookup j t.subscriptions ≡ lookup j ledger.subscriptions)
mark_invoice_paid-subscriptions_example =
    mark_invoice_paid-subscriptions 5 owed 8 30 ledger (record { status = past_due }) refl
