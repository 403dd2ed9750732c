-- ===== src/Lib.antt =====
-- eminidatabase: a managed database platform, and a microfinance application on top of it.
--
-- The repository has a control plane (backend/app), an agent on each node (agent/app), client
-- libraries, a web console, and the microfinance application (microfinance/mf_app), which keeps each
-- institution's books in a database that the platform provisions. This library models the core of the
-- microfinance application, and of the control plane the parts that decide: the job queue and its
-- worker, placement, quotas, rate limiting, permissions, payments and billing, the orchestrators that
-- carry out the jobs on databases, backups and webhook deliveries, failover, the endpoints of
-- databases and backups, and the scheduler. The two programs share no state. A job's handler asks the
-- agent of a node; requests enqueue jobs, handlers emit events, and the scheduler enqueues what is due.
--
-- Files:
--   Base: the names that all modules share; integers over the native numbers (Base/Int), tables of
--     rows by key (Base/Table, Base/Keys, Base/Totals), calls in a session (Base/Action) and the
--     rules for invariants of such calls (Base/Preserves, Base/Keeps).
--   Microfinance/Tenant: the rows of microfinance/mf_app/models/tenant, the session, the errors.
--   Microfinance/Rbac: services/rbac.py (`allowed`, `has_permission`, `require_permission`).
--   Microfinance/Ledger: services/ledger.py, the double-entry engine. `post_transaction` is cut into
--     `existing_or_new`, `post_new`, `post_lines` and `post_line`, along its own blocks.
--   Microfinance/Savings: services/savings.py and the endpoints of api/v1/endpoints/savings.py.
--   Microfinance/Loans, Loans/Endpoints: services/loans.py and api/v1/endpoints/loans.py.
--     `repay_installment` is cut into `next_installment`, `pay_line` and `close_if_done`.
--   Microfinance/Amortization: services/amortization.py.
--   Microfinance/Reports: services/reports.py.
--   Microfinance/Books: the invariant of the books, kept by each service and endpoint.
--   Microfinance/Requests: the router over the endpoints above, and runs of requests.
--   Microfinance/Tests: runs on concrete data, and the properties on them.
--
--   Platform/Jobs, Jobs/Worker: backend/app/services/jobs.py and backend/app/worker.py. The handlers
--     of the job types are a parameter; Jobs/Valid says how they may change the queue.
--   Platform/Placement: backend/app/services/placement.py and node_health.py.
--   Platform/Quotas: backend/app/services/quotas.py, and what the create endpoint of
--     api/v1/endpoints/databases.py does under the organization's lock.
--   Platform/RateLimit: `check_rate_limit` of backend/app/core/rate_limit.py.
--   Platform/Rbac: backend/app/services/rbac.py.
--   Platform/Payments: backend/app/services/payment_service.py, of which the gateways' signature
--     checks are an argument.
--   Platform/Billing: backend/app/services/billing.py, and `generate_due_invoices` of
--     backend/app/scheduler.py. Billing/Once runs its ticks with the writes of other parts between
--     them: records of usage, and the statuses that payments set on invoices and subscriptions.
--   Platform/Control: the session that the next ones share, with the rows of backend/app/models, and
--     the dependencies and lookups of an endpoint (backend/app/core/dependencies.py,
--     services/database_lookup.py and audit.py).
--   Control/Names, Control/Agent: the physical names, services/sql_identifiers.py and
--     services/agent_client.py.
--   Control/Orchestrator, Control/Migration: services/orchestrator.py, one `execute_…` for each
--     handler. `provision_database` is the part of `execute_create_database` after its early return;
--     the migration is cut into `copy_to_target`, `cut_over` and `clean_up`.
--   Control/BackupJobs: services/backup_orchestrator.py, and the terminal handlers of worker.py.
--   Control/Webhooks: services/webhook_orchestrator.py.
--   Control/Databases, Control/Connection, Control/MigrationRequest, Control/Backups:
--     api/v1/endpoints/databases.py, database_admin.py and database_backups.py.
--   Control/Failover, Control/FailoverCheck: services/ha_orchestrator.py, api/v1/endpoints/clusters.py
--     and the scheduler's check of clusters. `execute_failover` is cut into
--     `candidates`, `promote_candidate` and `record_failover`.
--   Control/Schedule: the ticks of backend/app/scheduler.py over backups and usage.
--   Control/Calls: the calls of the modules above that change the session, and runs of them.
--   Control/Keeps: for a property of clusters and members, what it has to allow (`IsStable`), and
--     that every call then keeps it. Control/Primary and Control/NoFailover are two such properties.
--   Control/Freshest, Control/Migration/Spares: which replica a failover promotes, and what a
--     migration drops.
--   Control/Members: the members of api/v1/endpoints/organizations.py, with runs of their own.
--   Control/Own, Control/Rules: what an endpoint's guards say, and what the calls of a request keep.
--   Control/Isolation: the databases of other organizations. Control/Statuses: the statuses that
--     requests take a database through.
--   Control/Tests, Platform/Tests: runs on concrete data, and the properties on them.
--
-- How the model stands to the code. A service is a function from a session to an outcome and a
-- session; what was written before a raise stays in the session, and an endpoint rolls it back
-- (`atomic`). A query is a scan of a table; sessions are opened with `autoflush=False`, so a query
-- on the schedule's lines sees the rows of the last flush (`stored_lines`). An amount of money
-- (`Numeric(18, 2)`) is a whole number of cents, and amounts are taken to be such. A uuid is a
-- number, drawn in order. The clock and the staff member are arguments; a time is a whole number of
-- seconds. Loops are structural, and no fuel is used. In Platform/Control what the agents answer is a
-- function of the node and the call, one for each call of a run; what was sent to an agent stays sent
-- when a request is rolled back (`transaction`). A worker commits what a handler wrote before it
-- raised, so `handle_job` is no transaction.
--
-- Not modelled: HTTP, authentication and serialisation; listings and product endpoints; the
-- overflow of a column (10 ** 16 units of money); requests that run at the same time; notifications;
-- the agent on a node (PostgreSQL and shell tools); the SQL editor, the roles and extensions of a
-- database; registration, the making of organizations and projects; what a webhook's delivery contains.
pub mod Base
pub mod Microfinance
pub mod Platform
