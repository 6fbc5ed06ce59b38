-- ===== src/Lib.antt =====
-- VirtizAI is a self-hosted orchestrator of language models: a role of an agent is routed to a model of a
-- provider, delegated work runs as jobs, and infrastructure operations are authorized by configuration.
-- This library models the logic of virtizai_core/.
--
-- Parts and files
--   Common: tests, lists, dictionaries, sorting, the results of calls, and the values that `json.loads`
--     returns. Nothing in it is particular to the program.
--   Jobs: the `jobs` table of virtizai_core/jobs.py: `create_delegated`, `transition`. Machine states the
--     diagram of the statuses, Trace what holds over sequences of requests.
--   Runner: `JobManager.submit`, `_run`, `_notify` and `cancel` of the same file. `_run` is cut into slices
--     where it awaits; a step is one slice, one cancellation, submission or registration, and the
--     event loop is any list of steps. Handlers and listeners are known by how they end. A request to `transition` a row
--     is in Jobs only, and is no step here. Cancelling, Outcome and Settled are about single tasks, Elsewhere about the
--     others.
--   InfraPolicy: virtizai_core/infra_policy.py, the decision on an operation. Permitted states the rules as
--     a data type, Scope the bounds of the resource scope.
--   Alerts: virtizai_core/alerts.py, the log of state transitions and what its listeners hear.
--   Communication: virtizai_core/policy.py, what an answer may say.
--   Health: virtizai_core/health.py, which counts answers of a provider and reports changes to Alerts.
--   Capability: virtizai_core/capability_routing.py, requirements of roles and evidence of models.
--   Routing: virtizai_core/routing.py. Strategy and Selection hold the definitions, which read the evidence
--     of Capability; Qualified, Selected, Ordering and Returns the proofs.
--   Assignments: virtizai_core/project_assignments.py, on lists of rows for the four tables that it uses.
--     Chosen says who is assigned, Agreement that the two columns naming a manager agree, Later what becomes of an
--     assignment, with the status that virtizai_core/project_lead.py sets when a plan is proposed.
--   Migrations: `apply_migrations` of virtizai_core/migrations.py, over any list of migrations.
--   Releases: `UpdateManager` of virtizai_core/registries.py; a JSON dump, its digest and the conversion of a
--     bound value are parameters. Planned is about plans, Sound about what is stored.
--   Workers: `WorkerExecutionBoundary.execute` of virtizai_core/workers.py, the tests before an executor runs.
--   Plans: `ManagedPlanningWorkerExecutor._validate_plan` of the same file.
--   InfraTools: the tests of `InfrastructureToolsExecutor.execute` in virtizai_core/infra_tools.py before an
--     adapter is called, on top of InfraPolicy. Scoped joins them to Proxmox.
--   Proxmox: `_proxmox`, `_proxmox_vms` and the polls of the same file, over a backend that is a
--     function of the requests sent before. Requests says which of them act, Bounded how many there are;
--     the polls count down from `task_poll_attempts`, which is the code's own bound.
--   DevTools: `DevelopmentToolsExecutor` of virtizai_core/dev_tools.py, a component in parts: Discover the
--     listing, Inspect the reading of lines, Replace the replacement of a text, Patch the planning of a
--     unified diff and Apply its writing, Targets the test runs, Execute the dispatch. A text is the list of
--     its code points, a path the list of its parts, and a file its content,
--     which two parameters turn into a text and back, neither undoing the other: reading replaces what is no UTF-8
--     and the ends of lines. The files after a test run are a parameter too, since the tests may write anything. Positions in
--     a list are what is left of the list. The sampling loop has one more unit of fuel than the limit, and
--     the planning of a patch one more than the patch has lines: each round adds a file and each section
--     takes a line, so neither runs out. What resolving a path gives and which calls fail are parameters.
--   Homelab: virtizai_core/homelab.py. Collect takes the records out of the lines of a file, Lookup resolves a
--     property and finds the entity of a session, Facts looks up the facts of a term. Coalesce
--     is `_coalesced_entities`, a union-find whose `find` has as fuel the number of headings and one: each step goes to
--     a heading that comes earlier. Its regular expressions, case folding and `_clean` are the fields of one parameter,
--     and the identities of a field are another one.
--   Context: `ContextBroker` of virtizai_core/context.py, with Retrieve for the call that gathers and trims.
--   Intake and Delegation: virtizai_core/work_intake.py and virtizai_core/delegation_policy.py. The nested calls of
--     `deterministic` have one more unit of fuel than the text has characters, and each call is on a
--     shorter text.
--   Tests: runs at concrete inputs, and each theorem applied at one.
--
-- Conventions
--   A table is a dictionary or the list of its rows; a query is a function on them. What a call raises is
--   the `raised` of a result. A fresh `uuid4` and the time of a call are arguments. A JSON column is
--   the value that parsing gives, `none` where it is refused or empty. The queries run one at a time,
--   since the database serializes them and the event loop changes tasks at `await` only. Python's
--   integers in SQL columns are integers, counters are natural numbers, and REAL columns are a type
--   with a total order that the routing takes as a parameter. Each loop runs
--   over a list, or counts down from the code's own number of attempts.
--
-- Not modelled
--   The HTTP API, the stores of secrets, the command line, the Discord gateway, the adapters that talk to providers, the tools
--   that run subprocesses, the text of SQL migrations, the web interface, packaging and tests.
pub mod Alerts
pub mod Assignments
pub mod Capability
pub mod Common
pub mod Communication
pub mod Context
pub mod Delegation
pub mod DevTools
pub mod Health
pub mod Homelab
pub mod InfraPolicy
pub mod InfraTools
pub mod Intake
pub mod Jobs
pub mod Migrations
pub mod Plans
pub mod Proxmox
pub mod Releases
pub mod Routing
pub mod Runner
pub mod Tests
pub mod Workers
