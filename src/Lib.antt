-- ===== src/Lib.antt =====
-- Everest Auditor: the back end that transcribes, judges and reports on recorded calls. A call that
-- is uploaded becomes a job. Workers claim jobs from a table with leases (backend/app/orchestration),
-- submit the recording to a speech-to-text provider under a daily cap (backend/app/ratelimit), park the
-- job until the provider's webhook or the reconciler moves it on, then store the transcript and have
-- it judged (backend/app/judge) against a versioned checklist (backend/app/checklists). People come in
-- through routes behind one permission gate (backend/app/rbac, backend/app/authz.py).
--
-- Files:
--   Orchestration/States, Retry        orchestration/states.py, retry.py: the state machine, failures
--   Orchestration/Queue                orchestration/queue.py: one function for each SQL statement
--   Orchestration/World, Handlers      orchestration/handlers.py: handle_transcription, handle_judge
--   Orchestration/Engine               orchestration/engine.py: process_one, _apply_outcome, _apply_failure
--   Orchestration/Webhook              api/webhooks.py and orchestration/reconciler.py
--   Ratelimit/Backoff, Caps, Buckets   ratelimit/backoff.py, caps.py, buckets.py
--   Stt/Redaction                      stt/redaction.py, with `Transcript` of stt/__init__.py in Stt
--   Judge/Routing, Scope, Options      judge/routing.py, scope.py, options.py
--   Judge/Prompts                      judge/prompt_store.py, schema_store.py, checklists/rubric.py
--   Judge/Schema                       judge/schema_validate.py
--   Judge/Clients, Tables              judge/client.py, schema.py; the tables of models/__init__.py
--   Judge/Service                      judge/service.py (judge_call), narrative.py
--   Judge/Clustering                   judge/clustering.py
--   Judge/Tuning                       verification/service.py, tuning/router_tuning.py
--   Judge/Studio                       api/prompts.py, api/output_schemas.py
--   Judge/Audio                        the MIME table and `AudioRef` of judge/gemini.py
--   Access/Permissions, Authorize      rbac/permissions.py, authz.py
--   Checklists/Versions                checklists/service.py
--   Checklists/Parse                   checklists/parse.py
--   Orchestration/Calls                api/calls.py, retention.py
--   Reports/Template                   reports/template.py: the renderer, from the tokens on
--   Common                             lists, texts, sorting and floating point for all of them
--   Tests                              concrete inputs at which the theorems apply
--
-- How the code is read. A table is a list of rows, and a statement of SQL is one function on it; a
-- statement is atomic, and the rows that another transaction has locked are an argument of a claim.
-- A UUID is a number. An instant is a number of microseconds. A cap is not negative. A handler is a
-- function on a `World`,
-- which is the transactional database (`Db`), the object store and the requests that have been sent;
-- it returns a value or raises, and `process_one` undoes the database, and nothing else, when it
-- raises. The provider, the object store's answers, the model calls, clocks and random numbers are
-- parameters; the judge of the handlers is one as well, and Orchestration/Handlers/Judged fills it
-- with `judge_call` over its `Tables`. `float` is the interface `FloatOps`; the bounds that need
-- arithmetic take its laws (`FloatLaws`), which hold of IEEE 754 numbers away from overflow and NaN.
--
-- Fuel: `retry_async` runs on `max_attempts + 1` units, one for each call, and is shown to end within
-- them. `render_block` runs on one unit for each token, since a step uses up a token and a section
-- runs on what follows its tag. Every other loop is structural. The wait of `TokenBucket.acquire` is
-- a list of the clock's readings.
--
-- Not modelled: the front end, the routes and their schemas, report pages, the storage and provider
-- clients, the prompts' texts, migrations, the process start and scheduling of the worker, the
-- listings and the remaining routes (I/O and glue); the offline evaluation; log lines, metrics, alerts.
pub mod Common
pub mod Ratelimit
pub mod Stt
pub mod Judge
pub mod Orchestration
pub mod Reports
pub mod Access
pub mod Checklists
pub mod Tests
