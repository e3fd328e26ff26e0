-- ===== src/Lib.antt =====
-- mm-gateway: the core of a gateway that creates image, video, music and speech tasks at many providers.
-- The caller's key (mm_gateway/server/auth.py, mm_gateway/config.py) says which backends of the registry
-- a request may use (mm_gateway/registry.py). The planner of mm_gateway/auto_mode.py scores the request
-- against each model's documented limits (mm_gateway/router.py, mm_gateway/models/catalog.py and
-- limits.py), prices it (mm_gateway/models/pricing.py), asks the budgets, and orders the candidates,
-- which are then attempted, best first, while the estimate of each is held in the cost ledger
-- (mm_gateway/auto_mode.py, mm_gateway/services_selection.py, mm_gateway/billing.py). The accepted task
-- is recorded under its idempotency key (mm_gateway/tasks/store.py and the resource routes of
-- mm_gateway/server/routes/), polled by one monitor (mm_gateway/tasks/supervisor.py), and settled in the
-- ledger when it ends.
--
-- Files:
-- - Ledger: `CostLedger` of mm_gateway/billing.py, with the same names: check, hold, bind, release,
--   settle, reservation; `_reserved` is reserved and `_period` is period_of. Ledger/Period is
--   period_window. Ledger/WellFormed, Committed, Settlement, Steps and Within
--   hold its laws; Ledger/Reports is scope_state, clear and the key part of usage.
-- - Schemas: the requests of mm_gateway/schemas/ with the fields that routing reads, one module for each
--   modality, and Schemas/Rest for the public ones of schemas/api.py. Translators: from_image_request and
--   its siblings, `_data_uri` and `_image_source` of mm_gateway/translators/rest.py; Translators/Responses is
--   `_with_cost` and the outputs of to_image_response, the other modules there hold laws.
-- - Config: keys and backends of mm_gateway/config.py, key_for, and resolve_key of server/auth.py.
-- - Registry: usable_backends (may_use is its rule for one backend), resolve_model_id, serves.
--   Registry/Serving: backends_serving and resolve for an explicit model; Registry/Order and Resolve
--   compare the two. Registry/Access: authorize_task_access of server/auth.py. Registry/Aliases:
--   _build_aliases, with laws in Aliases/Added and Sound. Registry/Auto: resolve_auto and
--   enumerate_auto_candidates, whose loops are the same and are modelled once (fitting), with laws in
--   Auto/Suits and Best.
-- - Models/Limits and Models/Pricing: ModelLimits, lifecycle, ModelPrice, rate_for, estimate_cost.
--   Models/Catalog: limits_for and price_for with the operator's overrides.
-- - Router: RequestProfile, `_fits` (fits, one check_* for each of its stages), longest_side, score, best.
--   Router/Profile: profile_for and its helpers, `_parse_size` in Profile/Sides. Router/Image, Video and
--   Music join the translation of a public request, its profile and the limits.
-- - AutoMode: `execute_plan` (execute_plan, try_all, try_candidate), `_no_candidate_error`, and the
--   callback of `settlement` (on_terminal), which an attempt runs itself (end_task) for a task that has
--   ended when its monitor is started (services.py). A request that is cancelled during an attempt keeps
--   its hold: `except Exception` does not see it. AutoMode/Errors classifies exceptions (is_retryable,
--   is_rate_limited, failure_reason); AutoMode/Retry is `retry_across_backends`.
-- - AutoMode/Policy: `resolve_policy`, with the directive of mm_gateway/schemas/api.py.
-- - AutoMode/Planner: `_Planner` (estimate, admit, tag_ok, audio_candidate_ok), its auto_candidates and
--   order_key in Planner/Auto, and plan_route in Planner/Pinning (a pinned model) and Planner/Route. What
--   `_Planner` keeps is the record Planning. The other modules there hold the laws.
--   Planner/Public follows a public request to the candidate that serves it.
-- - AutoMode/Estimate: `estimate_route`; what it lists is in Estimate/Loop and Listing.
-- - Tasks/Store: `TaskStore`; `list` is list_owned, and guard_lock is the lock of idempotency_guard.
-- - Tasks/Create: the steps of `create_resource`, with the helpers of _resources.py; a replay asks
--   authorize_task_access under the registry and key of its own moment.
-- - Tasks/Supervisor: `AsyncTaskSupervisor`; `_monitor` is cut into its rounds (poll_once, observe) and
--   its cancellation (cancel), `_finish` is finish, and `run` performs a list of such events.
--   Tasks/Supervisor/Wait: wait_for_terminal.
-- - Selection: `_SelectionStore` of mm_gateway/observability/selection.py: observe, cooldown,
--   is_rate_limited and the cooldown window of configure. Selection/Health: health, score, snapshot, clear.
--   The decayed masses are an argument, with what each amounts to in millionths of an attempt.
-- - Secrets: is_secret, encrypt and decrypt of mm_gateway/secrets.py, on JSON values; the cipher and the
--   regular expressions are arguments. Secrets/RoundTrip holds their law.
-- - Management: `_redact` and `_restore` of mm_gateway/management.py on the same JSON values; their laws are
--   in Management/Hidden and Restored. Management/Service: `ManagementService` (configuration, update,
--   update_resource, `_apply`, `_publish`), and Management/Revisions and Stored its laws. A published configuration is
--   written as it was accepted, and run in its canonical form (canonical), which is config_from_settings of
--   settings_from_config.
-- - Prelude: tests, lists, dictionaries, integers, and the stable sort by a key.
-- - Tests: the theorems at concrete inputs.
--
-- Choices: amounts are whole multiples of 1e-9 USD and durations whole milliseconds, so sums and
-- products are exact, where the program has floats. The clock's readings, provider answers, task ids,
-- the scores and latencies that the planner reads from the selection store, and the order of concurrent
-- steps are arguments. A method that holds a lock is one step. All loops are structural recursion over a
-- list, so no fuel is needed, but for wait_for_terminal, whose fuel is its number of wake-ups. What
-- attempts do to the ledger through other requests in between is left out of `execute_plan`; the ledger's
-- own steps may interleave freely.
--
-- The planner's readings of health are not tied to the selection store: other requests change it in between.
--
-- Not modelled: building the registry's providers and its listings, the parsing of the configuration file
-- and the rest of its conversion to and from the managed configuration, provider adapters, the
-- compatibility translators and the validation of requests, the web server, plugins, outbound proxies,
-- logs and metrics: they copy fields, read files, or talk to other services.
pub mod Prelude
pub mod Config
pub mod Ledger
pub mod Models
pub mod Schemas
pub mod Translators
pub mod Router
pub mod Registry
pub mod Tasks
pub mod Selection
pub mod AutoMode
mod Tests
pub mod Secrets
pub mod Management
