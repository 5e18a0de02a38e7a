-- ===== src/Lib.antt =====
-- skodun reviews a diff with language models before it is pushed, keeps every review and every human decision
-- about its findings in one SQLite store, and lets a gate answer whether a push may pass. This library
-- models the parts of it that decide something, from `src/skodun/` of the repository.
--
-- The parts, and the files that model them:
-- - Capacity: `capacity.py`, with the `capacity_*` methods of `store.py`. Foreground reviews queue up for a
--   slot. Views is the pure rule (`decide_admit`, `queue_position_among`), Rows, Moves and Reclaim are the
--   methods over the table `capacity_admissions` (`capacity_enqueue`, `capacity_get`,
--   `capacity_active_views`, `capacity_position`, `capacity_holder_count`, `capacity_try_admit`;
--   `capacity_force_admit`, `capacity_mark_started`, `capacity_finish`; `should_reclaim_admission`,
--   `capacity_reclaim_stale`). Each method is one transaction, so the processes that share the table are
--   a sequence of such steps: Steps has the step relation and reachability.
-- - Batching: `batching.py`. Lines and Labels cut a diff into lines and read a section's file name, Split
--   is `_sections`, `_units` and `split`, Regions is `changed_regions`.
-- - Json, Textnorm, Trust: the values of `json.loads`; `textnorm.py`, whose keys identify a finding; and
--   `trust.py`, the trust invariant and the rules by which untrusted text is put on one line.
-- - Ledger: the append-only table `triage_events` of `store.py`, with `_append_triage_event`,
--   `triage_state`, `triage_for` and `triage_history`.
-- - Triage: `triage.py` and `refuter_policy.py`. Artifact is `load_valid_artifact`, Floors are
--   `validate_reason` and `validate_tracking_ref`, Doors are `add_triage`, `triage_reopen` and
--   `triage_defer` of `store.py`, Verbs are `dismiss`, `defer`, `reopen` and `open_findings`, Refuter is
--   `adopt_refuter` with its policy, Shown is `shown_field`.
-- - Gate: `gate.py`. Decide is `_gate`, with `latest_trustworthy_for` of `store.py` and `diff_identity` of
--   `gitio.py`; Record is `run_gate` with `log_gate_event`. The gate reads the reviews, the ledger through
--   `triage_for`, and the findings through `open_findings`, and writes its own log.
-- - Reviews: the life of a row of the table `reviews`. Record is `_normalize_record`, Table has the single
--   statements (`_FAIL_REVIEW`, `mark_failed`, `fail_if_running`, `attach_pid`, `_review_values`), Policy is
--   `mismatch` and `validate` of `planning_policy.py`, Evidence the suppression rules of `dispatch.py`,
--   Reserve is `reserve_prepush` with `_suppression_candidate`, Finalize and Publish are
--   `finalize_review`, `save_review` and `mark_cancelled` with `bind_review`, `link_request`,
--   `finish_cancellations` and the orchestration they consume, Lineage is `_write_lineage`, and Sweep is
--   `recover_stale` of `pipeline.py`. Budgeted is `reserved_budget` of `dispatch.py`. Steps puts the
--   dispatchers, workers and janitors that share the table into one step relation. The gate reads what these leave: Suppression and Upheld compare its
--   query with the one that a suppression rests on.
-- - Routing: `routing.py`, with `quota_pool_for` of `config.py`. Family has the model families, the quota
--   pools and `resolve_pool`, Score is `score_candidate`, Pick is `_argmax`, `_label` and `pick_finder`,
--   Loads is `provider_loads`, which counts the holders and waiters of Capacity's table, with
--   `provider_resource_class` of `capacity.py`; Best, Capacity, Shared and Picked hold its theorems. A
--   dictionary of loads or shares is a function, and a share is the rounded term that it adds to a score.
-- - Prepush: `parse_ref_lines` of `dispatch.py`, which says what of a push is reviewed; its branches are
--   what Reviews reserves rows for.
-- - Budget: `budget.py`, the ceilings on the age of a record and of a lock.
-- - Prelude has the shared helpers, and Examples the tests on concrete inputs.
--
-- How the state is modelled. A table is the list of its rows in `rowid` or `seq` order, and a statement
-- is a function from the table to the table; `id` is a primary key, so an update touches the first row of
-- that id. A method that raises returns an error value and leaves the table, as its rollback does. A
-- timestamp of the capacity table is its number of seconds, since the store writes only canonical texts
-- of fixed width, whose order is that of the instants; ages and ceilings are whole seconds, and process
-- ids are natural numbers. Ids are taken as `_require_text` leaves them. `capacity_reclaim_stale` returns
-- the table without the list of ids. Of several newest reviews with equal times, the first is read.
-- A column of `reviews` holds the value that is bound to it: SQLite's conversion of a number in a text
-- column, and its refusal of a list, are left out, as are the columns that no operation here reads. The
-- stored object is the dictionary itself, so `json_set` of a key is an assignment. The id of a reservation
-- is an argument, drawn anew by the caller; the callback `lineage_annotator` is a function that returns the
-- record it completes, and `save_review` runs for a request or for none. The sweep's clock and times are
-- whole seconds. `_review_values` is total here: its exceptions on a severity or a count of another type are
-- left out. In the step relation of Capacity only foreground reviews are forced in, and only rows that are
-- no longer queued are started, as every caller does.
-- A text is the list of its code points, and a diff the list of its bytes. A JSON object is the list of
-- its fields, and a float is known only by whether it is zero.
--
-- What is a parameter: git's answers, SHA-1 and SHA-256, `str.lower`, `str.isalnum`, `str()` of values
-- that are no text, `bytes.decode`, `time.strptime`, the `repr` of exceptions and texts, process birth tokens, the adapters' readiness,
-- the blackouts and budgets of providers, and the
-- operating system's answers about processes. Hashed texts are taken to be encodable as UTF-8.
--
-- Loops are structural recursion on their list, so no fuel is needed anywhere.
--
-- Not modelled: the waiting loop of `acquire`, the settings read from the environment,
-- `save_checkpointed_review` and the store's read methods, the fractions behind the
-- routing's share terms (`share_targets`) and `auto_route`, the chain of reviewers, the
-- extra passes, background dispatch and delivery, requests and their cancellation, configuration, prompt building, the adapters, the command line and the
-- MCP server, reporting and maintenance. Those that talk to processes, providers or terminals are input
-- and output around the parts above.
mod Prelude
pub mod Capacity
pub mod Batching
pub mod Json
pub mod Textnorm
pub mod Trust
pub mod Ledger
pub mod Triage
pub mod Gate
pub mod Budget
pub mod Reviews
pub mod Routing
pub mod Prepush
pub mod Examples
