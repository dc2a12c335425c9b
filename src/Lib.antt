-- ===== src/Lib.antt =====
-- The core of pybuggy: the sandbox, a runtime that starts the services an API test depends on, puts
-- data into them, and takes it out again between tests; and what a test is written with, the HTTP
-- client and the assertions on its responses.
--
-- Paths are from the repository's root, under goga_tool_pybuggy: those of Migrations, Sandbox and
-- Config under its folder sandbox, those of Matchcrest and Api under matchcrest and api.
--
-- * Migrations, for migrations/: Filename and Annotation for the grammar of a file's name and of an
--   annotation line, Sections for `_scan_sections`, Statements for `_split_fragments` and
--   `_statement_endings`, Parse for `_split_up_statements` and `parse_migration_file`, Folder for
--   `load_migration_set` and `check_local_migrations`, Url for `check_git_url`, Apply for
--   apply.py. A text is the list of its code points.
-- * Sandbox.Engine, for engines/base.py: an engine is a record with its name, its journal, its two
--   flags and the state of its service. The hooks that a kind overrides, with what KafkaEngine checks in
--   front of `start`, are the record `Hooks`.
-- * Sandbox.Startup, Sandbox.Session and Sandbox.Lifecycle, for sandbox.py, baseline.py, data/batch.py
--   and service_container.py: `_startup_operations`; the batches, the boundary, `apply_pending` and
--   `clear`; `start` and `stop`. A view holds a reference to the batch that was current when it was
--   made, so the batches stand in a store and `BatchRef` is the reference.
-- * Sandbox.Presets, for `enqueue_presets` of sandbox.py, and Sandbox.Refs, for the references in
--   insert rows of engines/refs.py.
-- * Config, for config/loader.py: Entry and Services for the service entries, Section for the data
--   sections, Placeholders for the env of the instance, Document for the whole. A
--   parsed document is a `Value`.
-- * Matchcrest, for matchers/ and utils/: Values for the value matchers of matchers/value.py, with the
--   rounds of their loops in Values, Values.Dates and Values.Sets, the loop itself in Values.Assert,
--   and in Values.Meets what each demands of one value; Url for the helpers of utils.py; Verdict for
--   MatchResult; Retry for BaseMatcher and `waiting_for`; Responses for matchers/response.py and
--   matchers/error.py.
-- * Api, for api/: Client for the class Api of api.py, with Paths for the parameters in a path and
--   Web for what the client calls; Auth and Endpoint for auth.py and endpoint.py; Wrapper for
--   response.py and `load_assert_class`; Contexts for `JsonFieldContext` of asserts/contexts.py; Expect
--   for two methods of asserts/expect.py; Field for `_create_matcher` of asserts/base.py and the checks
--   of asserts/field.py, which stand in Field.Checks.
--
-- The loader hands the sections to `_startup_operations`; what that assembles, `start` of the
-- sandbox passes to `start` of each engine, which executes and journals it. During a test the views
-- declare operations into a batch, `apply_pending` groups them by service and hands each group to
-- `apply` of its engine, and `clear` resets every engine to its journal.
--
-- A check of a field makes a matcher of Matchcrest, which asserts the context of the field until
-- enough proofs pass or the time is over, and gives the field back or raises. The client sends its
-- requests through one session, to the address of the sandbox it is bound to, after the pre-flight
-- of this sandbox, which calls `apply_pending`.
--
-- A function that may raise returns a `Result`, with the state it leaves where it has one; an error
-- carries what the message names, not its wording. What the reading of a file raises is part of the
-- folder. Every loop goes through a list, a text or a number of proofs, but for that of `waiting_for`,
-- which runs on fuel: the clock passes the deadline after about as many rounds as the timeout has
-- ticks, so more fuel than the timeout and one is enough. Times are natural numbers of ticks; numbers
-- have no bound, as in Python.
--
-- Parameters stand for what the program calls: psycopg (`Connection`), git and the file system
-- (`Sources`, `Folder`), pydantic and `urlparse` (`Libraries`, `Models`), the container engine and
-- Jinja2 (`Runtime`), the drivers of the services (`Hooks`), the operators on Python objects
-- (`Python`, with what is relied on in `Lawful`), the clock and the item of a matcher (`World`, with
-- `Clocked` and `Quiet`), PyHamcrest (`Hamcrest`), resq and requests (`Web`). The
-- theorems on `reset` and `clear` suppose that the wipe of a kind succeeds and leads to one empty state,
-- whatever the state before.
--
-- Not modelled: the polling loops of the sandbox, which wait on a clock; the kinds' own engines and
-- readiness checks; the flush that KafkaEngine adds behind a group of operations in its
-- `_apply_operations`, so that `Hooks` stands for the kinds that keep this method of BaseEngine; the
-- validators of the pydantic models; the log, but for the reading of the base URL in `start`; of the
-- API the other methods of Expect, the checks for exceptions and the context of a jsonpath; the
-- specification reader and the commands.
pub mod Prelude
pub mod Value
pub mod Migrations
pub mod Sandbox
pub mod Config
pub mod Matchcrest
pub mod Api
