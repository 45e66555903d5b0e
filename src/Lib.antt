-- ===== src/Lib.antt =====
-- Wizard: an assistant for data analysis, of which this library models the backend (backend/src).
--
-- A user talks to a session. A turn of the agent decides and acts in a loop; each action that could
-- harm goes through a gate, which reads the session's permissions and may park the turn on a question.
-- The data mode says what may leave the machine. Jobs, cached values, token counts and the sessions
-- themselves are kept by services that the whole process shares.
--
-- The parts, with the code that each models (paths from the root of the repository):
--   Prelude        lists, dictionaries, texts as code points, Boolean tests with their equality
--   Providers      backend/src/providers.py: the table of model backends and what counts as local
--   Config         backend/src/config.py: the settings read here, `data_mode`, the provider checks
--   DataMode       backend/src/core/data_mode.py: modes, the redaction policy, refusals
--   Permissions    backend/src/core/permissions.py: profile, matrix, grants, `authorize`
--   Consent        backend/src/core/agent/consent.py: `ConsentBroker`; `ask` is split where it waits,
--                  into `register` and `finish`, and Consent.World puts all calls in any order
--   Agent.State    backend/src/core/agent/actions.py, events.py, and `RunState` of orchestrator.py
--   Agent.Permit   `_permit` of backend/src/core/agent/orchestrator.py
--   Agent.Install  `_permit_install` of the same file, with the missing modules and the end of pip given
--   Agent.Code     `_act_code` of the same file: the loop that corrects code
--   Agent.Budget   `TierBudget`, `TIER_BUDGETS` and `budget_for` of backend/src/config.py
--   Agent.Loop     `_allowed_actions`, `_decide`, `_decide_deterministically`, `_investigate`
--   Infra.Cache    `InProcessCache` of backend/src/core/infra/cache.py (`set` is `put` here)
--   Infra.Queue    backend/src/core/infra/queue.py: `runner` is split at its awaits into `begin`,
--                  `conclude` and `interrupt_waiting`; Infra.Queue.Steps puts all pieces in any order
--   Llm.Pricing    the price table of backend/src/core/llm/usage.py
--   Llm.Usage      records, sessions and the ledger of the same file, and the reading of a response
--   Llm.Reasoning  the tags and `ReasoningStream` of backend/src/core/llm/reasoning.py;
--                  Llm.Reasoning.Blocks its `split_reasoning`
--   TableKey       `DatasetHandle.table_key` of backend/src/core/session.py
--   Session        `Session` of the same file: datasets, workspace, and the reload of a sandbox
--                  (`load_dataset` in backend/src/core/tools/daemon.py). What Feather and CSV make of a frame
--                  (`safe_write_feather` may turn columns to text) and the number of writes that
--                  succeed before `_materialize` meets an exception are given
--   Manager        `SessionManager` of backend/src/core/session.py
--   Security.Path  `_is_path_allowed` of backend/src/core/security/code_guard.py with the parts of
--                  `posixpath` it uses, and the root that `_permit_paths` of orchestrator.py grants
--   Security.Tree  the nodes of Python's `ast` as far as the guard reads them, and `ast.walk`
--   Security.Guard `CodeGuard.scan`, `imported_modules` of code_guard.py; Security.Guard.Words its constants
--   Security.Repair  `CodeGuard.repair` of the same file
--   Execution      `CodeExecutor.guard` and `execute` of backend/src/core/execution.py
--   Skills.Candidates  the table `skill_candidates` of backend/src/core/database.py and its four calls
--   Skills.Promotion   backend/src/core/skills/promotion.py: counting and offering
--   Skills.Source  `parse_source` of backend/src/core/skills/source.py, over Prelude.Url, the parts of
--                  `urllib.parse` that it uses
--   Skills.Index   `InstallIndex` of backend/src/core/skills/index.py, with what `SkillSource` and
--                  `InstallRecord` of source.py store; Skills.Index.Spec the dictionary it stands for
--   Tests          concrete inputs
--
-- Numbers are natural numbers. A time is a number of clock ticks that the caller passes; where the
-- code subtracts a time to live from the clock, a cutoff before 0 is 0, and no time lies before either.
-- Prices are hundredths of a dollar for a million tokens, so that costs are exact. Sentences for the
-- user are values that hold what the sentence names. Dictionaries are association lists in insertion
-- order; sets are lists.
--
-- The loop of `_act_code` runs on fuel, and the fuel for one attempt and MAX_CORRECTION_RETRIES
-- corrections is enough. The loop of `_investigate` counts its iterations down.
--
-- The agent's loops take the methods that they call as a record of functions (`Effects`, `Turn`):
-- code generation, execution, the install and path gates, the actions that inspect, consult, reflect
-- and fan out, and the parsed answer of the manager. Where a theorem needs that these leave the
-- investigation or the counters alone, that is a hypothesis (`IsFramed`, `IsFramedTurn`).
--
-- The loop of `ReasoningStream.feed` takes one more than the length of what is pending as fuel, which is
-- enough, since each round takes a tag away; so is one more than the length of the text for
-- `split_reasoning`. `\w` of Python's `re` is given as a function. A write of the index of installed
-- skills that fails leaves its file as it was.
--
-- The walk of the guard takes the number of nodes of the tree as fuel, which is enough: it visits them
-- all. Python's parser, the runtimes, the ranking of texts by similarity and the check of a netloc by
-- `urlsplit` are given as functions. A call that does not reach the database returns what its handler of
-- exceptions returns.
--
-- Not modelled: the HTTP routes, the connectors and the clients of model servers, whose work is done by
-- other programs; the tables of the database that only store and fetch; the sandboxes, which are calls
-- of the operating system; prompts; the files and requests of skill installs; retrieval, ingest and
-- grounding; in the modelled files, what only renders, logs or emits.
pub mod Prelude
pub mod Config
pub mod Providers
pub mod DataMode
pub mod Permissions
pub mod Consent
pub mod Agent
pub mod Infra
pub mod Llm
pub mod TableKey
pub mod Session
pub mod Manager
pub mod Security
pub mod Execution
pub mod Skills
pub mod Tests
