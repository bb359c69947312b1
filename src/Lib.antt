-- ===== src/Lib.antt =====
-- The context-HMI service (src/context_hmi/): its options, its plant model's validation, its telemetry store, the
-- retrieval of context for a request, its bounded result cache, its operational journal, the lifecycle
-- machine of its components, its worker pool, its diagnostic logger and the CSV reader of its importer.
--
-- A plant model is a JSON document, which every part that reads it validates first. An external adapter
-- sends batches of values for the model's tags to the telemetry store, which shows the values and the
-- alarms. The service takes its options from a command line and a configuration file, and makes its
-- parts with them. An operator's request in words goes to the retrieval, which selects the part of the
-- model that it is about, within a budget; the answer that a language model gives for the request is checked
-- against that selection. The service answers requests on a worker pool, caches computed results, writes
-- what it did to an append-only journal that it replays when it starts, and follows the lifecycle of its
-- components in a state machine. Engineering artifacts that it imports as CSV pass through a reader
-- with limits. Each part with state is a class whose methods run under a lock of its own, so that it is
-- modelled as a record and functions on it; the telemetry store and the retrieval call the validation,
-- and their models call its model.
--
-- Files:
--   Prelude       lists, association lists, results, bytes and bits that the parts share
--   Json          the JSON library as the parameter `JsonLibrary`; Json/Values is a small one for tests.
--   Model         src/context_hmi/model_validation.cpp: `index_model`, with the checks of one field in
--                 Model/Fields. Model/Valid is what a consistent model is, Model/Proofs
--                 follows the loops of `index_model`.
--   Telemetry     src/context_hmi/telemetry_store.cpp: `Store`; its state, the commit and `reconfigure`, with
--                 the checks of a batch and `ingest` in Telemetry/Batch, `snapshot` in Telemetry/View. Commit,
--                 Order and Declared are about `ingest`, Alarms and Fresh about `snapshot`, Types
--                 about the types of values.
--   Retrieval     src/context_hmi/context_retrieval.cpp: Retrieval/Terms the terms of a text, Score the scores
--                 of the assets, Scope what is selected, Budget the loop that removes entries, Call
--                 `retrieve`, Interpretation `validate_interpretation_scope`. Lists, Rounds and Loop
--                 follow the loop, Order and Choice the best score, Entries and Anchor what a prompt
--                 refers to, Accept the two calls together.
--   Options       src/context_hmi/options.cpp: `parse_options`, with options_cli.cpp in Options/Command,
--                 options_config.cpp in Options/Config, options_validation.cpp in Options/Validate. A
--                 setting or a line of a section is a row of a table. Options/Start is what the
--                 constructor of `Runtime` (runtime_lifecycle.cpp) passes on. Loopback is about hosts and origins;
--                 Ranges, Loaded and Accepted follow the numbers from the text to the parts.
--   Cache         src/context_hmi/bounded_cache.cpp: `BoundedJsonCache` is the record `Cache`; the
--                 constructor, `get`, `put`, `clear`, `snapshot` and `erase_locked` keep their
--                 names. List iterators are numbers of nodes, and a dangling one is `none`.
--                 Cache/Lru is the plain list that the cache implements, Cache/Represents the
--                 well-formedness, Cache/Refine and Cache/Put the operations, Cache/History any
--                 sequence of calls.
--   Journal       src/context_hmi/operational_store.cpp: Journal/Frame is the frame format, Journal/Open
--                 the constructor and `open_and_recover`, Journal/Append `append`. The file is an
--                 explicit state; how a write ends is an argument. Journal/Header, Round, Recovery
--                 and Reopen follow the replay over the frames of Journal/Log, Journal/Appends the
--                 file and the memory together.
--   Lifecycle     src/context_hmi/lifecycle.cpp: `Machine`, with the caller's histories in Lifecycle/Paths.
--   Workers       src/context_hmi/worker_pool.cpp: `WorkerPool`; a thread is a phase, and a run is a list
--                 of events, so that every interleaving is one. The condition variable is part of it: a
--                 worker that waits takes no step until it is woken. Workers/Fifo is about the
--                 order of the jobs, Attended about `notify_one`, Awake about `notify_all`, Shutdown and
--                 Progress about the end.
--   Logger        src/context_hmi/diagnostic_logger.cpp: `Logger`; the caller's and the worker's steps, with
--                 the files and `rotate_if_needed` in Logger/Rotation, what a rotation does in
--                 Logger/Shift, the log's size in Logger/Size, the counters in Logger/Accounting.
--   Csv           src/context_hmi/context_import_csv.cpp: `parse_csv`, one function per lambda and branch;
--                 Csv/Format is the format that it reads, Csv/Cells and Csv/RoundTrip the reader on it;
--                 Csv/Table the functions that look up columns, Csv/Columns how they fit together.
--
-- Integers are natural numbers; the 64-bit counters wrap where the code lets them (`add64`, `sub64`),
-- and the fields of a frame are reduced to their width. The replay loop runs on fuel, one more than the
-- length of the file; a round takes at least one byte, so that this is enough, and the theorems about
-- opening conclude that a journal is returned. The loop of the retrieval's budget runs on fuel, one more than
-- the number of entries that it can remove. The maps of the source are association lists, its sets
-- lists; `std::sort` is an insertion sort by the same comparison, and a binary search of sorted terms
-- is the membership that it decides.
--
-- Not modelled: the JSON library, which is the parameter `JsonText` of the journal and `JsonLibrary` of
-- the other parts, the length of the JSON text of a retrieval's result included; the texts of error
-- messages; the calls of the operating system behind a write, which are outcomes; the JSON snapshots of
-- the machine, the pool, the logger, the journal and the counters of the telemetry store; the fingerprints of
-- model_validation.cpp; an allocation that fails, in the commit of a batch for one; the notifications
-- of the logger's condition variable, whose worker may look at the queue at any time; the files, the
-- environment and the parser of JSON behind the options, which are parameters; the failure of a thread's creation; and the other parts of the service
-- (inference, reconciliation, screens, HTTP, the runtime that connects the parts).
pub mod Prelude
pub mod Json
pub mod Cache
pub mod Journal
pub mod Lifecycle
pub mod Workers
pub mod Csv
pub mod Logger
pub mod Model
pub mod Telemetry
pub mod Retrieval
pub mod Options
