-- ===== src/Lib.antt =====
-- Picasu is a photo server: a Rust backend serves a gallery over HTTP, keeps its records in an
-- embedded database, and brings the records in line with the directories on disk by background
-- tasks.
--
-- The parts modelled here and how they interact:
--
-- * backend/src/auth/rate_limit.rs is Auth/RateLimit.antt: `Bucket` with the functions of its
--   `impl`, and `ban_delay`. Delay, Window and Ban prove its laws. Times are seconds on ℕ with the
--   source's saturating arithmetic written out at 2^64 - 1 and 2^32 - 1 (Prelude/Words).
-- * backend/src/auth/login_throttle.rs is Auth/LoginThrottle: State has the records and `new`;
--   Slots has `check`, `reserve`, `release` and `remaining`; Outcome has `record_failure`,
--   `record_success`, `sweep` and `enforce_caps`. Each login
--   (backend/src/router/post/users_authenticate.rs) calls `sweep` from time to time, then
--   `reserve`, and after the password check `release` with `record_failure`, or `record_success`;
--   Steps has the histories of calls. A `HashMap` is an association list with distinct keys
--   (Assoc.antt); `expect` is `Option`, whose `none` is the panic. Among entries that were seen at
--   the same time the model evicts the one that is first in its list, as the iterator of the
--   source's map decides.
-- * backend/src/auth/invites.rs is Auth/Invites, with `validate_user_id` of
--   backend/src/auth/users.rs in Auth/Users. `redeem_invite` looks at the user store three times,
--   and the model has an argument for each look; Claim is about the transaction on the invites,
--   Redeem about the whole call, Spent and History about series of calls, Race about a redemption
--   that another registration overtakes, Lifecycle about a creation and the redemption after it. Tables are lists of rows with distinct text keys
--   (Model/Text/Table).
-- * backend/src/auth/user_store.rs is Auth/UserStore: one function for each write (`delete_user`
--   is its `delete`). Counts and Keeps are about the number of administrators, Keys about the
--   rows, Admins and Runs about histories of writes, Tokens about token versions. `provision`
--   takes the answer of `validate_new_password`.
-- * backend/src/auth/revocations.rs is Auth/Revocations, with the clock as an argument.
-- * backend/src/tasks/queue/writer.rs is Tasks/Writer: Plan has the writer task's local variables
--   and what one pass over its deque does; System has the submitters, both tasks, the channels and
--   the watermarks as a step relation. Each step is one atomic action of the source between two
--   await points or loads; `fetch` and `send` are the two halves of `submit`. The lists `written`,
--   `transactions`, `cascaded` and `members` are ghosts. A barrier is a marker op and two loads of
--   the watermarks, which the theorems name by the states they are read in.
-- * backend/src/tasks/queue/intake.rs and worker.rs are Tasks/Intake: System has the submits, the
--   lanes and the workers as a step relation, in which `queued` holds all lanes, each first in,
--   first out; which lane is served next is left open. Drain is about the barrier of a scan job,
--   Reuse about generations. `processed` and `skipped` are ghosts.
-- * backend/src/tasks/queue/priority.rs is Tasks/Priority: `pick_lane` with one function per loop;
--   Picks, Starvation, Weights and Idle are about one pick and about series of picks. An `i32` is
--   a 32-bit word in two's complement with wrap-around.
-- * backend/src/model/expression.rs is Model/Expression: Filter has `generate_filter` and
--   HideMetadata has `generate_filter_hide_metadata`, with a function for each larger branch. A
--   `Vec<Expression>` is the type `Expressions`. The state that a filter reads (`DIR_ALBUM_CACHE`
--   of backend/src/process/dir_album.rs, in Process/DirAlbum, and the image home) is the record
--   `Files`; it is passed twice where the code reads it once when the filter is made and again
--   when it runs. Model/Records has the records, Model/Text the strings, as lists of code points.
-- * backend/src/model/asset.rs and metadata_record.rs are Model/Assets: the record of an asset, its
--   stored metadata and `to_metadata_record`; Compose has `compose_abstract_data`. The readers and
--   setters of abstract_data.rs are Model/Fields, its `compute_timestamp` is Model/Timestamp, and
--   `self_update` of album.rs is Model/Statistics (Own has the files that it counts, Sorted their order,
--   Update what it writes).
-- * backend/src/storage/asset_store.rs is Storage/AssetStore: the tables and their operations.
--   backend/src/tasks/batcher/flush_tree.rs is Storage/Flush: `flush_tables`, which the writer's
--   transactions call, with the marks that it leaves for albums (Process/DirAlbum/Cache, the writes
--   of dir_album.rs). Groups and Index have the tables' invariant, Removal and Refines the map from
--   paths to records that the tables stand for, Reads what is read after a write, Merge what the
--   writer's merge does to two flushes.
-- * backend/src/storage/files.rs is Storage/Files: whose a path is, and the write gate. `realpath`
--   is `std::fs::canonicalize(…).ok()` and `exists` is `Path::exists`; Ownership and Homes are the
--   laws.
-- * backend/src/router/auth.rs is Router: Sessions has the cookies' sessions, which read the user
--   store and the revocations, with the logout of backend/src/router/post/users_authenticate.rs;
--   Login has the sign-in of the same file, in two visits to the login tracker around the password
--   check (Floor has many at once as a step relation, Visits and Balance the slots that they hold,
--   Session and Rehash what a sign-in leaves);
--   Reauth has `GuardReauth` with the tracker of backend/src/router/put/users_password.rs;
--   Shares has share links and the presenter of a request (Live says what opens one, Access when one
--   does); Tokens has the bearer tokens for pages
--   and files, with the renewals in Tokens/Renew and their laws in Renewal and
--   AssetRenewal. A token's signature and encoding are the
--   parameter `decode`, which answers a token's claims if it verifies.
-- * backend/src/tasks/actor/album_index.rs is Tasks/AlbumIndex: the status slot, the job system
--   (System, with a phase for where each call stands) and the directories to scan (Roots).
--
-- Loops are structural: `ban_rounds` on the number of rounds, `merge` on the deque, `evict` on
-- fuel that starts at the size of the map, where each round but the last removes an entry.
--
-- The token's hash (blake3), the fresh token and the password's hash (Argon2) are arguments.
--
-- Not modelled: names of files that are not UTF-8, log lines, metrics, failures of the database and rows that do not decode, the
-- parsing of addresses, the locks around the tracker (a handler holds one for each call)
-- and around the index status (a worker's report is one step), start-up
-- and shutdown of the tasks: these are I/O or glue. Of the HTTP routes only the guards and renewals of
-- router/auth.rs, the sign-in and the logout are modelled. The processing of files, the configuration,
-- the other background tasks and the frontend are not modelled here.
pub mod Assoc
pub mod Auth
pub mod Model
pub mod Prelude
pub mod Process
pub mod Router
pub mod Storage
pub mod Tasks
