-- ===== src/Lib.antt =====
-- vanity-manager: redirects for vanity URLs. Rules and the metadata of hosts live in a key-value
-- store, are pushed to Akamai EdgeKV, and are looked up there by an EdgeWorker or, as a fallback,
-- by a redirect handler.
--
-- The parts and how they interact. The admin API (admin-api/) changes rules in the store through a
-- backend (shared/src/store.rs: Spin's own store or NATS over HTTP) and pushes each change to
-- EdgeKV (shared/src/ekv.rs) or leaves a pending marker in the store (shared/src/sync.rs). The
-- reconcile worker (reconcile-worker/src/lib.rs) drains these markers. The redirect handler
-- (redirect-handler/src/lib.rs) answers from the store.
--
-- Which module models which file, with the source's names for definitions unless said otherwise:
-- - Model: shared/src/model.rs. An i64 is a ℤ. normalize_path is with_slash, collapse (the
--   replacement loop) and without_slash; collapse has fuel, and the length of the text is enough,
--   as each round shortens it.
-- - Keys: shared/src/keys.rs. Kv: shared/src/kv.rs.
-- - Exec.Keeps and Exec.Returns: rules for what every step of a call keeps, and for what a call
--   returns. The modules named Frame (Store.Frame, Kv.Frame, Ekv.Frame, Sync.Frame,
--   Sync.Drain.Frame, Admin.Frame) say which properties of the store the steps of a part keep;
--   Sync.Rules says so of a stored rule, which a push may stamp again.
-- - Store: the two backends of shared/src/store.rs; the methods of NatsClient are nats_get and so
--   on. Store.Laws is the interface that the clients use: a call that succeeds has read or written
--   one map from keys to bytes. Store.Spin fills it from the documented behaviour of Spin's store.
--   IsApart, Answers and Accepts are the further conditions that some clients ask for.
-- - Subject: the NATS subject encoding of shared/src/store.rs. decode_bytes reads the bytes one
--   after another with what is left to skip.
-- - Ekv: the EdgeKV client of shared/src/ekv.rs; Ekv.Items has the names of items, Ekv.Manifest
--   the prefix manifest, Ekv.Requests the log of the requests that are sent, Ekv.Shards how the
--   manifest is cut and written.
-- - Sync: write-through of shared/src/sync.rs, Sync.Drain: drain_pending and the reconcile worker.
-- - Resolve: redirect-handler/src/lib.rs. An answer is a value, not the bytes of a response.
--   Resolve.Managed is the way from opening the store to the rules of a managed host.
-- - Admin: the shared parts of admin-api/src/handlers.rs, Admin.Rules the handlers of rules,
--   Admin.Import the bulk import, Admin.Import.Guard its lock, Admin.Upkeep mark_synced and
--   clear_pending, Admin.Hosts hosts, statistics and pending markers, Admin.TestLookup the test
--   lookup, Admin.Pages pages, styles and health. A reply is a status with a value, or with the
--   text of an error.
-- - Admin.Storage: admin-api/src/storage.rs, Admin.Snapshot: admin-api/src/snapshot.rs,
--   Admin.Routes: admin-api/src/lib.rs. The order of the routes is a list; what Spin's Router
--   makes of it, and the texts of include_str!, are parameters.
-- - Prelude: text as lists of code points, UTF-8, hexadecimal and decimal text, i64, lists and
--   tests. Exec: results, calls that fail, and Env, which holds what the program calls outside of
--   the repository (Spin's variables, store and HTTP, chrono, rand, serde_json, the cryptographic
--   crates, the Unicode tables). All of it is a parameter. Tests has an Env in memory.
--
-- State is passed on explicitly: a call takes a world and returns a result with the next world,
-- also after an error. Functions of the source that report no error are maps of worlds. The
-- futures that join_all runs concurrently run one after another here, all of them before the first
-- outcome is settled.
--
-- Bounds. Counters of u64 and usize that count the elements of a list in memory are natural
-- numbers. usize is read and added as 32 bits where a request gives it (wasm32, release build, so
-- it wraps around); u64 counts of rules saturate; the counters in the store are i64 and wrap
-- around. Loops over lists are structural recursion.
--
-- Not modelled: log lines, the bytes of responses and the wording of error texts that hold values,
-- shared/src/lib.rs, which only re-exports, the EdgeWorker, the pages and the tools, which are not
-- Rust. Parameters, as they are not code of the repository: Spin's router, store, variables and
-- HTTP client, serde_json, chrono, rand, the cryptographic crates, Url::parse and the Unicode
-- tables.
pub mod Prelude
pub mod Model
pub mod Keys
pub mod Subject
pub mod Exec
pub mod Store
pub mod Kv
pub mod Ekv
pub mod Sync
pub mod Resolve
mod Tests
pub mod Admin
