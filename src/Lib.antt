-- ===== src/Lib.antt =====
-- A verification library for trail-stash: an always-on replica that keeps encrypted location trails in
-- memory, wakes subscribed devices when an entry arrives, and serves the ciphertext over HTTP.
--
-- The program is the Rust crate under `rust/`. A device registers a namespace over the control API;
-- the node (`rust/src/node.rs`) imports it into the iroh-docs replica and watches it. An arriving entry
-- is entered in the content index (`rust/src/content.rs`) and in the map of tracked entries; the settle
-- loop fetches its bytes and wakes the subscribers (`rust/src/subscriptions.rs`), and a periodic sweep
-- releases what the retention policy (`rust/src/retention.rs`) no longer needs. Writers may upload
-- content, and readers download it, through the same API.
--
-- Which file models what (a function keeps its name; a `&mut self` method returns the state after it):
--   Base, HashMap, HashSet, Bits, Text, Result   the standard library, as far as the crate uses it
--   Retention, Retention/Key       rust/src/retention.rs: policy, selection and fix keys
--   Content                        rust/src/content.rs: `ContentIndex`
--   Subscriptions                  rust/src/subscriptions.rs: `NamespaceRegistry`
--   Api, Push, Auth, Config, Mls   the file of rust/src of that name
--   Main, Boot                     rust/src/bin/trail-stash.rs: the secret key, and what `main` runs
--     Boot/Ends                    the whole of `main`, `init_tracing` and `shutdown_signal`
--   LogRedaction                   rust/src/log_redaction.rs; Text/Address the parsers of addresses
--   Telemetry                      rust/src/telemetry.rs, and the console format of the binary
--   Waker                          rust/src/waker.rs, and `build_waker` of rust/src/bin/trail-stash.rs
--   Iroh                           the iroh crates: parameters, with their documented behaviour
--   Node                           rust/src/node.rs: `StashNode`, `fetch_content`, `wake_for`
--     Node/Receive                 one event of `spawn_watch`
--     Node/Settle                  `settle_once` and a tick of `run_settle_loop`
--     Node/Prune                   `prune_once`
--     Node/Serve                   `content_stats`, `content_bytes`, `put_content`
--     Node/Collect                 the garbage collection that `spawn` sets up
--     Node/Register                `register`, `unsubscribe`, `sync_now`
--     Node/Spawn                   `spawn`: its arguments and its errors
--     Node/Turns                   the watcher, the settle loop and the sweep between their awaits
--     Node/Turns/Upload            an upload between its awaits, and what other tasks do meanwhile
--     Node/Settle/Blind            from released entries to the requests that are sent for them
--     Node/Abstract                what each operation promises, with no map, no set and no count
--     Node/Watchers                the watchers, their ends, and what else happens meanwhile
--     Node/Sweep                   proofs on the whole of `prune_once`
--     Node/Run                     the state that `spawn` builds, and its operations one after the other
--   Http                           rust/src/node.rs: `serve_control_api`, the guard and the handlers
--   Tests                          the theorems at concrete inputs
-- The other children hold proofs, named for what they prove.
--
-- How the code corresponds: a `HashMap` is a list of pairs with distinct keys and a `HashSet` a list, so
-- the iteration order, which Rust leaves open, is some fixed order. Identifiers and hashes are lists of
-- bytes, a text is a list of code points. Saturating arithmetic and the widths of parsed integers are
-- written out; plain sums of clock readings in milliseconds are not wrapped, since they stay far below
-- 2 ^ 64. Every loop of the code runs over a list, so every function here is total and none needs fuel;
-- the loops that run until the process exits are modelled by their rounds. The time is an argument.
--
-- In Node/Run each operation of the node is one step, as if nothing else happened meanwhile; Node/Turns
-- cuts the watcher, the settle loop, the sweep and an upload into the sections that hold a lock, which may
-- take turns in any order with each other and with whatever the other tasks do to the rest of the node.
-- Not modelled: the router and the gossip engine in `spawn`, the exporters, providers and spans of tracing
-- and OpenTelemetry, the extraction of paths and JSON bodies by axum, the replies to a push, and how a
-- signal reaches its handler. The node also logs the calls of `spawn_watch`, which the struct does not.
-- The outcome `AuthOutcome::Ok` is spelled `allowed`.
pub mod Base
pub mod HashMap
pub mod HashSet
pub mod Bits
pub mod Boot
pub mod Text
pub mod Retention
pub mod Content
pub mod Subscriptions
pub mod Result
pub mod Push
pub mod Api
pub mod Auth
pub mod Config
pub mod Mls
pub mod Iroh
pub mod Node
pub mod Http
pub mod Waker
pub mod LogRedaction
pub mod Telemetry
pub mod Main
pub mod Tests
