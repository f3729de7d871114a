-- ===== src/Lib.antt =====
-- A model of WASIBrowser: the renderer that hosts WebAssembly guests in tabs, and the SDK that the
-- guests are written with.
--
-- A guest describes its page by batches of operations. With sdk-rust/src/lib.rs it encodes them into
-- a buffer and hands that to the host by the import `submit`. renderer/src/abi.rs decodes the buffer
-- and keeps the operations in the guest's shared state until the UI thread applies them to the
-- engine's document. Further imports let a guest log, fetch, call a service and ask for a navigation.
-- Back to a guest go records of events, which the SDK decodes. The guests
-- examples/todo-rs/src/lib.rs and examples/search-rs/src/lib.rs are modelled, and the service that the
-- second one calls, search-server/src/main.rs.
--
-- Files:
--   Prelude      shared names, tests and lists over the native numbers
--   Bytes        bytes, little-endian words, and slices that can panic (`Res`)
--   Utf8, Text   `String::from_utf8_lossy` and the functions on `str` that the sources use
--   Map          `HashMap` and `HashSet` as association lists, the newest entry of a key in force
--   Abi          `Op`; the other parts of renderer/src/abi.rs are its child modules:
--     Decode       `decode_batch`; its closure `get_str`, loop body and match are definitions
--     Atoms        `AtomEntry`, `well_known_atoms`, and the lines of `apply_batches` on the table
--     Document     the engine's document, a parameter
--     Shared       `Shared` and the messages to the UI thread
--     Apply        `NodeMaps` and `apply_batches`: `apply_op` is the match on one operation
--     Rpc          the parts of `rpc_call` that build and read messages
--     Imports      the host imports of `try_load`, each a step of the shared state with effects
--     Kind, Events  `ev` and `EventOut`, with the record that `deliver_event` writes
--     DomEvents    `map_dom_event` on the engine's events as data; `Floats` narrows their numbers
--   Guest        `try_load`, `GuestRuntime`, and the call of a guest by `ShellEventHandler` of
--                renderer/src/ui.rs; Guest.Gestures bounds what a guest can do
--   Manifest     renderer/src/manifest.rs
--   Shell        `GwbDocument` of renderer/src/ui.rs. Its parts:
--     Titles, Chrome     the texts and nodes around the pages
--     Guests             calls of a tab's guest, and the results of the network
--     Navigation, Tabs   `navigate` and the history; opening, activating and closing tabs
--     Bookmarks, Console the bookmarks and the console's log
--     Actions            `process_chrome_actions`
--     Hits               `ShellEventHandler`; Hits.Origin tells where its actions come from, and
--                        Hits.Active runs it on the active tab
--     Driver, Ticks      a run of the engine's event driver with `handle_ui_event`,
--                        `check_observations`, and `poll` with its frames
--     Divider, Window    the drag of the console's divider, and `window_event`
--     Script, Lines      the commands of renderer/src/script.rs, and how it reads a script
--     Start              `new`, and what holds from there on
--     Strip              the abstract tab strip and its steps; Frames, Pages, Steps, Moves, Polls,
--                        Dispatches, Openings, Acting, Rounds, Scripted and Commands relate the
--                        operations to it, Safety puts them together
--   Sdk          `Batch`, the calls of the imports and `decode_events` of sdk-rust/src/lib.rs, with its
--                modules `atom` and `ev` as Sdk.Atom and Sdk.Kind
--   Wire         batches and requests on their way from the SDK to the host, and events back
--   Todo         `App` of examples/todo-rs/src/lib.rs: Start is `start`, Handle is `on_event`; Items and
--                Safety relate its maps and its count, Clicks is about a click on an item, Delivery runs
--                it on the host's events
--   SearchServer search-server/src/main.rs: Channel is `verify_channel`, Query is `search`, Corpus is
--                `CORPUS`, Http is `handle`; Http.Interop meets `rpc_call` of the renderer
--   SearchGuest  `App` of examples/search-rs/src/lib.rs: Css and Start are `CSS` and `start`, Handle is
--                the rest; Replies is about the calls that wait, Rendered and Texts about what is
--                written, and Answered, Shown and Results run it with the host and the server
--   Runs         runs on concrete inputs
--
-- How the parts interact. `navigate` resolves a target with `Manifest`, loads its module with `Guest`,
-- and applies what the guest submitted with `Abi.Apply`. An event on a page reaches the guest by
-- `handle_guest_event`; results of the network and requests for a navigation come back to the UI
-- thread as messages. The UI thread is one: it handles events and messages one after the other. The
-- engine's event driver is a tree (`Dispatch`) of the events that it hands to the handler.
--
-- State. A method on `&mut self` is a function from the old state to the new one. The mutex of
-- `Shared` is held by an import while it changes the state, so an import is one step. A call of a
-- guest is a tree (`Run`): the guest calls an import and goes on with the value it gets, until it
-- returns or traps. A call that never ends is not a run. What leaves the model, requests to the network
-- and messages to the UI thread, is a list of effects in order. The statics of a guest, its app and
-- the counter of `new_id`, are parts of the state that its handler passes on.
--
-- Numbers. A word is a number of ℕ; `as u16`, `as u32` and wrapping sums write the remainder out.
-- Offsets are `usize`: 64 bits in the host, where no sum of two 32-bit words overflows. A float is its
-- bits. An `i64` of the search server is its 64-bit pattern, and its subtraction wraps, as in a build for
-- release; so do the sums of scores.
--
-- Fuel and loops. The padding loop of `Batch.str` has 3 rounds of fuel, since at most 3 bytes are
-- missing to a multiple of 4. The loops over records and operations are recursion on their number or
-- list. The loop over a text in `from_utf8_lossy` and `trim_start_matches` has the length of the text
-- as fuel, and each round takes at least one byte; so have the loops of `matches` and `split` of the
-- search server. The 39 rounds of `decimal_u128` are the digits that a `u128` can have.
--
-- Not modelled. The engine (blitz), wasmtime, ed25519, SHA-256, base64, HTTP and JSON are libraries:
-- what the sources use of them is a parameter. Log lines, timing and threads have no effect on the
-- state modelled. Of the browser, the dumps of the document are left out, and so are the queue of
-- `GwbApplication` before there is a window, the logger, the file of the app key and the start of the
-- process. Of the search server, `main` is left out, which accepts connections and reads headers. The Go
-- code and the C SDK are outside the model. Rust's `parse` to a float is a parameter.
pub mod Prelude
pub mod Bytes
pub mod Utf8
pub mod Map
pub mod Text
pub mod Abi
pub mod Sdk
pub mod Todo
pub mod SearchServer
pub mod Wire
pub mod Guest
pub mod Manifest
pub mod Shell
pub mod Runs
pub mod SearchGuest
