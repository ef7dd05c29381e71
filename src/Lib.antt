-- ===== src/Lib.antt =====
-- browser-web3-signer: a localhost signer that asks a browser wallet for approval.
--
-- A caller registers a request (a connection, a transaction, a message) with an engine. The engine
-- keeps it in a store of pending requests, serves it over a localhost HTTP bridge, and opens the
-- browser at an approval page. The page fetches the request, asks the wallet, and posts the result,
-- which resolves the future that the caller awaits. A future that times out or is cancelled takes
-- its request out of the store. The `serve` command mounts a control API on the same bridge: it
-- parses a request from JSON, binds it to the configured account, submits it, checks the wallet's
-- result and answers.
--
-- Prelude: the names that all files share; Prelude.Results (`Result` and its combinators),
--   Prelude.Dict (`HashMap` as an association list), Prelude.Decimal (`Display` and `FromStr` of
--   unsigned integers), Prelude.Text and Prelude.Lists (functions on texts and vectors), all of Rust's
--   standard library.
-- Core.Json: `serde_json` as a record of operations with their laws. Core.Oneshot: the channel of
--   `tokio::sync::oneshot` in the same way. Both are parameters of every model that uses them;
--   Examples.Json and Examples.Parts give concrete ones.
-- Core.Store: crates/browser-web3-signer-core/src/pending_store.rs. The state holds the entries and
--   the channels; an entry's sender is the number of its channel. Core.Store.Laws and
--   Core.Store.Invariant are its lemmas.
-- Core.Engine: core/src/engine.rs. `prepare`, `poll` (one poll of the future of `prepare`), `submit`,
--   `start_with`, `shutdown`; Core.Engine.Bind is `bind_listener`. Core.Engine.System is the engine
--   among its tasks: a step is one operation under a lock of the code (a registration, a post, a
--   cancellation, a poll that resolves, a future that is dropped), and a run is any sequence of
--   steps. An id of a new request is one that no earlier request had, as for `Uuid::new_v4`.
--   Core.Engine.Invariant, Preserve, Settle, Reach, Answers, Abandoned and Start hold the proofs.
--   Core.Engine.Lifecycle is the specification of one request, a state machine without entries,
--   channels and timers, and Core.Engine.Lifecycle.Refines its relation to the steps (Lifecycle.Dropped
--   holds the moves of a post and of a cancellation). Core.Engine.Submit is on `submit` among the other
--   tasks. Core.Engine.Ask is what the typed operations of the signers share.
-- Core.Http: the handlers of core/src/http.rs. `post_complete` takes what other tasks do between its
--   two looks at the store.
-- Core.Types, Core.Parse, Core.Errors, Core.Config, Core.Browser: the files of those names in
--   crates/browser-web3-signer-core/src. The traits `Request` and `ExpectedAccount` are records.
-- Evm.Domain, Evm.Request: crates/browser-web3-signer-evm/src/domain.rs and types.rs. Evm.Deps holds
--   `alloy` and `url` as operations with their laws. `RequestMeta::new` draws an id, which
--   `from_json` takes as an argument. Evm.Config is config.rs with the chain table, and Evm.Signer is
--   `EvmSigner` of signer.rs.
-- Btc.Domain, Btc.Request, Btc.Wire, Btc.Account, Btc.Answer: crates/browser-web3-signer-btc/src: the
--   domain types, the builders of requests, their JSON, the expected account, and the checks of what
--   a wallet returned (signer.rs). Btc.Signer is `BtcSigner`. Btc.Amount is
--   `Sats::to_btc_string`, and Btc.Amount.Reader the reader that its text is compared with. Btc.Deps
--   holds the `bitcoin` crate.
-- Tron.Domain, Tron.Request, Tron.Wire, Tron.Account: crates/browser-web3-signer-tron/src in the same
--   way; Tron.Address, Tron.Bounds, Tron.Wire.RoundTrip and Tron.Wire.Sound hold
--   the proofs. Tron.Config is config.rs and Tron.Signer
--   `TronSigner`. Core.Bytes is core/src/bytes.rs.
-- Serve: crates/browser-web3-signer/src/serve.rs, for the request type of any chain. The wait in
--   `submit` is a function of the engine that stands for all the other tasks until the last poll.
--   Serve.Bound says which request a body is, and why it is refused.
-- Harness: crates/browser-web3-signer/src/bin/common/harness.rs, the routes of the end-to-end suite. The
--   task that `create_request` spawns is a future that `run_task` polls.
-- Cli: crates/browser-web3-signer/src/main.rs and output.rs. A command is a run: the engine after it,
--   its events in order (a line to stderr, a URL for the system's browser, a line to stdout) and its
--   result once it has one. Cli.Flow is flow.rs; Cli.Evm, Cli.Btc and Cli.Tron are evm.rs, btc.rs and
--   tron.rs from the parsed arguments on; Cli.Serve is `serve::run` and `run_serve`. Cli.Flow.Laws holds
--   the lemmas on all commands. The files, `Url::parse`, the pretty printer and the derived reader of
--   a typed-data file are parameters (Cli.Host).
-- Examples: concrete runs of all these.
--
-- A uuid is its number, a `u64` or `u16` is a natural number that its parser bounds. The
-- decimal digits of n are found with n as the fuel, and Prelude.Decimal.RoundTrip shows that it is
-- enough. No other definition runs on fuel. Time is the flag that says whether the deadline has passed.
--
-- Not modelled: the approval pages (JavaScript), the Go and TypeScript bindings, the routing and the
-- CORS layer of `axum`, the reading of arguments by `clap`, logging, panics of a poisoned lock, the
-- formats of amounts that call `alloy`, and what `Url::parse` does to an approval URL (it drops the
-- port 80).
pub mod Prelude
pub mod Core
pub mod Evm
pub mod Btc
pub mod Tron
pub mod Serve
pub mod Harness
pub mod Cli
pub mod Examples
