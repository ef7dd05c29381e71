-- ===== src/Cli/Evm.antt =====
-- crates/browser-web3-signer/src/evm.rs: the EVM subcommands. A command takes the fresh id of its
-- request.
pub mod Laws
pub mod Silent
use Prim.Native.String.{◌++◌}
use browser_web3_signer.Prelude.{
  ℕ, String, Bool, Option, none, some, List, [], ◌∷◌, Result, ok, err, ◌>>=◌, map_err, and_then,
}
use browser_web3_signer.Core.Json.{Serde}
use browser_web3_signer.Core.Bytes.{
  Hex, TxHash, Signature, tx_hash_from_str, signature_from_str, to_hex_prefixed,
}
use browser_web3_signer.Core.Config.{Var, preferred}
use browser_web3_signer.Core.Types.{Uuid, RequestMeta, RequestResult}
use browser_web3_signer.Core.Oneshot.{Oneshot}
use browser_web3_signer.Core.Engine.{Engine}
use browser_web3_signer.Core.Engine.Bind.{Tcp}
use browser_web3_signer.Evm.Deps.{Deps}
use browser_web3_signer.Evm.Domain.{ChainId, Wei, CallData, address_text}
use browser_web3_signer.Evm.Config.{port, default_chain_id, chain_config, ChainConfig}
use browser_web3_signer.Evm.Request.{
  EvmRequest, ConnectParams, TypedData, SignableMessage, SendTransactionParams, text, raw,
}
use browser_web3_signer.Evm.Request
use browser_web3_signer.Evm.Request.Account.{evm_request}
use browser_web3_signer.Evm.Signer.{EvmSigner, chain_or_default}
use browser_web3_signer.Evm.Signer
use browser_web3_signer.Cli.{
  CliContext, CliError, context, unreachable, Event, Host, emit, optional, explorer_line, Run,
  browser_choice,
}
use browser_web3_signer.Cli.Flow.{failed, read_signed, conclude, approve}

module _ (serde : Serde) where
  open serde use {Value}

  pub record TypedDataFile : Type 0 where
    pub domain : Value
    pub types : Value
    pub primary_type : String
    pub message : Value

module _ (serde : Serde) (deps : Deps) where
  open deps use {Address, Bytes, Url}

  pub data EvmCommand : Type 0 where
    connect :
        (chain : Option ChainId) (address : Option Address)
        → (rpc_url : Option Url) (chain_name : Option String) → EvmCommand
    send_transaction :
        (to : Option Address) (from : Option Address)
        → (value : Option (Wei deps)) (calldata : Option (CallData deps)) → (chain : Option ChainId)
        → (gas_limit max_fee_per_gas max_priority_fee_per_gas : Option (Wei deps)) → EvmCommand
    sign_message :
        (message : Option String) (bytes : Option Bytes)
        → (address : Option Address) (chain : Option ChainId) → EvmCommand
    sign_typed_data :
        (file : String) → (address : Option Address) (chain : Option ChainId) → EvmCommand

  -- `clap` requires one of the two.
  unfoldable pub signable :
      Option String → Option Bytes → Result (SignableMessage serde deps) CliError
  signable (some t) b = ok (text t)
  signable none (some b) = ok (raw b)
  signable none none = err (unreachable "clap requires --message or --raw")

  module _ (net : Oneshot RequestResult) (Routes : Type 0) where
    pub record EvmCli : Type 0 where
      pub signer : EvmSigner serde deps net Routes
      pub ctx : CliContext

-- The signer is made from the environment: `debug` is the `{:?}` of a text.
module _ {Routes : Type 0} (serde : Serde) (deps : Deps) (net : Oneshot RequestResult) where
  unfoldable pub new :
      (String → String)
      → (web_ui : String) → (port_var chain_var : Var) → CliContext
      → EvmCli serde deps net Routes
  unfolding default_chain_id browser_choice
  new debug web_ui port_var chain_var ctx = record {
    signer =
        Signer.new serde deps net web_ui (preferred (port debug port_var))
          (default_chain_id chain_var) (browser_choice ctx.opens);
    ctx = ctx;
  }

  module _ {L : Type 0} (host : Host serde) (hex : Hex) (show_id : ℕ → String) (tcp : Tcp L)
      (parse_typed_data : String → Result (TypedDataFile serde) String)
      (wait : Engine (EvmRequest serde deps) net Routes → Engine (EvmRequest serde deps) net Routes)
      (elapsed : Bool) (fresh : Uuid) (cli : EvmCli serde deps net Routes) where
    open serde use {string, object, empty, insert}
    open deps use {Address, Bytes, Url, show_address}

    abbrev pub Done : Type 0
    Done = Run (Engine (EvmRequest serde deps) net Routes) (Unit {0})

    abbrev pub meta : RequestMeta
    meta = record { id = fresh }

    abbrev pub on : Option ChainId → ChainId
    on c = chain_or_default serde deps net cli.signer c

    -- The approval of a request, read as a domain type, and its result shown.
    abbrev pub approved :
        {T : Type 0}
        → EvmRequest serde deps
        → (String → Result T String)
        → String
        → (T → List Event)
        → Done
    approved r from_str what shown = conclude (read_signed from_str what) shown (
        approve net (evm_request serde deps show_id) show_id tcp cli.ctx.opens wait elapsed r
          cli.signer.engine)

    unfoldable pub connected : Address → List Event
    unfolding emit
    connected a =
        emit host cli.ctx.output (("Connected: " ++ show_address a) ∷ [])
          (object (insert "address" (string (show_address a)) empty))

    unfoldable pub run_connect : Option ChainId → Option Address → Option Url → Option String → Done
    unfolding connected
    run_connect c a u n =
        approved
          (Request.connect meta
            (record { chain_id = some (on c); address = a; rpc_url = u; chain_name = n }))
          (address_text deps) "address" connected

    unfoldable pub tx_explorer : ChainId → TxHash → Option String
    unfolding chain_config
    tx_explorer c h =
        and_then (and_then (chain_config c) ChainConfig.block_explorer)
          (λ base. host.url (base ++ ("/tx/" ++ to_hex_prefixed hex h.bytes)))

    unfoldable pub sent : ChainId → TxHash → List Event
    unfolding emit tx_explorer optional
    sent c h =
        emit host cli.ctx.output
          (("Tx hash: " ++ to_hex_prefixed hex h.bytes) ∷ explorer_line (tx_explorer c h))
          (object (
            insert "explorer" (optional host (tx_explorer c h))
              (insert "txHash" (string (to_hex_prefixed hex h.bytes)) empty)))

    unfoldable pub run_send_transaction : ChainId → SendTransactionParams serde deps → Done
    unfolding sent
    run_send_transaction c p =
        approved (Request.send_transaction meta p) (tx_hash_from_str hex) "tx hash" (sent c)

    unfoldable pub signed : Signature → List Event
    unfolding emit
    signed s =
        emit host cli.ctx.output (("Signature: " ++ to_hex_prefixed hex s.bytes) ∷ [])
          (object (insert "signature" (string (to_hex_prefixed hex s.bytes)) empty))

    unfoldable pub sign : EvmRequest serde deps → Done
    unfolding signed
    sign r = approved r (signature_from_str hex) "signature" signed

    -- A typed-data file, read and parsed.
    unfoldable pub read_typed_data : String → Result (TypedData serde deps) CliError
    read_typed_data file = do
      contents ← map_err (context ("reading typed-data file " ++ file)) (host.read_file file)
      t ← map_err (context "parsing typed-data JSON") (parse_typed_data contents)
      ok (record {
        domain = t.domain;
        types = t.types;
        primary_type = t.primary_type;
        message = t.message;
      })

    unfoldable pub sign_typed :
        Option Address → Option ChainId → Result (TypedData serde deps) CliError → Done
    unfolding sign
    sign_typed a c (err x) = failed cli.signer.engine x
    sign_typed a c (ok t) = sign (Request.sign_typed_data meta (some (on c)) t a)

    unfoldable pub sign_signable :
        Option Address → Option ChainId → Result (SignableMessage serde deps) CliError → Done
    unfolding sign
    sign_signable a c (err x) = failed cli.signer.engine x
    sign_signable a c (ok m) = sign (Request.sign_message meta (some (on c)) m a)

    unfoldable pub run : EvmCommand serde deps → Done
    unfolding run_connect run_send_transaction sign_signable signable sign_typed read_typed_data
    run (connect c a u n) = run_connect c a u n
    run (send_transaction to from value calldata c gas fee tip) =
        run_send_transaction (on c) (record {
          to = to;
          from = from;
          value = value;
          calldata = calldata;
          chain_id = some (on c);
          gas_limit = gas;
          max_fee_per_gas = fee;
          max_priority_fee_per_gas = tip;
        })
    run (sign_message message bytes a c) = sign_signable a c (signable serde deps message bytes)
    run (sign_typed_data file a c) = sign_typed a c (read_typed_data file)
