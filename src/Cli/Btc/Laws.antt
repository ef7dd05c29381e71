-- ===== src/Cli/Btc/Laws.antt =====
-- crates/browser-web3-signer/src/btc.rs: what `sign-psbt` prints.
use Prim.Native.String.{◌++◌}
use mathlib.Core.List.{◌++◌ as ◌+++◌}
use mathlib.Core.Option
use browser_web3_signer.Prelude.{
  ℕ, ◌≡◌, ◌⊎◌, refl, ap, ◌∙◌, String, Bool, Option, none, some, ◌∷◌, ok, map_err-ok, map_err,
  and_then,
}
use browser_web3_signer.Core.Json.{Serde}
use browser_web3_signer.Core.Config.{Var}
use browser_web3_signer.Core.Types.{Uuid, RequestResult}
use browser_web3_signer.Core.Oneshot.{Oneshot}
use browser_web3_signer.Core.Engine.{Engine, submit}
use browser_web3_signer.Core.Engine.Bind.{Tcp}
use browser_web3_signer.Btc.Deps.{Deps}
use browser_web3_signer.Btc.Domain.{block_explorer}
use browser_web3_signer.Btc.Request.{BtcRequest, SignPsbtParams, new_sign_psbt}
use browser_web3_signer.Btc.Answer.{SignedPsbt, parse_signed_psbt, btc_request}
use browser_web3_signer.Btc.Answer.Laws.{parse_signed_psbt_same}
use browser_web3_signer.Cli.{text, Host, Run, signer, explorer_line}
use browser_web3_signer.Cli.Flow.Printed.{printed, printed-emit, titled, explorer_line-titled}
use browser_web3_signer.Cli.Flow.Laws.{built_command_answered}
use browser_web3_signer.Cli.Btc.{
  Display, BtcCli, run_sign_psbt, signed, psbt_lines, tx_explorer, txid_line,
}

module _ {L Routes : Type 0} (deps : Deps) (net : Oneshot RequestResult) (serde : Serde)
    (host : Host serde) (display : Display deps) (env : Var) (show_id : ℕ → String) (tcp : Tcp L)
    (wait : Engine (BtcRequest deps) net Routes → Engine (BtcRequest deps) net Routes)
    (elapsed : Bool) (fresh : Uuid) (cli : BtcCli deps net Routes) (p : SignPsbtParams deps) where
  open deps use {compute_txid, serialize_hex, show_txid}

  abbrev pub done : Run (Engine (BtcRequest deps) net Routes) (Unit {0})
  done = run_sign_psbt deps net serde host display env show_id tcp wait elapsed fresh cli p

  abbrev pub page : SignedPsbt deps → Option String
  page s =
      and_then s.txid
        (λ t. and_then (block_explorer p.network) (λ base. host.url (base ++ show_txid t)))

  txid_line-titled :
      (t : Option deps.Txid)
      → txid_line deps net serde host display env show_id tcp wait elapsed fresh cli t
        ≡ titled "Txid: " (Option.map show_txid t)
  unfolding txid_line
  txid_line-titled none = refl
  txid_line-titled (some t) = refl

  -- In text mode, a `sign-psbt` that succeeds prints the signed PSBT of the very transaction that it was given, then the transaction's own id if the wallet broadcast it, then that id's page in the explorer of the network, and nothing else.
  pub sign_psbt_printed :
      cli.ctx.output ≡ text
      → done.result ≡ some (ok tt)
      → (r : BtcRequest deps) × (raw : String) × (s : SignedPsbt deps) × (new_sign_psbt deps
            (record { id = fresh })
            p
          ≡ ok r)
        × (submit net
              (btc_request serde deps env show_id)
              show_id
              tcp
              wait
              elapsed
              r
              cli.signer.engine
            ≡ (some (ok raw), done.engine))
        × (compute_txid s.psbt ≡ compute_txid p.psbt)
        × ((s.txid ≡ none) ⊎ (s.txid ≡ some (compute_txid p.psbt)))
        × (printed done.events
            ≡ ("PSBT: " ++ serialize_hex s.psbt)
              ∷ (titled "Txid: " (Option.map show_txid s.txid) +++ titled "Explorer: " (page s)))
  unfolding run_sign_psbt signed psbt_lines tx_explorer printed
  sign_psbt_printed mode h =
      let (r, raw, s, built, answered, read, shown) =
        built_command_answered net (btc_request serde deps env show_id) show_id tcp cli.ctx.opens
          wait elapsed cli.signer.engine
          (λ x. map_err signer (parse_signed_psbt serde deps p.psbt x))
          (signed deps net serde host display env show_id tcp wait elapsed fresh cli p.network)
          (new_sign_psbt deps (record { id = fresh }) p) h in
      let parsed = map_err-ok signer (parse_signed_psbt serde deps p.psbt raw) read in
      let (same, broadcast) = parse_signed_psbt_same serde deps p.psbt raw s parsed in
      (
        r,
        raw,
        s,
        built,
        answered,
        same,
        broadcast,
        shown
            ∙ printed-emit host cli.ctx.output _ _ mode
            ∙ ap (λ ls. ("PSBT: " ++ serialize_hex s.psbt) ∷ (ls +++ explorer_line (page s)))
                (txid_line-titled s.txid)
            ∙ ap
                (λ ls.
                  ("PSBT: " ++ serialize_hex s.psbt)
                  ∷ (titled "Txid: " (Option.map show_txid s.txid) +++ ls))
                (explorer_line-titled (page s)),
      )
