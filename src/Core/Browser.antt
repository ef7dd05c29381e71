-- ===== src/Core/Browser.antt =====
-- core/src/browser.rs: the approval URL of a request, and whether a browser is opened on it. The `url`
-- crate's parse of the URL is left out: a URL is the text it is parsed from.
use Prim.Native.String.{◌++◌}
use browser_web3_signer.Prelude.{ℕ, String, Option, none, some}
use browser_web3_signer.Prelude.Decimal.{decimal}

pub data UrlKind : Type 0 where
  connect sign : UrlKind

pub data BrowserChoice : Type 0 where
  default print : BrowserChoice

unfoldable pub segment : UrlKind → String
segment connect = "connect"
segment sign = "sign"

-- `show_id` is the `uuid` crate's `Display`.
unfoldable pub build_url : (ℕ → String) → ℕ → ℕ → UrlKind → String
unfolding segment decimal
build_url show_id port id kind =
    "http://127.0.0.1:" ++ (decimal port ++ ("/" ++ (segment kind ++ ("/" ++ show_id id))))

-- The URL that `open` hands to the operating system, if any.
unfoldable pub opened : String → BrowserChoice → Option String
opened url print = none
opened url default = some url
