-- ===== src/Cli/Flow/Printed.antt =====
-- What a list of events prints and opens.
use Prim.Native.String.{◌++◌ as ◌+++◌}
use browser_web3_signer.Prelude.{
  Option, none, some, ◌≡◌, refl, String, List, [], ◌∷◌, ◌++◌, map, ap,
}
use browser_web3_signer.Core.Json.{Serde}
use browser_web3_signer.Core.Browser.{BrowserChoice, opened}
use browser_web3_signer.Core.Browser
use browser_web3_signer.Cli.{
  OpenMode, default, print_only, OutputFormat, text, emit, Host, Event, progress, opening, line,
  explorer_line,
}
use browser_web3_signer.Cli.Flow.{surface, open_url}

-- The lines that reach stdout, and the URLs that the system is asked to open.
unfoldable pub printed : List Event → List String
printed [] = []
printed (line s ∷ es) = s ∷ printed es
printed (progress s ∷ es) = printed es
printed (opening s ∷ es) = printed es

unfoldable pub opened_urls : List Event → List String
opened_urls [] = []
opened_urls (opening s ∷ es) = s ∷ opened_urls es
opened_urls (progress s ∷ es) = opened_urls es
opened_urls (line s ∷ es) = opened_urls es

pub printed-++ : (a b : List Event) → printed (a ++ b) ≡ printed a ++ printed b
unfolding printed
printed-++ [] b = refl
printed-++ (line s ∷ a) b = ap (λ x. s ∷ x) (printed-++ a b)
printed-++ (progress s ∷ a) b = printed-++ a b
printed-++ (opening s ∷ a) b = printed-++ a b

-- The line of a text under its title, if there is one.
abbrev pub titled : String → Option String → List String
titled title none = []
titled title (some s) = (title +++ s) ∷ []

pub explorer_line-titled : (page : Option String) → explorer_line page ≡ titled "Explorer: " page
unfolding explorer_line
explorer_line-titled none = refl
explorer_line-titled (some s) = refl

-- The pages that a command is to open, by its mode and the engine's choice.
unfoldable pub pages : OpenMode → BrowserChoice → String → List String
pages default Browser.default url = url ∷ []
pages _ _ url = []

pub opened_urls-++ : (a b : List Event) → opened_urls (a ++ b) ≡ opened_urls a ++ opened_urls b
unfolding opened_urls
opened_urls-++ [] b = refl
opened_urls-++ (opening s ∷ a) b = ap (λ x. s ∷ x) (opened_urls-++ a b)
opened_urls-++ (progress s ∷ a) b = opened_urls-++ a b
opened_urls-++ (line s ∷ a) b = opened_urls-++ a b

printed-lines : (ls : List String) → printed (map line ls) ≡ ls
unfolding printed
printed-lines [] = refl
printed-lines (x ∷ xs) = ap (λ ys. x ∷ ys) (printed-lines xs)

-- In text mode a result is its lines.
pub printed-emit :
    {serde : Serde} (host : Host serde) (m : OutputFormat) (ls : List String)
    (v : Serde.Value serde)
    → m ≡ text
    → printed (emit host m ls v) ≡ ls
unfolding emit
printed-emit host m ls v h = rw h (printed-lines ls)

pub surface_silent :
    (m : OpenMode) (c : BrowserChoice) (url : String) → printed (surface m c url) ≡ []
unfolding surface printed open_url opened
surface_silent print_only c url = refl
surface_silent default Browser.default url = refl
surface_silent default Browser.print url = refl

-- `--print` opens nothing; else the approval page is opened, once, unless the engine's choice is not to.
pub surface_opens :
    (m : OpenMode) (c : BrowserChoice) (url : String)
    → opened_urls (surface m c url) ≡ pages m c url
unfolding surface opened_urls open_url opened pages
surface_opens print_only c url = refl
surface_opens default Browser.default url = refl
surface_opens default Browser.print url = refl
