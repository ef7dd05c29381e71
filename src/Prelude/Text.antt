-- ===== src/Prelude/Text.antt =====
-- The `str` functions of the standard library that the domain types call.
use Prim.Native.Nat.{ℕ, ◌+◌}
use Prim.Native.Char.{code}
use Prim.Native.String.{String}
use mathlib.Core.Path.{◌≡◌, refl, ap, ◌∙◌}
use mathlib.Core.Bool.{Bool, true, false, ◌&&◌, ◌||◌}
use native.Mathlib.Omega.{arith}
use browser_web3_signer.Prelude.Tests.{◌==◌, leb, if◌then◌else◌}

abbrev pub between : ℕ → ℕ → ℕ → Bool
between lo hi n = leb lo n && leb n hi

abbrev pub lower : ℕ → ℕ
lower n = if between 65 90 n then n + 32 else n

-- `s.to_ascii_lowercase() == t`.
unfoldable pub equals_lowercase : String → String → Bool
equals_lowercase String.[] String.[] = true
equals_lowercase (String.◌∷◌ c s) (String.◌∷◌ d t) =
    (lower (code c) == code d) && equals_lowercase s t
equals_lowercase _ _ = false

-- `char::is_whitespace`.
unfoldable pub is_whitespace : ℕ → Bool
is_whitespace n =
    between 9 13 n
    || (n == 32)
    || (n == 133)
    || (n == 160)
    || (n == 5760)
    || between 8192 8202 n
    || between 8232 8233 n
    || (n == 8239)
    || (n == 8287)
    || (n == 12288)

unfoldable pub trim_start : String → String
unfolding is_whitespace
trim_start String.[] = String.[]
trim_start (String.◌∷◌ c s) =
    let rest = trim_start s in if is_whitespace (code c) then rest else String.◌∷◌ c s

-- What stays of a character before a text that is trimmed already.
unfoldable pub keep : ℕ → String → String → String
keep n full String.[] = if is_whitespace n then String.[] else full
keep n full (String.◌∷◌ d t) = full

unfoldable pub trim_end : String → String
unfolding keep
trim_end String.[] = String.[]
trim_end (String.◌∷◌ c s) = let rest = trim_end s in keep (code c) (String.◌∷◌ c rest) rest

unfoldable pub trim : String → String
unfolding trim_start trim_end
trim s = trim_end (trim_start s)

-- `u8::is_ascii_hexdigit`, and `s.bytes().all(..)` of it: the bytes of a longer character are none.
abbrev pub is_hex : ℕ → Bool
is_hex n = between 48 57 n || between 65 70 n || between 97 102 n

unfoldable pub all_hex : String → Bool
all_hex String.[] = true
all_hex (String.◌∷◌ c s) = is_hex (code c) && all_hex s

&&_true : (a b : Bool) → (a && b) ≡ true → (a ≡ true) × (b ≡ true)
&&_true true true h = (refl, refl)
&&_true true false h = cc
&&_true false b h = cc

hex_visible : (n : ℕ) → is_hex n ≡ true → is_whitespace n ≡ false
unfolding is_whitespace
hex_visible n h = ground arith

keep_hex : (n : ℕ) (full s : String) → is_hex n ≡ true → keep n full s ≡ full
unfolding keep
keep_hex n full String.[] h = rw (hex_visible n h) refl
keep_hex n full (String.◌∷◌ c s) h = refl

trim_end-hex : (s : String) → all_hex s ≡ true → trim_end s ≡ s
unfolding trim_end all_hex
trim_end-hex String.[] h = refl
trim_end-hex (String.◌∷◌ c s) h =
    let (first, rest) = &&_true (is_hex (code c)) (all_hex s) h in
    keep_hex (code c) _ (trim_end s) first ∙ ap (String.◌∷◌ c) (trim_end-hex s rest)

-- A text of hex digits has nothing to trim.
pub trim-hex : (s : String) → all_hex s ≡ true → trim s ≡ s
unfolding trim trim_start all_hex trim_end
trim-hex String.[] h = refl
trim-hex (String.◌∷◌ c s) h =
    let (first, rest) = &&_true (is_hex (code c)) (all_hex s) h in
    rw (trim_start, hex_visible (code c) first) (trim_end-hex (String.◌∷◌ c s) h)
