-- ===== src/Core/Bytes.antt =====
-- core/src/bytes.rs: byte strings, transaction hashes and signatures, as hex with and without `0x`.
-- The `hex` crate is not in the repository, so it is a parameter; `debug` is `Debug` of a text.
pub mod Laws
use Prim.Native.Char.{code}
use Prim.Native.String.{◌++◌}
use browser_web3_signer.Prelude.{
  ℕ, ◌≡◌, refl, String, List, [], ◌∷◌, Result, ok, err, ◌>>=◌, map_err, map_ok, ◌==◌, ◌&&◌,
  if◌then◌else◌, length,
}

pub record Hex : Type 0 where
  pub decode : String → Result (List ℕ) String
  pub encode : List ℕ → String
  pub debug : String → String
  pub decode-encode : (b : List ℕ) → decode (encode b) ≡ ok b

pub record HexData : Type 0 where
  pub bytes : List ℕ

pub record TxHash : Type 0 where
  pub bytes : List ℕ

pub record Signature : Type 0 where
  pub bytes : List ℕ

-- `s.strip_prefix("0x").unwrap_or(s)`.
unfoldable pub strip_0x : String → String
strip_0x (String.◌∷◌ c (String.◌∷◌ d s)) =
    if (code c == b'0') && (code d == b'x') then s else String.◌∷◌ c (String.◌∷◌ d s)
strip_0x s = s

module _ (hex : Hex) where
  open hex use {decode, encode, debug, decode-encode}

  abbrev pub invalid_bytes : String → String → String → String
  invalid_bytes what s e = "invalid " ++ (what ++ (" " ++ (debug s ++ (": " ++ e))))

  unfoldable pub to_hex_prefixed : List ℕ → String
  to_hex_prefixed b = String.◌∷◌ "0" (String.◌∷◌ "x" (encode b))

  -- `TxHash::to_hex`, without the prefix.
  unfoldable pub to_hex : TxHash → String
  to_hex h = encode h.bytes

  unfoldable pub hex_data_from_str : String → Result HexData String
  unfolding strip_0x
  hex_data_from_str s =
      map_ok (λ b. record { bytes = b })
        (map_err (invalid_bytes "hex data" s) (decode (strip_0x s)))

  -- The conversion of the decoded bytes to an array of 32.
  unfoldable pub hash_of : String → List ℕ → Result TxHash String
  hash_of s b =
      if length b == 32
      then ok (record { bytes = b })
      else err (invalid_bytes "tx hash" s "expected 32 bytes (could not convert slice to array)")

  unfoldable pub tx_hash_from_str : String → Result TxHash String
  unfolding strip_0x hash_of
  tx_hash_from_str s = do b ← map_err (invalid_bytes "tx hash" s) (decode (strip_0x s)); hash_of s b

  unfoldable pub non_empty : String → List ℕ → Result Signature String
  non_empty s [] = err (invalid_bytes "signature" s "empty")
  non_empty s (x ∷ b) = ok (record { bytes = x ∷ b })

  unfoldable pub signature_from_str : String → Result Signature String
  unfolding strip_0x non_empty
  signature_from_str s = do
    b ← map_err (invalid_bytes "signature" s) (decode (strip_0x s))
    non_empty s b

  pub hex_data_from_str-to_hex_prefixed :
      (d : HexData) → hex_data_from_str (to_hex_prefixed d.bytes) ≡ ok d
  unfolding hex_data_from_str to_hex_prefixed
  hex_data_from_str-to_hex_prefixed d = rw (decode-encode d.bytes) refl
