-- ===== src/Core/Bytes/Laws.antt =====
-- core/src/bytes.rs: what the parsers of transaction hashes and signatures let through.
use browser_web3_signer.Prelude.{
  ℕ, ◌≡◌, refl, String, List, ok, >>=-ok, map_err, arith, length, ==_iff,
}
use browser_web3_signer.Core.Bytes.{
  Hex, TxHash, hash_of, tx_hash_from_str, strip_0x, invalid_bytes, to_hex_prefixed,
}

hash_of-length :
    (hex : Hex) (s : String) (b : List ℕ) (h : TxHash)
    → hash_of hex s b ≡ ok h
    → length h.bytes ≡ 32
unfolding hash_of
hash_of-length hex s b h k = ground (arith, ==_iff (length b) 32)

-- A transaction hash that is read has 32 bytes.
pub tx_hash_from_str-length :
    (hex : Hex) (s : String) (h : TxHash) → tx_hash_from_str hex s ≡ ok h → length h.bytes ≡ 32
unfolding tx_hash_from_str
tx_hash_from_str-length hex s h k =
    let (b, _, k2) =
      >>=-ok (map_err (invalid_bytes hex "tx hash" s) (hex.decode (strip_0x s))) _ k in
    hash_of-length hex s b h k2

-- A hash of 32 bytes is read back from its prefixed hex.
pub tx_hash_from_str-to_hex_prefixed :
    (hex : Hex) (h : TxHash)
    → length h.bytes ≡ 32
    → tx_hash_from_str hex (to_hex_prefixed hex h.bytes) ≡ ok h
unfolding tx_hash_from_str to_hex_prefixed strip_0x hash_of
tx_hash_from_str-to_hex_prefixed hex h k = rw (hex.decode-encode h.bytes, k) refl
