-- ===== src/Tron/Bounds.antt =====
-- tron/src/domain.rs: what the parsers of the domain types let through.
use browser_web3_signer.Prelude.{
  ℕ, ◌≡◌, ◌≤◌, ◌^◌, sym, subst, String, List, ok, >>=-ok, ok-injective, ok≢err, map_err, arith,
  ◌==◌, length, ==_iff, Bool-cases, inl, inr,
}
use browser_web3_signer.Prelude.Decimal.{parse_unsigned}
use browser_web3_signer.Tron.Domain.{
  Base58, TronAddress, address_of, starts_0x41, address_from_str, Percentage, new_percentage,
  percentage_from_str,
}
use browser_web3_signer.Tron.Address.{IsTron, starts_0x41_iff}

new_percentage-le : (n : ℕ) (p : Percentage) → new_percentage n ≡ ok p → p.get ≤ 100
unfolding new_percentage
new_percentage-le n p h = ground arith

-- A percentage that is read is at most 100.
pub percentage_from_str-le :
    (s : String) (p : Percentage) → percentage_from_str s ≡ ok p → p.get ≤ 100
unfolding percentage_from_str
percentage_from_str-le s p h =
    let (n, _, k) = >>=-ok (map_err _ (parse_unsigned (2 ^ 8) s)) _ h in new_percentage-le n p k

address_of-IsTron : (s : String) (b : List ℕ) (a : TronAddress) → address_of s b ≡ ok a → IsTron a
unfolding address_of
address_of-IsTron s b a h = elim (Bool-cases (length b == 21)) [
  | inl long ↦ elim (Bool-cases (starts_0x41 b)) [
    | inl marked ↦
        subst IsTron (ok-injective (rw (long, marked) at h))
          (record { long = (==_iff (length b) 21).0 long; marked = (starts_0x41_iff b).0 marked })
    | inr other ↦ absurd (ok≢err (sym (rw (long, other) at h)))
  ]
  | inr other ↦ absurd (ok≢err (sym (rw other at h)))
]

-- An address that is read has 21 bytes, of which the first is 0x41.
pub address_from_str-IsTron :
    (base58 : Base58) (s : String) (a : TronAddress) → address_from_str base58 s ≡ ok a → IsTron a
unfolding address_from_str
address_from_str-IsTron base58 s a h =
    let (b, _, k) = >>=-ok (map_err _ (base58.decode_check s)) _ h in address_of-IsTron s b a k
