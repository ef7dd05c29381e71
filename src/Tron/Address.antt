-- ===== src/Tron/Address.antt =====
-- tron/src/domain.rs: what makes the bytes of an address.
use browser_web3_signer.Prelude.{ℕ, ◌≡◌, ◌↔◌, ap, true, List, [], ◌∷◌, length, ==_iff, arith}
use browser_web3_signer.Tron.Domain.{TronAddress, starts_0x41}

-- An address of 21 bytes, of which the first is 0x41.
pub record IsTron (a : TronAddress) : Type 0 where
  pub long : length a.bytes ≡ 21
  pub marked : (body : List ℕ) × (a.bytes ≡ 65 ∷ body)

pub starts_0x41_iff : (b : List ℕ) → (starts_0x41 b ≡ true) ↔ ((body : List ℕ) × (b ≡ 65 ∷ body))
unfolding starts_0x41
starts_0x41_iff [] = (λ h. cc, λ h. absurd (nil≢cons h.1))
  where
    nil≢cons : {body : List ℕ} → [] ≡ 65 ∷ body → ⊥
    nil≢cons e = cc
starts_0x41_iff (c ∷ bs) =
    (λ h. (bs, ap (λ x. x ∷ bs) ((==_iff c 65).0 h)), λ h. (==_iff c 65).1 (ground (arith, h.1)))
