-- ===== src/Examples/Bytes.antt =====
-- Concrete codecs of byte strings: each byte in unary, ended by a semicolon.
use Prim.Native.Char.{code}
use browser_web3_signer.Prelude.{
  ℕ, zero, suc, ◌+◌, ◌≡◌, refl, ap, ◌∙◌, String, List, [], ◌∷◌, Result, ok, map_ok, ◌==◌,
  if◌then◌else◌, arith,
}
use browser_web3_signer.Core.Bytes.{Hex}
use browser_web3_signer.Tron.Domain.{Base58}

abbrev pub ones : ℕ → String → String
ones zero s = s
ones (suc n) s = String.◌∷◌ "1" (ones n s)

abbrev pub encode : List ℕ → String
encode [] = String.[]
encode (b ∷ bs) = ones b (String.◌∷◌ ";" (encode bs))

abbrev pub decode_from : ℕ → String → Result (List ℕ) String
decode_from n String.[] = ok []
decode_from n (String.◌∷◌ c s) =
    let done = map_ok (λ bs. n ∷ bs) (decode_from 0 s) in
    let more = decode_from (suc n) s in if code c == b';' then done else more

decode_from-ones :
    (n k : ℕ) (s : String)
    → decode_from k (ones n (String.◌∷◌ ";" s)) ≡ map_ok (λ bs. (n + k) ∷ bs) (decode_from 0 s)
decode_from-ones zero k s = ap (λ x. map_ok (λ bs. x ∷ bs) (decode_from 0 s)) (omega arith)
decode_from-ones (suc n) k s =
    decode_from-ones n (suc k) s ∙ ap (λ x. map_ok (λ bs. x ∷ bs) (decode_from 0 s)) (omega arith)

pub decode_from-encode : (bs : List ℕ) → decode_from 0 (encode bs) ≡ ok bs
decode_from-encode [] = refl
decode_from-encode (b ∷ bs) =
    decode_from-ones b 0 (encode bs)
    ∙ ap (λ r. map_ok (λ xs. (b + 0) ∷ xs) r) (decode_from-encode bs)
    ∙ ap (λ x. ok (x ∷ bs)) (omega arith)

abbrev pub hex : Hex
hex = record {
  decode = decode_from 0;
  encode = encode;
  debug = λ s. s;
  decode-encode = decode_from-encode;
}

abbrev pub base58 : Base58
base58 = record {
  decode_check = decode_from 0;
  encode_check = encode;
  decode-encode_check = decode_from-encode;
}
