-- ===== src/Examples/Amounts.antt =====
-- Amounts in BTC: the ones that the source's tests print.
use browser_web3_signer.Prelude.{◌≡◌, refl, some}
use browser_web3_signer.Btc.Amount.{to_btc_string}
use browser_web3_signer.Btc.Amount.Reader.{amount_of}
use browser_web3_signer.Btc.Amount.Short.{after_point, IsTrimmed, to_btc_string_shortest}

half : to_btc_string 150000000 ≡ "1.5"
unfolding to_btc_string
half = refl

one_sat : to_btc_string 1 ≡ "0.00000001"
unfolding to_btc_string
one_sat = refl

one_btc : to_btc_string 100000000 ≡ "1"
unfolding to_btc_string
one_btc = refl

nothing : to_btc_string 0 ≡ "0"
unfolding to_btc_string
nothing = refl

to_btc_string_shortest_example :
    (amount_of (to_btc_string 150000000) ≡ some 150000000)
    × IsTrimmed b'.' (to_btc_string 150000000)
    × IsTrimmed b'0' (after_point (to_btc_string 150000000))
to_btc_string_shortest_example = to_btc_string_shortest 150000000
