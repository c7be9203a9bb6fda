-- ===== src/Hex/Tests.antt =====
-- Runs of `hexEncode` and `hexDecode`.
use compute_contract_referen.Base.{arith, refl, ◌≡◌, List, ℕ, [], ◌∷◌, codes, ok, err}
use compute_contract_referen.Hex.{odd_length, invalid_nibble, hex_encode, hex_decode}
use compute_contract_referen.Hex.Decoded.{AreBytes}

abbrev cafe : List ℕ
cafe = 0xca ∷ 0xfe ∷ []

cafe_text : hex_encode cafe ≡ codes "cafe"
unfolding hex_encode
cafe_text = refl

upper_case : hex_decode (codes "CAFE") ≡ ok cafe
unfolding hex_decode
upper_case = refl

odd_text : hex_decode (codes "caf") ≡ err odd_length
unfolding hex_decode
odd_text = refl

no_digit : hex_decode (codes "cg") ≡ err (invalid_nibble 103)
unfolding hex_decode
no_digit = refl

cafe-AreBytes : AreBytes cafe
cafe-AreBytes = (omega arith, (omega arith, tt))
