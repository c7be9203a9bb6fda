-- ===== src/Base32/Tests.antt =====
-- Runs of the codec.
use compute_contract_referen.Base.{refl, ◌≡◌, codes, ok, err}
use compute_contract_referen.Base32.{encode, decode, base32_alphabet, invalid_character}

hello : encode base32_alphabet (codes "hello") ≡ codes "nbswy3dp"
unfolding encode
hello = refl

back : decode base32_alphabet (codes "nbswy3dp") ≡ ok (codes "hello")
unfolding decode
back = refl

no_symbol : decode base32_alphabet (codes "a1") ≡ err (invalid_character 49)
unfolding decode
no_symbol = refl
