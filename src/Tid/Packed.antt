-- ===== src/Tid/Packed.antt =====
-- What `packTid` writes: its length, its characters, and how it parses.
use compute_contract_referen.Base.{
  arith, refl, ap, ◌≡◌, ℕ, zero, suc, ◌-◌, ◌*◌, ◌/◌, ◌%◌, ◌^◌, ◌<◌, true, List, [], ◌∷◌, ◌++◌,
  length, take, Text, Result, ok, append-nil,
}
use compute_contract_referen.Hex.Decoded.{AreBytes}
use compute_contract_referen.Hex.{at_index}
use compute_contract_referen.Base32.{b32, encode, encode_from}
use compute_contract_referen.Base32.Steps.{
  with_byte, encode_0, encode_1, encode_2, encode_3, encode_4,
}
use compute_contract_referen.Base32.Decoded.{decode-encode, b32-IsAlphabet}
use compute_contract_referen.Tid.{
  tid_len, ParsedTid, TidError, tid_bytes, pad_end, pack_tid, read_words, parse_tid, all_symbols,
  is_valid_tid,
}

tid_bytes-AreBytes : (micros clock : ℕ) → AreBytes (tid_bytes micros clock)
unfolding tid_bytes
tid_bytes-AreBytes micros clock = (
  omega arith,
  (
    omega arith,
    (omega arith, (omega arith, (omega arith, (omega arith, (omega arith, (omega arith, tt)))))),
  ),
)

ok_parsed :
    {m m' c c' : ℕ}
    → m ≡ m'
    → c ≡ c'
    → Path
        (Result TidError ParsedTid)
        (ok (record { micros = m; clock_id = c }))
        (ok (record { micros = m'; clock_id = c' }))
ok_parsed same same_id = rw (same, same_id) refl

read_words-tid_bytes :
    (micros clock : ℕ)
    → micros < 2 ^ 56
    → clock < 256
    → read_words (tid_bytes micros clock) ≡ ok (record { micros = micros; clock_id = clock })
unfolding read_words tid_bytes
read_words-tid_bytes micros clock small id = ok_parsed (omega arith) (omega arith)

-- A string of so many symbols.
record HasSymbols (n : ℕ) (s : Text) : Type 0 where
  count : length s ≡ n
  valid : all_symbols s ≡ true

one_more : (n i : ℕ) (s : Text) → i < 32 → HasSymbols n s → HasSymbols (suc n) (at_index b32 i ++ s)
unfolding all_symbols
one_more n i s small h =
    let (c, at_i, found) = b32-IsAlphabet i small in
    rw at_i (record { count = omega (arith, h.count); valid = rw (found, all_symbols) (h.valid) })

symbols_0 :
    (n e b : ℕ) (bytes : List ℕ)
    → HasSymbols n (encode_from b32 (with_byte e b) 3 bytes)
    → HasSymbols (suc n) (encode_from b32 e 0 (b ∷ bytes))
symbols_0 n e b bytes h = rw (encode_0 b32 b32-IsAlphabet e b bytes) (
    one_more n (with_byte e b / 2 ^ 3 % 32) (encode_from b32 (with_byte e b) 3 bytes) (omega arith)
      h)

symbols_3 :
    (n e b : ℕ) (bytes : List ℕ)
    → HasSymbols n (encode_from b32 (with_byte e b) 1 bytes)
    → HasSymbols (suc (suc n)) (encode_from b32 e 3 (b ∷ bytes))
symbols_3 n e b bytes h = rw (encode_3 b32 b32-IsAlphabet e b bytes) (
    one_more (suc n) (with_byte e b / 2 ^ 6 % 32)
      (at_index b32 (with_byte e b / 2 ^ 1 % 32) ++ encode_from b32 (with_byte e b) 1 bytes)
      (omega arith)
      (one_more n (with_byte e b / 2 ^ 1 % 32) (encode_from b32 (with_byte e b) 1 bytes)
        (omega arith) h))

symbols_1 :
    (n e b : ℕ) (bytes : List ℕ)
    → HasSymbols n (encode_from b32 (with_byte e b) 4 bytes)
    → HasSymbols (suc n) (encode_from b32 e 1 (b ∷ bytes))
symbols_1 n e b bytes h = rw (encode_1 b32 b32-IsAlphabet e b bytes) (
    one_more n (with_byte e b / 2 ^ 4 % 32) (encode_from b32 (with_byte e b) 4 bytes) (omega arith)
      h)

symbols_4 :
    (n e b : ℕ) (bytes : List ℕ)
    → HasSymbols n (encode_from b32 (with_byte e b) 2 bytes)
    → HasSymbols (suc (suc n)) (encode_from b32 e 4 (b ∷ bytes))
symbols_4 n e b bytes h = rw (encode_4 b32 b32-IsAlphabet e b bytes) (
    one_more (suc n) (with_byte e b / 2 ^ 7 % 32)
      (at_index b32 (with_byte e b / 2 ^ 2 % 32) ++ encode_from b32 (with_byte e b) 2 bytes)
      (omega arith)
      (one_more n (with_byte e b / 2 ^ 2 % 32) (encode_from b32 (with_byte e b) 2 bytes)
        (omega arith) h))

symbols_2 :
    (n e b : ℕ) (bytes : List ℕ)
    → HasSymbols n (encode_from b32 (with_byte e b) 0 bytes)
    → HasSymbols (suc (suc n)) (encode_from b32 e 2 (b ∷ bytes))
symbols_2 n e b bytes h = rw (encode_2 b32 b32-IsAlphabet e b bytes) (
    one_more (suc n) (with_byte e b / 2 ^ 5 % 32)
      (at_index b32 (with_byte e b / 2 ^ 0 % 32) ++ encode_from b32 (with_byte e b) 0 bytes)
      (omega arith)
      (one_more n (with_byte e b / 2 ^ 0 % 32) (encode_from b32 (with_byte e b) 0 bytes)
        (omega arith) h))

symbols_end : (e : ℕ) → HasSymbols 1 (encode_from b32 e 4 [])
unfolding encode_from
symbols_end e = rw (← append-nil (at_index b32 (e * 2 ^ 1 % 32))) (
    one_more 0 (e * 2 ^ 1 % 32) [] (omega arith)
      (unfold all_symbols in record { count = refl; valid = refl }))

eight_symbols :
    (e b0 b1 b2 b3 b4 b5 b6 b7 : ℕ)
    → HasSymbols 13 (encode_from b32 e 0 (b0 ∷ b1 ∷ b2 ∷ b3 ∷ b4 ∷ b5 ∷ b6 ∷ b7 ∷ []))
eight_symbols e b0 b1 b2 b3 b4 b5 b6 b7 = symbols_0 12 _ _ _ (
    symbols_3 10 _ _ _ (
      symbols_1 9 _ _ _ (
        symbols_4 7 _ _ _ (
          symbols_2 5 _ _ _
            (symbols_0 4 _ _ _ (symbols_3 2 _ _ _ (symbols_1 1 _ _ _ (symbols_end _))))))))

tid_symbols : (micros clock : ℕ) → HasSymbols 13 (encode b32 (tid_bytes micros clock))
unfolding encode tid_bytes
tid_symbols micros clock =
    eight_symbols 0 (micros / 2 ^ 32 / 2 ^ 16 % 256) (micros / 2 ^ 32 / 2 ^ 8 % 256)
      (micros / 2 ^ 32 % 256) (micros % 2 ^ 32 / 2 ^ 24 % 256) (micros % 2 ^ 32 / 2 ^ 16 % 256)
      (micros % 2 ^ 32 / 2 ^ 8 % 256) (micros % 2 ^ 32 % 256) (clock % 256)

take_all : (n : ℕ) (s : Text) → length s ≡ n → take n s ≡ s
take_all zero [] h = refl
take_all zero (c ∷ s) h = absurd (omega arith)
take_all (suc n) [] h = refl
take_all (suc n) (c ∷ s) h = ap (λ l. c ∷ l) (take_all n s (omega arith))

-- Neither the padding nor the cut does anything.
pub pack_tid_lem : (micros clock : ℕ) → pack_tid micros clock ≡ encode b32 (tid_bytes micros clock)
unfolding pack_tid
pack_tid_lem micros clock =
    let count = (tid_symbols micros clock).count in
    let none_missing : tid_len - length (encode b32 (tid_bytes micros clock)) ≡ 0 = omega arith in
    rw none_missing (unfold pad_end in take_all 13 (encode b32 (tid_bytes micros clock)) count)

-- A TID that packTid writes is valid, and parses to the time and the clock id that it was made of: for a
-- time below 2^56 microseconds and a clock id below 256.
pub parse_tid-pack_tid :
    (micros clock : ℕ)
    → micros < 2 ^ 56
    → clock < 256
    → (is_valid_tid (pack_tid micros clock) ≡ true)
      × (parse_tid (pack_tid micros clock) ≡ ok (record { micros = micros; clock_id = clock }))
unfolding is_valid_tid parse_tid
parse_tid-pack_tid micros clock small id =
    let count = (tid_symbols micros clock).count in
    let valid = (tid_symbols micros clock).valid in
    rw (pack_tid_lem micros clock) (
      ground arith,
      rw
          (
            decode-encode b32 b32-IsAlphabet (tid_bytes micros clock)
                (tid_bytes-AreBytes micros clock),
            parse_tid,
          )
          (read_words-tid_bytes micros clock small id),
    )
