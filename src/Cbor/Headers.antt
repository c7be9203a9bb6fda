-- ===== src/Cbor/Headers.antt =====
-- Reading a header that was written.
use compute_contract_referen.Base.{
  arith, refl, ap, ◌≡◌, ◌<◌, ◌∙◌, inl, inr, ℕ, ◌+◌, ◌*◌, ◌/◌, ◌%◌, true, Bool-cases, List, ◌∷◌,
  ◌++◌, ltb, Result, ok,
}
use compute_contract_referen.Cbor.{
  Integer, pos, CborError, write_header, signed32, read_byte, read_word, read_value, read_header,
}

four_bytes :
    (v : ℕ)
    → v < 4294967296
    → ((v / 16777216) % 256) * 16777216
        + ((v / 65536) % 256) * 65536
        + ((v / 256) % 256) * 256
        + v % 256
      ≡ v
four_bytes v h = omega (arith, h)

head_info :
    (major info : ℕ)
    → info < 32
    → ((major * 32 + info) % 32 ≡ info) × ((major * 32 + info) / 32 ≡ major)
head_info major info h = (omega (arith, h), omega (arith, h))

read_word_of :
    (a b c d : ℕ) (rest : List ℕ)
    → read_word (a ∷ b ∷ c ∷ d ∷ rest)
      ≡ ok (signed32 (a * 16777216 + b * 65536 + c * 256 + d), rest)
unfolding read_word read_byte
read_word_of a b c d rest = refl

-- The first byte gives the major type and the additional information.
read_first :
    (major info : ℕ) (bytes : List ℕ) (value : Integer) (rest : List ℕ)
    → info < 32
    → read_value info bytes ≡ ok (value, rest)
    → read_header ((major * 32 + info) ∷ bytes) ≡ ok (major, value, rest)
unfolding read_header read_byte
read_first major info bytes value rest h e =
    let (low, high) = head_info major info h in rw (low, high, e) refl

signed32_small : (v : ℕ) → v < 2147483648 → signed32 v ≡ pos v
unfolding signed32
signed32_small v h = ground (arith, h)

-- What `readHeader` reads where `writeHeader` wrote a value below 2 ^ 32 is the major type, the value as
-- a signed 32-bit integer, and the bytes behind it: the value itself below 2 ^ 31, and a negative
-- number from 2 ^ 31 on.
pub read_header-write_header :
    (major value : ℕ) (rest : List ℕ)
    → value < 4294967296
    → read_header (write_header major value ++ rest) ≡ ok (major, signed32 value, rest)
unfolding write_header read_value
read_header-write_header major value rest h = elim (Bool-cases (ltb value 24)) [
  | inl tiny ↦ rw tiny (
      read_first major value rest (signed32 value) rest (ground arith)
        (rw (tiny, signed32_small value (ground arith)) refl))
  | inr more ↦ elim (Bool-cases (ltb value 256)) [
    | inl one ↦
        rw (more, one)
          (read_first major 24 (value ∷ rest) (signed32 value) rest (omega arith)
            (rw (signed32_small value (ground arith)) (unfold read_byte in refl)))
    | inr larger ↦ elim (Bool-cases (ltb value 65536)) [
      | inl two ↦
          let whole : ((value / 256) % 256) * 256 + value % 256 ≡ value = ground arith in
          rw (more, larger, two)
            (read_first major 25 ((value / 256) % 256 ∷ value % 256 ∷ rest) (signed32 value) rest
              (omega arith)
              (rw (signed32_small value (ground arith)) (unfold read_byte in rw whole refl)))
      | inr four ↦
          let fits : ltb value 4294967296 ≡ true = ground arith in
          rw (more, larger, four, fits)
            (read_first major 26
              ((value / 16777216) % 256
                ∷ (value / 65536) % 256
                ∷ (value / 256) % 256
                ∷ value % 256
                ∷ rest)
              (signed32 value) rest (omega arith)
              (read_word_of ((value / 16777216) % 256) ((value / 65536) % 256) ((value / 256) % 256)
                  (value % 256) rest
                ∙ word_again (four_bytes value h)))
    ]
  ]
]
  where
    word_again :
        {n : ℕ}
        → n ≡ value
        → ◌≡◌ {A = Result CborError (Integer × List ℕ)}
            (ok (signed32 n, rest))
            (ok (signed32 value, rest))
    word_again e = ap (λ (n : ℕ). ok (signed32 n, rest)) e

-- A value below 2 ^ 31 is read as it was written.
pub read_header_small :
    (major value : ℕ) (rest : List ℕ)
    → value < 2147483648
    → read_header (write_header major value ++ rest) ≡ ok (major, pos value, rest)
read_header_small major value rest h =
    rw (← signed32_small value h) (read_header-write_header major value rest (omega (arith, h)))
