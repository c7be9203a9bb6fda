-- ===== src/Car/Varints.antt =====
-- The lengths of a CAR file: what `varintEncode` writes and `readVarint` reads.
use compute_contract_referen.Base.{
  arith, refl, ap, ◌≡◌, ◌∙◌, ℕ, zero, suc, ◌+◌, ◌*◌, ◌/◌, ◌%◌, ◌^◌, ◌<◌, ◌≤◌, true, false, inl, inr,
  List, ◌++◌, ltb, ◌==◌, if◌then◌else◌, Bool-cases, ok,
}
use compute_contract_referen.Car.{
  or_bits, varint_from, varint_encode, read_varint_from, read_varint,
}

power : (k : ℕ) → 2 ^ suc k ≡ 2 * 2 ^ k
power k = omega arith

or_zero : (k b : ℕ) → b < 2 ^ k → or_bits k 0 b ≡ b
unfolding or_bits
or_zero zero b h = omega arith
or_zero (suc k) b h =
    let half : b / 2 < 2 ^ k = omega (arith, h, power k) in
    let ih = or_zero k (b / 2) half in omega (arith, ih)

-- One round where the second number is even.
or_even : (k a y : ℕ) → or_bits (suc k) a (2 * y) ≡ a % 2 + 2 * or_bits k (a / 2) y
unfolding or_bits
or_even k a y =
    let even : 2 * y % 2 ≡ 0 = omega arith in
    let half : 2 * y / 2 ≡ y = omega arith in
    let bit : (if a % 2 == 1 then 1 else 0) ≡ a % 2 = ground arith in
    rw (even, half) (ap (λ b. b + 2 * or_bits k (a / 2) y) bit)

double : (x p : ℕ) → x * (2 * p) ≡ 2 * (x * p)
double x p = omega arith

-- A number below 2^s, and one that is shifted by s, have no bits in common.
or_add : (k s a x : ℕ) → a < 2 ^ s → a + x * 2 ^ s < 2 ^ k → or_bits k a (x * 2 ^ s) ≡ a + x * 2 ^ s
or_add k zero a x h small =
    let nothing : a ≡ 0 = omega (arith, h) in
    let ih = or_zero k (x * 2 ^ 0) (omega (arith, small)) in rw nothing (omega (arith, ih))
or_add zero (suc s) a x h small = unfold or_bits in omega (arith, small)
or_add (suc k) (suc s) a x h small =
    let shifted : x * 2 ^ suc s ≡ 2 * (x * 2 ^ s) = rw (power s) (double x (2 ^ s)) in
    let ih =
      or_add k s (a / 2) x (omega (arith, h, power s)) (omega (arith, small, power k, shifted)) in
    rw (shifted, or_even k a (x * 2 ^ s), ih) (omega arith)

round :
    (rounds value shift n sum total : ℕ) (rest : List ℕ)
    → or_bits 32 value (n % 128 * 2 ^ (shift % 32) % 2 ^ 32) ≡ sum
    → ltb 63 (shift + 7) ≡ false
    → (n ≤ 127 → sum ≡ total)
    → (127 < n
        → read_varint_from sum (shift + 7) (varint_from rounds (n % 2 ^ 32 / 128) ++ rest)
          ≡ ok (total, rest))
    → read_varint_from value shift (varint_from (suc rounds) n ++ rest) ≡ ok (total, rest)
unfolding read_varint_from varint_from
round rounds value shift n sum total rest joined in_range last more =
    elim (Bool-cases (ltb 0x7f n)) [
      | inl longer ↦
          let same : (n % 128 + 128) % 128 ≡ n % 128 = omega arith in
          let big : ltb ((n % 128 + 128) % 256) 0x80 ≡ false = ground arith in
          rw (longer, same, joined, big, in_range) (more (ground arith))
      | inr done ↦
          let same : n % 128 % 128 ≡ n % 128 = omega arith in
          let small : ltb (n % 128 % 256) 0x80 ≡ true = ground arith in
          rw (done, same, joined, small) (ap (λ t. ok (t, rest)) (last (ground arith)))
    ]

-- The last byte.
last_round :
    (value shift n sum : ℕ) (rest : List ℕ)
    → n < 128
    → or_bits 32 value (n % 128 * 2 ^ (shift % 32) % 2 ^ 32) ≡ sum
    → read_varint_from value shift (varint_from 0 n ++ rest) ≡ ok (sum, rest)
unfolding read_varint_from varint_from
last_round value shift n sum rest h joined =
    let same : n % 128 % 128 ≡ n % 128 = omega arith in
    let small : ltb (n % 128 % 256) 0x80 ≡ true = ground arith in rw (same, joined, small) refl

bytes_0 :
    (value n : ℕ) (rest : List ℕ)
    → value < 2 ^ 28
    → n < 2 ^ 3
    → read_varint_from value 28 (varint_from 0 n ++ rest) ≡ ok (value + n * 2 ^ 28, rest)
bytes_0 value n rest h small =
    let exact : n % 128 * 2 ^ 28 % 2 ^ 32 ≡ n % 128 * 2 ^ 28 = omega arith in
    let joined : or_bits 32 value (n % 128 * 2 ^ 28 % 2 ^ 32) ≡ value + n % 128 * 2 ^ 28 =
      rw exact (or_add 32 28 value (n % 128) h (omega arith)) in
    let same : value + n % 128 * 2 ^ 28 ≡ value + n * 2 ^ 28 = omega arith in
    last_round value 28 n (value + n * 2 ^ 28) rest (omega arith) (joined ∙ same)

bytes_1 :
    (value n : ℕ) (rest : List ℕ)
    → value < 2 ^ 21
    → n < 2 ^ 10
    → read_varint_from value 21 (varint_from 1 n ++ rest) ≡ ok (value + n * 2 ^ 21, rest)
bytes_1 value n rest h small =
    let exact : n % 128 * 2 ^ 21 % 2 ^ 32 ≡ n % 128 * 2 ^ 21 = omega arith in
    let joined : or_bits 32 value (n % 128 * 2 ^ 21 % 2 ^ 32) ≡ value + n % 128 * 2 ^ 21 =
      rw exact (or_add 32 21 value (n % 128) h (omega arith)) in
    round 0 value 21 n (value + n % 128 * 2 ^ 21) (value + n * 2 ^ 21) rest joined refl
      (λ few. omega arith)
      (λ many.
        let total : value + n % 128 * 2 ^ 21 + n % 2 ^ 32 / 128 * 2 ^ 28 ≡ value + n * 2 ^ 21 =
          omega arith in
        bytes_0 (value + n % 128 * 2 ^ 21) (n % 2 ^ 32 / 128) rest (omega arith) (omega arith)
        ∙ ap (λ t. ok (t, rest)) total)

bytes_2 :
    (value n : ℕ) (rest : List ℕ)
    → value < 2 ^ 14
    → n < 2 ^ 17
    → read_varint_from value 14 (varint_from 2 n ++ rest) ≡ ok (value + n * 2 ^ 14, rest)
bytes_2 value n rest h small =
    let exact : n % 128 * 2 ^ 14 % 2 ^ 32 ≡ n % 128 * 2 ^ 14 = omega arith in
    let joined : or_bits 32 value (n % 128 * 2 ^ 14 % 2 ^ 32) ≡ value + n % 128 * 2 ^ 14 =
      rw exact (or_add 32 14 value (n % 128) h (omega arith)) in
    round 1 value 14 n (value + n % 128 * 2 ^ 14) (value + n * 2 ^ 14) rest joined refl
      (λ few. omega arith)
      (λ many.
        let total : value + n % 128 * 2 ^ 14 + n % 2 ^ 32 / 128 * 2 ^ 21 ≡ value + n * 2 ^ 14 =
          omega arith in
        bytes_1 (value + n % 128 * 2 ^ 14) (n % 2 ^ 32 / 128) rest (omega arith) (omega arith)
        ∙ ap (λ t. ok (t, rest)) total)

bytes_3 :
    (value n : ℕ) (rest : List ℕ)
    → value < 2 ^ 7
    → n < 2 ^ 24
    → read_varint_from value 7 (varint_from 3 n ++ rest) ≡ ok (value + n * 2 ^ 7, rest)
bytes_3 value n rest h small =
    let exact : n % 128 * 2 ^ 7 % 2 ^ 32 ≡ n % 128 * 2 ^ 7 = omega arith in
    let joined : or_bits 32 value (n % 128 * 2 ^ 7 % 2 ^ 32) ≡ value + n % 128 * 2 ^ 7 =
      rw exact (or_add 32 7 value (n % 128) h (omega arith)) in
    round 2 value 7 n (value + n % 128 * 2 ^ 7) (value + n * 2 ^ 7) rest joined refl
      (λ few. omega arith)
      (λ many.
        let total : value + n % 128 * 2 ^ 7 + n % 2 ^ 32 / 128 * 2 ^ 14 ≡ value + n * 2 ^ 7 =
          omega arith in
        bytes_2 (value + n % 128 * 2 ^ 7) (n % 2 ^ 32 / 128) rest (omega arith) (omega arith)
        ∙ ap (λ t. ok (t, rest)) total)

bytes_4 :
    (n : ℕ) (rest : List ℕ)
    → n < 2 ^ 31
    → read_varint_from 0 0 (varint_from 4 n ++ rest) ≡ ok (0 + n * 2 ^ 0, rest)
bytes_4 n rest small =
    let exact : n % 128 * 2 ^ 0 % 2 ^ 32 ≡ n % 128 * 2 ^ 0 = omega arith in
    let joined : or_bits 32 0 (n % 128 * 2 ^ 0 % 2 ^ 32) ≡ 0 + n % 128 * 2 ^ 0 =
      rw exact (or_add 32 0 0 (n % 128) (omega arith) (omega arith)) in
    round 3 0 0 n (0 + n % 128 * 2 ^ 0) (0 + n * 2 ^ 0) rest joined refl (λ few. omega arith)
      (λ many.
        let total : 0 + n % 128 * 2 ^ 0 + n % 2 ^ 32 / 128 * 2 ^ 7 ≡ 0 + n * 2 ^ 0 = omega arith in
        bytes_3 (0 + n % 128 * 2 ^ 0) (n % 2 ^ 32 / 128) rest (omega arith) (omega arith)
        ∙ ap (λ t. ok (t, rest)) total)

-- A number below 2^31 is read back, and what follows is left.
pub read_varint-varint_encode :
    (n : ℕ) (rest : List ℕ) → n < 2 ^ 31 → read_varint (varint_encode n ++ rest) ≡ ok (n, rest)
unfolding read_varint varint_encode
read_varint-varint_encode n rest small =
    let whole : 0 + n * 2 ^ 0 ≡ n = omega arith in
    let in_range : ltb n (2 ^ 31) ≡ true = ground arith in
    rw (bytes_4 n rest small, whole, in_range) refl
