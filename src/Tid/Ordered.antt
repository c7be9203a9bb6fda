-- ===== src/Tid/Ordered.antt =====
-- The order of TIDs: that of their times, as strings.
use compute_contract_referen.Base.{
  arith, refl, ◌≡◌, ◌⊎◌, ℕ, ◌/◌, ◌%◌, ◌^◌, ◌<◌, ◌≤◌, Bool, true, inl, inr, List, [], ◌∷◌, ltb,
  Bool-cases, text_lt,
}
use compute_contract_referen.Hex.{at_index}
use compute_contract_referen.Base32.{b32}
use compute_contract_referen.Base32.Decoded.{at_each, at_each_lem, b32-IsAlphabet}
use compute_contract_referen.Base32.Ordered.{Before, ArePaired, IsSorted, encode_order}
use compute_contract_referen.Tid.{tid_bytes, pack_tid}
use compute_contract_referen.Tid.Packed.{pack_tid_lem}

-- The symbols in front of the j-th come before it.
unfoldable comes_last : ℕ → Bool
comes_last j = at_each (λ i. text_lt (at_index b32 i) (at_index b32 j)) j

table : at_each comes_last 32 ≡ true
unfolding at_each comes_last at_index text_lt
table = refl

pub b32-IsSorted : IsSorted b32
unfolding comes_last text_lt
b32-IsSorted i j less small s t =
    let (c, at_i, found) = b32-IsAlphabet i (omega arith) in
    let (d, at_j, found') = b32-IsAlphabet j small in
    let row : comes_last j ≡ true = at_each_lem comes_last 32 j small table in
    let entry : text_lt (at_index b32 i) (at_index b32 j) ≡ true =
      at_each_lem (λ k. text_lt (at_index b32 k) (at_index b32 j)) j i less row in
    rw (at_i, at_j) (ground (arith, at_i, at_j, entry))

before_byte : {Rest : Type 0} (b c : ℕ) → (¬ b < c → (b ≡ c) × Rest) → (b < c) ⊎ ((b ≡ c) × Rest)
before_byte b c otherwise = elim (Bool-cases (ltb b c)) [
  | inl below ↦ inl (ground arith)
  | inr not_below ↦ inr (otherwise (ground arith))
]

tid_bytes-ArePaired : (m c n d : ℕ) → ArePaired (tid_bytes m c) (tid_bytes n d)
unfolding tid_bytes
tid_bytes-ArePaired m c n d = (
  omega arith,
  omega arith,
  (
    omega arith,
    omega arith,
    (
      omega arith,
      omega arith,
      (
        omega arith,
        omega arith,
        (
          omega arith,
          omega arith,
          (omega arith, omega arith, (omega arith, omega arith, (omega arith, omega arith, tt))),
        ),
      ),
    ),
  ),
)

-- The three bytes of an upper word, and the four of a lower one.
upper_order :
    (h k : ℕ) (bs cs : List ℕ)
    → h ≤ k
    → k < 2 ^ 24
    → (h ≡ k → Before bs cs)
    → Before
        ((h / 2 ^ 16 % 256) ∷ (h / 2 ^ 8 % 256) ∷ (h % 256) ∷ bs)
        ((k / 2 ^ 16 % 256) ∷ (k / 2 ^ 8 % 256) ∷ (k % 256) ∷ cs)
upper_order h k bs cs le small rest = before_byte (h / 2 ^ 16 % 256) (k / 2 ^ 16 % 256) (λ n0.
    let e0 : h / 2 ^ 16 % 256 ≡ k / 2 ^ 16 % 256 = omega arith in
    (
      e0,
      before_byte (h / 2 ^ 8 % 256) (k / 2 ^ 8 % 256) (λ n1.
          let e1 : h / 2 ^ 8 % 256 ≡ k / 2 ^ 8 % 256 = omega arith in
          (
            e1,
            before_byte (h % 256) (k % 256)
                (λ n2. let e2 : h % 256 ≡ k % 256 = omega arith in (e2, rest (omega arith))),
          )),
    ))

lower_order :
    (h k : ℕ) (bs cs : List ℕ)
    → h < k
    → k < 2 ^ 32
    → Before
        ((h / 2 ^ 24 % 256) ∷ (h / 2 ^ 16 % 256) ∷ (h / 2 ^ 8 % 256) ∷ (h % 256) ∷ bs)
        ((k / 2 ^ 24 % 256) ∷ (k / 2 ^ 16 % 256) ∷ (k / 2 ^ 8 % 256) ∷ (k % 256) ∷ cs)
lower_order h k bs cs less small = before_byte (h / 2 ^ 24 % 256) (k / 2 ^ 24 % 256) (λ n0.
    let e0 : h / 2 ^ 24 % 256 ≡ k / 2 ^ 24 % 256 = omega arith in
    (
      e0,
      before_byte (h / 2 ^ 16 % 256) (k / 2 ^ 16 % 256) (λ n1.
          let e1 : h / 2 ^ 16 % 256 ≡ k / 2 ^ 16 % 256 = omega arith in
          (
            e1,
            before_byte (h / 2 ^ 8 % 256) (k / 2 ^ 8 % 256) (λ n2.
                let e2 : h / 2 ^ 8 % 256 ≡ k / 2 ^ 8 % 256 = omega arith in
                (e2, inl (omega arith))),
          )),
    ))

tid_bytes_order : (m c n d : ℕ) → m < n → n < 2 ^ 56 → Before (tid_bytes m c) (tid_bytes n d)
unfolding tid_bytes
tid_bytes_order m c n d less small =
    upper_order (m / 2 ^ 32) (n / 2 ^ 32)
      ((m % 2 ^ 32 / 2 ^ 24 % 256)
        ∷ (m % 2 ^ 32 / 2 ^ 16 % 256)
        ∷ (m % 2 ^ 32 / 2 ^ 8 % 256)
        ∷ (m % 2 ^ 32 % 256)
        ∷ (c % 256)
        ∷ [])
      ((n % 2 ^ 32 / 2 ^ 24 % 256)
        ∷ (n % 2 ^ 32 / 2 ^ 16 % 256)
        ∷ (n % 2 ^ 32 / 2 ^ 8 % 256)
        ∷ (n % 2 ^ 32 % 256)
        ∷ (d % 256)
        ∷ [])
      (omega arith) (omega arith)
      (λ same.
        lower_order (m % 2 ^ 32) (n % 2 ^ 32) (c % 256 ∷ []) (d % 256 ∷ []) (omega arith)
          (omega arith))

-- A TID of an earlier time comes first among strings, whatever the clock ids: for times below 2^56
-- microseconds.
pub pack_tid_order :
    (m c n d : ℕ) → m < n → n < 2 ^ 56 → text_lt (pack_tid m c) (pack_tid n d) ≡ true
pack_tid_order m c n d less small =
    rw (pack_tid_lem m c, pack_tid_lem n d)
      (encode_order b32 b32-IsAlphabet b32-IsSorted (tid_bytes m c) (tid_bytes n d)
        (tid_bytes-ArePaired m c n d) (tid_bytes_order m c n d less small))
