-- ===== src/Cbor/Texts.antt =====
-- `new TextDecoder().decode(bytes)`, as UTF-8 again: a byte order mark at the start is left out, and what
-- is not well-formed is replaced by U+FFFD, as the Encoding Standard says.
use compute_contract_referen.Base.{
  ℕ, zero, suc, Bool, ◌&&◌, ◌==◌, List, [], ◌∷◌, ◌++◌, leb, if◌then◌else◌, drop, starts_with,
}

-- A character that has begun: its bytes so far, how many are missing, and the bounds of the next.
pub record Begun : Type 0 where
  pub bytes : List ℕ
  pub needed : ℕ
  pub lower : ℕ
  pub upper : ℕ

abbrev pub between : Begun
between = record { bytes = []; needed = 0; lower = 0x80; upper = 0xbf }

abbrev pub replacement : List ℕ
replacement = 0xef ∷ 0xbf ∷ 0xbd ∷ []

abbrev pub within : ℕ → ℕ → ℕ → Bool
within lower b upper = leb lower b && leb b upper

abbrev pub begin : ℕ → ℕ → ℕ → ℕ → List ℕ × Begun
begin b needed lower upper =
    ([], record { bytes = b ∷ []; needed = needed; lower = lower; upper = upper })

-- The first byte of a character: what it puts out, and what is begun.
unfoldable pub first_byte : ℕ → List ℕ × Begun
first_byte b =
    if leb b 0x7f
    then (b ∷ [], between)
    else if within 0xc2 b 0xdf
    then begin b 1 0x80 0xbf
    else if within 0xe0 b 0xef
    then begin b 2 (if b == 0xe0 then 0xa0 else 0x80) (if b == 0xed then 0x9f else 0xbf)
    else if within 0xf0 b 0xf4
    then begin b 3 (if b == 0xf0 then 0x90 else 0x80) (if b == 0xf4 then 0x8f else 0xbf)
    else (replacement, between)

-- A byte, of which a character that it does not continue is replaced, and it starts another.
unfoldable pub next_byte : Begun → ℕ → List ℕ × Begun
unfolding first_byte
next_byte begun b = elim begun.needed [
  | zero ↦ first_byte b
  | suc needed ↦
      if within begun.lower b begun.upper
      then (if needed == 0 then (begun.bytes ++ b ∷ [], between) else (
        [],
        record { bytes = begun.bytes ++ b ∷ []; needed = needed; lower = 0x80; upper = 0xbf },
      ))
      else (let (put, later) = first_byte b in (replacement ++ put, later))
]

unfoldable pub decode_utf8 : Begun → List ℕ → List ℕ
unfolding next_byte
decode_utf8 begun [] = if begun.needed == 0 then [] else replacement
decode_utf8 begun (b ∷ bytes) =
    let (put, later) = next_byte begun b in put ++ decode_utf8 later bytes

-- `new TextDecoder().decode(bytes)`
unfoldable pub decode_text : List ℕ → List ℕ
unfolding decode_utf8 starts_with
decode_text bytes =
    decode_utf8 between
      (if starts_with bytes (0xef ∷ 0xbb ∷ 0xbf ∷ []) then drop 3 bytes else bytes)
