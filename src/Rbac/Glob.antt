-- ===== src/Rbac/Glob.antt =====
-- `globMatch` of src/typescript/lib/rbac-helper/mod.ts
use compute_contract_referen.Base.{
  ◌∙◌, arith, ◌==◌, ◌↔◌, ap, ◌≡◌, refl, sym, ◌++◌, append_assoc, append-nil, Bool-cases,
  Option-cases, inl, inr, ends_with_split, ends_with-append, index_of_sound, index_of_first, ℕ,
  Bool, true, false, List, [], ◌∷◌, ◌+◌, none, some, length, drop, ltb, if◌then◌else◌, Text,
  text_eq, text_eq_iff, ends_with, index_of, split_on, codes,
}

-- The loop over the parts between the stars; the text left to match is `rest`.
unfoldable pub glob_parts : List Text → Text → Bool
unfolding ends_with index_of
glob_parts [] rest = true
glob_parts (prefix ∷ []) rest = if text_eq prefix [] then true else ends_with rest prefix
glob_parts (prefix ∷ next ∷ parts) rest =
    let skipped = glob_parts (next ∷ parts) rest in
    if ltb 0 (length prefix)
    then elim (index_of rest prefix) [
      | none ↦ false
      | some idx ↦ glob_parts (next ∷ parts) (drop (idx + length prefix) rest)
    ]
    else skipped

unfoldable pub glob_match : Text → Text → Bool
unfolding glob_parts text_eq split_on
glob_match pattern s =
    if text_eq pattern (codes "*") then true else glob_parts (split_on b'*' pattern) s

-- The text that a list of parts describes: each part, in order, behind a gap of any text.
pub data Fills : List Text → Text → Type 0 where
  last : (p x s : Text) → s ≡ x ++ p → Fills (p ∷ []) s
  part :
      (p q : Text) (ps : List Text) (x r s : Text)
      → s ≡ x ++ (p ++ r)
      → Fills (q ∷ ps) r
      → Fills (p ∷ q ∷ ps) s

-- A longer gap before the first part fits as well.
Fills-append_left : (y : Text) {ps : List Text} {s : Text} → Fills ps s → Fills ps (y ++ s)
Fills-append_left y (last p x s e) = last p (y ++ x) (y ++ s) (rw e (sym (append_assoc y x p)))
Fills-append_left y (part p q ps x r s e f) =
    part p q ps (y ++ x) r (y ++ s) (rw e (sym (append_assoc y x (p ++ r)))) f

text_eq-nil : (p : Text) → text_eq p [] ≡ true → p ≡ []
text_eq-nil p h = (text_eq_iff p []).0 h

nil_of_length : (p : Text) → ltb 0 (length p) ≡ false → p ≡ []
nil_of_length [] h = refl
nil_of_length (c ∷ p) h = absurd (ground arith)

glob_parts_sound :
    (p : Text) (ps : List Text) (s : Text) → glob_parts (p ∷ ps) s ≡ true → Fills (p ∷ ps) s
unfolding glob_parts
glob_parts_sound p [] s h = elim (Bool-cases (text_eq p [])) [
  | inl empty ↦ last p s s (rw (text_eq-nil p empty) (sym (append-nil s)))
  | inr full ↦ let (x, e) = ends_with_split s p (ground arith) in last p x s e
]
glob_parts_sound p (q ∷ ps) s h = elim (Bool-cases (ltb 0 (length p))) [
  | inl full ↦ elim (Option-cases (index_of s p)) [
    | inl missed ↦ absurd (ground arith)
    | inr (i, e) ↦
        let (x, split) = index_of_sound s p i e in
        part p q ps x (drop (i + length p) s) s split
          (glob_parts_sound q ps (drop (i + length p) s) (ground arith))
  ]
  | inr empty ↦
      part p q ps [] s s (rw (nil_of_length p empty)) (glob_parts_sound q ps s (ground arith))
]

glob_parts_complete : (ps : List Text) (s : Text) → Fills ps s → glob_parts ps s ≡ true
unfolding glob_parts
glob_parts_complete [] s f = elim f [ ]
glob_parts_complete (p ∷ []) s (last _ x _ e) = elim (Bool-cases (text_eq p [])) [
  | inl empty ↦ rw empty
  | inr full ↦ rw (full, e) (ends_with-append x p)
]
glob_parts_complete (p ∷ q ∷ qs) s (part _ _ _ x r _ e f) = elim (Bool-cases (ltb 0 (length p))) [
  | inl full ↦
      let (i, z, found, tail) = index_of_first x p r in
      let rest = glob_parts_complete (q ∷ qs) (z ++ r) (Fills-append_left z f) in ground arith
  | inr empty ↦
      let short : s ≡ x ++ r = e ∙ ap (λ l. x ++ (l ++ r)) (nil_of_length p empty) in
      rw empty (glob_parts_complete (q ∷ qs) s (rw short (Fills-append_left x f)))
]

split_on-cons : (c : ℕ) (s : Text) → (p : Text) × (ps : List Text) × (split_on c s ≡ p ∷ ps)
unfolding split_on
split_on-cons c [] = ([], [], refl)
split_on-cons c (d ∷ s) = elim (Bool-cases (d == c)) [
  | inl same ↦ ([], split_on c s, rw same)
  | inr other ↦ let (p, ps, e) = split_on-cons c s in (d ∷ p, ps, rw (other, e))
]

star_parts : (pattern : Text) → pattern ≡ codes "*" → split_on b'*' pattern ≡ [] ∷ [] ∷ []
unfolding split_on
star_parts pattern e = rw e

star_Fills : (s : Text) → Fills ([] ∷ [] ∷ []) s
star_Fills s = part [] [] [] [] s s refl (last [] s s (sym (append-nil s)))

glob_match_sound :
    (pattern s : Text) → glob_match pattern s ≡ true → Fills (split_on b'*' pattern) s
unfolding glob_match
glob_match_sound pattern s h = elim (Bool-cases (text_eq pattern (codes "*"))) [
  | inl star ↦ rw (star_parts pattern ((text_eq_iff _ _).0 star)) (star_Fills s)
  | inr other ↦
      let (p, ps, e) = split_on-cons b'*' pattern in
      rw e (glob_parts_sound p ps s (rw (other, e) at h))
]

glob_match_complete :
    (pattern s : Text) → Fills (split_on b'*' pattern) s → glob_match pattern s ≡ true
unfolding glob_match
glob_match_complete pattern s f = ground (arith, glob_parts_complete (split_on b'*' pattern) s f)

-- A pattern matches a path exactly when the path is made of the parts between the pattern's stars,
-- in order, with any text before each part, before the first one too.
pub glob_match_iff :
    (pattern s : Text) → (glob_match pattern s ≡ true) ↔ Fills (split_on b'*' pattern) s
glob_match_iff pattern s = (glob_match_sound pattern s, glob_match_complete pattern s)

-- Matching is not anchored at the start: a path that matches still does behind any other text.
pub glob_match-append_left :
    (pattern y s : Text) → glob_match pattern s ≡ true → glob_match pattern (y ++ s) ≡ true
glob_match-append_left pattern y s h =
    glob_match_complete pattern (y ++ s) (Fills-append_left y (glob_match_sound pattern s h))
