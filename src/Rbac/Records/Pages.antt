-- ===== src/Rbac/Records/Pages.antt =====
-- The loop over the pages of a list of records.
use compute_contract_referen.Base.{
  arith, refl, ◌≡◌, ◌≢◌, ◌⊎◌, ◌<◌, ℕ, zero, suc, Bool-cases, inl, inr, List, [], ◌∷◌, ◌++◌, Text,
  text_eq, text_eq_iff, ok,
}
use compute_contract_referen.Rbac.Records.{Response, failed, page, Collected, add_all, list_pages}

-- Asked from a cursor on, the server lists the records, in so many pages.
pub data Lists {R : Type 0} (fetch : Text → Response R) : Text → List R → ℕ → Type 0 where
  final :
      {cursor : Text} {records : List R} {n : ℕ}
      → fetch cursor ≡ page records []
      → n ≡ 1
      → Lists fetch cursor records n
  more :
      {cursor : Text} {records : List R} {n : ℕ} (here rest : List R) (next : Text) (m : ℕ)
      → fetch cursor ≡ page here next
      → next ≢ []
      → Lists fetch next rest m
      → records ≡ here ++ rest
      → n ≡ suc m
      → Lists fetch cursor records n

Response-cases :
    {R : Type 0} (r : Response R)
    → ((status : ℕ) × (r ≡ failed status))
      ⊎ ((here : List R) × (next : Text) × (r ≡ page here next))
Response-cases (failed status) = inl (status, refl)
Response-cases (page here next) = inr (here, next, refl)

module _ {R J : Type 0} (add : Collected J → R → Collected J) where
  add_all-append :
      (c : Collected J) (xs ys : List R)
      → add_all add c (xs ++ ys) ≡ add_all add (add_all add c xs) ys
  unfolding add_all
  add_all-append c [] ys = refl
  add_all-append c (x ∷ xs) ys = add_all-append (add c x) xs ys

  module _ (did : Text) (fetch : Text → Response R) where
    -- With a unit of fuel for each page the loop has added every record.
    pub list_pages_total :
        (fuel : ℕ) (cursor : Text) (c : Collected J) (records : List R) (n : ℕ)
        → Lists fetch cursor records n
        → n < suc fuel
        → list_pages add did fetch fuel cursor c ≡ ok (add_all add c records)
    unfolding list_pages
    list_pages_total zero cursor c records n (final e k) h = absurd (omega arith)
    list_pages_total zero cursor c records n (more here rest next m e ne l r k) h =
        absurd (omega arith)
    list_pages_total (suc fuel) cursor c records n (final e k) h = ground (arith, text_eq_iff [] [])
    list_pages_total (suc fuel) cursor c records n (more here rest next m e ne l r k) h =
        let ih = list_pages_total fuel next (add_all add c here) rest m l (omega arith) in
        ground (arith, text_eq_iff next [], add_all-append c here rest)

    -- Where the loop ends without an error it has added the records of such a list.
    pub list_pages_sound :
        (fuel : ℕ) (cursor : Text) (c done : Collected J)
        → list_pages add did fetch fuel cursor c ≡ ok done
        → (records : List R) × (n : ℕ) × Lists fetch cursor records n
          × (done ≡ add_all add c records)
    unfolding list_pages
    list_pages_sound zero cursor c done h = cc
    list_pages_sound (suc fuel) cursor c done h = elim (Response-cases (fetch cursor)) [
      | inl (status, e) ↦ absurd (ground arith)
      | inr (here, next, e) ↦ elim (Bool-cases (text_eq next [])) [
        | inl last ↦ (here, 1, final (ground (arith, text_eq_iff next [])) refl, ground arith)
        | inr open_list ↦
            let (rest, m, l, same) =
              list_pages_sound fuel next (add_all add c here) done (ground arith) in
            let further : next ≢ [] = λ empty. ground (arith, text_eq_iff next []) in
            (
              here ++ rest,
              suc m,
              more here rest next m e further l refl refl,
              ground (arith, add_all-append c here rest),
            )
      ]
    ]
