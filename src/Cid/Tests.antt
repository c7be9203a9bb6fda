-- ===== src/Cid/Tests.antt =====
-- Runs of the CIDs.
use compute_contract_referen.Base.{arith, refl, ◌≡◌, ℕ, false, List, [], ◌∷◌, ◌++◌, codes, err}
use compute_contract_referen.Cid.{cid_from_digest, is_valid_cid, digest_length}
use compute_contract_referen.Cid.Digests.{IsDigest}

abbrev eight : List ℕ
eight = 0xde ∷ 0xad ∷ 0xbe ∷ 0xef ∷ 0 ∷ 1 ∷ 254 ∷ 255 ∷ []

abbrev some_digest : List ℕ
some_digest = eight ++ eight ++ eight ++ eight

digest_refused : cid_from_digest eight ≡ err (digest_length 8)
unfolding cid_from_digest
digest_refused = refl

no_cid : is_valid_cid (codes "zdpuA") ≡ false
unfolding is_valid_cid
no_cid = refl

some_digest-IsDigest : IsDigest some_digest
some_digest-IsDigest = record {
  are_bytes = (
    omega arith,
    (
      omega arith,
      (
        omega arith,
        (
          omega arith,
          (
            omega arith,
            (
              omega arith,
              (
                omega arith,
                (
                  omega arith,
                  (
                    omega arith,
                    (
                      omega arith,
                      (
                        omega arith,
                        (
                          omega arith,
                          (
                            omega arith,
                            (
                              omega arith,
                              (
                                omega arith,
                                (
                                  omega arith,
                                  (
                                    omega arith,
                                    (
                                      omega arith,
                                      (
                                        omega arith,
                                        (
                                          omega arith,
                                          (
                                            omega arith,
                                            (
                                              omega arith,
                                              (
                                                omega arith,
                                                (
                                                  omega arith,
                                                  (
                                                    omega arith,
                                                    (
                                                      omega arith,
                                                      (
                                                        omega arith,
                                                        (
                                                          omega arith,
                                                          (
                                                            omega arith,
                                                            (
                                                            omega arith,
                                                            (omega arith, (omega arith, tt)),
                                                            ),
                                                          ),
                                                        ),
                                                      ),
                                                    ),
                                                  ),
                                                ),
                                              ),
                                            ),
                                          ),
                                        ),
                                      ),
                                    ),
                                  ),
                                ),
                              ),
                            ),
                          ),
                        ),
                      ),
                    ),
                  ),
                ),
              ),
            ),
          ),
        ),
      ),
    ),
  );
  count = refl;
}
