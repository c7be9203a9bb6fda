-- ===== src/Rbac/Policy/Best.antt =====
-- `findMatchingSchema` against the exact entry and the longest of the patterns.
use compute_contract_referen.Base.{
  arith, ap, ℕ, refl, ◌≡◌, ◌<◌, ◌≤◌, ◌⊎◌, inl, inr, true, ◌&&◌, Bool-cases, Option, Option-cases,
  none, some, [], ◌∷◌, ◌++◌, ltb, length, Text, Dict, lookup, All,
}
use compute_contract_referen.Rbac.{RbacSchema}
use compute_contract_referen.Rbac.Glob.{glob_match}
use compute_contract_referen.Rbac.Policy.{best_schema, find_matching_schema}

-- Every pattern of the entries that matches the path is no longer than `n`.
abbrev pub AtMost : Text → ℕ → Dict RbacSchema → Type 0
AtMost path n = All (λ entry. glob_match entry.0 path ≡ true → length entry.0 ≤ n)

-- Every one is shorter than `n`.
abbrev pub Below : Text → ℕ → Dict RbacSchema → Type 0
Below path n = All (λ entry. glob_match entry.0 path ≡ true → length entry.0 < n)

-- The entry stands in the dictionary, matches, is not empty, and is the first of the longest.
pub record IsBest (path : Text) (schemas : Dict RbacSchema) (schema : RbacSchema) : Type 0 where
  pub pattern : Text
  pub before : Dict RbacSchema
  pub after : Dict RbacSchema
  pub listed : schemas ≡ before ++ (pattern, schema) ∷ after
  pub matched : glob_match pattern path ≡ true
  pub nonempty : 0 < length pattern
  pub longer : Below path (length pattern) before
  pub longest : AtMost path (length pattern) after

-- What the loop has found when it ends, from the best pattern so far.
pub record Improves (path best : Text) (schemas : Dict RbacSchema) (schema : RbacSchema)
    : Type 0 where
  chosen : IsBest path schemas schema
  gain : length best < length chosen.pattern

module _ (path pattern : Text) (schema : RbacSchema) (schemas : Dict RbacSchema) where
  IsBest-here :
      glob_match pattern path ≡ true
      → 0 < length pattern
      → AtMost path (length pattern) schemas
      → IsBest path ((pattern, schema) ∷ schemas) schema
  IsBest-here matched nonempty atmost = record {
    pattern = pattern;
    before = [];
    after = schemas;
    listed = refl;
    matched = matched;
    nonempty = nonempty;
    longer = tt;
    longest = atmost;
  }

  IsBest-later :
      (other : RbacSchema) (b : IsBest path schemas other)
      → (glob_match pattern path ≡ true → length pattern < length b.pattern)
      → IsBest path ((pattern, schema) ∷ schemas) other
  IsBest-later other b shorter = record {
    pattern = b.pattern;
    before = (pattern, schema) ∷ b.before;
    after = b.after;
    listed = ap (λ l. (pattern, schema) ∷ l) b.listed;
    matched = b.matched;
    nonempty = b.nonempty;
    longer = (shorter, b.longer);
    longest = b.longest;
  }

abbrev Outcome : Text → Text → Option RbacSchema → Dict RbacSchema → Type 0
Outcome path best found schemas =
    (best_schema path best found schemas ≡ found) × AtMost path (length best) schemas
    ⊎ ((schema : RbacSchema) × (best_schema path best found schemas ≡ some schema)
        × Improves path best schemas schema)

best-Outcome :
    (path best : Text) (found : Option RbacSchema) (schemas : Dict RbacSchema)
    → Outcome path best found schemas
unfolding best_schema IsBest-here IsBest-later
best-Outcome path best found [] = inl (refl, tt)
best-Outcome path best found ((pattern, schema) ∷ schemas) =
    elim (Bool-cases (glob_match pattern path && ltb (length best) (length pattern))) [
      | inl wins ↦
          let matched : glob_match pattern path ≡ true = ground arith in
          let gain : length best < length pattern = ground arith in
          elim (best-Outcome path pattern (some schema) schemas) [
            | inl (e, atmost) ↦ inr (
              schema,
              rw wins e,
              record {
                chosen = IsBest-here path pattern schema schemas matched (omega arith) atmost;
                gain = gain;
              },
            )
            | inr (other, e, later) ↦ inr (
              other,
              rw wins e,
              record {
                chosen =
                    IsBest-later path pattern schema schemas other later.chosen (λ _. later.gain);
                gain = omega (arith, later.gain);
              },
            )
          ]
      | inr loses ↦ elim (best-Outcome path best found schemas) [
        | inl (e, atmost) ↦ inl (rw loses e, (λ m. ground arith, atmost))
        | inr (other, e, later) ↦ inr (
          other,
          rw loses e,
          record {
            chosen =
                IsBest-later path pattern schema schemas other later.chosen
                  (λ m. ground (arith, later.gain));
            gain = later.gain;
          },
        )
      ]
    ]

-- The schema that is found is the exact entry of the path; where there is no such entry, it is
-- that of an entry which matches and is not empty, longer than every matching entry before it
-- and no shorter than those behind it.
pub find_matching_schema-some :
    (schemas : Dict RbacSchema) (path : Text) (schema : RbacSchema)
    → find_matching_schema schemas path ≡ some schema
    → (lookup path schemas ≡ some schema)
      ⊎ ((lookup path schemas ≡ none) × IsBest path schemas schema)
unfolding find_matching_schema
find_matching_schema-some schemas path schema h = elim (Option-cases (lookup path schemas)) [
  | inr (exact, e) ↦ inl (ground arith)
  | inl missed ↦ elim (best-Outcome path [] none schemas) [
    | inl (e, atmost) ↦ absurd (ground arith)
    | inr (other, e, later) ↦
        let same : other ≡ schema = ground arith in inr (missed, rw (← same) later.chosen)
  ]
]

-- Where no schema is found the path has no entry of its own, and no entry with a pattern that is
-- not empty matches it.
pub find_matching_schema-none :
    (schemas : Dict RbacSchema) (path : Text)
    → find_matching_schema schemas path ≡ none
    → (lookup path schemas ≡ none) × AtMost path 0 schemas
unfolding find_matching_schema
find_matching_schema-none schemas path h = elim (Option-cases (lookup path schemas)) [
  | inr (exact, e) ↦ absurd (ground arith)
  | inl missed ↦ elim (best-Outcome path [] none schemas) [
    | inl (e, atmost) ↦ (missed, atmost)
    | inr (other, e, later) ↦ absurd (ground arith)
  ]
]
