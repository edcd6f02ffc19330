-- ===== src/Base/Table.antt =====
-- Rows of a table, found, changed and added up by a column that holds an identifier.
use dukaano.Base.{
  ==_iff, Bool-cases, List, Option, [], ap, arith, false, if◌then◌else◌, inl, inr, none, or_else,
  refl, some, true, ℕ, ◌++◌, ◌==◌, ◌∷◌, ◌≡◌,
}
use dukaano.Base.Int.{int_laws, pos, ℤ, ◌+ℤ◌}
use dukaano.Base.Sort.{total_by}
use mathlib.Core.Path.{ap₂, subst}

module _ {ℓ} {Row : Type ℓ} (key : Row → ℕ) where
  -- What the first row of an identifier holds.
  unfoldable pub find_row {κ} : {Value : Type κ} → (Row → Value) → ℕ → List Row → Option Value
  find_row value id [] = none
  find_row value id (r ∷ rows) = if key r == id then some (value r) else find_row value id rows

  unfoldable pub change_rows : ℕ → (Row → Row) → List Row → List Row
  change_rows id change [] = []
  change_rows id change (r ∷ rows) =
      let rest = change_rows id change rows in if key r == id then change r ∷ rest else r ∷ rest

  unfoldable pub sum_rows : (Row → ℤ) → ℕ → List Row → ℤ
  sum_rows amount id [] = pos 0
  sum_rows amount id (r ∷ rows) =
      if key r == id then amount r +ℤ sum_rows amount id rows else sum_rows amount id rows

  -- A row that holds what a missing one counts as changes no value.
  pub find_row-append {κ} :
      {Value : Type κ} (value : Row → Value) (id : ℕ) (r : Row) (rows : List Row)
      → or_else (find_row value id (rows ++ r ∷ [])) (value r)
        ≡ or_else (find_row value id rows) (value r)
  unfolding find_row
  find_row-append value id r [] = elim (Bool-cases (key r == id)) [
    | inl same ↦ rw same refl
    | inr other ↦ rw other refl
  ]
  find_row-append value id r (s ∷ rows) = elim (Bool-cases (key s == id)) [
    | inl same ↦ rw same refl
    | inr other ↦ rw other (find_row-append value id r rows)
  ]

  pub find_row-new {κ} :
      {Value : Type κ} (value : Row → Value) (id : ℕ) (r : Row) (rows : List Row)
      → (key r == id) ≡ true
      → (v : Value) × (find_row value id (rows ++ r ∷ []) ≡ some v)
  unfolding find_row
  find_row-new value id r [] own = (value r, rw own refl)
  find_row-new value id r (s ∷ rows) own = elim (Bool-cases (key s == id)) [
    | inl same ↦ rw same (value s, refl)
    | inr other ↦ rw other (find_row-new value id r rows own)
  ]

  -- The rows themselves.
  pub find_row_key :
      (id : ℕ) (rows : List Row) {r : Row} → find_row (λ s. s) id rows ≡ some r → key r ≡ id
  unfolding find_row
  find_row_key id [] h = absurd (ground arith)
  find_row_key id (s ∷ rows) {r} h = elim (Bool-cases (key s == id)) [
    | inl same ↦
        let here : s ≡ r = ap (λ o. or_else o s) (rw same at h) in
        subst (λ x. key x ≡ id) here ((==_iff (key s) id).0 same)
    | inr other ↦ find_row_key id rows (rw other at h)
  ]

  pub find_row-found {κ} :
      {Value : Type κ} (value : Row → Value) (id : ℕ) (rows more : List Row) {v : Value}
      → find_row value id rows ≡ some v
      → find_row value id (rows ++ more) ≡ some v
  unfolding find_row
  find_row-found value id [] more h = absurd (ground arith)
  find_row-found value id (s ∷ rows) more {v} h = elim (Bool-cases (key s == id)) [
    | inl same ↦ rw same (rw same at h)
    | inr other ↦ rw other (find_row-found value id rows more (rw other at h))
  ]

  pub find_row-missing {κ} :
      {Value : Type κ} (value : Row → Value) (id : ℕ) (rows more : List Row)
      → find_row value id rows ≡ none
      → find_row value id (rows ++ more) ≡ find_row value id more
  unfolding find_row
  find_row-missing value id [] more h = refl
  find_row-missing value id (s ∷ rows) more h = elim (Bool-cases (key s == id)) [
    | inl same ↦ absurd (ground (arith, same, h))
    | inr other ↦ rw other (find_row-missing value id rows more (rw other at h))
  ]

  pub find_row-append_other {κ} :
      {Value : Type κ} (value : Row → Value) (id : ℕ) (r : Row) (rows : List Row)
      → (key r == id) ≡ false
      → find_row value id (rows ++ r ∷ []) ≡ find_row value id rows
  unfolding find_row
  find_row-append_other value id r [] h = rw h refl
  find_row-append_other value id r (s ∷ rows) h = elim (Bool-cases (key s == id)) [
    | inl same ↦ rw same refl
    | inr other ↦ rw other (find_row-append_other value id r rows h)
  ]

  pub find_row-changed :
      (id : ℕ) (change : Row → Row) (rows : List Row) {r : Row}
      → ((s : Row) → key (change s) ≡ key s)
      → find_row (λ s. s) id rows ≡ some r
      → find_row (λ s. s) id (change_rows id change rows) ≡ some (change r)
  unfolding find_row change_rows
  find_row-changed id change [] keeps h = absurd (ground arith)
  find_row-changed id change (s ∷ rows) {r} keeps h = elim (Bool-cases (key s == id)) [
    | inl same ↦
        rw (same, keeps s, same) (ap (λ x. some (change x)) (ap (λ o. or_else o s) (rw same at h)))
    | inr other ↦ rw (other, other) (find_row-changed id change rows keeps (rw other at h))
  ]

  -- A change that keeps an amount keeps its total.
  pub total_by-change_rows :
      (amount : Row → ℤ) (id : ℕ) (change : Row → Row) (rows : List Row)
      → ((r : Row) → amount (change r) ≡ amount r)
      → total_by amount (change_rows id change rows) ≡ total_by amount rows
  unfolding change_rows
  total_by-change_rows amount id change [] h = refl
  total_by-change_rows amount id change (r ∷ rows) h = elim (Bool-cases (key r == id)) [
    | inl same ↦ rw same (ap₂ (λ a b. a +ℤ b) (h r) (total_by-change_rows amount id change rows h))
    | inr other ↦ rw other (ap (λ b. amount r +ℤ b) (total_by-change_rows amount id change rows h))
  ]

  module _ {κ} {Value : Type κ} (value : Row → Value) (id : ℕ) (change : Row → Row)
      (keeps : (r : Row) → key (change r) ≡ key r) where
    pub find_row-change_rows_other :
        (other_id : ℕ) (rows : List Row)
        → (id == other_id) ≡ false
        → find_row value other_id (change_rows id change rows) ≡ find_row value other_id rows
    unfolding find_row change_rows
    find_row-change_rows_other other_id [] h = refl
    find_row-change_rows_other other_id (r ∷ rows) h = elim (Bool-cases (key r == id)) [
      | inl same ↦
          let differs : (key r == other_id) ≡ false = ground arith in
          rw (same, keeps r, differs) (find_row-change_rows_other other_id rows h)
      | inr other ↦ rw (other, find_row-change_rows_other other_id rows h) refl
    ]

    find_row-change_rows_own :
        {after : Value} (rows : List Row) {v : Value}
        → ((r : Row) → value (change r) ≡ after)
        → find_row value id rows ≡ some v
        → find_row value id (change_rows id change rows) ≡ some after
    unfolding find_row change_rows
    find_row-change_rows_own [] {v} becomes h = absurd (ground arith)
    find_row-change_rows_own (r ∷ rows) {v} becomes h = elim (Bool-cases (key r == id)) [
      | inl same ↦ rw (same, keeps r, same, becomes r) refl
      | inr other ↦
          let later : find_row value id rows ≡ some v = ground arith in
          rw (other, other) (find_row-change_rows_own rows becomes later)
    ]

    pub find_row-change_rows :
        {after : Value} (missing : Value) (other_id : ℕ) (rows : List Row) {v : Value}
        → ((r : Row) → value (change r) ≡ after)
        → find_row value id rows ≡ some v
        → or_else (find_row value other_id (change_rows id change rows)) missing
          ≡ (if id == other_id then after else or_else (find_row value other_id rows) missing)
    find_row-change_rows {after} missing other_id rows becomes h =
        elim (Bool-cases (id == other_id)) [
          | inl same ↦
              let own =
                subst (λ x. find_row value x (change_rows id change rows) ≡ some after)
                  ((==_iff id other_id).0 same) (find_row-change_rows_own rows becomes h) in
              rw (own, same) refl
          | inr other ↦ rw (find_row-change_rows_other other_id rows other, other) refl
        ]

  pub sum_rows-append :
      (amount : Row → ℤ) (id : ℕ) (rows more : List Row)
      → sum_rows amount id (rows ++ more) ≡ sum_rows amount id rows +ℤ sum_rows amount id more
  unfolding sum_rows
  sum_rows-append amount id [] more = omega int_laws
  sum_rows-append amount id (r ∷ rows) more =
      rw (sum_rows-append amount id rows more) (elim (Bool-cases (key r == id)) [
        | inl same ↦ rw same (omega int_laws)
        | inr other ↦ rw other refl
      ])

  pub sum_rows-one :
      (amount : Row → ℤ) (id : ℕ) (rows : List Row) (r : Row)
      → sum_rows amount id (rows ++ r ∷ [])
        ≡ (if key r == id then sum_rows amount id rows +ℤ amount r else sum_rows amount id rows)
  unfolding sum_rows
  sum_rows-one amount id rows r =
      rw (sum_rows-append amount id rows (r ∷ [])) (elim (Bool-cases (key r == id)) [
        | inl same ↦ rw same (omega int_laws)
        | inr other ↦ rw other (omega int_laws)
      ])
