-- ===== src/Import/Csv/Scan.antt =====
-- The loop of parseCsv in packages/business-logic/src/import/csv.ts over what toCsv writes.
use dukaano.Base.{
  Bool, Bool-cases, List, [], arith, false, if◌then◌else◌, inl, inr, is_empty, not, refl, true, ℕ,
  ◌++◌, ◌+◌, ◌==◌, ◌||◌, ◌∙◌, ◌∷◌, ◌≡◌,
}
use dukaano.Base.Text.{Text}
use dukaano.Import.Csv.{
  Record, State, escape, has_special, is_special, next_is, scan, start, step_plain, step_quoted,
  to_csv_value, to_line, to_lines,
}
use mathlib.Core.List.{append-nil, append_assoc}
use native.Mathlib.Nat.{add-zero, add_assoc}

-- How many line ends a text, or the cells of a row, have.
unfoldable pub newlines : Text → ℕ
newlines [] = 0
newlines (c ∷ s) = (if c == b'\n' then 1 else 0) + newlines s

unfoldable pub newlines_in : List Text → ℕ
unfolding newlines
newlines_in [] = 0
newlines_in (v ∷ row) = newlines v + newlines_in row

newlines_plain : (v : Text) → has_special v ≡ false → newlines v ≡ 0
unfolding newlines has_special is_special
newlines_plain [] h = refl
newlines_plain (c ∷ v) h = ground (arith, newlines_plain v)

-- The states inside a record, outside and inside quotes.
abbrev pub outside : List Record → List Text → Text → ℕ → ℕ → Bool → State
outside records cells field line start saw = record {
  records = records;
  cells = cells;
  field = field;
  in_quotes = false;
  line = line;
  record_start_line = start;
  saw_any_char = saw;
}

abbrev pub inside : List Record → List Text → Text → ℕ → ℕ → State
inside records cells field line start = record {
  records = records;
  cells = cells;
  field = field;
  in_quotes = true;
  line = line;
  record_start_line = start;
  saw_any_char = true;
}

quote_code : (c : ℕ) → (c == b'"') ≡ true → c ≡ b'"'
quote_code c h = ground arith

counted :
    (c line n : ℕ)
    → (if c == b'\n' then line + 1 else line) + n ≡ line + ((if c == b'\n' then 1 else 0) + n)
counted c line n = ground arith

module _ (records : List Record) (cells : List Text) (begun : ℕ) where
  plain_step :
      (c : ℕ) (rest f : Text) (line : ℕ) (saw : Bool)
      → is_special c ≡ false
      → scan false (c ∷ rest) (outside records cells f line begun saw)
        ≡ scan false rest (outside records cells (f ++ c ∷ []) line begun true)
  unfolding scan step_plain is_special
  plain_step c rest f line saw h = ground arith

  -- A value without special code units is taken over into the field.
  scan_plain :
      (v rest f : Text) (line : ℕ) (saw : Bool)
      → has_special v ≡ false
      → scan false (v ++ rest) (outside records cells f line begun saw)
        ≡ scan false rest (outside records cells (f ++ v) line begun (saw || not (is_empty v)))
  unfolding has_special
  scan_plain [] rest f line saw h = rw (append-nil f) (ground arith)
  scan_plain (c ∷ v) rest f line saw h =
      plain_step c (v ++ rest) f line saw (ground arith)
      ∙ scan_plain v rest (f ++ c ∷ []) line true (ground arith)
      ∙ rw (append_assoc f (c ∷ []) v) (ground arith)

  quoted_step :
      (c : ℕ) (rest f : Text) (line : ℕ)
      → (c == b'"') ≡ false
      → scan false (c ∷ rest) (inside records cells f line begun)
        ≡ scan false rest
            (inside records cells (f ++ c ∷ []) (if c == b'\n' then line + 1 else line) begun)
  unfolding scan step_quoted
  quoted_step c rest f line h = ground arith

  doubled_step :
      (rest f : Text) (line : ℕ)
      → scan false (b'"' ∷ b'"' ∷ rest) (inside records cells f line begun)
        ≡ scan false rest (inside records cells (f ++ b'"' ∷ []) line begun)
  unfolding scan step_quoted
  doubled_step rest f line = refl

  closing_step :
      (rest f : Text) (line : ℕ)
      → next_is b'"' rest ≡ false
      → scan false (b'"' ∷ rest) (inside records cells f line begun)
        ≡ scan false rest (outside records cells f line begun true)
  unfolding scan step_quoted
  closing_step rest f line h = ground arith

  -- Inside quotes the escaped value is read back, and its line ends are counted.
  scan_escaped :
      (v rest f : Text) (line : ℕ)
      → next_is b'"' rest ≡ false
      → scan false (escape v ++ b'"' ∷ rest) (inside records cells f line begun)
        ≡ scan false rest (outside records cells (f ++ v) (line + newlines v) begun true)
  unfolding escape newlines
  scan_escaped [] rest f line h = closing_step rest f line h ∙ rw (append-nil f) (ground arith)
  scan_escaped (c ∷ v) rest f line h = elim (Bool-cases (c == b'"')) [
    | inl quote ↦ rw quote (
        doubled_step (escape v ++ b'"' ∷ rest) f line
        ∙ scan_escaped v rest (f ++ b'"' ∷ []) line h
        ∙ rw (append_assoc f (b'"' ∷ []) v, quote_code c quote) (ground arith))
    | inr other ↦ rw other (
        quoted_step c (escape v ++ b'"' ∷ rest) f line other
        ∙ scan_escaped v rest (f ++ c ∷ []) (if c == b'\n' then line + 1 else line) h
        ∙ rw (append_assoc f (c ∷ []) v, counted c line (newlines v)) refl)
  ]

  opening_step :
      (rest : Text) (line : ℕ) (saw : Bool)
      → scan false (b'"' ∷ rest) (outside records cells [] line begun saw)
        ≡ scan false rest (inside records cells [] line begun)
  unfolding scan step_plain
  opening_step rest line saw = refl

  -- A written value is read into the field, whatever follows that is not a quote.
  scan_value :
      (v rest : Text) (line : ℕ) (saw : Bool)
      → next_is b'"' rest ≡ false
      → (seen : Bool) × (scan false
            (to_csv_value v ++ rest)
            (outside records cells [] line begun saw)
          ≡ scan false rest (outside records cells v (line + newlines v) begun seen))
  unfolding to_csv_value
  scan_value v rest line saw h = elim (Bool-cases (has_special v)) [
    | inl special ↦ rw special (
      true,
      opening_step ((escape v ++ b'"' ∷ []) ++ rest) line saw
          ∙ rw (append_assoc (escape v) (b'"' ∷ []) rest) (scan_escaped v rest [] line h),
    )
    | inr bare ↦ rw bare (
      saw || not (is_empty v),
      scan_plain v rest [] line saw bare ∙ rw (newlines_plain v bare, add-zero) refl,
    )
  ]

  comma_step :
      (rest f : Text) (line : ℕ) (saw : Bool)
      → scan false (b',' ∷ rest) (outside records cells f line begun saw)
        ≡ scan false rest (outside records (cells ++ f ∷ []) [] line begun true)
  unfolding scan step_plain
  comma_step rest f line saw = refl

  end_step :
      (rest f : Text) (line : ℕ) (saw : Bool)
      → scan false (b'\r' ∷ b'\n' ∷ rest) (outside records cells f line begun saw)
        ≡ scan false rest (
            outside
              (records ++ record { start_line = begun; cells = cells ++ f ∷ [] } ∷ [])
              []
              []
              (line + 1)
              (line + 1)
              false)
  unfolding scan step_plain
  end_step rest f line saw = refl

-- A row without cells is written as a line without text, and that is read as one empty cell.
abbrev pub as_read : List Text → List Text
as_read [] = [] ∷ []
as_read (v ∷ row) = v ∷ row

scan_row :
    (row : List Text) (rest : Text) (records : List Record) (cells : List Text) (begun line : ℕ)
    (saw : Bool)
    → scan false (to_line row ++ b'\r' ∷ b'\n' ∷ rest) (outside records cells [] line begun saw)
      ≡ scan false rest (
          outside
            (records ++ record { start_line = begun; cells = cells ++ as_read row } ∷ [])
            []
            []
            (line + newlines_in row + 1)
            (line + newlines_in row + 1)
            false)
unfolding to_line newlines_in
scan_row [] rest records cells begun line saw =
    rw (add-zero line) (end_step records cells begun rest [] line saw)
scan_row (v ∷ []) rest records cells begun line saw =
    let (seen, value) = scan_value records cells begun v (b'\r' ∷ b'\n' ∷ rest) line saw refl in
    rw (add-zero (newlines v))
      (value ∙ end_step records cells begun rest v (line + newlines v) seen)
scan_row (v ∷ w ∷ row) rest records cells begun line saw =
    let tail = b',' ∷ to_line (w ∷ row) ++ b'\r' ∷ b'\n' ∷ rest in
    let (seen, value) = scan_value records cells begun v tail line saw refl in
    rw (append_assoc (to_csv_value v) (b',' ∷ to_line (w ∷ row)) (b'\r' ∷ b'\n' ∷ rest)) (
      value
      ∙ comma_step records cells begun (to_line (w ∷ row) ++ b'\r' ∷ b'\n' ∷ rest) v
          (line + newlines v) seen
      ∙ scan_row (w ∷ row) rest records (cells ++ v ∷ []) begun (line + newlines v) true
      ∙ rw
          (
            append_assoc cells (v ∷ []) (w ∷ row),
            add_assoc line (newlines v) (newlines_in (w ∷ row)),
          )
          refl)

-- The records of a file: each starts on the line after the one before it, which has as many lines as
-- there are line ends in its cells, and one more.
abbrev pub numbered : ℕ → List (List Text) → List Record
numbered line [] = []
numbered line (row ∷ rows) =
    record { start_line = line; cells = as_read row } ∷ numbered (line + newlines_in row + 1) rows

pub scan_lines :
    (rows : List (List Text)) (records : List Record) (line : ℕ)
    → (last : ℕ) × (scan false (to_lines rows) (outside records [] [] line line false)
        ≡ outside (records ++ numbered line rows) [] [] last last false)
unfolding to_lines scan
scan_lines [] records line = (line, rw (append-nil records) refl)
scan_lines (row ∷ rows) records line =
    let next = line + newlines_in row + 1 in
    let here : Record = record { start_line = line; cells = as_read row } in
    let (last, rest) = scan_lines rows (records ++ here ∷ []) next in
    (
      last,
      scan_row row (to_lines rows) records [] line line false
          ∙ rest
          ∙ rw (append_assoc records (here ∷ []) (numbered next rows)) refl,
    )
