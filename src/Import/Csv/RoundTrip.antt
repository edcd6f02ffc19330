-- ===== src/Import/Csv/RoundTrip.antt =====
-- parseCsv of packages/business-logic/src/import/csv.ts on what toCsv wrote.
use dukaano.Base.{
  All, Bool-cases, List, [], ap, arith, false, inl, inr, is_empty, map, ok, refl, sym, true, ℕ, ◌+◌,
  ◌↔◌, ◌∙◌, ◌∷◌, ◌≡◌, ◌≢◌,
}
use dukaano.Base.Text.{Text, bom, trim}
use dukaano.Import.Csv.{
  CsvDocument, CsvRow, data_rows, finish, is_blank, next_is, parse_csv, to_csv, without_bom,
}
use dukaano.Import.Csv.Scan.{as_read, newlines_in, numbered, scan_lines}

without_bom_kept : (t : Text) → next_is bom t ≡ false → without_bom t ≡ t
unfolding without_bom
without_bom_kept [] h = refl
without_bom_kept (c ∷ t) h = ground arith

written :
    (header : List Text) (rows : List (List Text))
    → next_is bom (to_csv header rows) ≡ false
    → parse_csv (to_csv header rows)
      ≡ ok (record {
        header = map trim (as_read header);
        rows = data_rows (numbered (2 + newlines_in header) rows);
      })
unfolding parse_csv to_csv finish
written header rows h =
    let (last, scanned) = scan_lines (header ∷ rows) [] 1 in
    let second : 1 + newlines_in header + 1 ≡ 2 + newlines_in header = omega arith in
    let read : ℕ → CsvDocument = λ line. record {
      header = map trim (as_read header);
      rows = data_rows (numbered line rows);
    } in
    rw (without_bom_kept (to_csv header rows) h, scanned) (ap (λ line. ok (read line)) second)

-- How rows that were written are read, the first of them on the line `n`: a row with nothing but white
-- space is left out, any other row is there with its line and its cells, and the next row starts after
-- the line ends inside its cells and its own.
pub data ReadFrom : ℕ → List (List Text) → List CsvRow → Type 0 where
  no_rows : (n : ℕ) → ReadFrom n [] []
  left_out :
      (n : ℕ) (row : List Text) {rows : List (List Text)} {read : List CsvRow}
      → All (λ cell. trim cell ≡ []) row
      → ReadFrom (n + newlines_in row + 1) rows read
      → ReadFrom n (row ∷ rows) read
  there :
      (n : ℕ) (row : List Text) {rows : List (List Text)} {read : List CsvRow}
      → ¬ All (λ cell. trim cell ≡ []) row
      → ReadFrom (n + newlines_in row + 1) rows read
      → ReadFrom n (row ∷ rows) (record { line = n; cells = row } ∷ read)

is_empty_iff : (s : Text) → (is_empty s ≡ true) ↔ (s ≡ [])
is_empty_iff [] = ((λ e. refl), (λ e. refl))
is_empty_iff (c ∷ s) = ((λ e. absurd (cc e)), (λ e. absurd (cc e)))

is_blank_iff : (row : List Text) → (is_blank row ≡ true) ↔ All (λ cell. trim cell ≡ []) row
unfolding is_blank
is_blank_iff [] = ((λ e. tt), (λ a. refl))
is_blank_iff (cell ∷ row) = elim (Bool-cases (is_empty (trim cell))) [
  | inl e ↦ rw e (
    (λ b. ((is_empty_iff (trim cell)).0 e, (is_blank_iff row).0 b)),
    (λ a. (is_blank_iff row).1 a.1),
  )
  | inr e ↦
      rw e ((λ b. absurd (cc b)), (λ a. absurd (cc (sym e ∙ (is_empty_iff (trim cell)).1 a.0))))
]

data_rows-ReadFrom :
    (n : ℕ) (rows : List (List Text)) → ReadFrom n rows (data_rows (numbered n rows))
unfolding data_rows is_blank trim newlines_in
data_rows-ReadFrom n [] = no_rows n
data_rows-ReadFrom n ([] ∷ rows) = left_out n [] tt (data_rows-ReadFrom (n + 0 + 1) rows)
data_rows-ReadFrom n ((v ∷ vs) ∷ rows) =
    let rest = data_rows-ReadFrom (n + newlines_in (v ∷ vs) + 1) rows in
    elim (Bool-cases (is_blank (v ∷ vs))) [
      | inl e ↦ rw e (left_out n (v ∷ vs) ((is_blank_iff (v ∷ vs)).0 e) rest)
      | inr e ↦
          rw e (there n (v ∷ vs) (λ a. absurd (cc (sym e ∙ (is_blank_iff (v ∷ vs)).1 a))) rest)
    ]

-- What is written is read back: the header's names trimmed, and the rows in their order, each with the
-- line that it starts on, line ends inside cells counted, but for the rows with nothing but white space.
-- It holds unless the text begins with a byte-order mark.
pub parse_csv-to_csv :
    (header : List Text) (rows : List (List Text))
    → next_is bom (to_csv header rows) ≡ false
    → (read : List CsvRow) × ReadFrom (2 + newlines_in header) rows read
      × (parse_csv (to_csv header rows)
          ≡ ok (record { header = map trim (as_read header); rows = read }))
parse_csv-to_csv header rows h = (
  data_rows (numbered (2 + newlines_in header) rows),
  data_rows-ReadFrom (2 + newlines_in header) rows,
  written header rows h,
)

-- A row that an import keeps as it is: it has cells, and some of them not blank.
abbrev pub Kept : List Text → Type 0
Kept row = (row ≢ []) × (is_blank row ≡ false)

rows-Kept :
    (line : ℕ) (rows : List (List Text))
    → All Kept rows
    → map (λ (r : CsvRow). r.cells) (data_rows (numbered line rows)) ≡ rows
unfolding data_rows
rows-Kept line [] k = refl
rows-Kept line ([] ∷ rows) k = absurd (k.0.0 refl)
rows-Kept line ((v ∷ row) ∷ rows) k =
    rw k.0.1 (ap (λ t. (v ∷ row) ∷ t) (rows-Kept (line + newlines_in (v ∷ row) + 1) rows k.1))

map_same :
    (f : Text → Text) (names : List Text) → All (λ name. f name ≡ name) names → map f names ≡ names
map_same f [] h = refl
map_same f (x ∷ names) h = rw (h.0, map_same f names h.1) refl

as_read_same : (row : List Text) → row ≢ [] → as_read row ≡ row
as_read_same [] h = absurd (h refl)
as_read_same (v ∷ row) h = refl

-- A header of trimmed names and rows that are not blank come back as they were written, unless the text
-- begins with a byte-order mark.
pub parse_csv-to_csv-Kept :
    (header : List Text) (rows : List (List Text))
    → next_is bom (to_csv header rows) ≡ false
    → header ≢ []
    → All (λ name. trim name ≡ name) header
    → All Kept rows
    → (doc : CsvDocument) × (parse_csv (to_csv header rows) ≡ ok doc)
      × (doc.header ≡ header)
      × (map (λ r. r.cells) doc.rows ≡ rows)
parse_csv-to_csv-Kept header rows h some_header trimmed kept =
    let read : CsvDocument = record {
      header = map trim (as_read header);
      rows = data_rows (numbered (2 + newlines_in header) rows);
    } in
    (
      read,
      written header rows h,
      rw (as_read_same header some_header) (map_same trim header trimmed),
      rows-Kept (2 + newlines_in header) rows kept,
    )
