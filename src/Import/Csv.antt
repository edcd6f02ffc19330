-- ===== src/Import/Csv.antt =====
-- packages/business-logic/src/import/csv.ts, but for the detection of columns: reading and writing CSV
-- text. A string is the list of its UTF-16 code units.
pub mod Scan
pub mod RoundTrip
use dukaano.Base.{
  Bool, List, Result, [], err, false, if◌then◌else◌, is_empty, map, not, ok, true, ℕ, ◌&&◌, ◌++◌,
  ◌+◌, ◌==◌, ◌||◌, ◌∷◌,
}
use dukaano.Base.Text.{Text, bom, trim}

pub record CsvRow : Type 0 where
  pub line : ℕ
  pub cells : List Text

pub record CsvDocument : Type 0 where
  pub header : List Text
  pub rows : List CsvRow

-- `CsvParseError`: the one message there is, and the line.
pub data CsvParseError : Type 0 where
  unclosed_quote : ℕ → CsvParseError

-- `{ startLine, cells }`
pub record Record : Type 0 where
  pub start_line : ℕ
  pub cells : List Text

-- The variables of the loop.
pub record State : Type 0 where
  pub records : List Record
  pub cells : List Text
  pub field : Text
  pub in_quotes : Bool
  pub line : ℕ
  pub record_start_line : ℕ
  pub saw_any_char : Bool

abbrev pub end_field : State → State
end_field s = record s { cells = s.cells ++ s.field ∷ []; field = [] }

abbrev pub end_record : State → State
end_record s =
    let t = end_field s in
    record t {
      records = t.records ++ record { start_line = t.record_start_line; cells = t.cells } ∷ [];
      cells = [];
      record_start_line = t.line;
    }

-- `input[i + 1] === c`
abbrev pub next_is : ℕ → Text → Bool
next_is c [] = false
next_is c (d ∷ ds) = d == c

-- The body of the loop for the code unit `c` with `rest` behind it; the Boolean says that it skips the
-- next one (`i++`).
unfoldable pub step_quoted : ℕ → Text → State → State × Bool
step_quoted c rest s =
    if c == b'"'
    then (if next_is b'"' rest
        then (record s { field = s.field ++ b'"' ∷ [] }, true)
        else (record s { in_quotes = false }, false))
    else (
      record s { line = if c == b'\n' then s.line + 1 else s.line; field = s.field ++ c ∷ [] },
      false,
    )

unfoldable pub step_plain : ℕ → Text → State → State × Bool
step_plain c rest s =
    if c == b'"' && is_empty s.field
    then (record s { in_quotes = true; saw_any_char = true }, false)
    else if c == b','
    then (record (end_field s) { saw_any_char = true }, false)
    else if c == b'\r' || c == b'\n'
    then (
      record (end_record (record s { line = s.line + 1 })) { saw_any_char = false },
      c == b'\r' && next_is b'\n' rest,
    )
    else (record s { field = s.field ++ c ∷ []; saw_any_char = true }, false)

-- The loop. The Boolean is set where the code unit at hand is to be skipped.
unfoldable pub scan : Bool → Text → State → State
unfolding step_quoted step_plain
scan skip [] s = s
scan true (c ∷ rest) s = scan false rest s
scan false (c ∷ rest) s =
    let (t, skip) = if s.in_quotes then step_quoted c rest s else step_plain c rest s in
    scan skip rest t

abbrev pub start : State
start = record {
  records = [];
  cells = [];
  field = [];
  in_quotes = false;
  line = 1;
  record_start_line = 1;
  saw_any_char = false;
}

-- `text.startsWith(BOM) ? text.slice(BOM.length) : text`
unfoldable pub without_bom : Text → Text
without_bom [] = []
without_bom (c ∷ rest) = if c == bom then rest else c ∷ rest

-- `cells.every((cell) => cell.trim() === '')`
unfoldable pub is_blank : List Text → Bool
unfolding trim
is_blank [] = true
is_blank (cell ∷ cells) = is_empty (trim cell) && is_blank cells

unfoldable pub data_rows : List Record → List CsvRow
unfolding is_blank
data_rows [] = []
data_rows (r ∷ records) =
    let rest = data_rows records in
    if is_blank r.cells then rest else record { line = r.start_line; cells = r.cells } ∷ rest

abbrev pub document : List Record → CsvDocument
document [] = record { header = []; rows = [] }
document (header_record ∷ data_records) = record {
  header = map trim header_record.cells;
  rows = data_rows data_records;
}

-- What follows the loop.
unfoldable pub finish : State → Result CsvParseError CsvDocument
unfolding trim data_rows
finish s =
    if s.in_quotes
    then err (unclosed_quote s.record_start_line)
    else ok (
        document (
          if s.saw_any_char || not (is_empty s.field) || not (is_empty s.cells)
          then (end_record s).records
          else s.records))

unfoldable pub parse_csv : Text → Result CsvParseError CsvDocument
unfolding without_bom scan finish
parse_csv text = finish (scan false (without_bom text) start)

-- `/[",\r\n]/`
unfoldable pub is_special : ℕ → Bool
is_special c = c == b'"' || c == b',' || c == b'\r' || c == b'\n'

unfoldable pub has_special : Text → Bool
unfolding is_special
has_special [] = false
has_special (c ∷ s) = is_special c || has_special s

-- `value.replace(/"/g, '""')`
unfoldable pub escape : Text → Text
escape [] = []
escape (c ∷ s) = if c == b'"' then b'"' ∷ b'"' ∷ escape s else c ∷ escape s

unfoldable pub to_csv_value : Text → Text
unfolding has_special escape
to_csv_value value = if has_special value then b'"' ∷ escape value ++ b'"' ∷ [] else value

-- `row.map(toCsvValue).join(',')`
unfoldable pub to_line : List Text → Text
unfolding to_csv_value
to_line [] = []
to_line (value ∷ []) = to_csv_value value
to_line (value ∷ next ∷ values) = to_csv_value value ++ b',' ∷ to_line (next ∷ values)

-- Every line is followed by CRLF, the last one too.
unfoldable pub to_lines : List (List Text) → Text
unfolding to_line
to_lines [] = []
to_lines (row ∷ rows) = to_line row ++ b'\r' ∷ b'\n' ∷ to_lines rows

unfoldable pub to_csv : List Text → List (List Text) → Text
unfolding to_lines
to_csv header rows = to_lines (header ∷ rows)
