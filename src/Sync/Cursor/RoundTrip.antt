-- ===== src/Sync/Cursor/RoundTrip.antt =====
-- Cursors of packages/business-logic/src/sync/cursor.ts, written and read back.
use dukaano.Base.{Option, arith, false, none, refl, some, true, ℕ, ◌≡◌, ◌≤◌}
use dukaano.Base.Decimal.{
  is_digit, length-to_decimal, of_decimal, of_decimal-to_decimal, span_digits-IsDigits,
  span_digits-append, to_decimal, to_decimal-IsDigits,
}
use dukaano.Base.Text.{Text}
use dukaano.Sync.Cursor.{
  SyncCursor, change_of, check_range, format_cursor, is_number, is_valid_cursor, match_cursor,
  max_uint64, parse_cursor, read_groups,
}

is_number-to_decimal : (n : ℕ) → n ≤ max_uint64 → is_number (to_decimal n) ≡ true
is_number-to_decimal n h =
    let lengths = length-to_decimal 19 n (omega arith) in ground (arith, lengths.0, lengths.1)

colon_stops : is_digit b':' ≡ false
unfolding is_digit
colon_stops = refl

match_cursor-format_cursor :
    (c : SyncCursor)
    → c.txid ≤ max_uint64
    → c.change_id ≤ max_uint64
    → match_cursor (format_cursor c) ≡ some (to_decimal c.txid, some (to_decimal c.change_id))
unfolding match_cursor format_cursor
match_cursor-format_cursor c h k = rw (
  span_digits-append (to_decimal c.txid) b':' (to_decimal c.change_id) (to_decimal-IsDigits c.txid)
      colon_stops,
  is_number-to_decimal c.txid h,
  span_digits-IsDigits (to_decimal c.change_id) (to_decimal-IsDigits c.change_id),
  is_number-to_decimal c.change_id k,
)

check_range_ok :
    (t d : ℕ)
    → t ≤ max_uint64
    → d ≤ max_uint64
    → check_range t d ≡ some (record { txid = t; change_id = d })
unfolding check_range
check_range_ok t d h k = ground arith

-- Every cursor in the range of 64 bits is read back as it was written.
pub parse_cursor-format_cursor :
    (c : SyncCursor)
    → c.txid ≤ max_uint64
    → c.change_id ≤ max_uint64
    → parse_cursor (format_cursor c) ≡ some c
unfolding parse_cursor
parse_cursor-format_cursor c h k =
    rw
      (
        match_cursor-format_cursor c h k,
        of_decimal-to_decimal c.txid,
        of_decimal-to_decimal c.change_id,
      )
      (check_range_ok c.txid c.change_id h k)

-- The bare watermark is the start of its rows: it is read with the change 0.
pub parse_cursor_bare :
    (t : ℕ)
    → t ≤ max_uint64
    → parse_cursor (to_decimal t) ≡ some (record { txid = t; change_id = 0 })
unfolding parse_cursor match_cursor
parse_cursor_bare t h =
    rw
      (
        span_digits-IsDigits (to_decimal t) (to_decimal-IsDigits t),
        is_number-to_decimal t h,
        of_decimal-to_decimal t,
      )
      (check_range_ok t 0 h (omega arith))

check_range-eq-some :
    (t d : ℕ) {c : SyncCursor}
    → check_range t d ≡ some c
    → (c.txid ≤ max_uint64) × (c.change_id ≤ max_uint64)
unfolding check_range
check_range-eq-some t d {c} e = ground arith

read_groups_range :
    (m : Option (Text × Option Text)) {c : SyncCursor}
    → read_groups m ≡ some c
    → (c.txid ≤ max_uint64) × (c.change_id ≤ max_uint64)
read_groups_range none e = cc
read_groups_range (some (t, d)) e = check_range-eq-some (of_decimal t) (change_of d) e

parse_cursor_range :
    (s : Text) {c : SyncCursor}
    → parse_cursor s ≡ some c
    → (c.txid ≤ max_uint64) × (c.change_id ≤ max_uint64)
unfolding parse_cursor
parse_cursor_range s e = read_groups_range (match_cursor s) e

-- Whatever is read lies in the range of 64 bits, so that writing it gives a cursor that is valid and is read
-- as the same one: the written form is canonical.
pub parse_cursor_canonical :
    (s : Text) {c : SyncCursor}
    → parse_cursor s ≡ some c
    → (c.txid ≤ max_uint64)
      × (c.change_id ≤ max_uint64)
      × (parse_cursor (format_cursor c) ≡ some c)
      × (is_valid_cursor (format_cursor c) ≡ true)
unfolding is_valid_cursor
parse_cursor_canonical s {c} e =
    let (txid_le, change_le) = parse_cursor_range s e in
    let again = parse_cursor-format_cursor c txid_le change_le in
    (txid_le, change_le, again, rw again)
