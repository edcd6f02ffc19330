-- ===== src/Sync/Cursor.antt =====
-- packages/business-logic/src/sync/cursor.ts. An instant is its time in milliseconds.
pub mod RoundTrip
pub mod Retry
use dukaano.Base.{
  Bool, List, Option, [], false, get_elem?, if◌then◌else◌, is_empty, leb, length, ltb, none,
  or_else, some, true, ℕ, ◌&&◌, ◌*◌, ◌++◌, ◌==◌, ◌||◌, ◌∷◌,
}
use dukaano.Base.Decimal.{of_decimal, span_digits, to_decimal}
use dukaano.Base.Int.{leb_ℤ, pos, pos_part, ℤ, ◌*ℤ◌, ◌-ℤ◌}
use dukaano.Base.Text.{Text}

abbrev pub change_log_retention_days : ℕ
change_log_retention_days = 30

abbrev pub sync_backoff_ms : List ℕ
sync_backoff_ms = 1_000 ∷ 2_000 ∷ 5_000 ∷ 15_000 ∷ 60_000 ∷ 300_000 ∷ []

abbrev pub sync_backoff_cap_ms : ℕ
sync_backoff_cap_ms = 300_000

-- `SYNC_BACKOFF_MS.at(Math.max(attempt - 1, 0)) ?? SYNC_BACKOFF_CAP_MS`; the larger of a number and
-- zero is its positive part.
unfoldable pub backoff_delay_ms : ℤ → ℕ
backoff_delay_ms attempt =
    let index = pos_part (attempt -ℤ pos 1) in
    or_else (get_elem? sync_backoff_ms index) sync_backoff_cap_ms

pub data BootstrapReason : Type 0 where
  no_cursor cursor_expired : BootstrapReason

pub record BootstrapDecision : Type 0 where
  pub required : Bool
  pub reason : Option BootstrapReason

-- `!input.cursor`: no cursor, or the empty text
abbrev pub is_missing : Option Text → Bool
is_missing none = true
is_missing (some []) = true
is_missing (some (c ∷ cs)) = false

abbrev pub bootstrap : BootstrapReason → BootstrapDecision
bootstrap why = record { required = true; reason = some why }

-- The decision once there is an instant of the last pull.
unfoldable pub decide_by_age : ℤ → ℤ → ℤ → BootstrapDecision
decide_by_age last_pulled now retention_days =
    let age_ms = now -ℤ last_pulled in
    if leb_ℤ (retention_days *ℤ pos (24 * 60 * 60 * 1000)) age_ms
    then bootstrap cursor_expired
    else record { required = false; reason = none }

unfoldable pub decide_bootstrap : Option Text → Option ℤ → ℤ → Option ℤ → BootstrapDecision
decide_bootstrap cursor none now retention = bootstrap no_cursor
decide_bootstrap cursor (some last_pulled) now retention =
    if is_missing cursor
    then bootstrap no_cursor
    else decide_by_age last_pulled now (or_else retention (pos change_log_retention_days))

-- 2^64 - 1
abbrev pub max_uint64 : ℕ
max_uint64 = 18_446_744_073_709_551_615

pub record SyncCursor : Type 0 where
  pub txid : ℕ
  pub change_id : ℕ

-- `\d{1,20}`
abbrev pub is_number : Text → Bool
is_number s = ltb 0 (length s) && leb (length s) 20

-- What the groups of `/^(\d{1,20})(?::(\d{1,20}))?$/` capture. A run of digits is followed by a colon
-- or the end, so it is matched whole or not at all.
abbrev pub match_tail : Text → Text → Option (Text × Option Text)
match_tail txid [] = some (txid, none)
match_tail txid (c ∷ rest) =
    let (change, after) = span_digits rest in
    if c == b':' && is_number change && is_empty after then some (txid, some change) else none

unfoldable pub match_cursor : Text → Option (Text × Option Text)
unfolding span_digits
match_cursor cursor =
    let (txid, rest) = span_digits cursor in if is_number txid then match_tail txid rest else none

abbrev pub change_of : Option Text → ℕ
change_of none = 0
change_of (some s) = of_decimal s

unfoldable pub check_range : ℕ → ℕ → Option SyncCursor
check_range txid change_id =
    if ltb max_uint64 txid || ltb max_uint64 change_id
    then none
    else some (record { txid = txid; change_id = change_id })

-- The numbers that the groups stand for, if there was a match.
abbrev pub read_groups : Option (Text × Option Text) → Option SyncCursor
read_groups none = none
read_groups (some (txid, change)) = check_range (of_decimal txid) (change_of change)

unfoldable pub parse_cursor : Text → Option SyncCursor
parse_cursor cursor = read_groups (match_cursor cursor)

unfoldable pub format_cursor : SyncCursor → Text
format_cursor cursor = to_decimal cursor.txid ++ (b':' ∷ to_decimal cursor.change_id)

abbrev pub is_some {ℓ} : {A : Type ℓ} → Option A → Bool
is_some none = false
is_some (some a) = true

unfoldable pub is_valid_cursor : Text → Bool
is_valid_cursor cursor = is_some (parse_cursor cursor)
