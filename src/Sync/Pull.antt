-- ===== src/Sync/Pull.antt =====
-- `pull` of apps/api/src/modules/sync/sync.service.ts: the changes after a position of the log, up to the
-- watermark. The rows are those of the shop that a statement sees; the watermark is the least transaction
-- that has not ended. The two statements of a pull each have a watermark of their own, since a transaction
-- of the default isolation level takes a new snapshot for every statement. The instants that a pull draws are one.
pub mod Order
pub mod Answer
pub mod Feed
pub mod Drain
pub mod Tests
use dukaano.Base.{
  Bool, List, Option, Result, [], err, false, if◌then◌else◌, length, ltb, map, none, not, ok,
  or_else, some, take, throw_if, true, ℕ, ◌&&◌, ◌+◌, ◌==◌, ◌>>=◌, ◌>>◌, ◌||◌, ◌∷◌,
}
use dukaano.Base.Int.{pos, ℤ, ◌-ℤ◌}
use dukaano.Base.Sort.{sort_by}
use dukaano.Base.Text.{Text}
use dukaano.Sync.Cursor.{
  BootstrapDecision, BootstrapReason, SyncCursor, decide_bootstrap, format_cursor, is_some,
  is_valid_cursor, no_cursor, parse_cursor,
}

-- A row of change_log.
pub record ChangeRow : Type 0 where
  pub id : ℕ
  pub txid : ℕ
  pub entity : Text
  pub entity_id : ℕ
  pub op : Text
  pub row_version : ℤ
  pub changed_at : ℤ

-- `txid > position.txid OR (txid = position.txid AND id > position.changeId)`
abbrev pub is_ahead : SyncCursor → ChangeRow → Bool
is_ahead c r = ltb c.txid r.txid || (r.txid == c.txid && ltb c.change_id r.id)

unfoldable pub window : ℕ → SyncCursor → List ChangeRow → List ChangeRow
window xmin c [] = []
window xmin c (r ∷ rows) =
    let rest = window xmin c rows in if ltb r.txid xmin && is_ahead c r then r ∷ rest else rest

-- `ORDER BY txid, id`
abbrev pub by_position : ChangeRow → ChangeRow → ℤ
by_position a b = if a.txid == b.txid then pos a.id -ℤ pos b.id else pos a.txid -ℤ pos b.txid

-- The query, with one row more than the page to see whether there are more.
unfoldable pub changes_after : ℕ → ℕ → SyncCursor → List ChangeRow → List ChangeRow
unfolding window sort_by
changes_after limit xmin c rows = take (limit + 1) (sort_by by_position (window xmin c rows))

unfoldable pub last_of : List ChangeRow → Option ChangeRow
last_of [] = none
last_of (r ∷ []) = some r
last_of (r ∷ s ∷ rows) = last_of (s ∷ rows)

pub record Page : Type 0 where
  pub changes : List ChangeRow
  pub cursor : SyncCursor
  pub has_more : Bool

-- After the last row of a full page, or else at the watermark of the second statement.
abbrev pub next_cursor : Bool → Option ChangeRow → ℕ → SyncCursor
next_cursor true (some last) watermark = record { txid = last.txid; change_id = last.id }
next_cursor _ _ watermark = record { txid = watermark; change_id = 0 }

-- The page of the rows found, with the watermark that is read for a last page.
unfoldable pub page_of : ℕ → ℕ → List ChangeRow → Page
unfolding last_of
page_of limit watermark found =
    let has_more = ltb limit (length found) in
    let page = if has_more then take limit found else found in
    record {
      changes = page;
      cursor = next_cursor has_more (last_of page) watermark;
      has_more = has_more;
    }

abbrev pub read_page : ℕ → ℕ → ℕ → SyncCursor → List ChangeRow → Page
read_page limit xmin watermark c rows = page_of limit watermark (changes_after limit xmin c rows)

-- The columns of device that are read.
pub record Device : Type 0 where
  pub last_sync_xmin : Option Text
  pub last_pulled_at : Option ℤ
  pub revoked_at : Option ℤ

pub data PullFault : Type 0 where
  device_not_registered device_revoked invalid_cursor query_failed : PullFault

-- A row as it is answered.
pub record ChangeView : Type 0 where
  pub entity : Text
  pub entity_id : ℕ
  pub op : Text
  pub row_version : ℤ
  pub changed_at : ℤ

abbrev pub change_view : ChangeRow → ChangeView
change_view r = record {
  entity = r.entity;
  entity_id = r.entity_id;
  op = r.op;
  row_version = r.row_version;
  changed_at = r.changed_at;
}

pub data PullAnswer : Type 0 where
  snapshot_required : BootstrapReason → PullAnswer
  delta : List ChangeView → Text → Bool → PullAnswer

abbrev pub max_pull_limit : ℕ
max_pull_limit = 500

-- `Math.min(Math.max(limit, 1), MAX_PULL_LIMIT)`
unfoldable pub capped_limit : ℕ → ℕ
capped_limit limit =
    let least = if ltb limit 1 then 1 else limit in
    if ltb max_pull_limit least then max_pull_limit else least

-- 2^63 - 1: the identifiers of change_log are signed, and the query fails with one above it.
abbrev pub max_int64 : ℕ
max_int64 = 9_223_372_036_854_775_807

abbrev pub first_given : Option Text → Option Text → Option Text
first_given (some cursor) stored = some cursor
first_given none stored = stored

abbrev pub is_bad_cursor : Option Text → Bool
is_bad_cursor none = false
is_bad_cursor (some cursor) = not (is_valid_cursor cursor)

abbrev pub answer_of : ℤ → Device → Page → Result PullFault (PullAnswer × Device)
answer_of now device page =
    let next = format_cursor page.cursor in
    ok (
      delta (map change_view page.changes) next page.has_more,
      record device { last_sync_xmin = some next; last_pulled_at = some now },
    )

abbrev pub pull_from :
    ℤ
    → ℕ
    → ℕ
    → ℕ
    → List ChangeRow
    → Device
    → Option SyncCursor
    → Result PullFault (PullAnswer × Device)
pull_from now limit xmin watermark rows device none = err invalid_cursor
pull_from now limit xmin watermark rows device (some position) =
    throw_if (ltb max_int64 position.change_id) query_failed
    >> answer_of now device (read_page (capped_limit limit) xmin watermark position rows)

abbrev pub pull_decided :
    ℤ
    → ℕ
    → ℕ
    → ℕ
    → List ChangeRow
    → Device
    → BootstrapDecision
    → Option Text
    → Result PullFault (PullAnswer × Device)
pull_decided now limit xmin watermark rows device decision none =
    ok (snapshot_required (or_else decision.reason no_cursor), device)
pull_decided now limit xmin watermark rows device decision (some cursor) =
    if decision.required
    then ok (snapshot_required (or_else decision.reason no_cursor), device)
    else pull_from now limit xmin watermark rows device (parse_cursor cursor)

abbrev pub pull_known :
    ℤ
    → ℕ
    → ℕ
    → Option Text
    → ℕ
    → List ChangeRow
    → Option Device
    → Result PullFault (PullAnswer × Device)
pull_known now xmin watermark cursor limit rows none = err device_not_registered
pull_known now xmin watermark cursor limit rows (some device) = do
  throw_if (is_some device.revoked_at) device_revoked
  let effective = first_given cursor device.last_sync_xmin
  throw_if (is_bad_cursor effective) invalid_cursor
  pull_decided now limit xmin watermark rows device
      (decide_bootstrap effective device.last_pulled_at now none) effective

-- `pull`: the answer, and the device as it is stored.
unfoldable pub pull :
    ℤ
    → ℕ
    → ℕ
    → Option Text
    → ℕ
    → List ChangeRow
    → Option Device
    → Result PullFault (PullAnswer × Device)
unfolding page_of changes_after capped_limit is_valid_cursor parse_cursor format_cursor
    decide_bootstrap
pull now xmin watermark cursor limit rows device =
    pull_known now xmin watermark cursor limit rows device
