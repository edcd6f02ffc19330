-- ===== src/Sync/Pull/Tests.antt =====
-- Runs of a pull of apps/api/src/modules/sync/sync.service.ts.
use dukaano.Base.{All, List, [], arith, false, length, none, refl, some, suc, ℕ, ◌<◌, ◌∷◌, ◌≡◌}
use dukaano.Base.Decimal.{to_decimal}
use dukaano.Base.Int.{pos, ◌*ℤ◌, ◌-ℤ◌}
use dukaano.Base.Text.{codes}
use dukaano.Sync.Cursor.{SyncCursor, decide_bootstrap, decide_by_age, format_cursor}
use dukaano.Sync.Pull.{ChangeRow, Device, changes_after, page_of, pull, window}
use dukaano.Sync.Pull.Answer.{IsPulled, pull-IsPulled}
use dukaano.Sync.Pull.Drain.{IsDrained, drain, drain_ends}
use dukaano.Sync.Pull.Feed.{
  Feed, Run, Step, begins, begun, commits, later, page_now, pulled, pulls, starts_at, xmin,
}
use dukaano.Sync.Pull.Feed.Kept.{IsKept}
use dukaano.Sync.Pull.Feed.NotLost.{IsSettled, drained_pull-delivers, no_change_lost}
use dukaano.Sync.Pull.Feed.Skipped.{
  another_begins, at_first, late_page, late_pull-loses, late_pulled, nothing, then_pull,
}
use dukaano.Sync.Pull.Order.{hits}

abbrev row : ℕ → ℕ → ChangeRow
row id txid = record {
  id = id;
  txid = txid;
  entity = codes "sale";
  entity_id = id;
  op = codes "create";
  row_version = pos 1;
  changed_at = pos 0;
}

-- Transaction 5 runs as the device starts, 6 begins and commits before it.
abbrev before : List ChangeRow
before = row 1 3 ∷ []

abbrev at_start : Feed
at_start = starts_at 6 (5 ∷ []) before

abbrev six_runs : Feed
six_runs = record at_start { running = 6 ∷ 5 ∷ []; next_txid = 7 }

abbrev six_ended : Feed
six_ended = record six_runs { committed = row 3 6 ∷ before; running = 5 ∷ [] }

abbrev all_ended : Feed
all_ended = record six_ended { committed = row 2 5 ∷ row 3 6 ∷ before; running = [] }

six_commits : Step six_runs six_ended
six_commits = commits 6 (row 3 6 ∷ []) refl ((refl, omega arith), tt)

five_commits : Step six_ended all_ended
five_commits = commits 5 (row 2 5 ∷ []) refl ((refl, omega arith), tt)

to_end : Run at_start all_ended
to_end = later (later (later begun begins) six_commits) five_commits

two_pulls : Run at_start (pulled 1 (pulled 1 all_ended))
two_pulls = later (later to_end (pulls 0)) (pulls 0)

before_numbered : All (λ r. 0 < r.id) before
before_numbered = (omega arith, tt)

delivered_in_order : (pulled 1 (pulled 1 all_ended)).delivered ≡ row 3 6 ∷ row 2 5 ∷ []
unfolding page_of changes_after ◌-ℤ◌
delivered_in_order = refl

no_change_lost_example :
    All
      (IsKept at_start.cursor
        (pulled 1 (pulled 1 all_ended)).cursor
        (pulled 1 (pulled 1 all_ended)).delivered)
      (pulled 1 (pulled 1 all_ended)).committed
no_change_lost_example =
    no_change_lost 6 (5 ∷ []) before before_numbered (pulled 1 (pulled 1 all_ended)) two_pulls

no_more_after : (page_now 2 all_ended).has_more ≡ false
unfolding page_of changes_after ◌-ℤ◌
no_more_after = refl

drained_pull-delivers_example :
    All
      (IsSettled at_start.cursor (xmin all_ended) (pulled 2 all_ended).delivered)
      all_ended.committed
drained_pull-delivers_example =
    drained_pull-delivers 6 (5 ∷ []) before before_numbered all_ended to_end 1 no_more_after

-- Transaction 5 ends between the two statements of the pull.
no_more_late : (late_page 2 six_ended all_ended).has_more ≡ false
unfolding page_of changes_after
no_more_late = refl

-- Another transaction begins within the pull after it.
abbrev seven_begun : Feed
seven_begun =
    let f = late_pulled 2 six_ended all_ended in
    record f { running = f.next_txid ∷ f.running; next_txid = suc f.next_txid }

abbrev pulled_later : Feed
pulled_later = late_pulled 3 (late_pulled 2 six_ended all_ended) seven_begun

late_pull-loses_example : hits (row 2 5) pulled_later.delivered ≡ hits (row 2 5) six_ended.delivered
late_pull-loses_example =
    late_pull-loses 1 six_ended all_ended pulled_later (row 2 5) no_more_late (omega arith)
      (omega arith) (then_pull 2 at_first (another_begins nothing))

all_numbered : All (λ r. 0 < r.id) all_ended.committed
all_numbered = (omega arith, (omega arith, (omega arith, tt)))

in_window : length (window (xmin all_ended) all_ended.cursor all_ended.committed) < 3
unfolding window
in_window = omega arith

drain_ends_example :
    (g : Feed) × (drain 3 1 all_ended ≡ some g) × IsDrained all_ended.cursor all_ended g
drain_ends_example = drain_ends 3 0 all_ended all_numbered in_window

abbrev phone : Device
phone = record { last_sync_xmin = none; last_pulled_at = some (pos 0); revoked_at = none }

abbrev position : SyncCursor
position = record { txid = 5; change_id = 0 }

phone_recent :
    (decide_bootstrap (some (format_cursor position)) (some (pos 0)) (pos 1000) none).required
    ≡ false
unfolding format_cursor decide_bootstrap to_decimal decide_by_age ◌*ℤ◌ ◌-ℤ◌
phone_recent = refl

pull-IsPulled_example :
    IsPulled
      (pos 1000)
      7
      7
      (some (format_cursor position))
      2
      all_ended.committed
      (some phone)
      (pull (pos 1000) 7 7 (some (format_cursor position)) 2 all_ended.committed (some phone))
pull-IsPulled_example =
    pull-IsPulled (pos 1000) 7 7 (some (format_cursor position)) 2 all_ended.committed (some phone)
