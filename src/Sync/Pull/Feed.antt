-- ===== src/Sync/Pull/Feed.antt =====
-- A device's pulls among the transactions that write the log, apps/api/src/modules/sync/sync.service.ts.
-- A transaction takes the next number when it begins, and its rows are seen from the moment it commits.
pub mod Kept
pub mod NotLost
pub mod Skipped
use dukaano.Base.{
  All, Bool, List, [], false, if◌then◌else◌, ltb, suc, true, ℕ, ◌++◌, ◌<◌, ◌==◌, ◌||◌, ◌∷◌, ◌≡◌,
}
use dukaano.Sync.Cursor.{SyncCursor}
use dukaano.Sync.Pull.{ChangeRow, Page, read_page}

pub record Feed : Type 0 where
  pub committed : List ChangeRow
  pub running : List ℕ
  pub next_txid : ℕ
  pub cursor : SyncCursor
  pub delivered : List ChangeRow

-- `pg_snapshot_xmin(pg_current_snapshot())`: the least transaction that has not ended.
abbrev pub xmin_of : ℕ → List ℕ → ℕ
xmin_of next [] = next
xmin_of next (t ∷ ts) = let least = xmin_of next ts in if ltb t least then t else least

abbrev pub xmin : Feed → ℕ
xmin f = xmin_of f.next_txid f.running

abbrev pub without : ℕ → List ℕ → List ℕ
without t [] = []
without t (s ∷ ts) = let rest = without t ts in if s == t then rest else s ∷ rest

abbrev pub is_running : ℕ → List ℕ → Bool
is_running t [] = false
is_running t (s ∷ ts) = s == t || is_running t ts

-- A page that is read while no transaction ends between its two statements.
abbrev pub page_now : ℕ → Feed → Page
page_now limit f = read_page limit (xmin f) (xmin f) f.cursor f.committed

abbrev pub pulled : ℕ → Feed → Feed
pulled limit f =
    let page = page_now limit f in
    record f { cursor = page.cursor; delivered = page.changes ++ f.delivered }

pub data Step (f : Feed) : Feed → Type 0 where
  begins : Step f (record f { running = f.next_txid ∷ f.running; next_txid = suc f.next_txid })
  commits :
      (t : ℕ) (new : List ChangeRow)
      → is_running t f.running ≡ true
      → All (λ r. (r.txid ≡ t) × (0 < r.id)) new
      → Step f (record f { committed = new ++ f.committed; running = without t f.running })
  pulls : (limit : ℕ) → Step f (pulled (suc limit) f)

-- A device that has nothing and starts at a watermark.
abbrev pub starts_at : ℕ → List ℕ → List ChangeRow → Feed
starts_at next running rows = record {
  committed = rows;
  running = running;
  next_txid = next;
  delivered = [];
  cursor = record { txid = xmin_of next running; change_id = 0 };
}

pub data Run (f : Feed) : Feed → Type 0 where
  begun : Run f f
  later : {g h : Feed} → Run f g → Step g h → Run f h
