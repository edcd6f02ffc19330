-- ===== src/Sync/Pull/Feed/NotLost.antt =====
-- What becomes of the rows of the log as a device pulls, apps/api/src/modules/sync/sync.service.ts.
use dukaano.Base.{
  All, All-append, Bool-cases, List, [], arith, false, inl, inr, refl, suc, ℕ, ◌<◌, ◌∷◌, ◌≡◌, ◌≤◌,
  ◌⊎◌,
}
use dukaano.Sync.Cursor.{SyncCursor}
use dukaano.Sync.Pull.{ChangeRow, is_ahead}
use dukaano.Sync.Pull.Feed.{
  Feed, Run, Step, begins, begun, commits, later, page_now, pulled, pulls, starts_at, xmin,
}
use dukaano.Sync.Pull.Feed.Kept.{
  All-hits, All-pulled, Behind, Behind-is_ahead, Behind-pulled, Behind-later, IsKept,
  xmin_of-begins, xmin_of-is_running, xmin_of-without,
}
use dukaano.Sync.Pull.Order.{hits, read_page-IsPage}
use mathlib.Core.Path.{subst}

record IsFed (origin : SyncCursor) (f : Feed) : Type 0 where
  behind : Behind f.cursor (xmin f)
  numbered : All (λ r. 0 < r.id) f.committed
  kept : All (IsKept origin f.cursor f.delivered) f.committed

module _ (origin c : SyncCursor) (least t : ℕ) (delivered : List ChangeRow) (b : Behind c least)
    (h : least ≤ t) where
  All-committed :
      (new : List ChangeRow)
      → All (λ r. (r.txid ≡ t) × (0 < r.id)) new
      → All (λ r. 0 < r.id) new × All (IsKept origin c delivered) new
  All-committed [] k = (tt, tt)
  All-committed (r ∷ new) ((of_t, numbered), k) =
      let (all_numbered, all_kept) = All-committed new k in
      let ahead = Behind-is_ahead c least r b (omega arith) numbered in
      ((numbered, all_numbered), (inr (inr ahead), all_kept))

Step-IsFed : (origin : SyncCursor) (f g : Feed) → IsFed origin f → Step f g → IsFed origin g
Step-IsFed origin f g fed begins = record {
  behind = Behind-later f.cursor (xmin f) _ (xmin_of-begins f.next_txid f.running) fed.behind;
  numbered = fed.numbered;
  kept = fed.kept;
}
Step-IsFed origin f g fed (commits t new runs all) =
    let least = xmin_of-is_running f.next_txid t f.running runs in
    let (numbered, kept) =
      All-committed origin f.cursor (xmin f) t f.delivered fed.behind least new all in
    record {
      behind =
          Behind-later f.cursor (xmin f) _ (xmin_of-without f.next_txid t f.running) fed.behind;
      numbered = All-append (λ r. 0 < r.id) new f.committed numbered fed.numbered;
      kept = All-append (IsKept origin f.cursor f.delivered) new f.committed kept fed.kept;
    }
Step-IsFed origin f g fed (pulls limit) =
    let is = read_page-IsPage limit (xmin f) (xmin f) f.cursor f.committed in
    record {
      behind = Behind-pulled limit (xmin f) f.cursor f.committed (page_now (suc limit) f) is;
      numbered = fed.numbered;
      kept =
          All-pulled limit (xmin f) f.cursor f.committed (page_now (suc limit) f) is origin
            f.delivered f.committed (All-hits f.committed) fed.numbered fed.kept;
    }

Run-IsFed : (origin : SyncCursor) (f g : Feed) → IsFed origin f → Run f g → IsFed origin g
Run-IsFed origin f g fed begun = fed
Run-IsFed origin f g fed (later {g = m} run step) =
    Step-IsFed origin m g (Run-IsFed origin f m fed run) step

-- A row that the log has at the start is ahead of the start or is not asked for.
pub All-IsKept :
    (origin : SyncCursor) (delivered rows : List ChangeRow)
    → All (IsKept origin origin delivered) rows
All-IsKept origin delivered [] = tt
All-IsKept origin delivered (r ∷ rows) = elim (Bool-cases (is_ahead origin r)) [
  | inl ahead ↦ (inr (inr ahead), All-IsKept origin delivered rows)
  | inr before ↦ (inl before, All-IsKept origin delivered rows)
]

abbrev pub IsSettled : SyncCursor → ℕ → List ChangeRow → ChangeRow → Type 0
IsSettled origin least delivered r =
    (is_ahead origin r ≡ false) ⊎ ((0 < hits r delivered) ⊎ (least ≤ r.txid))

-- A row that is ahead of a bare watermark is at it or above it.
pub All-settled :
    (origin : SyncCursor) (least : ℕ) (delivered rows : List ChangeRow)
    → All (IsKept origin record { txid = least; change_id = 0 } delivered) rows
    → All (IsSettled origin least delivered) rows
All-settled origin least delivered [] k = tt
All-settled origin least delivered (r ∷ rows) (inl before, k) =
    (inl before, All-settled origin least delivered rows k)
All-settled origin least delivered (r ∷ rows) (inr (inl had), k) =
    (inr (inl had), All-settled origin least delivered rows k)
All-settled origin least delivered (r ∷ rows) (inr (inr ahead), k) =
    (inr (inr (ground (arith, ahead))), All-settled origin least delivered rows k)

module _ (next : ℕ) (running : List ℕ) (rows : List ChangeRow)
    (numbered : All (λ r. 0 < r.id) rows) where
  abbrev origin_of : SyncCursor
  origin_of = (starts_at next running rows).cursor

  -- Whatever transactions begin and commit and whatever pages are pulled, if the ids are above zero and no
  -- transaction ends between the statements of a pull, each committed row that is after the starting
  -- watermark is among those delivered or still ahead of the cursor.
  pub no_change_lost :
      (g : Feed)
      → Run (starts_at next running rows) g
      → All (IsKept (starts_at next running rows).cursor g.cursor g.delivered) g.committed
  no_change_lost g run =
      (Run-IsFed origin_of (starts_at next running rows) g
        record {
          behind = inr (refl, refl);
          numbered = numbered;
          kept = All-IsKept origin_of [] rows;
        }
        run).kept

  -- If in addition a pull then reports no more, it has delivered each committed row that is after the
  -- starting watermark and below the watermark of the pull.
  pub drained_pull-delivers :
      (g : Feed)
      → Run (starts_at next running rows) g
      → (limit : ℕ) → (page_now (suc limit) g).has_more ≡ false
      → All
          (IsSettled (starts_at next running rows).cursor (xmin g) (pulled (suc limit) g).delivered)
          g.committed
  drained_pull-delivers g run limit no_more =
      elim (read_page-IsPage limit (xmin g) (xmin g) g.cursor g.committed).end [
        | inl (full, none_left, at) ↦
            All-settled origin_of (xmin g) (pulled (suc limit) g).delivered g.committed (
              subst (λ c. All (IsKept origin_of c (pulled (suc limit) g).delivered) g.committed) at
                (no_change_lost (pulled (suc limit) g) (later run (pulls limit))))
        | inr (l, more, last, at, inside, after) ↦ cc
      ]
