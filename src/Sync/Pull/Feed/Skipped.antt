-- ===== src/Sync/Pull/Feed/Skipped.antt =====
-- Rows that the cursor has passed, apps/api/src/modules/sync/sync.service.ts.
use dukaano.Base.{
  All, Bool-cases, List, [], ap, arith, false, if◌then◌else◌, inl, inr, ltb, refl, suc, sym, true,
  ℕ, ◌&&◌, ◌++◌, ◌+◌, ◌<◌, ◌∙◌, ◌∷◌, ◌≡◌, ◌≤◌,
}
use dukaano.Base.Sort.{sum_of-sort_by}
use dukaano.Import.Csv.Scan.{inside}
use dukaano.Sync.Cursor.{SyncCursor}
use dukaano.Sync.Pull.{ChangeRow, Page, by_position, is_ahead, read_page, window}
use dukaano.Sync.Pull.Feed.{Feed, is_running, without, xmin}
use dukaano.Sync.Pull.Feed.Kept.{Behind, Behind-later, hits-append, xmin_of-begins, xmin_of-without}
use dukaano.Sync.Pull.Order.{IsPage, hits, read_page-IsPage, same_place, same_position}
use mathlib.Core.Path.{subst}
use native.Mathlib.Nat.{le_trans}

window-hits_behind :
    (least : ℕ) (c : SyncCursor) (r : ChangeRow) (rows : List ChangeRow)
    → (ltb r.txid least && is_ahead c r) ≡ false
    → hits r (window least c rows) ≡ 0
unfolding window
window-hits_behind least c r [] h = refl
window-hits_behind least c r (d ∷ rows) h =
    let none_later = window-hits_behind least c r rows h in
    elim (Bool-cases (ltb d.txid least && is_ahead c d)) [
      | inr leaves ↦ rw leaves none_later
      | inl takes ↦ elim (Bool-cases (same_position r d)) [
        | inr other ↦ rw (takes, other) (omega arith)
        | inl same ↦
            let (same_txid, same_id) = same_place r d same in
            absurd (ground (arith, h, takes, same_txid, same_id))
      ]
    ]

module _ (limit least watermark : ℕ) (c : SyncCursor) (rows : List ChangeRow) (r : ChangeRow)
    (p : Page) (is : IsPage (suc limit) least watermark c rows p) where
  page-hits_behind : (ltb r.txid least && is_ahead c r) ≡ false → hits r p.changes ≡ 0
  page-hits_behind h =
      let sorts =
        sum_of-sort_by by_position (λ d. if same_position r d then 1 else 0)
          (window least c rows) in
      let seen = window-hits_behind least c r rows h in
      let parts =
        sym (hits-append r p.changes is.rest) ∙ ap (hits r) (sym is.parts) ∙ sorts ∙ seen in
      omega arith

record IsPast (r : ChangeRow) (n : ℕ) (f : Feed) : Type 0 where
  past : is_ahead f.cursor r ≡ false
  behind : Behind f.cursor (xmin f)
  count : hits r f.delivered ≡ n

-- A page leaves a row behind that is behind its cursor, at whatever later watermark it ends.
past-page :
    (limit least watermark : ℕ) (c : SyncCursor) (rows : List ChangeRow) (r : ChangeRow) (p : Page)
    → IsPage (suc limit) least watermark c rows p
    → least ≤ watermark
    → Behind c least
    → is_ahead c r ≡ false
    → (is_ahead p.cursor r ≡ false) × Behind p.cursor watermark
past-page limit least watermark c rows r p is above b past = elim is.end [
  | inl (full, none_left, at) ↦ rw at (ground (arith, above, b, past), inr (refl, refl))
  | inr (l, more, last, at, inside, after) ↦
      let below = inside.0 in
      let ahead = inside.1 in
      rw at (ground (arith, ahead, past), inl (ground (arith, above, below)))
]

-- A page whose first statement runs at `f` and whose second one runs at `m`.
abbrev pub late_page : ℕ → Feed → Feed → Page
late_page limit f m = read_page limit (xmin f) (xmin m) f.cursor f.committed

abbrev pub late_pulled : ℕ → Feed → Feed → Feed
late_pulled limit f m =
    let page = late_page limit f m in
    record m { cursor = page.cursor; delivered = page.changes ++ f.delivered }

-- What other transactions do while a pull is between its statements.
pub data Meanwhile (f : Feed) : Feed → Type 0 where
  nothing : Meanwhile f f
  another_begins :
      {m : Feed}
      → Meanwhile f m
      → Meanwhile f (record m { running = m.next_txid ∷ m.running; next_txid = suc m.next_txid })
  another_commits :
      {m : Feed}
      → Meanwhile f m
      → (t : ℕ) (new : List ChangeRow) → is_running t m.running ≡ true
      → All (λ r. (r.txid ≡ t) × (0 < r.id)) new
      → Meanwhile f (record m { committed = new ++ m.committed; running = without t m.running })

-- Steps in which transactions begin and commit between the pulls and within them.
pub data AnyRun (f : Feed) : Feed → Type 0 where
  at_first : AnyRun f f
  then_meanwhile : {g h : Feed} → AnyRun f g → Meanwhile g h → AnyRun f h
  then_pull :
      {g h : Feed} (limit : ℕ) → AnyRun f g → Meanwhile g h → AnyRun f (late_pulled (suc limit) g h)

-- Meanwhile the device stands still and the watermark does not fall.
record IsLater (f m : Feed) : Type 0 where
  cursor_is : m.cursor ≡ f.cursor
  delivered_is : m.delivered ≡ f.delivered
  above : xmin f ≤ xmin m

Meanwhile-IsLater : (f m : Feed) → Meanwhile f m → IsLater f m
Meanwhile-IsLater f m nothing = record {
  cursor_is = refl;
  delivered_is = refl;
  above = omega arith;
}
Meanwhile-IsLater f m (another_begins {m = k} before) =
    let is = Meanwhile-IsLater f k before in
    record {
      cursor_is = is.cursor_is;
      delivered_is = is.delivered_is;
      above = le_trans is.above (xmin_of-begins k.next_txid k.running);
    }
Meanwhile-IsLater f m (another_commits {m = k} before t new runs all) =
    let is = Meanwhile-IsLater f k before in
    record {
      cursor_is = is.cursor_is;
      delivered_is = is.delivered_is;
      above = le_trans is.above (xmin_of-without k.next_txid t k.running);
    }

Meanwhile-IsPast : (r : ChangeRow) (n : ℕ) (f m : Feed) → IsPast r n f → IsLater f m → IsPast r n m
Meanwhile-IsPast r n f m is lasts = record {
  past = ap (λ c. is_ahead c r) lasts.cursor_is ∙ is.past;
  behind =
      subst (λ c. Behind c (xmin m)) (sym lasts.cursor_is)
        (Behind-later f.cursor (xmin f) (xmin m) lasts.above is.behind);
  count = ap (hits r) lasts.delivered_is ∙ is.count;
}

pull-IsPast :
    (limit : ℕ) (r : ChangeRow) (n : ℕ) (f m : Feed)
    → IsPast r n f
    → IsLater f m
    → IsPast r n (late_pulled (suc limit) f m)
pull-IsPast limit r n f m is lasts =
    let page = late_page (suc limit) f m in
    let cut = read_page-IsPage limit (xmin f) (xmin m) f.cursor f.committed in
    let past = is.past in
    let none_now =
      page-hits_behind limit (xmin f) (xmin m) f.cursor f.committed r page cut
        (ground (arith, past)) in
    let (still, behind) =
      past-page limit (xmin f) (xmin m) f.cursor f.committed r page cut lasts.above is.behind
        past in
    record {
      past = still;
      behind = behind;
      count =
          hits-append r page.changes f.delivered
          ∙ ap (λ k. k + hits r f.delivered) none_now
          ∙ omega arith
          ∙ is.count;
    }

AnyRun-IsPast : (r : ChangeRow) (n : ℕ) (f g : Feed) → IsPast r n f → AnyRun f g → IsPast r n g
AnyRun-IsPast r n f g is at_first = is
AnyRun-IsPast r n f g is (then_meanwhile {g = m} run between) =
    Meanwhile-IsPast r n m g (AnyRun-IsPast r n f m is run) (Meanwhile-IsLater m g between)
AnyRun-IsPast r n f g is (then_pull {g = m} {h = k} limit run between) =
    pull-IsPast limit r n m k (AnyRun-IsPast r n f m is run) (Meanwhile-IsLater m k between)

-- A row of a transaction that ends between the two statements of a pull is never delivered: if the page is
-- the last one and the transaction was not below the first watermark and is below the second, no later
-- pull delivers the row, whatever transactions begin and commit between the pulls and within them.
pub late_pull-loses :
    (limit : ℕ) (f m g : Feed) (r : ChangeRow)
    → (late_page (suc limit) f m).has_more ≡ false
    → xmin f ≤ r.txid
    → r.txid < xmin m
    → AnyRun (late_pulled (suc limit) f m) g
    → hits r g.delivered ≡ hits r f.delivered
late_pull-loses limit f m g r no_more first second run =
    let page = late_page (suc limit) f m in
    let is = read_page-IsPage limit (xmin f) (xmin m) f.cursor f.committed in
    let none_now =
      page-hits_behind limit (xmin f) (xmin m) f.cursor f.committed r page is
        (ground (arith, first)) in
    elim is.end [
      | inl (full, none_left, at) ↦
          (AnyRun-IsPast r (hits r f.delivered) (late_pulled (suc limit) f m) g
            record {
              past = rw at (ground (arith, second));
              behind = rw at (inr (refl, refl));
              count =
                  hits-append r page.changes f.delivered
                  ∙ ap (λ k. k + hits r f.delivered) none_now
                  ∙ omega arith;
            }
            run).count
      | inr (l, more, last, at, inside, after) ↦ cc
    ]
