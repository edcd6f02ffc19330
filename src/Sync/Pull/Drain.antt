-- ===== src/Sync/Pull/Drain.antt =====
-- Pulls one after another while none begins or commits, apps/api/src/modules/sync/sync.service.ts.
use dukaano.Base.{
  All, Bool-cases, List, Option, [], ap, arith, false, if◌then◌else◌, inl, inr, length, ltb, none,
  refl, some, suc, sym, true, zero, ℕ, ◌&&◌, ◌<◌, ◌∙◌, ◌∷◌, ◌≡◌, ◌≤◌,
}
use dukaano.Base.Sort.{sum_of-sort_by}
use dukaano.Sync.Cursor.{SyncCursor}
use dukaano.Sync.Pull.{ChangeRow, Page, by_position, is_ahead, last_of, window}
use dukaano.Sync.Pull.Feed.{Feed, page_now, pulled, xmin}
use dukaano.Sync.Pull.Feed.Kept.{All-hits, All-pulled, IsKept, hits-append}
use dukaano.Sync.Pull.Feed.NotLost.{All-IsKept, All-settled, IsSettled}
use dukaano.Sync.Pull.Order.{
  IsPage, hit_last, hits, place_of, read_page-IsPage, same_place, same_position, same_self,
}
use mathlib.Core.Path.{subst}

-- Pulls until a page reports that there is no more, if the fuel lasts.
abbrev pub drain : ℕ → ℕ → Feed → Option Feed
drain zero limit f = none
drain (suc fuel) limit f =
    let rest = drain fuel limit (pulled limit f) in
    if (page_now limit f).has_more then rest else some (pulled limit f)

module _ (least : ℕ) (c : SyncCursor) (l : ChangeRow) (ahead : is_ahead c l ≡ true)
    (below : l.txid < least) where
  length-window_le :
      (rows : List ChangeRow)
      → length (window least (place_of l) rows) ≤ length (window least c rows)
  unfolding window
  length-window_le [] = omega arith
  length-window_le (d ∷ rows) =
      let le = length-window_le rows in
      elim (Bool-cases (ltb d.txid least && is_ahead c d)) [
        | inl takes ↦ elim (Bool-cases (ltb d.txid least && is_ahead (place_of l) d)) [
          | inl still ↦ rw (takes, still) (omega arith)
          | inr not_now ↦ rw (takes, not_now) (omega arith)
        ]
        | inr leaves ↦
            let not_now : (ltb d.txid least && is_ahead (place_of l) d) ≡ false =
              ground (arith, leaves, ahead) in
            rw (leaves, not_now) le
      ]

  -- Behind a row of the window there are fewer rows.
  length-window_lt :
      (rows : List ChangeRow)
      → 0 < hits l rows
      → length (window least (place_of l) rows) < length (window least c rows)
  unfolding window
  length-window_lt [] h = absurd (omega arith)
  length-window_lt (d ∷ rows) h = elim (Bool-cases (same_position l d)) [
    | inl same ↦
        let (same_txid, same_id) = same_place l d same in
        let le = length-window_le rows in
        let takes : (ltb d.txid least && is_ahead c d) ≡ true =
          ground (arith, ahead, below, same_txid, same_id) in
        let not_now : (ltb d.txid least && is_ahead (place_of l) d) ≡ false =
          ground (arith, same_txid, same_id) in
        rw (takes, not_now) (omega arith)
    | inr other ↦
        let k = rw other at h in
        let lt = length-window_lt rows (omega arith) in
        elim (Bool-cases (ltb d.txid least && is_ahead c d)) [
          | inl takes ↦ elim (Bool-cases (ltb d.txid least && is_ahead (place_of l) d)) [
            | inl still ↦ rw (takes, still) (omega arith)
            | inr not_now ↦ rw (takes, not_now) (omega arith)
          ]
          | inr leaves ↦
              let not_now : (ltb d.txid least && is_ahead (place_of l) d) ≡ false =
                ground (arith, leaves, ahead) in
              rw (leaves, not_now) lt
        ]
  ]

hits-window_le :
    (least : ℕ) (c : SyncCursor) (r : ChangeRow) (rows : List ChangeRow)
    → hits r (window least c rows) ≤ hits r rows
unfolding window
hits-window_le least c r [] = omega arith
hits-window_le least c r (d ∷ rows) =
    let le = hits-window_le least c r rows in
    elim (Bool-cases (ltb d.txid least && is_ahead c d)) [
      | inl takes ↦ rw takes (omega arith)
      | inr leaves ↦ rw leaves (omega arith)
    ]

-- The last row of a page is one of the log.
last-hits :
    (limit least : ℕ) (c : SyncCursor) (rows : List ChangeRow) (l : ChangeRow) (p : Page)
    (is : IsPage (suc limit) least least c rows p)
    → last_of p.changes ≡ some l
    → 0 < hits l rows
last-hits limit least c rows l p is last =
    let hit = hit_last l l p.changes last (same_self l) in
    let parts =
      sym (hits-append l p.changes is.rest)
      ∙ ap (hits l) (sym is.parts)
      ∙ sum_of-sort_by by_position (λ d. if same_position l d then 1 else 0)
          (window least c rows) in
    let le = hits-window_le least c l rows in omega arith

drain-more :
    (fuel limit : ℕ) (f : Feed)
    → (page_now limit f).has_more ≡ true
    → drain (suc fuel) limit f ≡ drain fuel limit (pulled limit f)
drain-more fuel limit f more = rw more refl

pub record IsDrained (origin : SyncCursor) (f g : Feed) : Type 0 where
  pub cursor : g.cursor ≡ record { txid = xmin f; change_id = 0 }
  pub settled : All (IsSettled origin (xmin f) g.delivered) f.committed

Kept-drain :
    (origin : SyncCursor) (fuel limit : ℕ) (f : Feed)
    → All (λ r. 0 < r.id) f.committed
    → All (IsKept origin f.cursor f.delivered) f.committed
    → length (window (xmin f) f.cursor f.committed) < fuel
    → (g : Feed) × (drain fuel (suc limit) f ≡ some g) × IsDrained origin f g
Kept-drain origin zero limit f numbered kept enough = absurd (omega arith)
Kept-drain origin (suc fuel) limit f numbered kept enough =
    let page = page_now (suc limit) f in
    let is = read_page-IsPage limit (xmin f) (xmin f) f.cursor f.committed in
    let kept_now =
      All-pulled limit (xmin f) f.cursor f.committed page is origin f.delivered f.committed
        (All-hits f.committed) numbered kept in
    elim is.end [
      | inl (full, none_left, at) ↦ (
        pulled (suc limit) f,
        rw full refl,
        record {
          cursor = at;
          settled = All-settled origin (xmin f) (pulled (suc limit) f).delivered f.committed (
              subst (λ c. All (IsKept origin c (pulled (suc limit) f).delivered) f.committed) at
                kept_now);
        },
      )
      | inr (l, more, last, at, inside, after) ↦
          let there = last-hits limit (xmin f) f.cursor f.committed l page is last in
          let fewer = length-window_lt (xmin f) f.cursor l inside.1 inside.0 f.committed there in
          let less : length (window (xmin f) page.cursor f.committed) < fuel =
            rw at (omega arith) in
          let (g, ends, drained) =
            Kept-drain origin fuel limit (pulled (suc limit) f) numbered kept_now less in
          (
            g,
            drain-more fuel (suc limit) f more ∙ ends,
            record { cursor = drained.cursor; settled = drained.settled },
          )
    ]

-- With fuel above the number of rows of the window, pulls one after another, with nothing that begins or
-- commits in between and ids above zero, come to a page that reports no more; by then the cursor is
-- at the watermark and each committed row after the old cursor and below the watermark is delivered.
pub drain_ends :
    (fuel limit : ℕ) (f : Feed)
    → All (λ r. 0 < r.id) f.committed
    → length (window (xmin f) f.cursor f.committed) < fuel
    → (g : Feed) × (drain fuel (suc limit) f ≡ some g) × IsDrained f.cursor f g
drain_ends fuel limit f numbered enough =
    Kept-drain f.cursor fuel limit f numbered (All-IsKept f.cursor f.delivered f.committed) enough
