-- ===== src/Sync/Pull/Feed/Kept.antt =====
-- What becomes of the rows of the log in one pull, apps/api/src/modules/sync/sync.service.ts.
use dukaano.Base.{
  All, Bool-cases, List, [], arith, false, if◌then◌else◌, inl, inr, ltb, refl, suc, sym, true, ℕ,
  ◌&&◌, ◌++◌, ◌+◌, ◌<◌, ◌∷◌, ◌≡◌, ◌≤◌, ◌⊎◌,
}
use dukaano.Base.Sort.{sort_by, sum_of-append, sum_of-sort_by}
use dukaano.Sync.Cursor.{SyncCursor}
use dukaano.Sync.Pull.{ChangeRow, Page, by_position, is_ahead, window}
use dukaano.Sync.Pull.Feed.{is_running, without, xmin_of}
use dukaano.Sync.Pull.Order.{
  IsPage, NotBefore, hit-NotBefore, hit_last, hits, place_of, same_place, same_position, same_self,
}
use mathlib.Core.Path.{subst}

-- The cursor has not passed a transaction that may still write.
abbrev pub Behind : SyncCursor → ℕ → Type 0
Behind c least = (c.txid < least) ⊎ ((c.txid ≡ least) × (c.change_id ≡ 0))

abbrev pub IsKept : SyncCursor → SyncCursor → List ChangeRow → ChangeRow → Type 0
IsKept origin c delivered r =
    (is_ahead origin r ≡ false) ⊎ ((0 < hits r delivered) ⊎ (is_ahead c r ≡ true))

xmin_of-next : (next : ℕ) (ts : List ℕ) → xmin_of next ts ≤ next
xmin_of-next next [] = omega arith
xmin_of-next next (t ∷ ts) = ground (arith, xmin_of-next next ts)

xmin_of-suc : (next : ℕ) (ts : List ℕ) → xmin_of next ts ≤ xmin_of (suc next) ts
xmin_of-suc next [] = omega arith
xmin_of-suc next (t ∷ ts) = ground (arith, xmin_of-suc next ts)

pub xmin_of-begins : (next : ℕ) (ts : List ℕ) → xmin_of next ts ≤ xmin_of (suc next) (next ∷ ts)
xmin_of-begins next ts = ground (arith, xmin_of-suc next ts, xmin_of-next next ts)

pub xmin_of-without : (next t : ℕ) (ts : List ℕ) → xmin_of next ts ≤ xmin_of next (without t ts)
xmin_of-without next t [] = omega arith
xmin_of-without next t (s ∷ ts) = ground (arith, xmin_of-without next t ts)

pub xmin_of-is_running : (next t : ℕ) (ts : List ℕ) → is_running t ts ≡ true → xmin_of next ts ≤ t
xmin_of-is_running next t [] h = cc
xmin_of-is_running next t (s ∷ ts) h = ground (arith, h, xmin_of-is_running next t ts)

pub Behind-later : (c : SyncCursor) (m n : ℕ) → m ≤ n → Behind c m → Behind c n
Behind-later c m n h b = ground (arith, h, b)

-- What a transaction that may still write adds is ahead of the cursor.
pub Behind-is_ahead :
    (c : SyncCursor) (m : ℕ) (r : ChangeRow)
    → Behind c m
    → m ≤ r.txid
    → 0 < r.id
    → is_ahead c r ≡ true
Behind-is_ahead c m r b h i = ground (arith, b, h, i)

pub hits-append :
    (r : ChangeRow) (xs ys : List ChangeRow) → hits r (xs ++ ys) ≡ hits r xs + hits r ys
hits-append r = sum_of-append (λ d. if same_position r d then 1 else 0)

All-hits_cons :
    (d : ChangeRow) (rows some_rows : List ChangeRow)
    → All (λ r. 0 < hits r rows) some_rows
    → All (λ r. 0 < hits r (d ∷ rows)) some_rows
All-hits_cons d rows [] h = tt
All-hits_cons d rows (s ∷ some_rows) h =
    let first = h.0 in (omega arith, All-hits_cons d rows some_rows h.1)

pub All-hits : (rows : List ChangeRow) → All (λ r. 0 < hits r rows) rows
All-hits [] = tt
All-hits (d ∷ rows) = (rw (same_self d) (omega arith), All-hits_cons d rows rows (All-hits rows))

pub window-hits :
    (least : ℕ) (c : SyncCursor) (r : ChangeRow) (rows : List ChangeRow)
    → 0 < hits r rows
    → r.txid < least
    → is_ahead c r ≡ true
    → 0 < hits r (window least c rows)
unfolding window
window-hits least c r [] h below ahead = absurd (omega arith)
window-hits least c r (d ∷ rows) h below ahead = elim (Bool-cases (same_position r d)) [
  | inl e ↦
      let (same_txid, same_id) = same_place r d e in
      let takes : (ltb d.txid least && is_ahead c d) ≡ true =
        ground (arith, below, ahead, same_txid, same_id) in
      rw (takes, e) (omega arith)
  | inr e ↦
      let more : 0 < hits r (window least c rows) =
        window-hits least c r rows (let k = rw e at h in omega arith) below ahead in
      elim (Bool-cases (ltb d.txid least && is_ahead c d)) [
        | inl takes ↦ rw (takes, e) (omega arith)
        | inr leaves ↦ rw leaves more
      ]
]

place-ahead :
    (l r : ChangeRow) → NotBefore l r → same_position r l ≡ false → is_ahead (place_of l) r ≡ true
place-ahead l r h other = ground (arith, h, other)

-- A row of the log that is ahead of the cursor is delivered, or is ahead of the next cursor.
module _ (limit least : ℕ) (c : SyncCursor) (rows : List ChangeRow) (r : ChangeRow) (p : Page)
    (is : IsPage (suc limit) least least c rows p) where
  split_hits :
      0 < hits r (sort_by by_position (window least c rows)) → 0 < hits r p.changes + hits r is.rest
  split_hits h = rw (is.parts, hits-append r p.changes is.rest) at h

  below-delivered :
      0 < hits r (sort_by by_position (window least c rows))
      → (0 < hits r p.changes) ⊎ (is_ahead p.cursor r ≡ true)
  below-delivered h = elim is.end [
    | inl (full, none_left, at) ↦ let both = rw none_left at (split_hits h) in inl (omega arith)
    | inr (l, more, last, at, inside, after) ↦ elim (Bool-cases (ltb 0 (hits r p.changes))) [
      | inl e ↦ inl (ground (arith, e))
      | inr e ↦
          let both = split_hits h in
          let in_rest : 0 < hits r is.rest = ground (arith, e, both) in
          let not_before = hit-NotBefore l r is.rest after in_rest in
          elim (Bool-cases (same_position r l)) [
            | inl same ↦ let hit = hit_last l r p.changes last same in inl hit
            | inr other ↦ inr (rw at (place-ahead l r not_before other))
          ]
    ]
  ]

  above-ahead : least ≤ r.txid → 0 < r.id → is_ahead p.cursor r ≡ true
  above-ahead h numbered = elim is.end [
    | inl (full, none_left, at) ↦ rw at (ground (arith, h, numbered))
    | inr (l, more, last, at, inside, after) ↦
        let under = inside.0 in rw at (ground (arith, under, h))
  ]

  page_keeps :
      0 < hits r rows
      → 0 < r.id
      → is_ahead c r ≡ true
      → (0 < hits r p.changes) ⊎ (is_ahead p.cursor r ≡ true)
  page_keeps h numbered ahead = elim (Bool-cases (ltb r.txid least)) [
    | inl e ↦
        let seen = window-hits least c r rows h (ground (arith, e)) ahead in
        let same =
          sum_of-sort_by by_position (λ d. if same_position r d then 1 else 0)
            (window least c rows) in
        below-delivered (subst (λ n. 0 < n) (sym same) seen)
    | inr e ↦ inr (above-ahead (ground (arith, e)) numbered)
  ]

  -- The same over what had been delivered before.
  IsKept-pulled :
      (origin : SyncCursor) (delivered : List ChangeRow)
      → 0 < hits r rows
      → 0 < r.id
      → IsKept origin c delivered r
      → IsKept origin p.cursor (p.changes ++ delivered) r
  IsKept-pulled origin delivered h numbered (inl before) = inl before
  IsKept-pulled origin delivered h numbered (inr (inl had)) =
      let both = hits-append r p.changes delivered in inr (inl (omega arith))
  IsKept-pulled origin delivered h numbered (inr (inr ahead)) = elim (page_keeps h numbered ahead) [
    | inl now ↦ let both = hits-append r p.changes delivered in inr (inl (omega arith))
    | inr still ↦ inr (inr still)
  ]

module _ (limit least : ℕ) (c : SyncCursor) (rows : List ChangeRow) (p : Page)
    (is : IsPage (suc limit) least least c rows p) where
  pub All-pulled :
      (origin : SyncCursor) (delivered some_rows : List ChangeRow)
      → All (λ r. 0 < hits r rows) some_rows
      → All (λ r. 0 < r.id) some_rows
      → All (IsKept origin c delivered) some_rows
      → All (IsKept origin p.cursor (p.changes ++ delivered)) some_rows
  All-pulled origin delivered [] h n k = tt
  All-pulled origin delivered (r ∷ some_rows) h n k = (
    IsKept-pulled limit least c rows r p is origin delivered h.0 n.0 k.0,
    All-pulled origin delivered some_rows h.1 n.1 k.1,
  )

  pub Behind-pulled : Behind p.cursor least
  Behind-pulled = elim is.end [
    | inl (full, none_left, at) ↦ rw at (inr (refl, refl))
    | inr (l, more, last, at, inside, after) ↦ rw at (inl inside.0)
  ]
