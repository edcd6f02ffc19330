-- ===== src/Sync/Pull/Order.antt =====
-- The order of the log's rows and a page of them, apps/api/src/modules/sync/sync.service.ts.
use dukaano.Base.{
  ==_iff, All, Bool, Bool-cases, List, [], and_true, ap, arith, drop, false, if◌then◌else◌, inl,
  inr, length, ltb, or_else, refl, some, suc, sym, take, take-append-drop, take-take-suc,
  take_short, true, zero, ℕ, ◌&&◌, ◌++◌, ◌+◌, ◌<◌, ◌==◌, ◌∙◌, ◌∷◌, ◌≡◌, ◌≤◌, ◌⊎◌,
}
use dukaano.Base.Int.{int_laws, leb_ℤ, leb_ℤ-gt, leb_ℤ-le, pos, ◌-ℤ◌}
use dukaano.Base.Sort.{All-sort_by, IsSorted, sort_by, sort_by-IsSorted, sum_of}
use dukaano.Sync.Cursor.{SyncCursor}
use dukaano.Sync.Pull.{
  ChangeRow, Page, by_position, changes_after, is_ahead, last_of, page_of, read_page, window,
}
use mathlib.Core.List.{append-nil}
use mathlib.Core.Path.{subst}

abbrev pub same_position : ChangeRow → ChangeRow → Bool
same_position r d = d.txid == r.txid && d.id == r.id

-- How often a row, known by its place in the log, is among the rows.
abbrev pub hits : ChangeRow → List ChangeRow → ℕ
hits r = sum_of (λ d. if same_position r d then 1 else 0)

-- `d` stands after `r` in the log, or in the same place.
abbrev pub NotBefore : ChangeRow → ChangeRow → Type 0
NotBefore r d = (r.txid < d.txid) ⊎ ((r.txid ≡ d.txid) × (r.id ≤ d.id))

abbrev pub place_of : ChangeRow → SyncCursor
place_of r = record { txid = r.txid; change_id = r.id }

first-NotBefore : (x y : ChangeRow) → leb_ℤ (by_position x y) (pos 0) ≡ true → NotBefore x y
first-NotBefore x y h = elim (Bool-cases (x.txid == y.txid)) [
  | inl e ↦
      let le = leb_ℤ-le (pos x.id -ℤ pos y.id) (pos 0) (rw e at h) in
      inr ((==_iff x.txid y.txid).0 e, omega int_laws)
  | inr e ↦
      let le = leb_ℤ-le (pos x.txid -ℤ pos y.txid) (pos 0) (rw e at h) in
      let bound : x.txid ≤ y.txid = omega int_laws in ground (arith, e, bound)
]

later-NotBefore : (x y : ChangeRow) → leb_ℤ (by_position x y) (pos 0) ≡ false → NotBefore y x
later-NotBefore x y h = elim (Bool-cases (x.txid == y.txid)) [
  | inl e ↦
      let gt = leb_ℤ-gt (pos x.id -ℤ pos y.id) (pos 0) (rw e at h) in
      let bound : y.id ≤ x.id = omega int_laws in inr (sym ((==_iff x.txid y.txid).0 e), bound)
  | inr e ↦
      let gt = leb_ℤ-gt (pos x.txid -ℤ pos y.txid) (pos 0) (rw e at h) in
      let bound : y.txid ≤ x.txid = omega int_laws in ground (arith, e, bound)
]

NotBefore_trans : (x y z : ChangeRow) → NotBefore x y → NotBefore y z → NotBefore x z
NotBefore_trans x y z h k = ground (arith, h, k)

IsSorted-rows : (rows : List ChangeRow) → IsSorted NotBefore (sort_by by_position rows)
IsSorted-rows =
    sort_by-IsSorted NotBefore by_position NotBefore_trans first-NotBefore later-NotBefore

pub same_place : (r d : ChangeRow) → same_position r d ≡ true → (d.txid ≡ r.txid) × (d.id ≡ r.id)
same_place r d e =
    let (t, i) = and_true (d.txid == r.txid) (d.id == r.id) e in
    ((==_iff d.txid r.txid).0 t, (==_iff d.id r.id).0 i)

pub same_self : (r : ChangeRow) → same_position r r ≡ true
same_self r = ground arith

-- A row that is hit among rows that all stand after `l` stands after `l`.
pub hit-NotBefore :
    (l r : ChangeRow) (rows : List ChangeRow)
    → All (NotBefore l) rows
    → 0 < hits r rows
    → NotBefore l r
hit-NotBefore l r [] h k = absurd (omega arith)
hit-NotBefore l r (d ∷ rows) h k = elim (Bool-cases (same_position r d)) [
  | inl e ↦
      let (same_txid, same_id) = same_place r d e in
      let first = h.0 in ground (arith, same_txid, same_id, first)
  | inr e ↦ let later = rw e at k in hit-NotBefore l r rows h.1 (omega arith)
]

pub hit_last :
    (l r : ChangeRow) (rows : List ChangeRow)
    → last_of rows ≡ some l
    → same_position r l ≡ true
    → 0 < hits r rows
unfolding last_of
hit_last l r [] e h = cc
hit_last l r (d ∷ []) e h =
    let is : d ≡ l = ap (λ o. or_else o d) e in
    let hit : same_position r d ≡ true = ap (same_position r) is ∙ h in rw hit (omega arith)
hit_last l r (d ∷ s ∷ rows) e h = let rest = hit_last l r (s ∷ rows) e h in omega arith

last-All {κ} :
    (P : ChangeRow → Type κ) (l : ChangeRow) (rows : List ChangeRow)
    → last_of rows ≡ some l
    → All P rows
    → P l
unfolding last_of
last-All P l [] e h = cc
last-All P l (d ∷ []) e h = subst P (ap (λ o. or_else o d) e) h.0
last-All P l (d ∷ s ∷ rows) e h = last-All P l (s ∷ rows) e h.1

-- In sorted rows all that come after a part stand after its last row.
last-IsSorted :
    (l : ChangeRow) (xs ys : List ChangeRow)
    → IsSorted NotBefore (xs ++ ys)
    → last_of xs ≡ some l
    → All (NotBefore l) ys
unfolding last_of
last-IsSorted l [] ys h e = cc
last-IsSorted l (d ∷ []) ys h e = subst (λ x. All (NotBefore x) ys) (ap (λ o. or_else o d) e) h.0
last-IsSorted l (d ∷ s ∷ xs) ys h e = last-IsSorted l (s ∷ xs) ys h.1 e

last_there :
    (d : ChangeRow) (rows : List ChangeRow) → (l : ChangeRow) × (last_of (d ∷ rows) ≡ some l)
unfolding last_of
last_there d [] = (d, refl)
last_there d (s ∷ rows) = last_there s rows

All-take {κ} :
    (P : ChangeRow → Type κ) (n : ℕ) (rows : List ChangeRow) → All P rows → All P (take n rows)
All-take P zero rows h = tt
All-take P (suc n) [] h = tt
All-take P (suc n) (d ∷ rows) h = (h.0, All-take P n rows h.1)

last-take :
    (n : ℕ) (rows : List ChangeRow)
    → suc n < length (take (suc (suc n)) rows)
    → (l : ChangeRow) × (last_of (take (suc n) rows) ≡ some l)
last-take n [] h = absurd (omega arith)
last-take n (d ∷ rows) h = last_there d (take n rows)

abbrev pub InWindow : ℕ → SyncCursor → ChangeRow → Type 0
InWindow xmin c r = (r.txid < xmin) × (is_ahead c r ≡ true)

pub window-All :
    (xmin : ℕ) (c : SyncCursor) (rows : List ChangeRow) → All (InWindow xmin c) (window xmin c rows)
unfolding window
window-All xmin c [] = tt
window-All xmin c (r ∷ rows) = elim (Bool-cases (ltb r.txid xmin && is_ahead c r)) [
  | inl e ↦
      let (below, ahead) = and_true (ltb r.txid xmin) (is_ahead c r) e in
      let under : r.txid < xmin = ground (arith, below) in
      rw e ((under, ahead), window-All xmin c rows)
  | inr e ↦ rw e (window-All xmin c rows)
]

length-take_many :
    {A : Type 0} → (n : ℕ) (xs : List A) → n < length (take (suc n) xs) → length (take n xs) ≡ n
length-take_many zero xs h = refl
length-take_many (suc n) [] h = absurd (omega arith)
length-take_many (suc n) (x ∷ xs) h = ap suc (length-take_many n xs (omega arith))

-- What a page is: all of the window, or the first rows of it, up to one that it has.
pub record IsPage (limit xmin watermark : ℕ) (c : SyncCursor) (rows : List ChangeRow) (p : Page)
    : Type 0 where
  pub rest : List ChangeRow
  pub parts : sort_by by_position (window xmin c rows) ≡ p.changes ++ rest
  pub within_limit : length p.changes ≤ limit
  pub is_full : p.has_more ≡ true → length p.changes ≡ limit
  pub end :
      ((p.has_more ≡ false) × (rest ≡ []) × (p.cursor ≡ record { txid = watermark; change_id = 0 }))
      ⊎ ((l : ChangeRow) × (p.has_more ≡ true)
          × (last_of p.changes ≡ some l)
          × (p.cursor ≡ place_of l)
          × InWindow xmin c l
          × All (NotBefore l) rest)

module _ (limit xmin watermark : ℕ) (c : SyncCursor) (rows : List ChangeRow) where
  abbrev sorted : List ChangeRow
  sorted = sort_by by_position (window xmin c rows)

  within : (l : ChangeRow) → last_of (take (suc limit) sorted) ≡ some l → InWindow xmin c l
  within l last =
      let all =
        All-sort_by (InWindow xmin c) by_position (window xmin c rows) (window-All xmin c rows) in
      last-All (InWindow xmin c) l (take (suc limit) sorted) last
        (All-take (InWindow xmin c) (suc limit) sorted all)

  after :
      (l : ChangeRow)
      → last_of (take (suc limit) sorted) ≡ some l
      → All (NotBefore l) (drop (suc limit) sorted)
  after l last =
      let cut = sym (take-append-drop (suc limit) sorted) in
      last-IsSorted l (take (suc limit) sorted) (drop (suc limit) sorted)
        (subst (IsSorted NotBefore) cut (IsSorted-rows (window xmin c rows))) last

  page_of-IsPage :
      (more : Bool)
      → ltb (suc limit) (length (take (suc (suc limit)) sorted)) ≡ more
      → IsPage
          (suc limit)
          xmin
          watermark
          c
          rows
          (page_of (suc limit) watermark (take (suc (suc limit)) sorted))
  unfolding page_of
  page_of-IsPage true e =
      let many : suc limit < length (take (suc (suc limit)) sorted) = ground (arith, e) in
      let same = take-take-suc (suc limit) sorted in
      let (l, last) = last-take limit sorted many in
      rw (e, same, last)
        record {
          rest = drop (suc limit) sorted;
          parts = sym (take-append-drop (suc limit) sorted);
          within_limit =
              subst (λ n. n ≤ suc limit) (sym (length-take_many (suc limit) sorted many))
                (omega arith);
          is_full = (λ m. length-take_many (suc limit) sorted many);
          end = inr (l, refl, last, refl, within l last, after l last);
        }
  page_of-IsPage false e =
      let few : length (take (suc (suc limit)) sorted) ≤ suc limit = ground (arith, e) in
      rw (e, take_short (suc limit) sorted few)
        record {
          rest = [];
          parts = sym (append-nil sorted);
          within_limit =
              subst (λ xs. length xs ≤ suc limit) (take_short (suc limit) sorted few) few;
          is_full = (λ m. cc m);
          end = inl (refl, refl, refl);
        }

  pub read_page-IsPage :
      IsPage (suc limit) xmin watermark c rows (read_page (suc limit) xmin watermark c rows)
  unfolding changes_after
  read_page-IsPage =
      let more : suc limit + 1 ≡ suc (suc limit) = omega arith in
      rw more (page_of-IsPage (ltb (suc limit) (length (take (suc (suc limit)) sorted))) refl)
