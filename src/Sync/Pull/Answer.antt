-- ===== src/Sync/Pull/Answer.antt =====
-- What a pull answers and stores, apps/api/src/modules/sync/sync.service.ts.
use dukaano.Base.{
  Bool-cases, List, Option, Option-cases, Result, ap, arith, err, false, inl, inr, ltb, map, none,
  ok, or_else, refl, some, suc, sym, throw_if, true, ℕ, ◌-◌, ◌<◌, ◌>>◌, ◌∙◌, ◌≡◌, ◌≤◌,
}
use dukaano.Base.Int.{ℤ}
use dukaano.Base.Text.{Text}
use dukaano.Sync.Cursor.{
  BootstrapDecision, SyncCursor, decide_bootstrap, format_cursor, is_some, is_valid_cursor,
  no_cursor, parse_cursor,
}
use dukaano.Sync.Pull.{
  ChangeRow, Device, Page, PullAnswer, PullFault, capped_limit, change_view, delta,
  device_not_registered, device_revoked, first_given, invalid_cursor, is_bad_cursor, max_int64,
  max_pull_limit, pull, pull_decided, pull_from, query_failed, read_page, snapshot_required,
}
use dukaano.Sync.Pull.Order.{IsPage, read_page-IsPage}

-- A page has the rows that were asked for, one at least and 500 at most.
abbrev pub IsCapped : ℕ → ℕ → Type 0
IsCapped limit n =
    (limit ≡ 0 → n ≡ 1)
    × (0 < limit → limit ≤ max_pull_limit → n ≡ limit)
    × (max_pull_limit < limit → n ≡ max_pull_limit)

capped_limit-IsCapped :
    (limit : ℕ) → (k : ℕ) × (capped_limit limit ≡ suc k) × IsCapped limit (suc k)
unfolding capped_limit
capped_limit-IsCapped limit = elim (Bool-cases (ltb limit 1)) [
  | inl e ↦ (
    0,
    rw e refl,
    (
      (λ z. refl),
      (λ some_rows few. ground (arith, e, some_rows)),
      (λ many. absurd (ground (arith, e, many))),
    ),
  )
  | inr e ↦ elim (Bool-cases (ltb max_pull_limit limit)) [
    | inl over ↦ (
      499,
      rw (e, over) refl,
      (
        (λ z. absurd (ground (arith, e, z))),
        (λ some_rows few. absurd (ground (arith, over, few))),
        (λ many. refl),
      ),
    )
    | inr within ↦
        let same : limit ≡ suc (limit - 1) = ground (arith, e) in
        (
          limit - 1,
          rw (e, within) same,
          (
            (λ z. absurd (ground (arith, e, z))),
            (λ some_rows few. sym same),
            (λ many. absurd (ground (arith, within, many))),
          ),
        )
  ]
]

module _ (now : ℤ) (xmin watermark : ℕ) (cursor : Option Text) (limit : ℕ)
    (rows : List ChangeRow) where
  -- The cursor that counts, and whether a snapshot is due with it.
  abbrev pub effective : Device → Option Text
  effective device = first_given cursor device.last_sync_xmin

  abbrev pub decision_of : Device → BootstrapDecision
  decision_of device = decide_bootstrap (effective device) device.last_pulled_at now none

  -- What a pull may answer, and the device as it is stored then.
  pub data IsPulled : Option Device → Result PullFault (PullAnswer × Device) → Type 0 where
    unregistered : IsPulled none (err device_not_registered)
    revoked :
        (device : Device) (at : ℤ)
        → device.revoked_at ≡ some at
        → IsPulled (some device) (err device_revoked)
    malformed :
        (device : Device) (text : Text)
        → device.revoked_at ≡ none
        → effective device ≡ some text
        → parse_cursor text ≡ none
        → IsPulled (some device) (err invalid_cursor)
    snapshot_due :
        (device : Device)
        → device.revoked_at ≡ none
        → (decision_of device).required ≡ true
        → IsPulled
            (some device)
            (ok (snapshot_required (or_else (decision_of device).reason no_cursor), device))
    out_of_range :
        (device : Device) (text : Text) (c : SyncCursor)
        → device.revoked_at ≡ none
        → effective device ≡ some text
        → parse_cursor text ≡ some c
        → (decision_of device).required ≡ false
        → max_int64 < c.change_id
        → IsPulled (some device) (err query_failed)
    answered :
        (device : Device) (text : Text) (c : SyncCursor) (n : ℕ) (p : Page)
        → device.revoked_at ≡ none
        → effective device ≡ some text
        → parse_cursor text ≡ some c
        → (decision_of device).required ≡ false
        → c.change_id ≤ max_int64
        → IsCapped limit n
        → IsPage n xmin watermark c rows p
        → IsPulled (some device) (
            ok (
              delta (map change_view p.changes) (format_cursor p.cursor) p.has_more,
              record device {
                last_sync_xmin = some (format_cursor p.cursor);
                last_pulled_at = some now;
              },
            ))

  read-IsPulled :
      (device : Device) (text : Text) (c : SyncCursor)
      → device.revoked_at ≡ none
      → effective device ≡ some text
      → parse_cursor text ≡ some c
      → (decision_of device).required ≡ false
      → IsPulled (some device) (pull_from now limit xmin watermark rows device (some c))
  read-IsPulled device text c live given parsed recent =
      let (k, capped, is) = capped_limit-IsCapped limit in
      elim (Bool-cases (ltb max_int64 c.change_id)) [
        | inl above ↦
            rw above (out_of_range device text c live given parsed recent (ground (arith, above)))
        | inr within ↦
            rw (within, capped)
              (answered device text c (suc k) (read_page (suc k) xmin watermark c rows) live given
                parsed recent (ground (arith, within)) is
                (read_page-IsPage k xmin watermark c rows))
      ]

  no_cursor-required :
      (last_pulled : Option ℤ) → (decide_bootstrap none last_pulled now none).required ≡ true
  unfolding decide_bootstrap
  no_cursor-required none = refl
  no_cursor-required (some at) = refl

  given-IsPulled :
      (device : Device) (given : Option Text)
      → device.revoked_at ≡ none
      → effective device ≡ given
      → IsPulled (some device) (
          throw_if (is_bad_cursor given) invalid_cursor
          >> pull_decided now limit xmin watermark rows device (decision_of device) given)
  unfolding is_valid_cursor
  given-IsPulled device none live given = snapshot_due device live (
      ap (λ o. (decide_bootstrap o device.last_pulled_at now none).required) given
      ∙ no_cursor-required device.last_pulled_at)
  given-IsPulled device (some text) live given = elim (Option-cases (parse_cursor text)) [
    | inl bad ↦ rw bad (malformed device text live given bad)
    | inr (c, parsed) ↦ elim (Bool-cases (decision_of device).required) [
      | inl due ↦ rw (parsed, due) (snapshot_due device live due)
      | inr recent ↦ rw (parsed, recent) (read-IsPulled device text c live given parsed recent)
    ]
  ]

  device-IsPulled :
      (device : Device) (revoked_at : Option ℤ)
      → device.revoked_at ≡ revoked_at
      → IsPulled (some device) (
          throw_if (is_some revoked_at) device_revoked
          >> (throw_if (is_bad_cursor (effective device)) invalid_cursor
              >> pull_decided now limit xmin watermark rows device
                  (decision_of device)
                  (effective device)))
  device-IsPulled device none live = given-IsPulled device (effective device) live refl
  device-IsPulled device (some at) gone = revoked device at gone

  pub pull-IsPulled :
      (device : Option Device) → IsPulled device (pull now xmin watermark cursor limit rows device)
  unfolding pull
  pull-IsPulled none = unregistered
  pull-IsPulled (some device) = device-IsPulled device device.revoked_at refl
