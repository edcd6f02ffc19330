-- ===== src/Sync/Push/Claims.antt =====
-- The rows of processed_operation as an operation is claimed and settled, in
-- apps/api/src/modules/sync/sync.service.ts.
use dukaano.Base.{
  ==_iff, All, All-append, Bool, Bool-cases, List, Option, [], arith, false, inl, inr, none,
  or_else, refl, some, sym, true, ℕ, ◌&&◌, ◌++◌, ◌==◌, ◌∙◌, ◌∷◌, ◌≡◌, ◌⊎◌,
}
use dukaano.Base.Table.{
  find_row-change_rows_other, find_row-changed, find_row-found, find_row-missing,
}
use dukaano.Sync.Push.{
  Caller, OpResult, OpStatus, Processed, ProcessedStatus, PushOperation, already_processed, bare,
  claim_operation, claim_row, claimed, done, duplicate, find_op, in_progress, is_in_progress,
  record_outcome, release_claim, with_outcome,
}
use mathlib.Core.Option.{some-injective}
use mathlib.Core.Path.{subst}

module _ {E : Type 0} where
  -- The operation has been processed, and `r` is the answer that is stored for it.
  pub record IsDone (id : ℕ) (r : OpResult E) (rows : List (Processed E)) : Type 0 where
    pub row : Processed E
    pub found : find_op id rows ≡ some row
    pub status : OpStatus
    pub is_done : row.status ≡ done status
    pub answer : or_else row.result (bare duplicate id) ≡ r

  pub find_op-record_outcome :
      (id : ℕ) (r : OpResult E) (p : Processed E) (rows : List (Processed E))
      → find_op id rows ≡ some p
      → find_op id (record_outcome id r rows) ≡ some (with_outcome r p)
  unfolding find_op record_outcome
  find_op-record_outcome id r p rows =
      find_row-changed (λ (q : Processed E). q.op_id) id (with_outcome r) rows (λ q. refl)

  pub find_op-record_other :
      (id other : ℕ) (r : OpResult E) (rows : List (Processed E))
      → (other == id) ≡ false
      → find_op id (record_outcome other r rows) ≡ find_op id rows
  unfolding find_op record_outcome
  find_op-record_other id other r rows =
      find_row-change_rows_other (λ (q : Processed E). q.op_id) (λ q. q) other (with_outcome r)
        (λ q. refl) id rows

  pub find_op-release_claim :
      (id other : ℕ) (p : Processed E) (rows : List (Processed E))
      → is_in_progress p.status ≡ false
      → find_op id rows ≡ some p
      → find_op id (release_claim other rows) ≡ some p
  unfolding find_op release_claim
  find_op-release_claim id other p [] ended h = cc
  find_op-release_claim id other p (q ∷ rows) ended h = elim (Bool-cases (q.op_id == id)) [
    | inl e ↦
        let same : some q ≡ some p = rw e at h in
        let first : is_in_progress q.status ≡ false =
          subst (λ x. is_in_progress x.status ≡ false) (sym (some-injective q p same)) ended in
        let kept : (q.op_id == other && is_in_progress q.status) ≡ false = ground (arith, first) in
        rw (kept, e) same
    | inr e ↦
        let rest = find_op-release_claim id other p rows ended (rw e at h) in
        elim (Bool-cases (q.op_id == other && is_in_progress q.status)) [
          | inl gone ↦ rw gone rest
          | inr kept ↦ rw (kept, e) rest
        ]
  ]

module _ {E : Type 0} where
  -- No claim is held by the row; or only by the one of `id`.
  abbrev pub IsEnded : Processed E → Type 0
  IsEnded p = is_in_progress p.status ≡ false

  abbrev pub IsEndedOr : ℕ → Processed E → Type 0
  IsEndedOr id p = IsEnded p ⊎ ((p.op_id == id) ≡ true)

  All-IsEndedOr : (id : ℕ) (rows : List (Processed E)) → All IsEnded rows → All (IsEndedOr id) rows
  All-IsEndedOr id [] h = tt
  All-IsEndedOr id (p ∷ rows) h = (inl h.0, All-IsEndedOr id rows h.1)

  pub record_outcome-IsEnded :
      (id : ℕ) (r : OpResult E) (rows : List (Processed E))
      → All (IsEndedOr id) rows
      → All IsEnded (record_outcome id r rows)
  unfolding record_outcome
  record_outcome-IsEnded id r [] h = tt
  record_outcome-IsEnded id r (p ∷ rows) (one, h) = elim (Bool-cases (p.op_id == id)) [
    | inl e ↦ rw e (refl, record_outcome-IsEnded id r rows h)
    | inr e ↦ elim one [
      | inl ended ↦ rw e (ended, record_outcome-IsEnded id r rows h)
      | inr same ↦ cc
    ]
  ]

  pub release_claim-IsEnded :
      (id : ℕ) (rows : List (Processed E))
      → All (IsEndedOr id) rows
      → All IsEnded (release_claim id rows)
  unfolding release_claim
  release_claim-IsEnded id [] h = tt
  release_claim-IsEnded id (p ∷ rows) (one, h) =
      let rest = release_claim-IsEnded id rows h in
      elim (Bool-cases (p.op_id == id && is_in_progress p.status)) [
        | inl gone ↦ rw gone rest
        | inr kept ↦ rw kept (kept-IsEnded (p.op_id == id) (is_in_progress p.status) one kept, rest)
      ]
    where
      kept-IsEnded :
          (same runs : Bool)
          → (runs ≡ false) ⊎ (same ≡ true)
          → (same && runs) ≡ false
          → runs ≡ false
      kept-IsEnded same runs one kept = ground (arith, one, kept)

module _ {E V : Type 0} where
  -- An operation that is claimed: the rows with its claim, which keep what they had.
  pub record IsClaimed (caller : Caller) (op : PushOperation V) (rows : List (Processed E))
      : Type 0 where
    pub rows_now : List (Processed E)
    pub claims : claim_operation caller op rows ≡ claimed rows_now
    pub row : Processed E
    pub found : find_op op.op_id rows_now ≡ some row
    pub waits : row.status ≡ in_progress
    pub only : All IsEnded rows → All (IsEndedOr op.op_id) rows_now
    pub keeps : (id : ℕ) (p : Processed E) → find_op id rows ≡ some p → find_op id rows_now ≡ some p
    pub unsettled :
        (p : Processed E) → find_op op.op_id rows ≡ some p → is_in_progress p.status ≡ true

  pub record IsRepeated (caller : Caller) (op : PushOperation V) (rows : List (Processed E))
      : Type 0 where
    pub stored : OpResult E
    pub again : claim_operation caller op rows ≡ already_processed stored
    pub is_done : IsDone op.op_id stored rows

  claim-existing :
      (caller : Caller) (op : PushOperation V) (rows : List (Processed E)) (p : Processed E)
      (status : ProcessedStatus)
      → find_op op.op_id rows ≡ some p
      → p.status ≡ status
      → IsRepeated caller op rows ⊎ IsClaimed caller op rows
  unfolding claim_operation
  claim-existing caller op rows p in_progress h e = inr record {
    rows_now = rows;
    claims = rw (h, e) refl;
    row = p;
    found = h;
    waits = e;
    only = All-IsEndedOr op.op_id rows;
    keeps = λ id q k. k;
    unsettled = λ q k.
        subst (λ x. is_in_progress x.status ≡ true) (some-injective p q (sym h ∙ k)) (rw e refl);
  }
  claim-existing caller op rows p (done status) h e = inl record {
    stored = or_else p.result (bare duplicate op.op_id);
    again = rw (h, e) refl;
    is_done = record { row = p; found = h; status = status; is_done = e; answer = refl };
  }

  claim-found :
      (caller : Caller) (op : PushOperation V) (rows : List (Processed E))
      (o : Option (Processed E))
      → find_op op.op_id rows ≡ o
      → IsRepeated caller op rows ⊎ IsClaimed caller op rows
  unfolding claim_operation find_op
  claim-found caller op rows none h = inr record {
    rows_now = rows ++ claim_row caller op ∷ [];
    claims = rw h refl;
    row = claim_row caller op;
    found =
        find_row-missing (λ (p : Processed E). p.op_id) (λ p. p) op.op_id rows
          (claim_row caller op ∷ []) h
        ∙ rw ((==_iff op.op_id op.op_id).1 refl) refl;
    waits = refl;
    only = λ ended.
        All-append (IsEndedOr op.op_id) rows (claim_row caller op ∷ [])
          (All-IsEndedOr op.op_id rows ended) (inr ((==_iff op.op_id op.op_id).1 refl), tt);
    keeps = λ id p k.
        find_row-found (λ (p : Processed E). p.op_id) (λ p. p) id rows (claim_row caller op ∷ []) k;
    unsettled = λ p k. let no = sym h ∙ k in cc;
  }
  claim-found caller op rows (some p) h = claim-existing caller op rows p p.status h refl

  pub claim_operation-cases :
      (caller : Caller) (op : PushOperation V) (rows : List (Processed E))
      → IsRepeated caller op rows ⊎ IsClaimed caller op rows
  claim_operation-cases caller op rows = claim-found caller op rows (find_op op.op_id rows) refl
