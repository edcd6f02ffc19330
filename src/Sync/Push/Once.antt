-- ===== src/Sync/Push/Once.antt =====
-- An operation is applied once, however often it is pushed, apps/api/src/modules/sync/sync.service.ts.
use dukaano.Base.{
  ==_iff, All, Bool, Bool-cases, List, Option, [], false, inl, inr, none, refl, some, sym, true, ℕ,
  ◌==◌, ◌∙◌, ◌∷◌, ◌≡◌,
}
use dukaano.Sync.Push.{
  Caller, OpResult, Processed, PushOperation, Refusal, as_duplicate, claim_operation, find_op,
  is_in_progress, not_found, permission_lost, retryable, unsupported_entity, with_outcome,
}
use dukaano.Sync.Push.Applied.{Applied, apply_one_operation-Applied, fails, repeats, settles}
use dukaano.Sync.Push.Apply.{SyncStore, apply_one_operation, push_all}
use dukaano.Sync.Push.Claims.{
  IsClaimed, IsDone, find_op-record_other, find_op-record_outcome, find_op-release_claim,
}
use dukaano.Sync.Push.Dispatch.{Services}
use mathlib.Core.Path.{subst}

abbrev pub is_retryable : Option Refusal → Bool
is_retryable none = false
is_retryable (some permission_lost) = false
is_retryable (some not_found) = false
is_retryable (some unsupported_entity) = false
is_retryable (some retryable) = true

module _ {V E : Type 0} where
  -- A claim of another operation leaves what is stored for this one.
  other_op :
      (id : ℕ) (r : OpResult E) (caller : Caller) (op : PushOperation V) (rows : List (Processed E))
      → IsClaimed caller op rows
      → IsDone id r rows
      → (op.op_id == id) ≡ false
  other_op id r caller op rows is d = elim (Bool-cases (op.op_id == id)) [
    | inr e ↦ e
    | inl e ↦
        let same = (==_iff op.op_id id).0 e in
        let runs =
          is.unsettled d.row (subst (λ i. find_op i rows ≡ some d.row) (sym same) d.found) in
        let ended : is_in_progress d.row.status ≡ false = rw d.is_done refl in cc
  ]

module _ {S V E : Type 0} where
  -- What is stored for an operation stays, whatever is applied.
  Applied-IsDone :
      (id : ℕ) (r : OpResult E) (caller : Caller) (op : PushOperation V) (store : SyncStore S V E)
      (result : OpResult E) (after : SyncStore S V E)
      → Applied caller op store result after
      → IsDone id r store.processed
      → IsDone id r after.processed
  Applied-IsDone id r caller op store result after (repeats is) d = d
  Applied-IsDone id r caller op store result after (settles is answer work) d =
      let other = other_op id r caller op store.processed is d in
      record {
        row = d.row;
        status = d.status;
        is_done = d.is_done;
        answer = d.answer;
        found =
            find_op-record_other id op.op_id answer is.rows_now other ∙ is.keeps id d.row d.found;
      }
  Applied-IsDone id r caller op store result after (fails is) d = record {
    row = d.row;
    status = d.status;
    is_done = d.is_done;
    answer = d.answer;
    found =
        find_op-release_claim id op.op_id d.row is.rows_now (rw d.is_done refl)
          (is.keeps id d.row d.found);
  }

  -- An answer that is not to be retried is stored; a repeated one is the same answer again.
  Applied-with_outcome :
      (caller : Caller) (op : PushOperation V) (store : SyncStore S V E) (result : OpResult E)
      (after : SyncStore S V E)
      → Applied caller op store result after
      → is_retryable result.code ≡ false
      → (r : OpResult E) × IsDone op.op_id r after.processed
        × (as_duplicate op.op_id r ≡ as_duplicate op.op_id result)
  Applied-with_outcome caller op store result after (repeats is) h = (is.stored, is.is_done, refl)
  Applied-with_outcome caller op store result after (settles is answer work) h = (
    answer,
    record {
      row = with_outcome answer is.row;
      found = find_op-record_outcome op.op_id answer is.row is.rows_now is.found;
      status = answer.status;
      is_done = refl;
      answer = refl;
    },
    refl,
  )
  Applied-with_outcome caller op store result after (fails is) h = cc

module _ {S V E F : Type 0} where
  IsDone-repeated :
      (services : Services S V E F) (caller : Caller) (op : PushOperation V)
      (store : SyncStore S V E) (r : OpResult E)
      → IsDone op.op_id r store.processed
      → apply_one_operation services caller op store ≡ (as_duplicate op.op_id r, store)
  unfolding apply_one_operation claim_operation
  IsDone-repeated services caller op store r d = rw (d.found, d.is_done, d.answer) refl

  apply-IsDone :
      (services : Services S V E F) (caller : Caller) (op : PushOperation V)
      (store : SyncStore S V E) (id : ℕ) (r : OpResult E)
      → IsDone id r store.processed
      → IsDone id r (apply_one_operation services caller op store).1.processed
  apply-IsDone services caller op store id r =
      Applied-IsDone id r caller op store (apply_one_operation services caller op store).0
        (apply_one_operation services caller op store).1
        (apply_one_operation-Applied services caller op store)

  push_all-IsDone :
      (services : Services S V E F) (caller : Caller) (ops : List (PushOperation V))
      (store : SyncStore S V E) (id : ℕ) (r : OpResult E)
      → IsDone id r store.processed
      → IsDone id r (push_all services caller ops store).1.processed
  push_all-IsDone services caller [] store id r d = d
  push_all-IsDone services caller (op ∷ ops) store id r d =
      push_all-IsDone services caller ops (apply_one_operation services caller op store).1 id r
        (apply-IsDone services caller op store id r d)

module _ {V E : Type 0} where
  -- The answers of a batch that has been processed.
  abbrev pub duplicates : List (PushOperation V) → List (OpResult E) → List (OpResult E)
  duplicates (op ∷ ops) (r ∷ results) = as_duplicate op.op_id r ∷ duplicates ops results
  duplicates _ _ = []

  abbrev Stored : List (PushOperation V) → List (OpResult E) → List (Processed E) → Type 0
  Stored [] results rows = Unit
  Stored (op ∷ ops) [] rows = ⊥
  Stored (op ∷ ops) (result ∷ results) rows =
      ((r : OpResult E) × IsDone op.op_id r rows
        × (as_duplicate op.op_id r ≡ as_duplicate op.op_id result))
      × Stored ops results rows

module _ {S V E F : Type 0} where
  push_all-Stored :
      (services : Services S V E F) (caller : Caller) (ops : List (PushOperation V))
      (store : SyncStore S V E)
      → All (λ r. is_retryable r.code ≡ false) (push_all services caller ops store).0
      → Stored ops
          (push_all services caller ops store).0
          (push_all services caller ops store).1.processed
  push_all-Stored services caller [] store h = tt
  push_all-Stored services caller (op ∷ ops) store h =
      let after = apply_one_operation services caller op store in
      let (r, d, same) =
        Applied-with_outcome caller op store after.0 after.1
          (apply_one_operation-Applied services caller op store) h.0 in
      (
        (r, push_all-IsDone services caller ops after.1 op.op_id r d, same),
        push_all-Stored services caller ops after.1 h.1,
      )

  Stored-repeated :
      (services : Services S V E F) (caller : Caller) (ops : List (PushOperation V))
      (results : List (OpResult E)) (store : SyncStore S V E)
      → Stored ops results store.processed
      → push_all services caller ops store ≡ (duplicates ops results, store)
  Stored-repeated services caller [] results store h = refl
  Stored-repeated services caller (op ∷ ops) [] store h = absurd h
  Stored-repeated services caller (op ∷ ops) (result ∷ results) store ((r, d, same), h) =
      rw
        (
          IsDone-repeated services caller op store r d,
          same,
          Stored-repeated services caller ops results store h,
        )
        refl

  -- A batch that is pushed again, by whoever and with whatever permissions and services, answers the same with
  -- the status of a duplicate and changes nothing, if no answer of the first time was to be retried.
  pub push_all_again :
      (services again : Services S V E F) (caller late : Caller) (ops : List (PushOperation V))
      (store : SyncStore S V E)
      → All (λ r. is_retryable r.code ≡ false) (push_all services caller ops store).0
      → push_all again late ops (push_all services caller ops store).1 ≡ (
        duplicates ops (push_all services caller ops store).0,
        (push_all services caller ops store).1,
      )
  push_all_again services again caller late ops store h =
      let first = push_all services caller ops store in
      Stored-repeated again late ops first.0 first.1 (push_all-Stored services caller ops store h)
