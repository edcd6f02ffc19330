-- ===== src/Sync/Push/Tests.antt =====
-- Runs of a push of apps/api/src/modules/sync/sync.service.ts.
use dukaano.Base.{
  All, List, Result, [], err, false, if◌then◌else◌, none, ok, refl, some, suc, true, value_or, ℕ,
  ◌++◌, ◌+◌, ◌==◌, ◌∷◌, ◌≡◌,
}
use dukaano.Base.Int.{pos, ℤ}
use dukaano.Sync.Push.{
  Caller, OpResult, Processed, PushOperation, claim_operation, claim_row, claimed, create, find_op,
  rejection, retryable, update,
}
use dukaano.Sync.Push.Apply.{SyncStore, apply_one_operation, is_allowed, push_all}
use dukaano.Sync.Push.Claims.{IsEnded}
use dukaano.Sync.Push.Dispatch.{ServerProduct, Services, Work, dispatch}
use dukaano.Sync.Push.Failed.{apply_one_operation_fails, push_all-IsEnded}
use dukaano.Sync.Push.Merge.{IsMerged, dispatch-IsMerged}
use dukaano.Sync.Push.Once.{duplicates, is_retryable, push_all_again}

-- A shop that counts the rows it has made; its services fail for the identifier 13.
abbrev makes : PushOperation ℕ → ℕ → Result Unit ((ℤ × ℕ) × ℕ)
makes op n = if op.entity_id == 13 then err tt else ok ((pos 1, n), suc n)

abbrev sells : PushOperation ℕ → ℕ → Result (Unit {0}) (ℕ × ℕ)
sells op n = if op.entity_id == 13 then err tt else ok (n, suc n)

abbrev tea : ServerProduct
tea = record { row_version = pos 4; client_updated_at = none; updated_at = pos 100 }

abbrev counter : Services ℕ ℕ ℕ (Unit {0})
counter = record {
  product_row = λ id n. if id == 7 then some tea else none;
  products_find_by_id = λ id n. ok n;
  products_create = makes;
  products_update = λ id patch at n. ok ((pos 5, n), suc n);
  sales_create = sells;
  payments_record = sells;
}

abbrev cashier : Caller
cashier = record { device_id = 1; user_id = some 2; holds = λ p. true; draw = λ id. id + 100 }

abbrev nobody : Caller
nobody = record cashier { holds = λ p. false }

abbrev sale_op : ℕ → ℕ → PushOperation ℕ
sale_op id entity_id = record {
  op_id = id;
  entity = "sale";
  entity_id = entity_id;
  op_type = create;
  base_version = none;
  client_updated_at = pos 200;
  payload = [];
}

abbrev price_op : PushOperation ℕ
price_op = record {
  op_id = 3;
  entity = "product";
  entity_id = 7;
  op_type = update;
  base_version = some (pos 3);
  client_updated_at = pos 200;
  payload = ("nameEn", some 1) ∷ ("sellingPricePaise", some 2) ∷ [];
}

abbrev empty : SyncStore ℕ ℕ ℕ
empty = record { work = record { shop = 0; conflicts = [] }; processed = [] }

abbrev batch : List (PushOperation ℕ)
batch = sale_op 1 30 ∷ sale_op 2 31 ∷ price_op ∷ []

abbrev pushed : List (OpResult ℕ) × SyncStore ℕ ℕ ℕ
pushed = push_all counter cashier batch empty

pushed_once : pushed.1.work.shop ≡ 3
unfolding apply_one_operation
pushed_once = refl

none_retryable : All (λ r. is_retryable r.code ≡ false) pushed.0
unfolding apply_one_operation
none_retryable = (refl, (refl, (refl, tt)))

push_all_again_example :
    push_all counter nobody batch pushed.1 ≡ (duplicates batch pushed.0, pushed.1)
push_all_again_example = push_all_again counter counter cashier nobody batch empty none_retryable

apply_one_operation_fails_example :
    apply_one_operation counter cashier (sale_op 9 13) pushed.1 ≡ (rejection retryable 9, pushed.1)
unfolding apply_one_operation
apply_one_operation_fails_example =
    apply_one_operation_fails counter cashier (sale_op 9 13) pushed.1 tt new_op allowed_op failed_op
  where
    new_op : find_op 9 pushed.1.processed ≡ none
    new_op = refl

    allowed_op : is_allowed cashier (sale_op 9 13) ≡ true
    allowed_op = refl

    failed_op : dispatch counter cashier (sale_op 9 13) pushed.1.work ≡ err tt
    failed_op = refl

abbrev held : List (Processed ℕ)
held = pushed.1.processed ++ claim_row cashier (sale_op 9 32) ∷ []

held_claimed : claim_operation cashier (sale_op 9 32) pushed.1.processed ≡ claimed held
unfolding claim_operation apply_one_operation
held_claimed = refl

push_all-IsEnded_example : All IsEnded pushed.1.processed
push_all-IsEnded_example = push_all-IsEnded counter cashier batch empty tt

abbrev merged_op : OpResult ℕ × Work ℕ ℕ
merged_op =
    value_or (rejection retryable 0, empty.work) (dispatch counter cashier price_op empty.work)

merges_op : dispatch counter cashier price_op empty.work ≡ ok merged_op
unfolding dispatch
merges_op = refl

dispatch-IsMerged_example : IsMerged counter price_op tea empty.work merged_op.0 merged_op.1
dispatch-IsMerged_example =
    dispatch-IsMerged counter cashier price_op empty.work tea merged_op refl refl refl merges_op
