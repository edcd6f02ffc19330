-- ===== src/Sales/Tests/Queued.antt =====
-- The bill queued by a device whose answer was lost.
use dukaano.Base.{[], err, none, refl, some, true, ℕ, ◌≡◌}
use dukaano.Base.Int.{pos}
use dukaano.Sales.{SaleView, Till}
use dukaano.Sales.Tests.{bought, bought_rows, by_number, cart, clerk, drawn_later, same_day}
use dukaano.Sync.Push.{Caller, PushOperation, create}
use dukaano.Sync.Push.Apply.{SyncStore, apply_one_operation}
use dukaano.Sync.Push.Dispatch.{Services}
use dukaano.Sync.Push.Sale.{PushFault, apply_one_operation_known_sale, not_parsed, shop_services}

-- The same bill, queued by a device whose answer was lost.
abbrev queued : PushOperation ℕ
queued = record {
  op_id = 51;
  entity = "sale";
  entity_id = 30;
  op_type = create;
  base_version = none;
  client_updated_at = pos 1_000;
  payload = [];
}

abbrev no_products : Services Till ℕ SaleView PushFault
no_products = record {
  product_row = λ id t. none;
  products_find_by_id = λ id t. err not_parsed;
  products_create = λ op t. err not_parsed;
  products_update = λ id patch at t. err not_parsed;
  sales_create = λ op t. err not_parsed;
  payments_record = λ op t. err not_parsed;
}

abbrev phone : Caller
phone = record { device_id = 1; user_id = some 2; holds = λ p. true; draw = λ id. id }

abbrev bought_store : SyncStore Till ℕ SaleView
bought_store = record { work = record { shop = bought.1; conflicts = [] }; processed = [] }

apply_one_operation_known_sale_example :
    (apply_one_operation
      (shop_services same_day by_number (λ op. some cart) clerk (λ id. drawn_later) no_products)
      phone
      queued
      bought_store).1.work
    ≡ bought_store.work
apply_one_operation_known_sale_example =
    apply_one_operation_known_sale same_day by_number (λ op. some cart) clerk (λ id. drawn_later)
      no_products phone queued bought_store cart bought.0.0.sale 2 refl refl refl refl refl
      bought_rows.0
