-- ===== src/Sync/Push/Sale.antt =====
-- A queued sale: the sales service among the services of a push, apps/api/src/modules/sync/sync.service.ts.
-- What createSaleSchema makes of a payload is a parameter, and so are the other services.
use dukaano.Base.{
  Bool-cases, Option, Result, ap, err, false, inl, inr, map_err, none, ok, or_else, refl, some,
  true, ℕ, ◌>>=◌, ◌≡◌,
}
use dukaano.Base.Int.{ℤ}
use dukaano.Base.Keys.{eq_str}
use dukaano.Khata.{Context}
use dukaano.Khata.Payments.Collect.{answer}
use dukaano.Sales.{Draws, SaleFault, SaleRow, SaleView, Till, find_sale}
use dukaano.Sales.Create.{CreateSaleInput}
use dukaano.Sales.Issue.{create_sale}
use dukaano.Sales.Issued.{create_sale_known}
use dukaano.Sync.Push.{Caller, PushOperation, create}
use dukaano.Sync.Push.Apply.{SyncStore, apply_one_operation, is_allowed}
use dukaano.Sync.Push.Claims.{claim_operation-cases}
use dukaano.Sync.Push.Dispatch.{Services, Work, dispatch, is_create_op, made}

pub data PushFault : Type 0 where
  not_parsed : PushFault
  in_sale : SaleFault → PushFault

abbrev parsed : Option CreateSaleInput → Result PushFault CreateSaleInput
parsed none = err not_parsed
parsed (some input) = ok input

dispatch-sale :
    {S V E F : Type 0}
    → (services : Services S V E F) (caller : Caller) (op : PushOperation V) (w : Work S V)
      (sale : E × S)
    → op.entity ≡ "sale"
    → op.op_type ≡ create
    → services.sales_create op w.shop ≡ ok sale
    → dispatch services caller op w ≡ ok (made op.op_id sale w)
unfolding dispatch
dispatch-sale services caller op w sale is_sale creates sold =
    let no_product : eq_str op.entity "product" ≡ false = ap (λ e. eq_str e "product") is_sale in
    let a_sale : eq_str op.entity "sale" ≡ true = ap (λ e. eq_str e "sale") is_sale in
    let a_create : is_create_op op.op_type ≡ true = ap is_create_op creates in
    rw (no_product, a_sale, a_create, sold) refl

module _ (business_date_for : ℤ → ℤ) (locale_compare : ℕ → ℕ → ℤ) {V : Type 0}
    (parse_sale : PushOperation V → Option CreateSaleInput) (context : Context) (draws : ℕ → Draws)
    (others : Services Till V SaleView PushFault) where
  abbrev pub sell : PushOperation V → Till → Result PushFault (SaleView × Till)
  sell op t = do
    input ← parsed (parse_sale op)
    (answer, after) ←
        map_err in_sale
          (create_sale business_date_for locale_compare context (draws op.op_id) input t)
    ok (answer.0, after)

  abbrev pub shop_services : Services Till V SaleView PushFault
  shop_services = record others { sales_create = sell }

  -- A queued sale whose identifier the shop has already, as when it was issued and its answer lost, changes no row of
  -- the shop, whatever operation it comes in; the schema gives a sale the identifier of its operation.
  pub apply_one_operation_known_sale :
      (caller : Caller) (op : PushOperation V) (store : SyncStore Till V SaleView)
      (input : CreateSaleInput) (s : SaleRow) (u : ℕ)
      → op.entity ≡ "sale"
      → op.op_type ≡ create
      → parse_sale op ≡ some input
      → input.id ≡ some op.entity_id
      → context.user_id ≡ some u
      → find_sale op.entity_id store.work.shop.sales ≡ some s
      → (apply_one_operation shop_services caller op store).1.work ≡ store.work
  unfolding apply_one_operation
  apply_one_operation_known_sale caller op store input s u sale creates parses same_id user known =
      let there : find_sale (or_else input.id (draws op.op_id).document_id) store.work.shop.sales
          ≡ some s =
        rw same_id known in
      let (view, same, again) =
        create_sale_known business_date_for locale_compare context (draws op.op_id) input
          store.work.shop u user there in
      let sold : sell op store.work.shop ≡ ok (view, store.work.shop) = rw (parses, again) refl in
      let dispatched =
        dispatch-sale shop_services caller op store.work (view, store.work.shop) sale creates
          sold in
      elim (claim_operation-cases caller op store.processed) [
        | inl is ↦ rw is.again refl
        | inr is ↦ rw is.claims (elim (Bool-cases (is_allowed caller op)) [
          | inl e ↦ rw (e, dispatched) refl
          | inr e ↦ rw e refl
        ])
      ]
