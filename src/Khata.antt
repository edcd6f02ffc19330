-- ===== src/Khata.antt =====
-- apps/api/src/modules/khata/ledger.service.ts: the customer ledger, its entries and balances. The tables
-- are the rows of the shop at hand, in the order of insertion; an identifier is a number, and the
-- identifiers and instants that a call draws (`randomUUID()`, `new Date()`) are its arguments. Amounts are
-- exact, as they are in the source below 2^53.
pub mod Rows
pub mod Balance
pub mod Payments
mod Tests
use dukaano.Base.{
  Bool, List, Option, Result, [], err, false, if◌then◌else◌, is_empty, none, not, ok, or_else, some,
  throw_if, true, ℕ, ◌&&◌, ◌++◌, ◌+◌, ◌>>=◌, ◌>>◌, ◌∷◌,
}
use dukaano.Base.Int.{eqb_ℤ, pos, ℤ}
use dukaano.Base.Table.{change_rows, find_row, sum_rows}
use dukaano.Base.Text.{Text, trim}
use dukaano.Ledger.{
  LedgerEntryType, apply_ledger_entry, ledger_entry_requires_reason, signed_ledger_amount,
}
use dukaano.Money.Errors.{Exception, Number, Throws}

pub data RefType : Type 0 where
  sale_ref payment_ref sale_return_ref : RefType

-- LedgerEntryRequest
pub record Request : Type 0 where
  pub customer_id : ℕ
  pub entry_type : LedgerEntryType
  pub magnitude_paise : Number
  pub ref_type : Option RefType
  pub ref_id : Option ℕ
  pub reason : Option Text
  pub note : Option Text
  pub occurred_at : Option ℤ
  pub op_id : Option ℕ

-- What `currentContext()` gives.
pub record Context : Type 0 where
  pub shop_id : Option ℕ
  pub user_id : Option ℕ
  pub device_id : Option ℕ

-- A row of customer_ledger_entry.
pub record Entry : Type 0 where
  pub id : ℕ
  pub customer_id : ℕ
  pub entry_type : LedgerEntryType
  pub amount_paise : ℤ
  pub balance_after_paise : ℤ
  pub ref_type : Option RefType
  pub ref_id : Option ℕ
  pub reason : Option Text
  pub note : Option Text
  pub actor_user_id : Option ℕ
  pub device_id : Option ℕ
  pub occurred_at : ℤ
  pub op_id : Option ℕ

-- A row of customer_balance.
pub record CustomerBalance : Type 0 where
  pub customer_id : ℕ
  pub outstanding_paise : ℤ
  pub last_entry_id : Option ℕ
  pub last_activity_at : Option ℤ
  pub version : ℕ

pub data Entity : Type 0 where
  customer_ledger_entry customer_balance payment : Entity

-- What the change log records; every operation here is an upsert.
pub record Change : Type 0 where
  pub entity : Entity
  pub entity_id : ℕ
  pub row_version : ℕ

pub record Books : Type 0 where
  pub entries : List Entry
  pub balances : List CustomerBalance
  pub changes : List Change

pub record LedgerEntryResult : Type 0 where
  pub entry_id : ℕ
  pub signed_amount_paise : ℤ
  pub balance_before_paise : ℤ
  pub balance_after_paise : ℤ

pub data Missing : Type 0 where
  customer_missing payment_missing : ℕ → Missing

pub data Fault : Type 0 where
  no_tenant no_user already_reversed not_reversible : Fault
  reason_required : LedgerEntryType → Fault
  not_found : Missing → Fault
  over_allocated : ℤ → ℤ → Fault
  refused : Exception → Fault

-- An exception of the business logic passes through.
abbrev pub passing : {A : Type 0} → Throws A → Result Fault A
passing (ok a) = ok a
passing (err e) = err (refused e)

abbrev pub is_none : {A : Type 0} → Option A → Bool
is_none none = true
is_none (some a) = false

-- `!!request.reason?.trim()`
abbrev pub has_text : Option Text → Bool
has_text none = false
has_text (some s) = not (is_empty (trim s))

-- The balance of the customer's row, if there is one.
unfoldable pub find_balance : ℕ → List CustomerBalance → Option ℤ
unfolding find_row
find_balance = find_row CustomerBalance.customer_id CustomerBalance.outstanding_paise

abbrev pub new_balance : ℕ → CustomerBalance
new_balance customer = record {
  customer_id = customer;
  outstanding_paise = pos 0;
  last_entry_id = none;
  last_activity_at = none;
  version = 0;
}

-- lockBalance: the balance, and the rows with the one that it inserted.
abbrev pub lock_row : ℕ → List CustomerBalance → Option ℤ → ℤ × List CustomerBalance
lock_row customer balances (some amount) = (amount, balances)
lock_row customer balances none = (pos 0, balances ++ new_balance customer ∷ [])

unfoldable pub lock_balance : ℕ → List CustomerBalance → ℤ × List CustomerBalance
unfolding find_balance
lock_balance customer balances = lock_row customer balances (find_balance customer balances)

-- `customerBalance.update`
unfoldable pub update_balance : ℕ → ℤ → ℕ → ℤ → List CustomerBalance → List CustomerBalance
unfolding change_rows
update_balance customer after entry_id now = change_rows CustomerBalance.customer_id customer (λ b.
    record b {
      outstanding_paise = after;
      last_entry_id = some entry_id;
      last_activity_at = some now;
      version = b.version + 1;
    })

-- The row of the ledger that `append` creates.
abbrev pub posted : Context → ℕ → ℤ → Request → ℤ → ℤ → Entry
posted context entry_id now request signed after = record {
  id = entry_id;
  customer_id = request.customer_id;
  entry_type = request.entry_type;
  amount_paise = signed;
  balance_after_paise = after;
  ref_type = request.ref_type;
  ref_id = request.ref_id;
  reason = request.reason;
  note = request.note;
  actor_user_id = context.user_id;
  device_id = context.device_id;
  occurred_at = or_else request.occurred_at now;
  op_id = request.op_id;
}

-- The rows that `append` writes once the signed amount is known.
unfoldable pub post : Context → ℕ → ℤ → Request → ℤ → Books → LedgerEntryResult × Books
unfolding lock_balance update_balance
post context entry_id now request signed books =
    let (before, locked) = lock_balance request.customer_id books.balances in
    let after = apply_ledger_entry before signed in
    let entry = posted context entry_id now request signed after in
    (
      record {
        entry_id = entry_id;
        signed_amount_paise = signed;
        balance_before_paise = before;
        balance_after_paise = after;
      },
      record {
        entries = books.entries ++ entry ∷ [];
        balances = update_balance request.customer_id after entry_id now locked;
        changes =
            books.changes
            ++ record { entity = customer_ledger_entry; entity_id = entry_id; row_version = 1 }
              ∷ record {
                entity = customer_balance;
                entity_id = request.customer_id;
                row_version = 1;
              }
              ∷ [];
      },
    )

unfoldable pub append : Context → ℕ → ℤ → Request → Books → Result Fault (LedgerEntryResult × Books)
unfolding post
append context entry_id now request books = do
  throw_if (is_none context.shop_id) no_tenant
  throw_if (ledger_entry_requires_reason request.entry_type && not (has_text request.reason))
      (reason_required request.entry_type)
  signed ← passing (signed_ledger_amount request.entry_type request.magnitude_paise)
  ok (post context entry_id now request signed books)

-- The entries of a customer added up, as the query of `reconcile` does.
unfoldable pub sum_entries : ℕ → List Entry → ℤ
unfolding sum_rows
sum_entries = sum_rows Entry.customer_id Entry.amount_paise

-- The rows of customer_balance whose amount is not the sum of the entries.
unfoldable pub reconcile : List Entry → List CustomerBalance → List CustomerBalance
unfolding sum_entries
reconcile entries [] = []
reconcile entries (b ∷ balances) =
    let rest = reconcile entries balances in
    if eqb_ℤ b.outstanding_paise (sum_entries b.customer_id entries) then rest else b ∷ rest
