-- ===== src/Lib.antt =====
-- Dukaano: the rules of a shop's till, ledger and stock, and of the phones that sell offline.
--
-- The repository is a monorepo in TypeScript. packages/money holds amounts and quantities as scaled
-- integers and computes bills with them; packages/business-logic holds the pure rules (ledger,
-- inventory, sync, permissions, CSV import) on top of it; apps/api and apps/mobile both call these
-- rules, so that a phone without a network and the server reach the same figures. This library models
-- the two packages, function by function, and of the API the services of the
-- customer ledger, of the stock, and of sales and returns, which use the other two.
--
-- The files, and the code each is about:
--   Base            the shared names: lists, results, integers over the native numbers, the stable
--                   sort of the language, decimal digits, text as UTF-16 code units, objects as lists
--                   of entries, and tables whose rows are found, changed and added up by an
--                   identifier (Base/Table).
--   Money           packages/money/src. Money/Errors (errors.ts), Money/Brand (brand.ts, constants.ts),
--                   Money/Round (round.ts), Money/Arithmetic (arithmetic.ts), Money/Allocate (allocate
--                   of arithmetic.ts), Money/Line (line.ts),
--                   Money/Text (serialize.ts, parse.ts).
--   Ledger          packages/business-logic/src/ledger/allocation.ts and LEDGER_ENTRY_TYPES of
--                   packages/types/src/enums.ts.
--   Khata           apps/api/src/modules/khata: Khata (ledger.service.ts), Khata/Payments
--                   (payments.service.ts), the ledger of customers with its balances, and payments.
--   Inventory       packages/business-logic/src/inventory/costing.ts.
--   Stock           apps/api/src/modules/inventory/inventory.service.ts, the stock of a shop: Stock (the
--                   rows and lockBalance, and INVENTORY_TRANSACTION_TYPES of packages/types/src/enums.ts),
--                   Stock/Movement (applyMovement), Stock/Batch (applyMovements), Stock/Opening
--                   (applyOpeningStockBatch).
--   Sales           apps/api/src/modules/sales: Sales (the tables), Sales/Number (nextSaleNumber),
--                   Sales/Create, Sales/Rows and Sales/Issue (create of sales.service.ts), Sales/Cancel
--                   (cancel), Sales/Returns, Sales/Returns/Rows and Sales/Returns/Give
--                   (returns.service.ts).
--   Rbac            packages/business-logic/src/rbac/matrix.ts and packages/types/src/permissions.ts.
--   Import          packages/business-logic/src/import/csv.ts.
--   Sync            packages/business-logic/src/sync: Sync/Cursor (cursor.ts), Sync/Conflict
--                   (conflict.ts); pull of apps/api/src/modules/sync/sync.service.ts: Sync/Pull, and
--                   Sync/Pull/Feed, the pulls of a device among the transactions that write the log;
--                   push of the same service: Sync/Push (the rows of its operations), Sync/Push/Dispatch
--                   (dispatch), Sync/Push/Apply (applyOneOperation and the loop), Sync/Push/Sale (the
--                   sales service among those it calls).
--
-- How the code is read. A function in camel case is the definition of the same name in snake case. A
-- function that throws returns a result, and its exceptions are the constructors of Money/Errors. A
-- JavaScript number is a whole number or `other`, the values that are not whole, which the code tests
-- for and refuses. `bigint` arithmetic is arithmetic on unbounded integers, and a branded value is kept
-- as an integer whose range, up to 2^53 - 1 on either side of zero, is the predicate IsSafe. Loops are
-- recursion on the list they walk. Only the digits of a number are computed on fuel: one more than the
-- number, which a division by the base always leaves smaller. The stable sort is an insertion
-- sort by the comparator of the source. A map is the list of its entries in the order of insertion.
--
-- The services of the API work on the rows of one shop inside a transaction. They are state passing on a
-- record of tables, each a list in the order of insertion; a query is a recursion on the rows. What a call
-- draws, identifiers and the time, is an argument, and so is the business date of an instant. A balance
-- row is locked for the length of a call, so a history of calls is a sequence of steps.
--
-- The database numbers transactions as they begin, a statement sees the rows of those that have committed,
-- and the watermark is the least number that has not ended; Sync/Pull/Feed writes this out as steps.
-- Pulls are repeated on fuel, and one more than the rows that are left is enough.
--
-- Not modelled: floating-point arithmetic, but for the rounding of whole numbers above 2^53 in the next
-- number of a document and in the product of a quantity (Base/Double); toBasisPoints is left out, and
-- the value of a part of a returned line is a parameter; packages/business-logic/src/time, which rests
-- on the zone tables of Intl (the business date of an instant is a parameter, and no theorem speaks of
-- it); the validation of imported rows, the detection of columns and the normalisation of phone numbers,
-- which feed no operation that is modelled; the API's other services, controllers and database; pushes
-- that race for one operation, which the key of processed_operation decides; the mobile database; the
-- schemas declared for a validation library; catalogues of text and localized formatting.
pub mod Base
pub mod Money
pub mod Import
pub mod Ledger
pub mod Khata
pub mod Inventory
pub mod Rbac
pub mod Stock
pub mod Sales
pub mod Sync
