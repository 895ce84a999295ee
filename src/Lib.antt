-- ===== src/Lib.antt =====
-- Construct: the accounting of a workshop that builds and sells computers. A NestJS service
-- (apps/api/src) keeps accounts, orders, a batch warehouse and reports in a database
-- (packages/db/prisma/schema.prisma), and a web client (apps/web) shows them.
--
-- What is modelled, by file:
--   Prelude, with Int, Lists, Tests and Result: helpers that the components share. Integers are over
--     the native numbers; a call that may throw returns a Result.
--   Decimal: apps/api/src/common/money.ts. A Decimal at a fixed scale is the integer count of its
--     smallest units: kopecks for money, thousandths for quantities, ten-thousandths of a rouble for
--     unit costs. The Decimal library is exact up to 20 significant digits; the two operations that
--     round, `money` and the quotient of `cost`, are a parameter with its laws (IsRounding), which
--     Decimal/Tests meets with half-up rounding.
--   Calendar: the business day and month of apps/api/src/reports/period.ts (tzParts, startOfDay,
--     endOfDay, businessMonthLabel), for moments since 1970.
--   Text: strings as UTF-16 code units, with trim, includes and digitsOnly.
--   Sorting: `Array.prototype.sort` with a comparator, stable; `localeCompare` is a parameter that
--     must be a total preorder.
--   Fifo: apps/api/src/common/fifo.ts (consumePlan, reversePlan). Both plans share one loop, `drain`.
--   Warehouse: apps/api/src/warehouse/warehouse.service.ts and warehouse.repository.ts. State holds
--     the tables and the call inside UnitOfWork.run (apps/api/src/common/unit-of-work.ts): a call is a
--     function from the tables to an error or to an answer with new tables, so that an error leaves
--     them. Repository: findById, lockForUpdate, lockOpenLots, lotAggregates, createLot,
--     recordMovement, updateLotRemaining, recordConsumption. Consume: recomputeCaches, consumeLots.
--     Stock: create, update, remove, adjust. Valuation: writeOff, setCost, unitCostAtSaleFor. Trade:
--     applyPurchaseLine, decrementForSale, reverseConsumption, restock. Returns: voidUntouchedLots,
--     supplierReturn. Lots, OpenLots, Consumed, Restored, Balance, Shifts, Keeps and Calls carry
--     the proofs about the rows and about chains of calls; Operations, Receipts, Suppliers,
--     SupplierReturns, Costs, Losses, Sales and Reversals are about the operations.
--   Tax: apps/api/src/reports/ausn-classify.ts (Classify) and ausn-tax.ts (Sums).
--   Schedule: apps/api/src/orders/payment-schedule.ts, with the order of the entries in DueOrder. It reads
--     the day's end from Calendar.
--   Margin: apps/api/src/orders/order-margin.ts and apps/api/src/common/margin.ts.
--   Orders: apps/api/src/orders/order.service.ts and order.repository.ts. State holds the tables that an
--     order touches, with the lines, transactions, returns and schedule of an order inside it and the
--     tables of the warehouse beside; Calls is the call inside UnitOfWork.run, which may call the
--     warehouse. Repository: lockAndLoad, findById, nextNumber and the writes. Payments:
--     resolvePaymentState, syncPaymentState, addPayment, addInstallmentPayment, deletePayment,
--     setSchedule. Edit: create, update, addExternalItems, removeExternalItems. Shipping: ship,
--     returnItem. Closing: finalize, reverseFinalization, cancel, reopen, remove. Serving: requests as
--     values, served one after another. Sound says what an order keeps to; Rows and Writes are rules on
--     calls that carry it, Progress and Written are about loops over lines; Taking, Changing, Shipped,
--     Closed, Undone and Undoing carry the calls, and Served, Outcomes, StockOut, Amounts, Numbers, Taken
--     and Refused have what follows. Ids of warehouse items compare as numbers where lines are sorted for
--     locking.
--   MonthSummary: apps/api/src/reports/month-summary.calc.ts. Months: monthParts and
--     shiftMonth on texts; `digits` has the number itself as fuel, which MonthTexts shows to be enough, and
--     ShiftedBack is about the shifts. Remainders:
--     largestRemainder, whose two correcting loops run on fuel that is the distance of the estimate
--     (Floors) and whose sums are in Spread. Roots: categoryRoots, whose walk runs on as much fuel as
--     there are live categories (Climbing). Groups: groupExpenses and compareGroups (Totals, Compared).
--   Rules: apps/api/src/rule/engine.ts; `toLowerCase` is a parameter.
--   Matching: apps/api/src/integrations/transfer-match.ts (Transfers) and planned-match.ts (Planned),
--     over the greedy loop that both end with (Greedy) and the loops that collect candidates (Pairs).
--
-- All other loops are structural recursion, so that no fuel is needed. Ids are numbers and only compared.
-- Names, notes, descriptions and log lines are left out. A row lock is a read: calls are taken one
-- after the other, as the locks make them. Quantities, costs and money are at the scale that the
-- validators and columns keep, so that rounding a stored value gives that value.
--
-- Not modelled: the web client, controllers, authentication, the adapters of banks and marketplaces,
-- spreadsheets, and the services that only query the database; the planning of payments and the reports
-- beyond the tax and the grouping of a month's summary.
pub mod Prelude
pub mod Decimal
pub mod Fifo
pub mod Warehouse
pub mod Text
pub mod Sorting
pub mod Matching
pub mod Rules
pub mod Calendar
pub mod Tax
pub mod Schedule
pub mod Margin
pub mod Orders
pub mod MonthSummary
