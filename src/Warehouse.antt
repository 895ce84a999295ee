-- ===== src/Warehouse.antt =====
-- apps/api/src/warehouse: the batch warehouse. Quantities are in thousandths and unit costs in
-- ten-thousandths of a rouble, as the validators and the columns keep them, so that `roundQty` and
-- `roundCost` of a stored or validated value are that value.
pub mod State
pub mod Repository
pub mod Consume
pub mod Stock
pub mod Valuation
pub mod Trade
pub mod Returns
pub mod Lots
pub mod OpenLots
pub mod Consumed
pub mod Balance
pub mod Shifts
pub mod Keeps
pub mod Calls
pub mod Operations
pub mod Receipts
pub mod Suppliers
pub mod Sales
pub mod Restored
pub mod Reversals
pub mod Costs
pub mod Losses
pub mod SupplierReturns
pub mod Tests
