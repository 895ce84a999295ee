-- ===== src/Orders.antt =====
-- apps/api/src/orders/order.service.ts and order.repository.ts: orders, their payments, shipments and
-- returns, as a client of the warehouse. Quantities are in thousandths, prices and money in kopecks, unit
-- costs in ten-thousandths of a rouble.
pub mod State
pub mod Calls
pub mod Repository
pub mod Payments
pub mod Edit
pub mod Shipping
pub mod Closing
pub mod Rows
pub mod Writes
pub mod Sound
pub mod Taking
pub mod NewLines
pub mod Changing
pub mod Progress
pub mod Written
pub mod Closed
pub mod Shipped
pub mod Undone
pub mod Undoing
pub mod Serving
pub mod Served
pub mod Outcomes
pub mod Refused
pub mod StockOut
pub mod Amounts
pub mod Numbers
pub mod Taken
mod Tests
