-- ===== src/Orders/State.antt =====
-- The tables that an order touches (packages/db/prisma/schema.prisma). The rows of the tables that carry
-- the key of an order, its lines, transactions, returns and schedule, stand inside the order. The tables
-- of the warehouse are the field `stock`.
use construct_fin.Prelude.{ℕ, Bool, Option, List, ℤ}
use construct_fin.Schedule.{ScheduleEntry}
use construct_fin.Warehouse.State.{Party, Db, WarehouseError}

pub data OrderStatus : Type 0 where
  open_order done cancelled : OrderStatus

pub data OrderPaymentState : Type 0 where
  unpaid partial paid_up overpaid refunded : OrderPaymentState

-- The kinds of the transactions that stand at an order.
pub data OrderTxKind : Type 0 where
  order_payment order_refund variable_cost cogs : OrderTxKind

pub record OrderTx : Type 0 where
  pub id : ℕ
  pub kind : OrderTxKind
  pub date : ℤ
  pub amount : ℤ
  pub account : ℕ
  pub counterparty : Option ℕ
  pub original : Option ℕ
  pub deleted : Bool

pub record OrderItem : Type 0 where
  pub id : ℕ
  pub warehouse_item : Option ℕ
  pub qty : ℤ
  pub unit_price : ℤ
  pub unit_cost : Option ℤ
  pub unit_cost_at_sale : Option ℤ
  pub returned_qty : ℤ
  pub shipped_qty : ℤ
  pub line_total : ℤ

pub record OrderReturn : Type 0 where
  pub order_item : ℕ
  pub qty : ℤ
  pub revenue_amount : ℤ
  pub cost_amount : ℤ
  pub refund_amount : ℤ
  pub date : ℤ

pub record Order : Type 0 where
  pub id : ℕ
  pub workspace : ℕ
  -- The year and the sequence of `ORD-2026-0042`.
  pub number : ℕ × ℕ
  pub client : Option ℕ
  pub status : OrderStatus
  pub payment_status : OrderPaymentState
  pub subtotal : ℤ
  pub discount_amount : ℤ
  pub total_amount : ℤ
  pub paid_amount : ℤ
  pub closed_at : Option ℤ
  pub items : List OrderItem
  pub transactions : List OrderTx
  pub returns : List OrderReturn
  pub schedule : List ScheduleEntry
  pub deleted : Bool

-- A line of a bank statement, as far as orders touch it.
pub record BankLine : Type 0 where
  pub workspace : ℕ
  pub is_new : Bool
  pub transaction : Option ℕ
  pub adopted : Bool

pub data OrderAction : Type 0 where
  payment_delete installment schedule ship return_item finalize cancel reopen delete : OrderAction

pub record Books : Type 0 where
  pub stock : Db
  pub orders : List Order
  pub clients : List Party
  pub bank_lines : List BankLine
  pub audit : List (OrderAction × ℕ)
  -- The next key that the database hands out.
  pub next_id : ℕ

pub data OrderError : Type 0 where
  order_not_found line_not_found payment_not_found : OrderError
  client_not_found item_refs_not_found account_not_found : OrderError
  discount_above_subtotal : OrderError
  not_editable already_shipped lines_not_found line_in_use : OrderError
  amount_not_positive fee_not_below_amount refund_negative : OrderError
  in_the_future : OrderError
  order_cancelled not_open not_done not_closed : OrderError
  not_deletable : OrderError
  qty_not_positive : OrderError
  above_remaining above_sold : ℤ → OrderError
  refund_above_paid : ℤ → ℤ → OrderError
  no_cost_account : OrderError
  stock_refused : WarehouseError → OrderError
