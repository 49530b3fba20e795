-- ===== src/Sales/Reach.antt =====
-- Sales over time: every sequence of calls of the order and delivery services, and of the inventory
-- and accounting services on their own tables in between.
use backend_erp.Prelude.{ℕ, ◌≡◌, sym, subst, List, Option}
use backend_erp.Database.{Reading, ok}
use backend_erp.Accounting.Schema.{Clock, LedgerRow, Books}
use backend_erp.Accounting.Reach.{Step-IsKept}
use backend_erp.Accounting.Reach as Accounting
use backend_erp.Inventory.Schema.{Stock}
use backend_erp.Inventory.Reach.{Step-IsStocked}
use backend_erp.Inventory.Reach as Inventory
use backend_erp.Sales.Schema.{Order, Delivery, Sales}
use backend_erp.Sales.Orders.{OrderDto, create_order, confirm_order, cancel_order}
use backend_erp.Sales.Deliveries.{DeliveryDto, create_delivery, cancel_delivery}
use backend_erp.Sales.Shipments.{confirm_delivery}
use backend_erp.Sales.Sold.{
  IsSold, with_stock, with_books, create_order-IsSold, confirm_order-IsSold, cancel_order-IsSold,
}
use backend_erp.Sales.Shipped.{create_delivery-IsSold, cancel_delivery-IsSold}
use backend_erp.Sales.Confirmed.{confirm_delivery-IsSold}

-- One call that commits, at the time that `clock` shows.
pub data Step (pick : List LedgerRow → Option LedgerRow) (s s' : Sales) : Type 0 where
  order_created :
      (reading : Reading) (clock : Clock) (dto : OrderDto) (by : ℕ) (o : Order)
      → create_order reading clock dto by s ≡ ok (o, s')
      → Step pick s s'
  order_confirmed :
      (clock : Clock) (so_id by : ℕ) → confirm_order clock so_id by s ≡ ok (tt, s') → Step pick s s'
  order_cancelled : (so_id by : ℕ) → cancel_order so_id by s ≡ ok (tt, s') → Step pick s s'
  delivery_created :
      (reading : Reading) (clock : Clock) (dto : DeliveryDto) (by : ℕ) (d : Delivery)
      → create_delivery reading clock dto by s ≡ ok (d, s')
      → Step pick s s'
  delivery_confirmed :
      (clock : Clock) (do_id by : ℕ)
      → confirm_delivery clock pick do_id by s ≡ ok (tt, s')
      → Step pick s s'
  delivery_cancelled : (do_id by : ℕ) → cancel_delivery do_id by s ≡ ok (tt, s') → Step pick s s'
  stock_changed :
      (t : Stock) → Inventory.Step s.stock t → s' ≡ record s { stock = t } → Step pick s s'
  books_changed :
      (b : Books) → Accounting.Step pick s.books b → s' ≡ record s { books = b } → Step pick s s'

pub data Reach (pick : List LedgerRow → Option LedgerRow) (s : Sales) : Sales → Type 0 where
  here : Reach pick s s
  next : {t u : Sales} → Reach pick s t → Step pick t u → Reach pick s u

pub Step-IsSold :
    (pick : List LedgerRow → Option LedgerRow) (s s' : Sales)
    → Step pick s s'
    → IsSold s
    → IsSold s'
Step-IsSold pick s s' (order_created reading clock dto by o h) w =
    create_order-IsSold reading clock dto by o s s' h w
Step-IsSold pick s s' (order_confirmed clock so_id by h) w =
    confirm_order-IsSold clock so_id by s s' h w
Step-IsSold pick s s' (order_cancelled so_id by h) w = cancel_order-IsSold so_id by s s' h w
Step-IsSold pick s s' (delivery_created reading clock dto by d h) w =
    create_delivery-IsSold reading clock dto by d s s' h w
Step-IsSold pick s s' (delivery_confirmed clock do_id by h) w =
    confirm_delivery-IsSold clock pick do_id by s s' h w
Step-IsSold pick s s' (delivery_cancelled do_id by h) w = cancel_delivery-IsSold do_id by s s' h w
Step-IsSold pick s s' (stock_changed t step result) w =
    subst IsSold (sym result) (with_stock s t (Step-IsStocked s.stock t step w.stocked) w)
Step-IsSold pick s s' (books_changed b step result) w =
    subst IsSold (sym result) (with_books s b (Step-IsKept pick s.books b step w.kept) w)

-- Whatever orders and deliveries are made, confirmed and cancelled, in any order and with any calls
-- of the movement service and of the accounting services in between, from tables where this holds:
-- no stock on hand falls below zero and stock_summary is up to date, the books are sound, and what
-- an item of an order has delivered is the sum of its quantities in the confirmed deliveries of the
-- order.
pub Reach-IsSold :
    (pick : List LedgerRow → Option LedgerRow) (s t : Sales) → Reach pick s t → IsSold s → IsSold t
Reach-IsSold pick s t here w = w
Reach-IsSold pick s t (next {t = u} r step) w =
    Step-IsSold pick u t step (Reach-IsSold pick s u r w)
