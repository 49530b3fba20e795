-- ===== src/Sales/Schema.antt =====
-- The tables of sales (src/database/migrations/tenant/005_create_sales_order.sql and
-- src/types/database.types.ts), the demands that orders make, and the masters that they refer to,
-- with the stock and the books that deliveries change. The newest row is the first.
--
-- Quantities and amounts count ten-thousandths, percentages hundredths. Storage locations are left
-- out. Numbers of documents are unique since a counter gives them.
use backend_erp.Prelude.{ℕ, ◌==◌, Bool, true, false, Option, List, take_first}
use backend_erp.Prelude.Int.{ℤ, pos, ◌-ℤ◌}
use backend_erp.Database.{Action, ok, err}
use backend_erp.Accounting.Schema.{DocumentNumber, Books}
use backend_erp.Inventory.Schema.{Stock}

pub data OrderStatus : Type 0 where
  draft confirmed partial delivered invoiced cancelled : OrderStatus

pub data QuotationStatus : Type 0 where
  draft sent accepted rejected expired cancelled : QuotationStatus

pub data DeliveryStatus : Type 0 where
  draft confirmed cancelled : DeliveryStatus

pub data DemandStatus : Type 0 where
  opened planned fulfilled cancelled : DemandStatus

pub data DemandType : Type 0 where
  sales_order forecast safety_stock : DemandType

pub record Customer : Type 0 where
  pub id : ℕ
  pub is_active : Bool
  pub payment_term : ℕ

pub record Quotation : Type 0 where
  pub id : ℕ
  pub status : QuotationStatus
  pub customer_id : ℕ

pub record Order : Type 0 where
  pub id : ℕ
  pub number : DocumentNumber
  pub customer_id : ℕ
  pub quotation_id : Option ℕ
  pub warehouse_id : ℕ
  pub order_date : ℕ
  pub requested_date : Option ℕ
  pub status : OrderStatus
  pub subtotal : ℕ
  pub tax_amount : ℕ
  pub discount_amount : ℕ
  pub total_amount : ℕ
  pub payment_term_days : ℕ
  pub created_by : ℕ
  pub confirmed_by : Option ℕ
  pub cancelled_by : Option ℕ

pub record OrderItem : Type 0 where
  pub id : ℕ
  pub so_id : ℕ
  pub variant_id : ℕ
  pub quotation_item_id : Option ℕ
  pub quantity : ℕ
  pub uom_id : ℕ
  pub unit_price : ℕ
  pub discount_pct : ℕ
  pub tax_pct : ℕ
  pub subtotal : ℕ
  pub quantity_delivered : ℕ

pub record Delivery : Type 0 where
  pub id : ℕ
  pub number : DocumentNumber
  pub so_id : ℕ
  pub warehouse_id : ℕ
  pub delivery_date : ℕ
  pub status : DeliveryStatus
  pub inventory_movement_id : Option ℕ
  pub created_by : ℕ
  pub confirmed_by : Option ℕ
  pub cancelled_by : Option ℕ

pub record DeliveryItem : Type 0 where
  pub do_id : ℕ
  pub so_item_id : ℕ
  pub variant_id : ℕ
  pub batch_id : Option ℕ
  pub quantity_delivered : ℕ
  pub uom_id : ℕ

pub record Demand : Type 0 where
  pub id : ℕ
  pub variant_id : ℕ
  pub demand_type : DemandType
  pub so_id : Option ℕ
  pub so_item_id : Option ℕ
  pub quantity : ℕ
  pub uom_id : ℕ
  pub needed_date : ℕ
  pub warehouse_id : ℕ
  pub status : DemandStatus
  pub created_by : ℕ

-- Of a product variant what sales reads besides: whether its product is manufactured, and its cost.
pub record CatalogRow : Type 0 where
  pub variant_id : ℕ
  pub can_be_manufactured : Bool
  pub cost_price : Option ℕ

-- a row of available_stock
pub record AvailableRow : Type 0 where
  pub variant_id : ℕ
  pub warehouse_id : ℕ
  pub batch_id : Option ℕ
  pub quantity_available : ℤ

-- `available` is the contents of the materialized view, as of its last refresh.
pub record Sales : Type 0 where
  pub stock : Stock
  pub books : Books
  pub customers : List Customer
  pub quotations : List Quotation
  pub quotation_items : List ℕ
  pub catalog : List CatalogRow
  pub orders : List Order
  pub order_items : List OrderItem
  pub deliveries : List Delivery
  pub delivery_items : List DeliveryItem
  pub demands : List Demand
  pub available : List AvailableRow
  pub next_order : ℕ
  pub next_order_item : ℕ
  pub next_delivery : ℕ
  pub next_demand : ℕ

-- Code of the inventory and accounting services, run on their tables.
abbrev pub in_stock : {A : Type 0} → Action Stock A → Action Sales A
in_stock m s = elim (m s.stock) [ ok r ↦ ok (r.0, record s { stock = r.1 }) | err e ↦ err e ]

abbrev pub in_books : {A : Type 0} → Action Books A → Action Sales A
in_books m s = elim (m s.books) [ ok r ↦ ok (r.0, record s { books = r.1 }) | err e ↦ err e ]

abbrev pub find_order : ℕ → List Order → Option Order
find_order so_id = take_first (λ o. o.id == so_id)

abbrev pub find_delivery : ℕ → List Delivery → Option Delivery
find_delivery do_id = take_first (λ d. d.id == do_id)

-- The generated column quantity_pending.
abbrev pub pending : OrderItem → ℤ
pending i = pos i.quantity -ℤ pos i.quantity_delivered

-- `status IN ('confirmed', 'partial')`
abbrev pub is_deliverable : OrderStatus → Bool
is_deliverable OrderStatus.confirmed = true
is_deliverable OrderStatus.partial = true
is_deliverable _ = false
