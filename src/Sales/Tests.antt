-- ===== src/Sales/Tests.antt =====
-- An order of four pieces that is delivered, and the theorems applied to it.
use backend_erp.Prelude.{◌+◌, ◌*◌, ◌≡◌, ◌≢◌, refl, true, Option, none, some, List, [], ◌∷◌, arith}
use backend_erp.Prelude.Int.{pos, ◌+ℤ◌, ◌-ℤ◌, int_laws}
use backend_erp.Database.{Result, ok, err, as_numbers, as_strings}
use backend_erp.Accounting.Schema.{
  Clock, ms_per_day, YearStatus, PeriodStatus, asset, cost_of_goods, cogs, inventory_finished,
  Books, LedgerRow, so, do_,
}
use backend_erp.Accounting.Numbering.{generate}
use backend_erp.Accounting.Journal.Entry.{create}
use backend_erp.Accounting.Journal.Posting.{post, post_lines, post_line}
use backend_erp.Accounting.Journal.Reversal.{auto_post, post_new}
use backend_erp.Accounting.Period.{get_active_period_for_date}
use backend_erp.Accounting.Kept.{IsKept}
use backend_erp.Inventory.Schema.{in_, out, MovementStatus, MovementType, Key, Stock}
use backend_erp.Inventory.OnHand.{stock_on_hand, refresh_stock_summary}
use backend_erp.Inventory.Reach.{IsStocked}
use backend_erp.Sales.Schema.{Order, OrderStatus, Delivery, DeliveryStatus, Sales}
use backend_erp.Sales.Totals.{calculate_totals, calc_line_subtotal}
use backend_erp.Sales.Orders.{OrderDto, create_order, confirm_order}
use backend_erp.Sales.Deliveries.{DeliveryDto, create_delivery}
use backend_erp.Sales.Shipments.{items_of_delivery, confirm_delivery}
use backend_erp.Sales.Bounds.{IsWithin, calculate_totals-IsWithin}
use backend_erp.Sales.Sold.{IsSold}
use backend_erp.Sales.Reach.{
  Reach, here, next, order_created, order_confirmed, delivery_created, delivery_confirmed,
  Reach-IsSold,
}
use backend_erp.Sales.Takes.{quantity_at, confirm_delivery-takes}
use backend_erp.Sales.Refusals.{create_delivery_refused}

abbrev clock : Clock
clock = record { now = 20 * ms_per_day; year = 2026 }

abbrev head_of : List LedgerRow → Option LedgerRow
head_of [] = none
head_of (r ∷ _) = some r

abbrev books : Books
books = record {
  fiscal_years = record { id = 1; start_date = 0; end_date = 364; status = YearStatus.opened } ∷ [];
  periods =
      record {
        id = 1;
        fiscal_year_id = 1;
        period_number = 1;
        start_date = 0;
        end_date = 30;
        status = PeriodStatus.opened;
      }
      ∷ [];
  accounts =
      record { id = 1; account_type = cost_of_goods; system_account = some cogs; is_active = true }
      ∷ record {
        id = 2;
        account_type = asset;
        system_account = some inventory_finished;
        is_active = true;
      }
      ∷ [];
  journals = [];
  lines = [];
  ledger = [];
  balances = [];
  counters = [];
  next_year = 2;
  next_period = 2;
  next_journal = 1;
  next_line = 1;
}

abbrev type_out : MovementType
type_out = record { id = 2; code = 5; direction = out }

-- ten pieces have come in
abbrev stock : Stock
stock = refresh_stock_summary (record {
  types = record { id = 1; code = 1; direction = in_ } ∷ type_out ∷ [];
  variants = record { id = 11; is_active = true; base_uom_id = 1 } ∷ [];
  uoms = 1 ∷ [];
  warehouses = record { id = 1; is_active = true } ∷ [];
  batches = [];
  movements =
      record {
        id = 1;
        movement_type_id = 1;
        reference_type = none;
        reference_id = none;
        movement_date = 3;
        status = MovementStatus.confirmed;
        created_by = 1;
        confirmed_by = some 1;
        cancelled_by = none;
      }
      ∷ [];
  items =
      record {
        movement_id = 1;
        variant_id = 11;
        batch_id = none;
        from_warehouse_id = none;
        to_warehouse_id = some 1;
        quantity = 100000;
        uom_id = 1;
        unit_cost = 25000;
      }
      ∷ [];
  summary = [];
  opnames = [];
  opname_items = [];
  next_movement = 2;
  next_opname = 1;
  next_opname_item = 1;
})

abbrev start : Sales
start = record {
  stock = stock;
  books = books;
  customers = record { id = 7; is_active = true; payment_term = 30 } ∷ [];
  quotations = [];
  quotation_items = [];
  catalog = record { variant_id = 11; can_be_manufactured = true; cost_price = some 25000 } ∷ [];
  orders = [];
  order_items = [];
  deliveries = [];
  delivery_items = [];
  demands = [];
  available = [];
  next_order = 1;
  next_order_item = 1;
  next_delivery = 1;
  next_demand = 1;
}

abbrev four_pieces : OrderDto
four_pieces = record {
  customer_id = 7;
  warehouse_id = 1;
  quotation_id = none;
  requested_date = none;
  payment_term_days = none;
  items =
      record {
        variant_id = 11;
        quantity = 40000;
        uom_id = 1;
        unit_price = 99900;
        discount_pct = some 500;
        tax_pct = some 1100;
        quotation_item_id = none;
      }
      ∷ [];
}

abbrev all_four : DeliveryDto
all_four = record {
  so_id = 1;
  delivery_date = none;
  items =
      record {
        so_item_id = 1;
        variant_id = 11;
        quantity_delivered = 40000;
        uom_id = 1;
        batch_id = none;
      }
      ∷ [];
}

abbrev after : {A : Type 0} → Sales → Result (A × Sales) → Sales
after s (ok r) = r.1
after s (err _) = s

abbrev ordered : Sales
ordered = after start (create_order as_numbers clock four_pieces 1 start)

abbrev approved : Sales
approved = after ordered (confirm_order clock 1 1 ordered)

abbrev planned : Sales
planned = after approved (create_delivery as_numbers clock all_four 1 approved)

abbrev shipped : Sales
shipped = after planned (confirm_delivery clock head_of 1 1 planned)

abbrev the_order : Order
the_order = record {
  id = 1;
  number = record { doc_type = so; year = 2026; counter = 1 };
  customer_id = 7;
  quotation_id = none;
  warehouse_id = 1;
  order_date = 20;
  requested_date = none;
  status = OrderStatus.draft;
  subtotal = 379600;
  tax_amount = 41800;
  discount_amount = 20000;
  total_amount = 421400;
  payment_term_days = 30;
  created_by = 1;
  confirmed_by = none;
  cancelled_by = none;
}

order_was_created : create_order as_numbers clock four_pieces 1 start ≡ ok (the_order, ordered)
unfolding create_order calculate_totals calc_line_subtotal generate
order_was_created = refl

order_was_confirmed : confirm_order clock 1 1 ordered ≡ ok (tt, approved)
unfolding create_order confirm_order calculate_totals calc_line_subtotal generate
order_was_confirmed = refl

abbrev the_delivery : Delivery
the_delivery = record {
  id = 1;
  number = record { doc_type = do_; year = 2026; counter = 1 };
  so_id = 1;
  warehouse_id = 1;
  delivery_date = 20;
  status = DeliveryStatus.draft;
  inventory_movement_id = none;
  created_by = 1;
  confirmed_by = none;
  cancelled_by = none;
}

delivery_was_created :
    create_delivery as_numbers clock all_four 1 approved ≡ ok (the_delivery, planned)
unfolding create_order confirm_order create_delivery calculate_totals calc_line_subtotal generate
    ◌-ℤ◌ ◌+ℤ◌
delivery_was_created = refl

delivery_was_confirmed : confirm_delivery clock head_of 1 1 planned ≡ ok (tt, shipped)
unfolding create_order confirm_order create_delivery confirm_delivery calculate_totals
    calc_line_subtotal generate auto_post post_new create get_active_period_for_date post post_lines
    post_line ◌-ℤ◌ ◌+ℤ◌
delivery_was_confirmed = refl

stock-IsStocked : IsStocked stock
stock-IsStocked = record {
  levels = λ k real. grind int_laws;
  current = refl;
  known = (omega arith, tt);
  real = (refl, tt);
  real_batches = tt;
}

books-IsKept : IsKept books
books-IsKept = record {
  calendar = record { dated = (omega arith, tt); apart = (tt, tt); in_open_year = (λ _. refl, tt) };
  drafts_open = tt;
  sound = record { totals = tt; known_journals = tt; known_lines = tt; trial = λ p. refl };
}

start-IsSold : IsSold start
start-IsSold = record {
  stocked = stock-IsStocked;
  kept = books-IsKept;
  delivered = tt;
  real = tt;
  known_items = tt;
  known_deliveries = tt;
  known_order_items = tt;
}

planned-Reach : Reach head_of start planned
planned-Reach =
    next
      (next (next here (order_created as_numbers clock four_pieces 1 the_order order_was_created))
        (order_confirmed clock 1 1 order_was_confirmed))
      (delivery_created as_numbers clock all_four 1 the_delivery delivery_was_created)

Reach-IsSold_example : IsSold shipped
Reach-IsSold_example =
    Reach-IsSold head_of start shipped
      (next planned-Reach (delivery_confirmed clock 1 1 delivery_was_confirmed)) start-IsSold

planned-IsSold : IsSold planned
planned-IsSold = Reach-IsSold head_of start planned planned-Reach start-IsSold

abbrev pieces : Key
pieces = record { variant_id = 11; warehouse_id = 1; batch_id = none }

confirm_delivery-takes_example :
    stock_on_hand pieces shipped.stock +ℤ pos (quantity_at pieces 1 (items_of_delivery 1 planned))
    ≡ stock_on_hand pieces planned.stock
unfolding create_order confirm_order create_delivery calculate_totals calc_line_subtotal generate
    ◌-ℤ◌ ◌+ℤ◌
confirm_delivery-takes_example =
    confirm_delivery-takes clock head_of 1 1 planned shipped the_delivery type_out pieces
      planned-IsSold delivery_was_confirmed refl refl refl refl

calculate_totals-IsWithin_example :
    IsWithin 100 421400 (379600 + 41800) × IsWithin 200 (2 * 421400) (2 * 421400)
unfolding calculate_totals calc_line_subtotal
calculate_totals-IsWithin_example =
    calculate_totals-IsWithin
      (record { quantity = 40000; unit_price = 99900; discount_pct = 500; tax_pct = 1100 } ∷ [])

create_delivery_refused_example :
    create_delivery as_strings clock all_four 1 approved ≢ ok (the_delivery, planned)
create_delivery_refused_example =
    create_delivery_refused clock all_four 1 the_delivery approved planned
