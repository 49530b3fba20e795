-- ===== src/Inventory/Opnames/Adjusts.antt =====
-- What completing a count does to the stock on hand.
use backend_erp.Prelude.{
  ℕ, suc, ◌<◌, if◌then◌else◌, ◌≡◌, sym, ap, ◌∙◌, Bool, true, some, List, [], ◌∷◌, ◌++◌, arith, All,
  All-map, All-append, subst, map, select_where,
}
use backend_erp.Prelude.Int.{ℤ, pos, ◌+ℤ◌, +ℤ_zero, +ℤ_assoc, int_laws}
use backend_erp.Database.{ok}
use backend_erp.Accounting.Schema.{Clock}
use backend_erp.Inventory.Schema.{Direction, in_, out, MovementType, Item, Key, Stock, find_type}
use backend_erp.Inventory.OnHand.{direction_of, delta, sum_deltas, stock_on_hand, same_key}
use backend_erp.Inventory.Movements.{insert_movement, insert_items}
use backend_erp.Inventory.Adjustments.{
  Difference, is_surplus, is_shortage, key_of, check_shortages, adjustment, item_in, item_out,
  insert_adjustment,
}
use backend_erp.Inventory.Levels.{sum_deltas-same}

pub check_shortages-same :
    (w : ℕ) (ds : List Difference) (s s' : Stock) → check_shortages w ds s ≡ ok (tt, s') → s' ≡ s
check_shortages-same w [] s s' h = ground arith
check_shortages-same w (d ∷ ds) s s' h = ground (arith, check_shortages-same w ds s s')

-- the tables after one adjustment
abbrev adjusted_by :
    Clock → (ℕ → Stock → Difference → Item) → ℕ → ℕ → List Difference → MovementType → Stock → Stock
adjusted_by clock item opname_id by ds t s =
    insert_items (map (item s.next_movement s) ds)
      (insert_movement (adjustment clock t opname_id by s) s)

-- The sum of the differences of a key.
abbrev pub total_difference : ℕ → Key → List Difference → ℤ
total_difference w k [] = pos 0
total_difference w k (d ∷ ds) =
    total_difference w k ds +ℤ (if same_key (key_of w d) k then d.difference else pos 0)

-- Surpluses and shortages make up all differences.
pub total_difference-split :
    (w : ℕ) (k : Key) (ds : List Difference)
    → total_difference w k (select_where is_surplus ds)
        +ℤ total_difference w k (select_where is_shortage ds)
      ≡ total_difference w k ds
total_difference-split w k [] = omega int_laws
total_difference-split w k (d ∷ ds) = grind (int_laws, total_difference-split w k ds)

pub delta-item_in :
    (n w : ℕ) (s : Stock) (k : Key) (d : Difference)
    → is_surplus d ≡ true
    → delta (some in_) k (item_in n w s d)
      ≡ (if same_key (key_of w d) k then d.difference else pos 0)
delta-item_in n w s k d h = grind int_laws

pub delta-item_out :
    (n w : ℕ) (s : Stock) (k : Key) (d : Difference)
    → is_shortage d ≡ true
    → delta (some out) k (item_out n w s d)
      ≡ (if same_key (key_of w d) k then d.difference else pos 0)
delta-item_out n w s k d h = grind int_laws

module _ (w : ℕ) (item : ℕ → Stock → Difference → Item) (d : Direction) (test : Difference → Bool)
    (here : (n : ℕ) (s : Stock) (x : Difference) → (item n s x).movement_id ≡ n)
    (adds : (n : ℕ) (s : Stock) (k : Key) (x : Difference)
      → test x ≡ true
      → delta (some d) k (item n s x)
        ≡ (if same_key (key_of w x) k then x.difference else pos 0)) where
  sum_deltas-items :
      (s t : Stock) (n : ℕ) (k : Key) (ds : List Difference)
      → direction_of t n ≡ some d
      → All (λ x. test x ≡ true) ds
      → sum_deltas t k (map (item n s) ds ++ s.items)
        ≡ sum_deltas t k s.items +ℤ total_difference w k ds
  sum_deltas-items s t n k [] e h = sym (+ℤ_zero (sum_deltas t k s.items))
  sum_deltas-items s t n k (x ∷ ds) e h =
      let rest = sum_deltas-items s t n k ds e h.1 in
      let dir : direction_of t (item n s x).movement_id ≡ some d =
        (λ i. direction_of t (here n s x i)) ∙ e in
      let head : delta (direction_of t (item n s x).movement_id) k (item n s x)
          ≡ (if same_key (key_of w x) k then x.difference else pos 0) =
        (λ i. delta (dir i) k (item n s x)) ∙ adds n s k x h.0 in
      (λ i. rest i +ℤ head i) ∙ +ℤ_assoc _ _ _

  abbrev pub Known : Stock → Type 0
  Known s = All (λ i. i.movement_id < s.next_movement) s.items

  module _ (clock : Clock) (n by : ℕ) where
    new_direction :
        (ds : List Difference) (t : MovementType) (s : Stock)
        → find_type t.id s.types ≡ some t
        → t.direction ≡ d
        → direction_of (adjusted_by clock item n by ds t s) s.next_movement ≡ some d
    new_direction ds t s typed e = ground (arith, typed)

    old_directions :
        (ds : List Difference) (t : MovementType) (s : Stock) (k : ℕ)
        → k < s.next_movement
        → direction_of (adjusted_by clock item n by ds t s) k ≡ direction_of s k
    old_directions ds t s k lt = ground arith

    -- An adjustment adds its differences.
    adjusted_by-levels :
        (ds : List Difference) (t : MovementType) (s : Stock) (k : Key)
        → find_type t.id s.types ≡ some t
        → t.direction ≡ d
        → Known s
        → All (λ x. test x ≡ true) ds
        → stock_on_hand k (adjusted_by clock item n by ds t s)
          ≡ stock_on_hand k s +ℤ total_difference w k ds
    adjusted_by-levels ds t s k typed e known tests =
        let after = adjusted_by clock item n by ds t s in
        let same = All-map _ _ s.items (λ i lt. old_directions ds t s i.movement_id lt) known in
        sum_deltas-items s after s.next_movement k ds (new_direction ds t s typed e) tests
        ∙ ap (λ z. z +ℤ total_difference w k ds) (sum_deltas-same s after k s.items same)

    new_items-Known :
        (m : ℕ) (s : Stock) (ds : List Difference)
        → All (λ i. i.movement_id < suc m) (map (item m s) ds)
    new_items-Known m s [] = tt
    new_items-Known m s (x ∷ ds) = (omega (arith, here m s x), new_items-Known m s ds)

    pub insert_adjustment-levels :
        (ds : List Difference) (t : MovementType) (s s' : Stock)
        → insert_adjustment clock item n by ds (some t) s ≡ ok (tt, s')
        → find_type t.id s.types ≡ some t
        → t.direction ≡ d
        → Known s
        → All (λ x. test x ≡ true) ds
        → ((k : Key) → stock_on_hand k s' ≡ stock_on_hand k s +ℤ total_difference w k ds)
          × (s'.types ≡ s.types)
          × Known s'
    insert_adjustment-levels [] t s s' h typed e known tests =
        let same : s' ≡ s = ground arith in
        (
          λ k. ap (stock_on_hand k) same ∙ sym (+ℤ_zero (stock_on_hand k s)),
          ap (λ z. z.types) same,
          subst (λ z. All (λ i. i.movement_id < z.next_movement) z.items) (sym same) known,
        )
    insert_adjustment-levels (x ∷ ds) t s s' h typed e known tests =
        let after = adjusted_by clock item n by (x ∷ ds) t s in
        let same : s' ≡ after = ground arith in
        (
          λ k. ap (stock_on_hand k) same ∙ adjusted_by-levels (x ∷ ds) t s k typed e known tests,
          ap (λ z. z.types) same,
          subst (λ z. All (λ i. i.movement_id < z.next_movement) z.items) (sym same)
              (All-append _ (map (item s.next_movement s) (x ∷ ds)) s.items
                (new_items-Known s.next_movement s (x ∷ ds))
                (All-map _ _ s.items (λ i lt. omega arith) known)),
        )
