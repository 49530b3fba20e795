-- ===== src/Inventory/Opnames/Completes.antt =====
-- Completing a count: it adds the differences to the stock, and it cannot record surpluses and
-- shortages at once.
use backend_erp.Prelude.{
  ℕ, ◌<◌, ◌==◌, ◌≡◌, refl, ap, ◌∙◌, ◌⊎◌, inl, inr, Bool, true, Option, some, List, [], ◌∷◌, arith,
  Bool-cases, Option-cases, All, subst, select_where, take_first,
}
use backend_erp.Prelude.Int.{◌+ℤ◌, +ℤ_assoc}
use backend_erp.Database.{Action, ok, ◌>>◌, >>=-eq-ok}
use backend_erp.Accounting.Schema.{Clock}
use backend_erp.Inventory.Schema.{in_, out, MovementType, Key, Opname, Stock, find_type}
use backend_erp.Inventory.OnHand.{stock_on_hand, refresh_stock_summary}
use backend_erp.Inventory.Adjustments.{
  Difference, is_surplus, is_shortage, check_shortages, adjustment_in, adjustment_out, item_in,
  item_out, insert_adjustment, create_adjustment_movements,
}
use backend_erp.Inventory.Issues.{find_code}
use backend_erp.Inventory.Opnames.{
  CountDto, differences_of, set_counts, set_completed, find_opname, adjust_and_complete, complete,
}
use backend_erp.Inventory.Opnames.Adjusts.{
  check_shortages-same, total_difference, total_difference-split, delta-item_in, delta-item_out,
  insert_adjustment-levels,
}

-- All rows that a test selects pass it.
All-selected :
    (test : Difference → Bool) (ds : List Difference)
    → All (λ x. test x ≡ true) (select_where test ds)
All-selected test [] = tt
All-selected test (d ∷ ds) = elim (Bool-cases (test d)) [
  | inl e ↦ rw e (e, All-selected test ds)
  | inr e ↦ rw e (All-selected test ds)
]

module _ (clock : Clock) (n by : ℕ) (counts : List CountDto) (s s' : Stock) (ti to : MovementType)
    (type_in : find_code adjustment_in s ≡ some ti)
    (type_out : find_code adjustment_out s ≡ some to) where
  -- A completion that succeeds: the count is open, and the two adjustments are made.
  record Completed (o : Opname) (t u : Stock) : Type 0 where
    found : find_opname n s.opnames ≡ some o
    surpluses :
        insert_adjustment clock
          (λ m. item_in m o.warehouse_id)
          n
          by
          (select_where is_surplus (differences_of n (set_counts n counts s)))
          (some ti)
          (set_counts n counts s)
        ≡ ok (tt, t)
    shortages :
        insert_adjustment clock
          (λ m. item_out m o.warehouse_id)
          n
          by
          (select_where is_shortage (differences_of n (set_counts n counts s)))
          (some to)
          t
        ≡ ok (tt, u)
    result : s' ≡ refresh_stock_summary (set_completed n by u)

  adjustments-Completed :
      (w : ℕ) (ds : List Difference) (c u : Stock)
      → c.types ≡ s.types
      → create_adjustment_movements clock w n ds by c ≡ ok (tt, u)
      → (t : Stock) × (insert_adjustment clock
            (λ m. item_in m w)
            n
            by
            (select_where is_surplus ds)
            (some ti)
            c
          ≡ ok (tt, t))
        × (insert_adjustment clock
              (λ m. item_out m w)
              n
              by
              (select_where is_shortage ds)
              (some to)
              t
            ≡ ok (tt, u))
  adjustments-Completed w ds c u types h =
      let (x, d, e, k) = >>=-eq-ok (check_shortages w (select_where is_shortage ds)) _ c h in
      let same = check_shortages-same w (select_where is_shortage ds) c d e in
      let ins : Option MovementType → Action Stock (Unit {0}) =
        insert_adjustment clock (λ m. item_in m w) n by (select_where is_surplus ds) in
      let outs : Option MovementType → Action Stock (Unit {0}) =
        insert_adjustment clock (λ m. item_out m w) n by (select_where is_shortage ds) in
      let code_in : find_code adjustment_in c ≡ some ti =
        (λ i. take_first (λ z. z.code == adjustment_in) (types i)) ∙ type_in in
      let code_out : find_code adjustment_out c ≡ some to =
        (λ i. take_first (λ z. z.code == adjustment_out) (types i)) ∙ type_out in
      let k1 =
        subst
          (λ z.
            (ins (find_code adjustment_in z) >> outs (find_code adjustment_out z)) z ≡ ok (tt, u))
          same k in
      let k2 =
        subst (λ z. (ins z >> outs (find_code adjustment_out c)) c ≡ ok (tt, u)) code_in k1 in
      let k3 = subst (λ z. (ins (some ti) >> outs z) c ≡ ok (tt, u)) code_out k2 in
      let (y, t, first, second) = >>=-eq-ok (ins (some ti)) _ c k3 in (t, first, second)

  complete-checks :
      complete clock n counts by s ≡ ok (tt, s')
      → (o : Opname) × (find_opname n s.opnames ≡ some o)
        × (adjust_and_complete clock o.warehouse_id n counts by s ≡ ok (tt, s'))
  unfolding complete
  complete-checks h = elim (Option-cases (find_opname n s.opnames)) [
    | inl e ↦ cc (rw e at h)
    | inr (o, e) ↦ (o, e, ground (arith, e))
  ]

  complete-Completed :
      complete clock n counts by s ≡ ok (tt, s')
      → (o : Opname) × (t : Stock) × (u : Stock) × Completed o t u
  unfolding adjust_and_complete
  complete-Completed h =
      let (o, e, later) = complete-checks h in
      let c = set_counts n counts s in
      let (x, u, k, rest) =
        >>=-eq-ok (create_adjustment_movements clock o.warehouse_id n (differences_of n c) by) _ c
          later in
      let (t, first, second) =
        adjustments-Completed o.warehouse_id (differences_of n c) c u refl k in
      (
        o,
        t,
        u,
        record { found = e; surpluses = first; shortages = second; result = ground (arith, rest) },
      )

  -- Completing a count adds to the stock on hand of every key the differences that the counts of its
  -- rows show, if both types of adjustment exist with the directions of their names and every item
  -- belongs to a movement that has been made.
  pub complete-adjusts :
      (k : Key)
      → complete clock n counts by s ≡ ok (tt, s')
      → find_type ti.id s.types ≡ some ti
      → find_type to.id s.types ≡ some to
      → ti.direction ≡ in_
      → to.direction ≡ out
      → All (λ i. i.movement_id < s.next_movement) s.items
      → (o : Opname) × (find_opname n s.opnames ≡ some o)
        × (stock_on_hand k s'
            ≡ stock_on_hand k s
              +ℤ total_difference o.warehouse_id k (differences_of n (set_counts n counts s)))
  complete-adjusts k h typed_in typed_out dir_in dir_out known =
      let (o, t, u, c) = complete-Completed h in
      let w = o.warehouse_id in
      let ds = differences_of n (set_counts n counts s) in
      let (level, types, known') =
        insert_adjustment-levels w (λ m. item_in m w) in_ is_surplus (λ m x d. refl)
          (λ m x j d. delta-item_in m w x j d) clock n by (select_where is_surplus ds) ti
          (set_counts n counts s) t c.surpluses typed_in dir_in known
          (All-selected is_surplus ds) in
      let typed : find_type to.id t.types ≡ some to =
        (λ i. find_type to.id (types i)) ∙ typed_out in
      let (level', types', known'') =
        insert_adjustment-levels w (λ m. item_out m w) out is_shortage (λ m x d. refl)
          (λ m x j d. delta-item_out m w x j d) clock n by (select_where is_shortage ds) to t u
          c.shortages typed dir_out known' (All-selected is_shortage ds) in
      (
        o,
        c.found,
        ap (stock_on_hand k) c.result
            ∙ level' k
            ∙ ap (λ z. z +ℤ total_difference w k (select_where is_shortage ds)) (level k)
            ∙ +ℤ_assoc _ _ _
            ∙ ap (λ z. stock_on_hand k s +ℤ z) (total_difference-split w k ds),
      )

  -- If both types of adjustment exist, a count that is completed has no surplus or has no shortage:
  -- with both, the second adjustment would bear the same reference, which the unique index forbids.
  pub complete_mixed :
      complete clock n counts by s ≡ ok (tt, s')
      → (select_where is_surplus (differences_of n (set_counts n counts s)) ≡ [])
        ⊎ (select_where is_shortage (differences_of n (set_counts n counts s)) ≡ [])
  complete_mixed h =
      let (o, t, u, c) = complete-Completed h in
      let ds = differences_of n (set_counts n counts s) in
      go o.warehouse_id (select_where is_surplus ds) (select_where is_shortage ds) t u c.surpluses
        c.shortages
    where
      go :
          (w : ℕ) (xs ys : List Difference) (t u : Stock)
          → insert_adjustment clock (λ m. item_in m w) n by xs (some ti) (set_counts n counts s)
            ≡ ok (tt, t)
          → insert_adjustment clock (λ m. item_out m w) n by ys (some to) t ≡ ok (tt, u)
          → (xs ≡ []) ⊎ (ys ≡ [])
      go w [] ys t u e f = inl refl
      go w (x ∷ xs) [] t u e f = inr refl
      go w (x ∷ xs) (y ∷ ys) t u e f = absurd (ground arith)
