-- ===== src/Inventory/Reach.antt =====
-- Stock over time: every sequence of calls of the movement service.
use backend_erp.Prelude.{
  ℕ, ◌<◌, ◌==◌, ltb, ◌≡◌, refl, sym, ◌∙◌, inl, inr, true, some, arith, Bool-cases, Option-cases,
  All, All-map, All-append, All-select_where, All-intro, subst, map, update_where,
}
use backend_erp.Prelude.Int.{pos, ◌+ℤ◌, ◌≤ℤ◌, int_laws}
use backend_erp.Database.{ok, >>=-eq-ok}
use backend_erp.Accounting.Schema.{Clock}
use backend_erp.Inventory.Schema.{
  Direction, in_, out, transfer, Movement, MovementType, Key, Stock, find_movement, find_type,
}
use backend_erp.Inventory.OnHand.{stock_on_hand, summary_of, refresh_stock_summary}
use backend_erp.Inventory.Movements.{
  MovementDto, new_item, create, items_of, is_draft, requirements_of, check_stock, set_confirmed,
  confirm, is_open_movement, as_cancelled, cancel,
}
use backend_erp.Inventory.Requirements.{is_real, check_requirements-All}
use backend_erp.Inventory.Covered.{taken-covered}
use backend_erp.Inventory.Creates.{
  create-Created, with_draft, sum_deltas-Undirected, summary_of-Undirected, new_items-Undirected,
  old_direction, new_items-known, new_items-real,
}
use backend_erp.Inventory.Levels.{
  sum_deltas-same, summary_of-same, sum_of_direction, sum_deltas-confirmed, sum_of_direction-in_,
  direction_of-cancelled,
}

pub record IsStocked (s : Stock) : Type 0 where
  pub levels : (k : Key) → is_real k.batch_id ≡ true → pos 0 ≤ℤ stock_on_hand k s
  pub current : s.summary ≡ summary_of s s.items
  pub known : All (λ i. i.movement_id < s.next_movement) s.items
  pub real : All (λ i. is_real i.batch_id ≡ true) s.items
  pub real_batches : All (λ n. ltb 0 n ≡ true) s.batches

-- A confirmation that succeeds.
pub record Confirmed (n by : ℕ) (s s' : Stock) (m : Movement) (t : MovementType) : Type 0 where
  pub found : find_movement n s.movements ≡ some m
  pub typed : find_type m.movement_type_id s.types ≡ some t
  pub drafted : is_draft m.status ≡ true
  pub checked : check_stock t.direction n s ≡ ok (tt, s)
  pub result : s' ≡ refresh_stock_summary (set_confirmed n by s)

check_stock-same : (d : Direction) (n : ℕ) (s s' : Stock) → check_stock d n s ≡ ok (tt, s') → s' ≡ s
check_stock-same in_ n s s' h = ground arith
check_stock-same out n s s' h = (check_requirements-All (requirements_of (items_of n s)) s s' h).0
check_stock-same transfer n s s' h =
    (check_requirements-All (requirements_of (items_of n s)) s s' h).0

pub confirm-Confirmed :
    (n by : ℕ) (s s' : Stock)
    → confirm n by s ≡ ok (tt, s')
    → (m : Movement) × (t : MovementType) × Confirmed n by s s' m t
unfolding confirm
confirm-Confirmed n by s s' h = elim (Option-cases (find_movement n s.movements)) [
  | inl e ↦ cc (rw e at h)
  | inr (m, e) ↦ elim (Option-cases (find_type m.movement_type_id s.types)) [
    | inl f ↦ cc (rw f at (rw e at h))
    | inr (t, f) ↦ elim (Bool-cases (is_draft m.status)) [
      | inr g ↦ cc (rw g at (rw f at (rw e at h)))
      | inl g ↦
          let k = rw g at (rw f at (rw e at h)) in
          let (u, c, x, y) = >>=-eq-ok (check_stock t.direction n) _ s k in
          let same = check_stock-same t.direction n s c x in
          (
            m,
            t,
            record {
              found = e;
              typed = f;
              drafted = g;
              checked = x ∙ (λ i. ok (tt, same i));
              result =
                  subst (λ z. s' ≡ refresh_stock_summary (set_confirmed n by z)) same
                    (ground (arith, y));
            },
          )
    ]
  ]
]

checked-levels :
    (d : Direction) (n : ℕ) (s : Stock) (k : Key)
    → is_real k.batch_id ≡ true
    → All (λ i. is_real i.batch_id ≡ true) s.items
    → check_stock d n s ≡ ok (tt, s)
    → pos 0 ≤ℤ stock_on_hand k s
    → pos 0 ≤ℤ stock_on_hand k s +ℤ sum_of_direction d k (items_of n s)
checked-levels in_ n s k real reals h level =
    omega (int_laws, sum_of_direction-in_ k (items_of n s))
checked-levels out n s k real reals h level =
    taken-covered out (items_of n s) s k real
      (All-select_where _ (λ i. i.movement_id == n) s.items reals) h level
checked-levels transfer n s k real reals h level =
    taken-covered transfer (items_of n s) s k real
      (All-select_where _ (λ i. i.movement_id == n) s.items reals) h level

confirm-IsStocked :
    (n by : ℕ) (s s' : Stock) → confirm n by s ≡ ok (tt, s') → IsStocked s → IsStocked s'
confirm-IsStocked n by s s' h w =
    let (m, t, c) = confirm-Confirmed n by s s' h in
    subst IsStocked (sym c.result) (record {
      levels = λ k real.
          subst (λ z. pos 0 ≤ℤ z)
            (sym (sum_deltas-confirmed n by m t s c.found c.typed c.drafted k s.items))
            (checked-levels t.direction n s k real w.real c.checked (w.levels k real));
      current = refl;
      known = w.known;
      real = w.real;
      real_batches = w.real_batches;
    })

cancel-IsStocked :
    (n by : ℕ) (s s' : Stock) → cancel n by s ≡ ok (tt, s') → IsStocked s → IsStocked s'
unfolding cancel
cancel-IsStocked n by s s' h w =
    let after = record s {
      movements = update_where (is_open_movement n) (as_cancelled by) s.movements;
    } in
    let result : s' ≡ after = ground arith in
    let same = All-intro _ s.items (λ i. direction_of-cancelled n by i.movement_id s) in
    subst IsStocked (sym result) (record {
      levels = λ k real.
          subst (λ z. pos 0 ≤ℤ z) (sym (sum_deltas-same s after k s.items same)) (w.levels k real);
      current = w.current ∙ sym (summary_of-same s after s.items same);
      known = w.known;
      real = w.real;
      real_batches = w.real_batches;
    })

create-IsStocked :
    (clock : Clock) (dto : MovementDto) (created_by : ℕ) (s s' : Stock) (m : Movement)
    → create clock dto created_by s ≡ ok (m, s')
    → IsStocked s
    → IsStocked s'
create-IsStocked clock dto created_by s s' m h w =
    let (t, c) = create-Created clock dto created_by s s' m h in
    let after = with_draft clock dto t created_by s in
    let new = map (new_item s.next_movement) dto.items in
    let drafts = new_items-Undirected clock dto t created_by s dto.items in
    let same =
      All-map _ _ s.items (λ i lt. old_direction clock dto t created_by s i.movement_id lt)
        w.known in
    subst IsStocked (sym c.result) (record {
      levels = λ k real.
          subst (λ z. pos 0 ≤ℤ z)
            (sym (
              sum_deltas-Undirected after k new s.items drafts
              ∙ sum_deltas-same s after k s.items same))
            (w.levels k real);
      current =
          w.current
          ∙ sym (
              summary_of-Undirected after new s.items drafts
              ∙ summary_of-same s after s.items same);
      known =
          All-append _ new s.items (new_items-known s.next_movement dto.items)
            (All-map _ _ s.items (λ i lt. omega arith) w.known);
      real =
          All-append _ new s.items
            (new_items-real s.next_movement s dto.items w.real_batches c.known_references) w.real;
      real_batches = w.real_batches;
    })

-- One call of the movement service that commits.
pub data Step (s s' : Stock) : Type 0 where
  created :
      (clock : Clock) (dto : MovementDto) (created_by : ℕ) (m : Movement)
      → create clock dto created_by s ≡ ok (m, s')
      → Step s s'
  confirmed : (movement_id by : ℕ) → confirm movement_id by s ≡ ok (tt, s') → Step s s'
  cancelled : (movement_id by : ℕ) → cancel movement_id by s ≡ ok (tt, s') → Step s s'

pub data Reach (s : Stock) : Stock → Type 0 where
  here : Reach s s
  next : {t u : Stock} → Reach s t → Step t u → Reach s u

pub Step-IsStocked : (s s' : Stock) → Step s s' → IsStocked s → IsStocked s'
Step-IsStocked s s' (created clock dto created_by m h) w =
    create-IsStocked clock dto created_by s s' m h w
Step-IsStocked s s' (confirmed movement_id by h) w = confirm-IsStocked movement_id by s s' h w
Step-IsStocked s s' (cancelled movement_id by h) w = cancel-IsStocked movement_id by s s' h w

-- Whatever movements are created, confirmed and cancelled, in any order, from a stock where this
-- holds: no stock on hand falls below zero, for any variant, warehouse and real batch, the view
-- stock_summary is up to date, and every item belongs to a movement that has been made and names no
-- batch or a real one.
pub Reach-IsStocked : (s t : Stock) → Reach s t → IsStocked s → IsStocked t
Reach-IsStocked s t here w = w
Reach-IsStocked s t (next {t = u} r step) w = Step-IsStocked u t step (Reach-IsStocked s u r w)
