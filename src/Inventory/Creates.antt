-- ===== src/Inventory/Creates.antt =====
-- What a `create` of a movement does: a draft with its items, which moves no stock.
use backend_erp.Prelude.{
  ℕ, suc, ◌<◌, ◌==◌, ltb, ◌≡◌, refl, ◌∙◌, inl, inr, true, false, Option, none, some, List, [], ◌∷◌,
  ◌++◌, arith, Bool-cases, Option-cases, All, exists_where, subst, map, take_first,
}
use backend_erp.Prelude.Int.{+ℤ_zero}
use backend_erp.Database.{ok, >>=-eq-ok}
use backend_erp.Accounting.Schema.{Clock}
use backend_erp.Inventory.Schema.{Direction, Movement, MovementType, Item, Key, Stock}
use backend_erp.Inventory.OnHand.{direction_of, sum_deltas, summary_of}
use backend_erp.Inventory.Movements.{
  ItemDto, MovementDto, new_movement, new_item, insert_movement, insert_items,
  has_unknown_reference, is_unknown, validate_movement_items, is_empty, create,
}
use backend_erp.Inventory.Requirements.{is_real}

pub validate_movement_items-same :
    (d : Direction) (is : List ItemDto) (s s' : Stock)
    → validate_movement_items d is s ≡ ok (tt, s')
    → s' ≡ s
validate_movement_items-same d [] s s' h = ground arith
validate_movement_items-same d (i ∷ is) s s' h =
    ground (arith, validate_movement_items-same d is s s')

-- the tables after a creation
abbrev pub with_draft : Clock → MovementDto → MovementType → ℕ → Stock → Stock
with_draft clock dto t created_by s =
    insert_items (map (new_item s.next_movement) dto.items)
      (insert_movement (new_movement clock dto t created_by s) s)

pub record Created (clock : Clock) (dto : MovementDto) (created_by : ℕ) (s s' : Stock)
    (t : MovementType) : Type 0 where
  pub valid : validate_movement_items t.direction dto.items s ≡ ok (tt, s)
  pub typed : take_first (λ t. t.code == dto.movement_type_code) s.types ≡ some t
  pub known_references : exists_where (has_unknown_reference s) dto.items ≡ false
  pub result : s' ≡ with_draft clock dto t created_by s

pub create-Created :
    (clock : Clock) (dto : MovementDto) (created_by : ℕ) (s s' : Stock) (m : Movement)
    → create clock dto created_by s ≡ ok (m, s')
    → (t : MovementType) × Created clock dto created_by s s' t
unfolding create
create-Created clock dto created_by s s' m h =
    elim (Option-cases (take_first (λ t. t.code == dto.movement_type_code) s.types)) [
      | inl e ↦ cc (rw e at h)
      | inr (t, e) ↦ elim (Bool-cases (is_empty dto.items)) [
        | inl f ↦ cc (rw f at (rw e at h))
        | inr f ↦
            let (u, c, x, y) =
              >>=-eq-ok (validate_movement_items t.direction dto.items) _ s (rw f at (rw e at h)) in
            let same = validate_movement_items-same t.direction dto.items s c x in
            (
              t,
              record {
                valid = x ∙ (λ i. ok (tt, same i));
                typed = e;
                known_references =
                    subst (λ z. exists_where (has_unknown_reference z) dto.items ≡ false) same
                      (ground (arith, y));
                result =
                    subst (λ z. s' ≡ with_draft clock dto t created_by z) same (ground (arith, y));
              },
            )
      ]
    ]

-- An item of a draft has no direction yet, so it counts for nothing.
abbrev pub Undirected : Stock → List Item → Type 0
Undirected s = All (λ i. direction_of s i.movement_id ≡ none)

pub sum_deltas-Undirected :
    (s : Stock) (k : Key) (xs ys : List Item)
    → Undirected s xs
    → sum_deltas s k (xs ++ ys) ≡ sum_deltas s k ys
sum_deltas-Undirected s k [] ys h = refl
sum_deltas-Undirected s k (x ∷ xs) ys h =
    rw h.0 (+ℤ_zero (sum_deltas s k (xs ++ ys)) ∙ sum_deltas-Undirected s k xs ys h.1)

pub summary_of-Undirected :
    (s : Stock) (xs ys : List Item) → Undirected s xs → summary_of s (xs ++ ys) ≡ summary_of s ys
summary_of-Undirected s [] ys h = refl
summary_of-Undirected s (x ∷ xs) ys h = rw h.0 (summary_of-Undirected s xs ys h.1)

module _ (clock : Clock) (dto : MovementDto) (t : MovementType) (created_by : ℕ) (s : Stock) where
  pub new_items-Undirected :
      (is : List ItemDto)
      → Undirected (with_draft clock dto t created_by s) (map (new_item s.next_movement) is)
  new_items-Undirected [] = tt
  new_items-Undirected (i ∷ is) = (ground arith, new_items-Undirected is)

  pub old_direction :
      (k : ℕ)
      → k < s.next_movement
      → direction_of (with_draft clock dto t created_by s) k ≡ direction_of s k
  old_direction k h = ground arith

pub new_items-known :
    (n : ℕ) (is : List ItemDto) → All (λ i. i.movement_id < suc n) (map (new_item n) is)
new_items-known n [] = tt
new_items-known n (i ∷ is) = (omega arith, new_items-known n is)

pub known_batch :
    (n : ℕ) (batches : List ℕ)
    → All (λ b. ltb 0 b ≡ true) batches
    → exists_where (λ b. b == n) batches ≡ true
    → ltb 0 n ≡ true
known_batch n [] h e = cc
known_batch n (b ∷ bs) h e = ground (arith, known_batch n bs h.1)

known_batch-is_real :
    (batches : List ℕ) (o : Option ℕ)
    → All (λ b. ltb 0 b ≡ true) batches
    → is_unknown batches o ≡ false
    → is_real o ≡ true
known_batch-is_real batches none h e = refl
known_batch-is_real batches (some n) h e = known_batch n batches h (ground arith)

pub new_items-real :
    (n : ℕ) (s : Stock) (is : List ItemDto)
    → All (λ b. ltb 0 b ≡ true) s.batches
    → exists_where (has_unknown_reference s) is ≡ false
    → All (λ i. is_real i.batch_id ≡ true) (map (new_item n) is)
new_items-real n s [] h e = tt
new_items-real n s (i ∷ is) h e = (
  known_batch-is_real s.batches i.batch_id h (ground arith),
  new_items-real n s is h (ground arith),
)
