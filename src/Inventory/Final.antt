-- ===== src/Inventory/Final.antt =====
-- A movement that has been confirmed or cancelled stays as it is.
use backend_erp.Prelude.{
  ℕ, ◌<◌, ◌==◌, ◌≡◌, refl, sym, ◌∙◌, inl, inr, false, some, List, [], ◌∷◌, ◌++◌, map, arith,
  Bool-cases, select_where, update_where, subst,
}
use backend_erp.Inventory.Schema.{Movement, Item, Stock, find_movement}
use backend_erp.Inventory.Movements.{
  ItemDto, new_item, is_draft, items_of, is_open_movement, as_cancelled, cancel,
}
use backend_erp.Inventory.Creates.{create-Created}
use backend_erp.Inventory.Levels.{
  find_movement-id, find_movement-confirmed, find_movement-cancelled,
}
use backend_erp.Inventory.Reach.{
  confirm-Confirmed, Step, Reach, here, next, created, confirmed, cancelled,
}

-- A movement with its items, which has been made and is no draft.
abbrev pub IsFinal : ℕ → Movement → List Item → Stock → Type 0
IsFinal n m is s =
    (find_movement n s.movements ≡ some m)
    × (items_of n s ≡ is)
    × (is_draft m.status ≡ false)
    × (n < s.next_movement)

new_items-other :
    (n k : ℕ) (ds : List ItemDto) (is : List Item)
    → n < k
    → select_where (λ i. i.movement_id == n) (map (new_item k) ds ++ is)
      ≡ select_where (λ i. i.movement_id == n) is
new_items-other n k [] is h = refl
new_items-other n k (d ∷ ds) is h = ground (arith, new_items-other n k ds is h)

Step-IsFinal :
    (n : ℕ) (m : Movement) (is : List Item) (s t : Stock)
    → Step s t
    → IsFinal n m is s
    → IsFinal n m is t
unfolding cancel
Step-IsFinal n m is s t (created clock dto by x h) (found, same, final, lt) =
    let (type, c) = create-Created clock dto by s t x h in
    subst (IsFinal n m is) (sym c.result) (
      ground (arith, found),
      new_items-other n s.next_movement dto.items s.items lt ∙ same,
      final,
      omega arith,
    )
Step-IsFinal n m is s t (confirmed k by h) (found, same, final, lt) =
    let (x, type, c) = confirm-Confirmed k by s t h in
    let id = find_movement-id n s.movements m found in
    let other : (m.id == k) ≡ false = elim (Bool-cases (m.id == k)) [
      | inr e ↦ e
      | inl e ↦
          let key : n ≡ k = ground arith in
          let row : find_movement n s.movements ≡ some x =
            subst (λ z. find_movement z s.movements ≡ some x) (sym key) c.found in
          let row_same : m ≡ x = ground arith in absurd (ground (arith, c.drafted, row_same, final))
    ] in
    subst (IsFinal n m is) (sym c.result)
      (ground (arith, found, other, find_movement-confirmed k n by s.movements), same, final, lt)
Step-IsFinal n m is s t (cancelled k by h) (found, same, final, lt) =
    let after = record s {
      movements = update_where (is_open_movement k) (as_cancelled by) s.movements;
    } in
    let result : t ≡ after = ground arith in
    subst (IsFinal n m is) (sym result)
      (ground (arith, found, final, find_movement-cancelled k n by s.movements), same, final, lt)

-- A movement that has been made and is no draft, so confirmed or cancelled, keeps its row and its
-- items through every sequence of creations, confirmations and cancellations.
pub Reach-IsFinal :
    (n : ℕ) (m : Movement) (is : List Item) (s t : Stock)
    → Reach s t
    → IsFinal n m is s
    → IsFinal n m is t
Reach-IsFinal n m is s t here f = f
Reach-IsFinal n m is s t (next {t = u} r step) f =
    Step-IsFinal n m is u t step (Reach-IsFinal n m is s u r f)
