-- ===== src/Bom/Explosion/Order.antt =====
-- ORDER BY level, sequence: the rows stay the same and come by level, and by sequence in a level.
use backend_erp.Prelude.{
  ℕ, ◌+◌, ◌≤◌, ◌≡◌, refl, inl, inr, true, false, List, [], ◌∷◌, arith, Bool-cases, All, All-map,
  sum_of,
}
use backend_erp.Bom.Schema.{BomItem}
use backend_erp.Bom.Explosion.{is_after, insert_in_order, in_order}

sum_of-insert_in_order :
    (f : BomItem → ℕ) (i : BomItem) (is : List BomItem)
    → sum_of f (insert_in_order i is) ≡ f i + sum_of f is
sum_of-insert_in_order f i [] = refl
sum_of-insert_in_order f i (j ∷ js) = elim (Bool-cases (is_after i j)) [
  | inl e ↦ rw e (omega (arith, sum_of-insert_in_order f i js))
  | inr e ↦ rw e refl
]

pub sum_of-in_order : (f : BomItem → ℕ) (is : List BomItem) → sum_of f (in_order is) ≡ sum_of f is
sum_of-in_order f [] = refl
sum_of-in_order f (i ∷ is) =
    omega (arith, sum_of-insert_in_order f i (in_order is), sum_of-in_order f is)

abbrev pub IsBefore : BomItem → BomItem → Type 0
IsBefore i j = (i.level ≤ j.level) × (i.level ≡ j.level → i.sequence ≤ j.sequence)

abbrev pub IsOrdered : List BomItem → Type 0
IsOrdered [] = Unit
IsOrdered (i ∷ is) = All (IsBefore i) is × IsOrdered is

All-insert_in_order :
    (P : BomItem → Type 0) (i : BomItem) (is : List BomItem)
    → P i
    → All P is
    → All P (insert_in_order i is)
All-insert_in_order P i [] h hs = (h, tt)
All-insert_in_order P i (j ∷ js) h hs = elim (Bool-cases (is_after i j)) [
  | inl e ↦ rw e (hs.0, All-insert_in_order P i js h hs.1)
  | inr e ↦ rw e (h, hs)
]

is_after-IsBefore : (i j : BomItem) → is_after i j ≡ true → IsBefore j i
is_after-IsBefore i j e = (ground (arith, e), λ s. ground (arith, e, s))

not_after-IsBefore : (i j : BomItem) → is_after i j ≡ false → IsBefore i j
not_after-IsBefore i j e = (ground (arith, e), λ s. ground (arith, e, s))

IsBefore-trans : (i j k : BomItem) → IsBefore i j → IsBefore j k → IsBefore i k
IsBefore-trans i j k h l = (omega (arith, h.0, l.0), λ s. ground (arith, s, h.0, l.0, h.1, l.1))

insert_in_order-IsOrdered :
    (i : BomItem) (is : List BomItem) → IsOrdered is → IsOrdered (insert_in_order i is)
insert_in_order-IsOrdered i [] h = (tt, tt)
insert_in_order-IsOrdered i (j ∷ js) h = elim (Bool-cases (is_after i j)) [
  | inl e ↦ rw e (
    All-insert_in_order (IsBefore j) i js (is_after-IsBefore i j e) h.0,
    insert_in_order-IsOrdered i js h.1,
  )
  | inr e ↦
      let before = not_after-IsBefore i j e in
      rw e ((before, All-map _ _ js (λ k l. IsBefore-trans i j k before l) h.0), h)
]

pub in_order-IsOrdered : (is : List BomItem) → IsOrdered (in_order is)
in_order-IsOrdered [] = tt
in_order-IsOrdered (i ∷ is) = insert_in_order-IsOrdered i (in_order is) (in_order-IsOrdered is)
