-- ===== src/Bom/Changes.antt =====
-- What the changes of items keep: the trees, and the items of other versions.
use backend_erp.Prelude.{
  ℕ, ◌<◌, ◌==◌, if◌then◌else◌, ◌≡◌, refl, sym, inl, inr, subst, Bool, true, false, not, ◌&&◌,
  Option, none, some, List, [], ◌∷◌, arith, Bool-cases, All, All-map, All-take_first,
  All-select_where, select_where, update_where, exists_where, exists_where-All,
}
use backend_erp.Bom.Schema.{BomItem, find_item}
use backend_erp.Bom.Items.{UpdateItemDto, with_updates, is_child_of, is_left_behind}
use backend_erp.Bom.Forest.{HasParent, IsForest, find_item-id}

module _ (n : ℕ) (dto : UpdateItemDto) where
  abbrev pub updated : List BomItem → List BomItem
  updated xs = update_where (λ i. i.id == n) (with_updates dto) xs

  abbrev pub updated_item : BomItem → BomItem
  updated_item x = if x.id == n then with_updates dto x else x

  find_item-updated :
      (p : ℕ) (xs : List BomItem) (x : BomItem)
      → find_item p xs ≡ some x
      → find_item p (updated xs) ≡ some (updated_item x)
  find_item-updated p [] x h = cc
  find_item-updated p (y ∷ ys) x h = elim (Bool-cases (y.id == p)) [
    | inl e ↦
        let same : y ≡ x = ground arith in
        subst (λ z. find_item p (updated (y ∷ ys)) ≡ some (updated_item z)) same (ground (arith, e))
    | inr e ↦ ground (arith, e, find_item-updated p ys x)
  ]

  HasParent-updated :
      (o : Option ℕ) (x : BomItem) (xs : List BomItem)
      → HasParent o x xs
      → HasParent o (updated_item x) (updated xs)
  HasParent-updated none x xs h = ground (arith, h)
  HasParent-updated (some p) x xs (parent, found, version, level) = (
    updated_item parent,
    find_item-updated p xs parent found,
    ground (arith, version),
    ground (arith, level),
  )

  older-updated :
      (x : BomItem) (ys : List BomItem)
      → All (λ y. y.id < x.id) ys
      → All (λ y. y.id < (updated_item x).id) (updated ys)
  older-updated x [] h = tt
  older-updated x (y ∷ ys) h = (ground (arith, h.0), older-updated x ys h.1)

  pub update_where-IsForest : (xs : List BomItem) → IsForest xs → IsForest (updated xs)
  update_where-IsForest [] h = tt
  update_where-IsForest (x ∷ xs) (parent, older, rest) = (
    (let same : (updated_item x).parent_item_id ≡ x.parent_item_id = ground arith in
        subst (λ o. HasParent o (updated_item x) (updated xs)) (sym same)
          (HasParent-updated x.parent_item_id x xs parent)),
    older-updated x xs older,
    update_where-IsForest xs rest,
  )

  pub fresh-updated :
      (k : ℕ) (xs : List BomItem) → All (λ x. x.id < k) xs → All (λ x. x.id < k) (updated xs)
  fresh-updated k [] h = tt
  fresh-updated k (x ∷ xs) h = (ground (arith, h.0), fresh-updated k xs h.1)

module _ (gone : BomItem → Bool) where
  -- No row that stays refers to one that goes.
  abbrev pub IsClosed : List BomItem → Type 0
  IsClosed [] = Unit
  IsClosed (x ∷ xs) =
      (gone x ≡ false → All (λ d. (gone d && is_child_of d.id x) ≡ false) xs) × IsClosed xs

  IsClosed-intro :
      (xs : List BomItem)
      → All (λ y. gone y ≡ false → All (λ d. (gone d && is_child_of d.id y) ≡ false) xs) xs
      → IsClosed xs
  IsClosed-intro [] h = tt
  IsClosed-intro (x ∷ xs) (here, rest) =
      ((λ e. (here e).1), IsClosed-intro xs (All-map _ _ xs (λ y h e. (h e).1) rest))

  pub left_behind-IsClosed :
      (xs : List BomItem) → exists_where (is_left_behind gone xs) xs ≡ false → IsClosed xs
  left_behind-IsClosed xs h = IsClosed-intro xs (
      All-map _ _ xs
        (λ y left e.
          exists_where-All (λ d. gone d && is_child_of d.id y) xs (ground (arith, left, e)))
        (exists_where-All _ xs h))

  abbrev pub kept : List BomItem → List BomItem
  kept xs = select_where (λ x. not (gone x)) xs

  find_item-kept :
      (p : ℕ) (xs : List BomItem) (x : BomItem)
      → find_item p xs ≡ some x
      → gone x ≡ false
      → find_item p (kept xs) ≡ some x
  find_item-kept p [] x h e = cc
  find_item-kept p (y ∷ ys) x h e = elim (Bool-cases (y.id == p)) [
    | inl i ↦
        let same : y ≡ x = ground arith in
        let stays : gone y ≡ false = subst (λ z. gone z ≡ false) (sym same) e in
        ground (arith, i, stays, same)
    | inr i ↦ elim (Bool-cases (gone y)) [
      | inl g ↦ ground (arith, i, g, find_item-kept p ys x)
      | inr g ↦ ground (arith, i, g, find_item-kept p ys x)
    ]
  ]

  HasParent-kept :
      (o : Option ℕ) (x : BomItem) (xs : List BomItem)
      → x.parent_item_id ≡ o
      → All (λ d. (gone d && is_child_of d.id x) ≡ false) xs
      → HasParent o x xs
      → HasParent o x (kept xs)
  HasParent-kept none x xs e closed h = h
  HasParent-kept (some p) x xs e closed (parent, found, version, level) =
      let id = find_item-id p xs parent found in
      let (safe, _) = All-take_first _ (λ i. i.id == p) xs parent closed found in
      let child : is_child_of parent.id x ≡ true = ground (arith, e, id) in
      let stays : gone parent ≡ false = ground (arith, safe, child) in
      (parent, find_item-kept p xs parent found stays, version, level)

  pub select_where-IsForest : (xs : List BomItem) → IsClosed xs → IsForest xs → IsForest (kept xs)
  select_where-IsForest [] c h = tt
  select_where-IsForest (x ∷ xs) (closed, c) (parent, older, rest) = elim (Bool-cases (gone x)) [
    | inl e ↦ rw e (select_where-IsForest xs c rest)
    | inr e ↦ rw e (
      HasParent-kept x.parent_item_id x xs refl (closed e) parent,
      All-select_where _ (λ x. not (gone x)) xs older,
      select_where-IsForest xs c rest,
    )
  ]

  -- The items of a version that loses none.
  pub items_of_version-kept :
      (n : ℕ) (xs : List BomItem)
      → All (λ x. gone x ≡ true → (x.bom_version_id == n) ≡ false) xs
      → select_where (λ i. i.bom_version_id == n) (kept xs)
        ≡ select_where (λ i. i.bom_version_id == n) xs
  items_of_version-kept n [] h = refl
  items_of_version-kept n (x ∷ xs) h = elim (Bool-cases (gone x)) [
    | inl e ↦ rw e (rw (h.0 e) (items_of_version-kept n xs h.1))
    | inr e ↦ rw e (ground (arith, items_of_version-kept n xs h.1))
  ]
