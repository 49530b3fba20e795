-- ===== src/Bom/Explosion/Levels.antt =====
-- The rounds of the recursive query: the working table of round k holds the items of the version at
-- level k, each of them once.
use backend_erp.Prelude.{
  ℕ, suc, ◌==◌, if◌then◌else◌, ◌≡◌, refl, sym, ◌∙◌, inl, inr, Bool, Option, none, some, List, [],
  ◌∷◌, ◌&&◌, arith, Option-cases, sum_of, select_where, sum_of-append, sum_of-same, sum_of-cong,
  All-map, sum_of-zero, sum_of-select_where, sum_of-add, subst,
}
use backend_erp.Bom.Schema.{BomItem}
use backend_erp.Bom.Items.{is_child_of}
use backend_erp.Bom.Explosion.{is_root_of, children_of}
use backend_erp.Bom.Forest.{HasParent, IsForest, IsForest-All, sum_of-find_item}

-- What a child adds for each of its parents in the working table.
abbrev pub weight : (BomItem → ℕ) → BomItem → BomItem → ℕ
weight f y b = if is_child_of b.id y then f y else 0

pub sum_of-children_of :
    (f : BomItem → ℕ) (items bs : List BomItem)
    → sum_of f (children_of items bs) ≡ sum_of (λ y. sum_of (weight f y) bs) items
sum_of-children_of f items [] = sym (sum_of-zero items)
sum_of-children_of f items (b ∷ bs) =
    sum_of-append f (select_where (is_child_of b.id) items) (children_of items bs)
    ∙ omega (
      arith,
      sum_of-select_where f (is_child_of b.id) items,
      sum_of-children_of f items bs,
      sum_of-add (λ y. weight f y b) (λ y. sum_of (weight f y) bs) items,
    )

abbrev pub is_at_level : ℕ → ℕ → BomItem → Bool
is_at_level version_id k i = i.bom_version_id == version_id && i.level == k

module _ (version_id : ℕ) (items : List BomItem) (forest : IsForest items) where
  -- An item of level k + 1 has one parent of level k, and other items have none.
  sum_of-parents :
      (f : BomItem → ℕ) (k : ℕ) (y : BomItem)
      → HasParent y.parent_item_id y items
      → sum_of (λ b. if is_at_level version_id k b then weight f y b else 0) items
        ≡ (if is_at_level version_id (suc k) y then f y else 0)
  sum_of-parents f k y h = elim (Option-cases y.parent_item_id) [
    | inl e ↦
        let root : y.level ≡ 0 = subst (λ o. HasParent o y items) e h in
        let none_found : (b : BomItem)
            → (if is_at_level version_id k b then weight f y b else 0) ≡ 0 =
          λ b. ground (arith, e) in
        ground (arith, root, sum_of-same _ (λ _. 0) items none_found, sum_of-zero items)
    | inr (p, e) ↦
        let (parent, found, version, level) = subst (λ o. HasParent o y items) e h in
        let one_found : (b : BomItem)
            → (if is_at_level version_id k b then weight f y b else 0)
              ≡ (if b.id == p then (if is_at_level version_id k b then f y else 0) else 0) =
          λ b. ground (arith, e) in
        sum_of-same _ _ items one_found
        ∙ sum_of-find_item (λ b. if is_at_level version_id k b then f y else 0) p items parent
            forest found
        ∙ ground (arith, version, level)
  ]

  abbrev pub IsLevel : ℕ → List BomItem → Type 0
  IsLevel k bs =
      (f : BomItem → ℕ)
      → sum_of f bs ≡ sum_of (λ i. if is_at_level version_id k i then f i else 0) items

  root_at_level :
      (f : BomItem → ℕ) (o : Option ℕ) (y : BomItem)
      → y.parent_item_id ≡ o
      → HasParent o y items
      → (if is_root_of version_id y then f y else 0)
        ≡ (if is_at_level version_id 0 y then f y else 0)
  root_at_level f none y e h = ground (arith, e, h)
  root_at_level f (some p) y e (parent, found, version, level) = ground (arith, e, level)

  pub select_where-IsLevel : IsLevel 0 (select_where (is_root_of version_id) items)
  select_where-IsLevel f =
      sum_of-select_where f (is_root_of version_id) items
      ∙ sum_of-cong _ _ items (
          All-map _ _ items (λ y. root_at_level f y.parent_item_id y refl)
            (IsForest-All items forest))

  pub children_of-IsLevel :
      (k : ℕ) (bs : List BomItem) → IsLevel k bs → IsLevel (suc k) (children_of items bs)
  children_of-IsLevel k bs level f =
      sum_of-children_of f items bs
      ∙ sum_of-cong _ _ items (
          All-map _ _ items (λ y h. level (weight f y) ∙ sum_of-parents f k y h)
            (IsForest-All items forest))
