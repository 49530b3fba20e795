-- ===== src/Bom/Frozen.antt =====
-- The components of an active version stay as they are.
use backend_erp.Prelude.{
  ℕ, ◌==◌, ◌≡◌, refl, sym, ◌∙◌, inl, inr, ap, subst, true, false, not, Option, none, some, List, [],
  ◌∷◌, arith, Bool-cases, All, All-map, All-select_where, select_where,
}
use backend_erp.Bom.Schema.{BomItem, Version, Boms, find_item, find_version, is_active}
use backend_erp.Bom.Items.{UpdateItemDto, is_child_of}
use backend_erp.Bom.Forest.{HasParent, IsForest, IsForest-All}
use backend_erp.Bom.Changes.{updated, kept, items_of_version-kept}
use backend_erp.Bom.Calls.{
  Untouched, create_header-Untouched, update_header-Untouched, add_operation-Untouched,
  update_operation-Untouched, delete_operation-Untouched, add_by_product-Untouched,
  delete_by_product-Untouched, create_version-result, update_version-result,
  activate_version-result,
}
use backend_erp.Bom.ItemCalls.{
  IsEditable, add_item-IsAdded, update_item-result, delete_item-IsDeleted,
}
use backend_erp.Bom.Reach.{
  IsSound, Step, created_header, updated_header, created_version, updated_version, activated,
  added_item, updated_item, deleted_item, added_operation, updated_operation, deleted_operation,
  added_by_product, deleted_by_product,
}
use backend_erp.Bom.Explosion.Complete.{items_of_version}

-- The rows with an identifier are the one that is found.
find_item-All :
    (m : ℕ) (xs : List BomItem) (i : BomItem)
    → IsForest xs
    → find_item m xs ≡ some i
    → All (λ x. (x.id == m) ≡ true → x.bom_version_id ≡ i.bom_version_id) xs
find_item-All m [] i f h = tt
find_item-All m (x ∷ xs) i (parent, older, rest) h = elim (Bool-cases (x.id == m)) [
  | inl e ↦
      let same : x ≡ i = ground arith in
      (λ _. ap (λ z. z.bom_version_id) same, All-map _ _ xs (λ y lt eq. ground (arith, e)) older)
  | inr e ↦ (λ eq. ground (arith, e), find_item-All m xs i rest (ground (arith, e)))
]

child_version :
    (m : ℕ) (o : Option ℕ) (x i : BomItem) (xs : List BomItem)
    → x.parent_item_id ≡ o
    → find_item m xs ≡ some i
    → HasParent o x xs
    → is_child_of m x ≡ true
    → x.bom_version_id ≡ i.bom_version_id
child_version m none x i xs e found h c = ground (arith, e)
child_version m (some p) x i xs e found (parent, row, version, level) c =
    let key : p ≡ m = ground (arith, e) in
    let same : some parent ≡ some i =
      sym row ∙ subst (λ z. find_item z xs ≡ some i) (sym key) found in
    ground (arith, same, version)

module _ (m n : ℕ) (s : Boms) (i : BomItem) (v w : Version) (e : IsEditable m s i v)
    (found : find_version n s.versions ≡ some w) (active : is_active w.status ≡ true)
    (sound : IsSound s) where
  other_version : (i.bom_version_id == n) ≡ false
  other_version = elim (Bool-cases (i.bom_version_id == n)) [
    | inr f ↦ f
    | inl f ↦
        let key : i.bom_version_id ≡ n = ground arith in
        let same : some v ≡ some w =
          sym e.version_found ∙ subst (λ z. find_version z s.versions ≡ some w) (sym key) found in
        absurd (ground (arith, same, active, e.inactive))
  ]

  item-other : All (λ x. (x.id == m) ≡ true → (x.bom_version_id == n) ≡ false) s.items
  item-other =
      All-map _ _ s.items (λ x h eq. rw (h eq) other_version)
        (find_item-All m s.items i sound.forest e.found)

  children-other : All (λ x. is_child_of m x ≡ true → (x.bom_version_id == n) ≡ false) s.items
  children-other =
      All-map _ _ s.items
        (λ x h c. rw (child_version m x.parent_item_id x i s.items refl e.found h c) other_version)
        (IsForest-All s.items sound.forest)

items_of_version-updated :
    (m n : ℕ) (dto : UpdateItemDto) (xs : List BomItem)
    → All (λ x. (x.id == m) ≡ true → (x.bom_version_id == n) ≡ false) xs
    → select_where (λ i. i.bom_version_id == n) (updated m dto xs)
      ≡ select_where (λ i. i.bom_version_id == n) xs
items_of_version-updated m n dto [] h = refl
items_of_version-updated m n dto (x ∷ xs) h = elim (Bool-cases (x.id == m)) [
  | inl e ↦ rw e (rw (h.0 e) (items_of_version-updated m n dto xs h.1))
  | inr e ↦ rw e (ground (arith, items_of_version-updated m n dto xs h.1))
]

Untouched-Frozen :
    (n : ℕ) (s t : Boms) → Untouched s t → items_of_version n t ≡ items_of_version n s
Untouched-Frozen n s t same = ap (select_where (λ i. i.bom_version_id == n)) same.1

-- One call of the service leaves the components of a version that is active before it as they are.
pub Step-Frozen :
    (n : ℕ) (w : Version) (s t : Boms)
    → Step s t
    → IsSound s
    → find_version n s.versions ≡ some w
    → is_active w.status ≡ true
    → items_of_version n t ≡ items_of_version n s
Step-Frozen n w s t (created_header x by h e) k found active =
    Untouched-Frozen n s t (create_header-Untouched x by h s t e)
Step-Frozen n w s t (updated_header x flag e) k found active =
    Untouched-Frozen n s t (update_header-Untouched x flag s t e)
Step-Frozen n w s t (created_version clock x dto by v e) k found active =
    ap (items_of_version n) (create_version-result clock x dto by v s t e)
Step-Frozen n w s t (updated_version x dto e) k found active =
    ap (items_of_version n) (update_version-result x dto s t e).2
Step-Frozen n w s t (activated x by e) k found active =
    ap (items_of_version n) (activate_version-result x by s t e).2
Step-Frozen n w s t (added_item reading x dto i e) k found active =
    let (v, level, a) = add_item-IsAdded reading x dto i s t k.forest e in
    let other : (x == n) ≡ false = elim (Bool-cases (x == n)) [
      | inr f ↦ f
      | inl f ↦
          let key : x ≡ n = ground arith in
          let same : some v ≡ some w =
            sym a.version_found ∙ subst (λ z. find_version z s.versions ≡ some w) (sym key) found in
          absurd (ground (arith, same, active, a.inactive))
    ] in
    ap (items_of_version n) a.result ∙ rw other refl
Step-Frozen n w s t (updated_item m dto e) k found active =
    let (i, v, editable, result) = update_item-result m dto s t e in
    ap (items_of_version n) result
    ∙ items_of_version-updated m n dto s.items (item-other m n s i v w editable found active k)
Step-Frozen n w s t (deleted_item m outcome e) k found active =
    let (i, v, d) = delete_item-IsDeleted m outcome s t e in
    let children = children-other m n s i v w d.editable found active k in
    let first = items_of_version-kept (is_child_of m) n s.items children in
    elim d.result [
      | inl result ↦ ap (items_of_version n) result ∙ first
      | inr (closed, result) ↦
          ap (items_of_version n) result
          ∙ items_of_version-kept (λ i. i.id == m) n (kept (is_child_of m) s.items)
              (All-select_where _ (λ x. not (is_child_of m x)) s.items
                (item-other m n s i v w d.editable found active k))
          ∙ first
    ]
Step-Frozen n w s t (added_operation x dto o e) k found active =
    Untouched-Frozen n s t (add_operation-Untouched x dto o s t e)
Step-Frozen n w s t (updated_operation x dto e) k found active =
    Untouched-Frozen n s t (update_operation-Untouched x dto s t e)
Step-Frozen n w s t (deleted_operation x e) k found active =
    Untouched-Frozen n s t (delete_operation-Untouched x s t e)
Step-Frozen n w s t (added_by_product x dto b e) k found active =
    Untouched-Frozen n s t (add_by_product-Untouched x dto b s t e)
Step-Frozen n w s t (deleted_by_product x e) k found active =
    Untouched-Frozen n s t (delete_by_product-Untouched x s t e)
