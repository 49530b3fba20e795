-- ===== src/Bom/Forest.antt =====
-- The items of all versions form trees: an item is inserted after its parent, and its level is its
-- depth.
use backend_erp.Prelude.{
  ℕ, suc, ◌<◌, ◌==◌, if◌then◌else◌, ◌≡◌, refl, inl, inr, Option, none, some, List, [], ◌∷◌, arith,
  Bool-cases, All, All-map, All-take_first, length, sum_of,
}
use backend_erp.Bom.Schema.{BomItem, find_item}

-- Where an item stands, by its parent.
abbrev pub HasParent : Option ℕ → BomItem → List BomItem → Type 0
HasParent none x xs = x.level ≡ 0
HasParent (some p) x xs =
    (parent : BomItem) × (find_item p xs ≡ some parent)
    × (parent.bom_version_id ≡ x.bom_version_id)
    × (x.level ≡ suc parent.level)

abbrev pub IsForest : List BomItem → Type 0
IsForest [] = Unit
IsForest (x ∷ xs) = HasParent x.parent_item_id x xs × (All (λ y. y.id < x.id) xs) × IsForest xs

pub find_item-id : (p : ℕ) (xs : List BomItem) (x : BomItem) → find_item p xs ≡ some x → x.id ≡ p
find_item-id p [] x h = cc
find_item-id p (y ∷ ys) x h = ground (arith, find_item-id p ys x)

find_item-older :
    (p : ℕ) (x : BomItem) (xs : List BomItem) (parent : BomItem)
    → All (λ y. y.id < x.id) xs
    → find_item p xs ≡ some parent
    → find_item p (x ∷ xs) ≡ some parent
find_item-older p x xs parent older h =
    let (lt, _) = All-take_first _ (λ y. y.id == p) xs parent older h in
    let id = find_item-id p xs parent h in ground (arith, h, lt, id)

HasParent-older :
    (o : Option ℕ) (y x : BomItem) (xs : List BomItem)
    → All (λ y. y.id < x.id) xs
    → HasParent o y xs
    → HasParent o y (x ∷ xs)
HasParent-older none y x xs older h = h
HasParent-older (some p) y x xs older (parent, found, version, level) =
    (parent, find_item-older p x xs parent older found, version, level)

-- Every item has its parent in the table.
pub IsForest-All : (xs : List BomItem) → IsForest xs → All (λ y. HasParent y.parent_item_id y xs) xs
IsForest-All [] h = tt
IsForest-All (x ∷ xs) (parent, older, rest) = (
  HasParent-older x.parent_item_id x x xs older parent,
  All-map _ _ xs (λ y. HasParent-older y.parent_item_id y x xs older) (IsForest-All xs rest),
)

level-bounded :
    (o : Option ℕ) (x : BomItem) (xs : List BomItem)
    → HasParent o x xs
    → All (λ y. y.level < length xs) xs
    → x.level < suc (length xs)
level-bounded none x xs h bounded = omega arith
level-bounded (some p) x xs (parent, found, version, level) bounded =
    let (lt, _) = All-take_first _ (λ y. y.id == p) xs parent bounded found in
    omega (arith, lt, level)

-- An item lies less deep than there are items.
pub IsForest-levels : (xs : List BomItem) → IsForest xs → All (λ y. y.level < length xs) xs
IsForest-levels [] h = tt
IsForest-levels (x ∷ xs) (parent, older, rest) =
    let bounded = IsForest-levels xs rest in
    (
      level-bounded x.parent_item_id x xs parent bounded,
      All-map _ _ xs (λ y lt. omega arith) bounded,
    )

sum_of-others :
    (g : BomItem → ℕ) (p : ℕ) (xs : List BomItem)
    → All (λ y. y.id < p) xs
    → sum_of (λ b. if b.id == p then g b else 0) xs ≡ 0
sum_of-others g p [] h = refl
sum_of-others g p (x ∷ xs) h = ground (arith, sum_of-others g p xs h.1)

-- A sum over the items with one identifier has one term.
pub sum_of-find_item :
    (g : BomItem → ℕ) (p : ℕ) (xs : List BomItem) (x : BomItem)
    → IsForest xs
    → find_item p xs ≡ some x
    → sum_of (λ b. if b.id == p then g b else 0) xs ≡ g x
sum_of-find_item g p [] x f h = cc
sum_of-find_item g p (y ∷ ys) x (parent, older, rest) h = elim (Bool-cases (y.id == p)) [
  | inl e ↦
      let same : y ≡ x = ground arith in
      let id : y.id ≡ p = ground arith in
      let others = sum_of-others g p ys (All-map _ _ ys (λ z lt. omega arith) older) in
      ground (arith, e, same, others)
  | inr e ↦ ground (arith, e, sum_of-find_item g p ys x rest)
]
