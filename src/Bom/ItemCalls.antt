-- ===== src/Bom/ItemCalls.antt =====
-- What the calls that change items do, if they succeed (src/modules/bom/services/bom.service.ts).
use backend_erp.Prelude.{
  ℕ, ◌==◌, ◌≡◌, refl, inl, inr, subst, Bool, false, not, Option, none, some, List, [], ◌∷◌, arith,
  Bool-cases, Option-cases, All-take_first, select_where, update_where, take_first, exists_where,
  ◌⊎◌,
}
use backend_erp.Database.{Failure, Result, Action, Reading, ok, err, ◌>>◌, >>=-eq-ok}
use backend_erp.Bom.Schema.{Version, BomItem, Boms, find_item, find_version, is_active}
use backend_erp.Bom.Items.{
  BomItemDto, is_in_version, level_under, insert_new_item, new_bom_item, insert_bom_item, add_item,
  UpdateItemDto, with_updates, check_editable, update_item, is_child_of, is_left_behind,
  delete_items, attempt, delete_item,
}
use backend_erp.Bom.Forest.{HasParent, IsForest}
use backend_erp.Bom.Changes.{IsClosed, kept, left_behind-IsClosed}

-- The item that may be changed, of a version that is not active.
pub record IsEditable (n : ℕ) (s : Boms) (i : BomItem) (v : Version) : Type 0 where
  pub found : find_item n s.items ≡ some i
  pub version_found : find_version i.bom_version_id s.versions ≡ some v
  pub inactive : is_active v.status ≡ false

pub check_editable-IsEditable :
    (n : ℕ) (s s' : Boms)
    → check_editable n s ≡ ok (tt, s')
    → (s' ≡ s) × (i : BomItem) × (v : Version) × IsEditable n s i v
check_editable-IsEditable n s s' e = elim (Option-cases (find_item n s.items)) [
  | inl f ↦ cc (rw f at e)
  | inr (i, f) ↦ elim (Option-cases (find_version i.bom_version_id s.versions)) [
    | inl g ↦ cc (rw g at (rw f at e))
    | inr (v, g) ↦
        let k = rw g at (rw f at e) in
        (
          ground (arith, k),
          i,
          v,
          record { found = f; version_found = g; inactive = ground (arith, k) },
        )
  ]
]

pub delete_items-result :
    (gone : BomItem → Bool) (s s' : Boms)
    → delete_items gone s ≡ ok (tt, s')
    → (s' ≡ record s { items = select_where (λ x. not (gone x)) s.items }) × IsClosed gone s.items
delete_items-result gone s s' e =
    elim (Bool-cases (exists_where (is_left_behind gone s.items) s.items)) [
      | inl f ↦ cc (rw f at e)
      | inr f ↦ (ground (arith, f), left_behind-IsClosed gone s.items f)
    ]

abbrev pub without : (BomItem → Bool) → Boms → Boms
without gone s = record s { items = kept gone s.items }

-- After a deletion only children of the item are gone, or the item as well.
pub record IsDeleted (n : ℕ) (s s' : Boms) (i : BomItem) (v : Version) : Type 0 where
  pub editable : IsEditable n s i v
  pub closed : IsClosed (is_child_of n) s.items
  pub result :
      (s' ≡ without (is_child_of n) s)
      ⊎ (IsClosed (λ i. i.id == n) (kept (is_child_of n) s.items)
          × (s' ≡ without (λ i. i.id == n) (without (is_child_of n) s)))

attempt-result :
    (m : Action Boms (Unit {0})) (o : Option Failure) (s s' : Boms)
    → attempt m s ≡ ok (o, s')
    → (m s ≡ ok (tt, s')) ⊎ (s' ≡ s)
attempt-result m o s s' h = go (m s) refl h
  where
    go :
        (q : Result (Unit {0} × Boms))
        → m s ≡ q
        → (elim q as (λ _. Result (Option Failure × Boms)) [
          | ok r ↦ ok (none, r.1)
          | err x ↦ ok (some x, s)
        ])
          ≡ ok (o, s')
        → (m s ≡ ok (tt, s')) ⊎ (s' ≡ s)
    go (ok (tt, t)) e k = inl (ground (arith, e, k))
    go (err x) e k = inr (ground (arith, k))

pub delete_item-IsDeleted :
    (n : ℕ) (outcome : Option Failure) (s s' : Boms)
    → delete_item n s ≡ ok (outcome, s')
    → (i : BomItem) × (v : Version) × IsDeleted n s s' i v
unfolding delete_item
delete_item-IsDeleted n outcome s s' e =
    let (_, s1, x, y) = >>=-eq-ok (check_editable n) _ s e in
    let (same, i, v, editable) = check_editable-IsEditable n s s1 x in
    let (_, s2, x2, y2) = >>=-eq-ok (delete_items (is_child_of n)) _ s (
      subst
        (λ z.
          (delete_items (is_child_of n) >> attempt (delete_items (λ i. i.id == n))) z
          ≡ ok (outcome, s'))
        same y) in
    let (result, closed) = delete_items-result (is_child_of n) s s2 x2 in
    let last =
      subst (λ z. attempt (delete_items (λ i. i.id == n)) z ≡ ok (outcome, s')) result y2 in
    (
      i,
      v,
      record {
        editable = editable;
        closed = closed;
        result =
            elim (attempt-result (delete_items (λ i. i.id == n)) outcome (without (is_child_of n) s)
              s' last) [
                | inl k ↦
                    let (result2, closed2) =
                      delete_items-result (λ i. i.id == n) (without (is_child_of n) s) s' k in
                    inr (closed2, result2)
                | inr k ↦ inl k
              ];
      },
    )

-- An insertion that succeeds.
pub record IsAdded (n : ℕ) (dto : BomItemDto) (s s' : Boms) (v : Version) (level : ℕ) : Type 0 where
  pub version_found : find_version n s.versions ≡ some v
  pub inactive : is_active v.status ≡ false
  pub placed : HasParent dto.parent_item_id (new_bom_item n dto level s) s.items
  pub result : s' ≡ insert_bom_item (new_bom_item n dto level s) s

take_first-find_item :
    (n p : ℕ) (xs : List BomItem) (x : BomItem)
    → IsForest xs
    → take_first (is_in_version n p) xs ≡ some x
    → (find_item p xs ≡ some x) × (x.bom_version_id ≡ n)
take_first-find_item n p [] x f h = cc
take_first-find_item n p (y ∷ ys) x (parent, older, rest) h =
    elim (Bool-cases (is_in_version n p y)) [
      | inl e ↦
          let same : y ≡ x = ground (arith, e, h) in
          (ground (arith, e, same), ground (arith, e, same))
      | inr e ↦
          let below = rw e at h in
          let (lt, test) = All-take_first _ (is_in_version n p) ys x older below in
          let (found, version) = take_first-find_item n p ys x rest below in
          (ground (arith, lt, test, found), version)
    ]

level_under-placed :
    (reading : Reading) (n : ℕ) (dto : BomItemDto) (o : Option ℕ) (level : ℕ) (s s' : Boms)
    → IsForest s.items
    → level_under reading n dto.variant_id o s ≡ ok (level, s')
    → (s' ≡ s) × HasParent o (new_bom_item n dto level s) s.items
level_under-placed reading n dto none level s s' f h = (ground (arith, h), ground (arith, h))
level_under-placed reading n dto (some p) level s s' f h =
    elim (Option-cases (take_first (is_in_version n p) s.items)) [
      | inl e ↦ cc (rw e at h)
      | inr (x, e) ↦
          let (found, version) = take_first-find_item n p s.items x f e in
          let k = rw e at h in (ground (arith, k), (x, found, version, ground (arith, k)))
    ]

insert_new_item-result :
    (n : ℕ) (dto : BomItemDto) (level : ℕ) (i : BomItem) (s s' : Boms)
    → insert_new_item n dto level s ≡ ok (i, s')
    → s' ≡ insert_bom_item (new_bom_item n dto level s) s
insert_new_item-result n dto level i s s' h = ground arith

pub add_item-IsAdded :
    (reading : Reading) (n : ℕ) (dto : BomItemDto) (i : BomItem) (s s' : Boms)
    → IsForest s.items
    → add_item reading n dto s ≡ ok (i, s')
    → (v : Version) × (level : ℕ) × IsAdded n dto s s' v level
unfolding add_item
add_item-IsAdded reading n dto i s s' f h = elim (Option-cases (find_version n s.versions)) [
  | inl e ↦ cc (rw e at h)
  | inr (v, e) ↦ elim (Bool-cases (is_active v.status)) [
    | inl g ↦ cc (rw g at (rw e at h))
    | inr g ↦
        let (level, s1, x, y) =
          >>=-eq-ok (level_under reading n dto.variant_id dto.parent_item_id) _ s
            (rw g at (rw e at h)) in
        let (same, placed) = level_under-placed reading n dto dto.parent_item_id level s s1 f x in
        let rest : insert_new_item n dto level s1 ≡ ok (i, s') = ground (arith, y) in
        (
          v,
          level,
          record {
            version_found = e;
            inactive = g;
            placed = placed;
            result =
                insert_new_item-result n dto level i s s'
                  (subst (λ z. insert_new_item n dto level z ≡ ok (i, s')) same rest);
          },
        )
  ]
]

pub update_item-result :
    (n : ℕ) (dto : UpdateItemDto) (s s' : Boms)
    → update_item n dto s ≡ ok (tt, s')
    → (i : BomItem) × (v : Version) × IsEditable n s i v
      × (s' ≡ record s { items = update_where (λ i. i.id == n) (with_updates dto) s.items })
unfolding update_item
update_item-result n dto s s' e =
    let (_, s1, x, y) = >>=-eq-ok (check_editable n) _ s e in
    let (same, i, v, editable) = check_editable-IsEditable n s s1 x in
    (
      i,
      v,
      editable,
      subst
          (λ z. s' ≡ record z { items = update_where (λ i. i.id == n) (with_updates dto) z.items })
          same (ground (arith, y)),
    )
