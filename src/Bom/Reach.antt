-- ===== src/Bom/Reach.antt =====
-- Bills of materials over time: every sequence of calls of the service.
use backend_erp.Prelude.{
  ℕ, ◌<◌, ◌==◌, ◌≡◌, refl, sym, inl, inr, subst, Bool, not, Option, arith, All, All-map,
  All-select_where, All-update_where, update_where,
}
use backend_erp.Database.{Failure, Reading, ok}
use backend_erp.Accounting.Schema.{Clock}
use backend_erp.Bom.Schema.{VersionStatus, Header, Version, BomItem, Operation, ByProduct, Boms}
use backend_erp.Bom.Versions.{
  create_header, update_header, VersionDto, new_version, create_version, UpdateVersionDto,
  updates_of, update_version, activate_version, is_active_of, as_obsolete,
}
use backend_erp.Bom.Items.{
  BomItemDto, add_item, UpdateItemDto, update_item, is_child_of, delete_item,
}
use backend_erp.Bom.Routing.{
  OperationDto, add_operation, UpdateOperationDto, update_operation, delete_operation, ByProductDto,
  add_by_product, delete_by_product,
}
use backend_erp.Bom.Forest.{IsForest}
use backend_erp.Bom.Unique.{
  IsVersioned, create-IsVersioned, activate-IsVersioned, update_where-IsVersioned,
}
use backend_erp.Bom.Changes.{update_where-IsForest, fresh-updated, IsClosed, select_where-IsForest}
use backend_erp.Bom.Calls.{
  Untouched, create_header-Untouched, update_header-Untouched, add_operation-Untouched,
  update_operation-Untouched, delete_operation-Untouched, add_by_product-Untouched,
  delete_by_product-Untouched, create_version-result, update_version-result,
  activate_version-result,
}
use backend_erp.Bom.ItemCalls.{add_item-IsAdded, update_item-result, without, delete_item-IsDeleted}

pub record IsSound (s : Boms) : Type 0 where
  pub versioned : IsVersioned s.versions
  pub known_versions : All (λ v. v.id < s.next_version) s.versions
  pub forest : IsForest s.items
  pub known_items : All (λ i. i.id < s.next_item) s.items

-- One call of the service that commits.
pub data Step (s s' : Boms) : Type 0 where
  created_header :
      (variant_id by : ℕ) (h : Header) → create_header variant_id by s ≡ ok (h, s') → Step s s'
  updated_header : (n : ℕ) (flag : Option Bool) → update_header n flag s ≡ ok (tt, s') → Step s s'
  created_version :
      (clock : Clock) (n : ℕ) (dto : VersionDto) (by : ℕ) (v : Version)
      → create_version clock n dto by s ≡ ok (v, s')
      → Step s s'
  updated_version :
      (n : ℕ) (dto : UpdateVersionDto) → update_version n dto s ≡ ok (tt, s') → Step s s'
  activated : (n by : ℕ) → activate_version n by s ≡ ok (tt, s') → Step s s'
  added_item :
      (reading : Reading) (n : ℕ) (dto : BomItemDto) (i : BomItem)
      → add_item reading n dto s ≡ ok (i, s')
      → Step s s'
  updated_item : (n : ℕ) (dto : UpdateItemDto) → update_item n dto s ≡ ok (tt, s') → Step s s'
  deleted_item : (n : ℕ) (outcome : Option Failure) → delete_item n s ≡ ok (outcome, s') → Step s s'
  added_operation :
      (n : ℕ) (dto : OperationDto) (o : Operation) → add_operation n dto s ≡ ok (o, s') → Step s s'
  updated_operation :
      (n : ℕ) (dto : UpdateOperationDto) → update_operation n dto s ≡ ok (tt, s') → Step s s'
  deleted_operation : (n : ℕ) → delete_operation n s ≡ ok (tt, s') → Step s s'
  added_by_product :
      (n : ℕ) (dto : ByProductDto) (b : ByProduct) → add_by_product n dto s ≡ ok (b, s') → Step s s'
  deleted_by_product : (n : ℕ) → delete_by_product n s ≡ ok (tt, s') → Step s s'

pub data Reach (s : Boms) : Boms → Type 0 where
  here : Reach s s
  next : {t u : Boms} → Reach s t → Step t u → Reach s u

Untouched-IsSound : (s s' : Boms) → Untouched s s' → IsSound s → IsSound s'
Untouched-IsSound s s' (versions, items, next_version, next_item) w = record {
  versioned = subst IsVersioned (sym versions) w.versioned;
  known_versions =
      subst (λ vs. All (λ v. v.id < s'.next_version) vs) (sym versions)
        (All-map _ _ s.versions (λ v lt. ground (arith, lt, next_version)) w.known_versions);
  forest = subst IsForest (sym items) w.forest;
  known_items =
      subst (λ is. All (λ i. i.id < s'.next_item) is) (sym items)
        (All-map _ _ s.items (λ i lt. ground (arith, lt, next_item)) w.known_items);
}

create_version-IsSound :
    (clock : Clock) (n : ℕ) (dto : VersionDto) (by : ℕ) (v : Version) (s s' : Boms)
    → create_version clock n dto by s ≡ ok (v, s')
    → IsSound s
    → IsSound s'
create_version-IsSound clock n dto by v s s' h w =
    subst IsSound (sym (create_version-result clock n dto by v s s' h)) (record {
      versioned =
          create-IsVersioned (new_version clock n dto by s) s.versions w.known_versions refl refl
            w.versioned;
      known_versions =
          (omega arith, All-map _ _ s.versions (λ v lt. omega (arith, lt)) w.known_versions);
      forest = w.forest;
      known_items = w.known_items;
    })

updates_of-same :
    (dto : UpdateVersionDto) (status : VersionStatus) (v : Version)
    → ((updates_of dto status v).id ≡ v.id)
      × ((updates_of dto status v).bom_header_id ≡ v.bom_header_id)
      × ((updates_of dto status v).version_number ≡ v.version_number)
      × ((updates_of dto status v).status ≡ v.status)
updates_of-same dto VersionStatus.active v = ground arith
updates_of-same dto VersionStatus.draft v = ground arith
updates_of-same dto VersionStatus.obsolete v = ground arith

update_version-IsSound :
    (n : ℕ) (dto : UpdateVersionDto) (s s' : Boms)
    → update_version n dto s ≡ ok (tt, s')
    → IsSound s
    → IsSound s'
update_version-IsSound n dto s s' h w =
    let (v, found, result) = update_version-result n dto s s' h in
    let same = updates_of-same dto v.status in
    subst IsSound (sym result) (record {
      versioned =
          update_where-IsVersioned (λ v. v.id == n) (updates_of dto v.status) s.versions
            (λ x. (same x).0) (λ h x. ground (arith, same x)) (λ h k x. ground (arith, same x))
            w.versioned;
      known_versions =
          All-update_where _ (λ v. v.id == n) (updates_of dto v.status) s.versions
            (λ x lt _. ground (arith, lt, same x)) w.known_versions;
      forest = w.forest;
      known_items = w.known_items;
    })

activate_version-IsSound :
    (n by : ℕ) (s s' : Boms) → activate_version n by s ≡ ok (tt, s') → IsSound s → IsSound s'
activate_version-IsSound n by s s' h w =
    let (v, found, result) = activate_version-result n by s s' h in
    subst IsSound (sym result) (record {
      versioned = activate-IsVersioned n by v s.versions found w.versioned;
      known_versions =
          All-update_where _ _ _
            (update_where (is_active_of v.bom_header_id) as_obsolete s.versions) (λ x lt _. lt)
            (All-update_where _ _ _ s.versions (λ x lt _. lt) w.known_versions);
      forest = w.forest;
      known_items = w.known_items;
    })

add_item-IsSound :
    (reading : Reading) (n : ℕ) (dto : BomItemDto) (i : BomItem) (s s' : Boms)
    → add_item reading n dto s ≡ ok (i, s')
    → IsSound s
    → IsSound s'
add_item-IsSound reading n dto i s s' h w =
    let (v, level, a) = add_item-IsAdded reading n dto i s s' w.forest h in
    subst IsSound (sym a.result) (record {
      versioned = w.versioned;
      known_versions = w.known_versions;
      forest = (a.placed, w.known_items, w.forest);
      known_items = (omega arith, All-map _ _ s.items (λ i lt. omega (arith, lt)) w.known_items);
    })

update_item-IsSound :
    (n : ℕ) (dto : UpdateItemDto) (s s' : Boms)
    → update_item n dto s ≡ ok (tt, s')
    → IsSound s
    → IsSound s'
update_item-IsSound n dto s s' h w =
    let (i, v, editable, result) = update_item-result n dto s s' h in
    subst IsSound (sym result) (record {
      versioned = w.versioned;
      known_versions = w.known_versions;
      forest = update_where-IsForest n dto s.items w.forest;
      known_items = fresh-updated n dto s.next_item s.items w.known_items;
    })

without-IsSound :
    (gone : BomItem → Bool) (s : Boms)
    → IsClosed gone s.items
    → IsSound s
    → IsSound (without gone s)
without-IsSound gone s closed w = record {
  versioned = w.versioned;
  known_versions = w.known_versions;
  forest = select_where-IsForest gone s.items closed w.forest;
  known_items = All-select_where _ (λ x. not (gone x)) s.items w.known_items;
}

delete_item-IsSound :
    (n : ℕ) (outcome : Option Failure) (s s' : Boms)
    → delete_item n s ≡ ok (outcome, s')
    → IsSound s
    → IsSound s'
delete_item-IsSound n outcome s s' h w =
    let (i, v, d) = delete_item-IsDeleted n outcome s s' h in
    let first = without-IsSound (is_child_of n) s d.closed w in
    elim d.result [
      | inl result ↦ subst IsSound (sym result) first
      | inr (closed, result) ↦
          subst IsSound (sym result)
            (without-IsSound (λ i. i.id == n) (without (is_child_of n) s) closed first)
    ]

pub Step-IsSound : (s s' : Boms) → Step s s' → IsSound s → IsSound s'
Step-IsSound s s' (created_header x by h e) =
    Untouched-IsSound s s' (create_header-Untouched x by h s s' e)
Step-IsSound s s' (updated_header n flag e) =
    Untouched-IsSound s s' (update_header-Untouched n flag s s' e)
Step-IsSound s s' (created_version clock n dto by v e) =
    create_version-IsSound clock n dto by v s s' e
Step-IsSound s s' (updated_version n dto e) = update_version-IsSound n dto s s' e
Step-IsSound s s' (activated n by e) = activate_version-IsSound n by s s' e
Step-IsSound s s' (added_item reading n dto i e) = add_item-IsSound reading n dto i s s' e
Step-IsSound s s' (updated_item n dto e) = update_item-IsSound n dto s s' e
Step-IsSound s s' (deleted_item n outcome e) = delete_item-IsSound n outcome s s' e
Step-IsSound s s' (added_operation n dto o e) =
    Untouched-IsSound s s' (add_operation-Untouched n dto o s s' e)
Step-IsSound s s' (updated_operation n dto e) =
    Untouched-IsSound s s' (update_operation-Untouched n dto s s' e)
Step-IsSound s s' (deleted_operation n e) =
    Untouched-IsSound s s' (delete_operation-Untouched n s s' e)
Step-IsSound s s' (added_by_product n dto b e) =
    Untouched-IsSound s s' (add_by_product-Untouched n dto b s s' e)
Step-IsSound s s' (deleted_by_product n e) =
    Untouched-IsSound s s' (delete_by_product-Untouched n s s' e)

-- Whatever calls of the service are made, in any order, from tables where this holds: at most one
-- version of a header is active, no two versions of a header have one number, and every item has
-- its parent in its own version, one level above it and older, or is at level 0 without a parent.
pub Reach-IsSound : (s t : Boms) → Reach s t → IsSound s → IsSound t
Reach-IsSound s t here w = w
Reach-IsSound s t (next {t = u} r step) w = Step-IsSound u t step (Reach-IsSound s u r w)
