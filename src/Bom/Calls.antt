-- ===== src/Bom/Calls.antt =====
-- What the calls of the service do, if they succeed (src/modules/bom/services/bom.service.ts).
use backend_erp.Prelude.{ℕ, ◌≡◌, inl, inr, Bool, Option, some, arith, Option-cases}
use backend_erp.Database.{ok}
use backend_erp.Accounting.Schema.{Clock}
use backend_erp.Bom.Schema.{Header, Version, Operation, ByProduct, Boms, find_version}
use backend_erp.Bom.Versions.{
  create_header, update_header, VersionDto, new_version, insert_version, create_version,
  UpdateVersionDto, updates_of, set_where, update_version, activate, activate_version,
}
use backend_erp.Bom.Routing.{
  OperationDto, add_operation, UpdateOperationDto, update_operation, delete_operation, ByProductDto,
  add_by_product, delete_by_product,
}

-- Calls that leave the versions and items alone.
abbrev pub Untouched : Boms → Boms → Type 0
Untouched s s' =
    (s'.versions ≡ s.versions)
    × (s'.items ≡ s.items)
    × (s'.next_version ≡ s.next_version)
    × (s'.next_item ≡ s.next_item)

pub create_header-Untouched :
    (variant_id by : ℕ) (h : Header) (s s' : Boms)
    → create_header variant_id by s ≡ ok (h, s')
    → Untouched s s'
unfolding create_header
create_header-Untouched variant_id by h s s' e = ground arith

pub update_header-Untouched :
    (n : ℕ) (flag : Option Bool) (s s' : Boms)
    → update_header n flag s ≡ ok (tt, s')
    → Untouched s s'
unfolding update_header
update_header-Untouched n flag s s' e = ground arith

pub add_operation-Untouched :
    (n : ℕ) (dto : OperationDto) (o : Operation) (s s' : Boms)
    → add_operation n dto s ≡ ok (o, s')
    → Untouched s s'
unfolding add_operation
add_operation-Untouched n dto o s s' e = ground arith

pub update_operation-Untouched :
    (n : ℕ) (dto : UpdateOperationDto) (s s' : Boms)
    → update_operation n dto s ≡ ok (tt, s')
    → Untouched s s'
unfolding update_operation
update_operation-Untouched n dto s s' e = ground arith

pub delete_operation-Untouched :
    (n : ℕ) (s s' : Boms) → delete_operation n s ≡ ok (tt, s') → Untouched s s'
unfolding delete_operation
delete_operation-Untouched n s s' e = ground arith

pub add_by_product-Untouched :
    (n : ℕ) (dto : ByProductDto) (b : ByProduct) (s s' : Boms)
    → add_by_product n dto s ≡ ok (b, s')
    → Untouched s s'
unfolding add_by_product
add_by_product-Untouched n dto b s s' e = ground arith

pub delete_by_product-Untouched :
    (n : ℕ) (s s' : Boms) → delete_by_product n s ≡ ok (tt, s') → Untouched s s'
unfolding delete_by_product
delete_by_product-Untouched n s s' e = ground arith

pub create_version-result :
    (clock : Clock) (n : ℕ) (dto : VersionDto) (by : ℕ) (v : Version) (s s' : Boms)
    → create_version clock n dto by s ≡ ok (v, s')
    → s' ≡ insert_version (new_version clock n dto by s) s
unfolding create_version
create_version-result clock n dto by v s s' e = ground arith

pub update_version-result :
    (n : ℕ) (dto : UpdateVersionDto) (s s' : Boms)
    → update_version n dto s ≡ ok (tt, s')
    → (v : Version) × (find_version n s.versions ≡ some v)
      × (s' ≡ set_where n (updates_of dto v.status) s)
unfolding update_version
update_version-result n dto s s' e = elim (Option-cases (find_version n s.versions)) [
  | inl f ↦ cc (rw f at e)
  | inr (v, f) ↦ (v, f, ground (arith, f))
]

pub activate_version-result :
    (n by : ℕ) (s s' : Boms)
    → activate_version n by s ≡ ok (tt, s')
    → (v : Version) × (find_version n s.versions ≡ some v) × (s' ≡ activate n v.bom_header_id by s)
unfolding activate_version
activate_version-result n by s s' e = elim (Option-cases (find_version n s.versions)) [
  | inl f ↦ cc (rw f at e)
  | inr (v, f) ↦ (v, f, ground (arith, f))
]
