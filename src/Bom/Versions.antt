-- ===== src/Bom/Versions.antt =====
-- The headers and versions of src/modules/bom/services/bom.service.ts.
use backend_erp.Prelude.{
  ℕ, suc, ◌/◌, ◌==◌, leb, if◌then◌else◌, Bool, true, not, ◌&&◌, Option, none, some, List, [], ◌∷◌,
  take_first, exists_where, update_where,
}
use backend_erp.Database.{
  Action, not_found, conflict, bad_request, ◌>>=◌, ◌>>◌, pure, gets, or_throw, throw_if, modify,
}
use backend_erp.Accounting.Schema.{Clock, ms_per_day}
use backend_erp.Inventory.Schema.{Variant}
use backend_erp.Bom.Schema.{
  Header, VersionStatus, Version, Boms, find_header, find_version, is_active, is_obsolete,
}

abbrev pub is_active_variant : ℕ → Variant → Bool
is_active_variant variant_id v = v.id == variant_id && v.is_active

abbrev pub new_header : ℕ → ℕ → Boms → Header
new_header variant_id created_by s = record {
  id = s.next_header;
  variant_id = variant_id;
  is_active = true;
  created_by = created_by;
}

abbrev pub insert_header : Header → Boms → Boms
insert_header h s = record s { headers = h ∷ s.headers; next_header = suc s.next_header }

-- `createHeader`
unfoldable pub create_header : ℕ → ℕ → Action Boms Header
create_header variant_id created_by = do
  throw_if (← gets (λ s. exists_where (λ h. h.variant_id == variant_id) s.headers)) conflict
  or_throw (← gets (λ s. take_first (is_active_variant variant_id) s.variants)) not_found
  header ← gets (new_header variant_id created_by)
  modify (insert_header header)
  pure header

abbrev pub set_or_keep {ℓ} : {A : Type ℓ} → Option A → A → A
set_or_keep none a = a
set_or_keep (some b) a = b

-- `updateHeader`
unfoldable pub update_header : ℕ → Option Bool → Action Boms (Unit {0})
update_header header_id is_active = do
  or_throw (← gets (λ s. find_header header_id s.headers)) not_found
  modify (λ s. record s {
    headers =
        update_where (λ h. h.id == header_id)
          (λ h. record h { is_active = set_or_keep is_active h.is_active }) s.headers;
  })

-- Dates are times.
pub record VersionDto : Type 0 where
  pub version_name : Option ℕ
  pub output_quantity : ℕ
  pub output_uom_id : ℕ
  pub effective_from : Option ℕ
  pub effective_to : Option ℕ

-- `max(version_number)`, 0 where there is none
abbrev pub max_number : ℕ → List Version → ℕ
max_number header_id [] = 0
max_number header_id (v ∷ vs) =
    let rest = max_number header_id vs in
    if v.bom_header_id == header_id
    then (if leb rest v.version_number then v.version_number else rest)
    else rest

abbrev pub day_or_today : Clock → Option ℕ → ℕ
day_or_today clock none = clock.now / ms_per_day
day_or_today clock (some t) = t / ms_per_day

abbrev pub day_or_none : Option ℕ → Option ℕ
day_or_none none = none
day_or_none (some t) = some (t / ms_per_day)

abbrev pub new_version : Clock → ℕ → VersionDto → ℕ → Boms → Version
new_version clock header_id dto created_by s = record {
  id = s.next_version;
  bom_header_id = header_id;
  version_number = suc (max_number header_id s.versions);
  version_name = dto.version_name;
  status = VersionStatus.draft;
  output_quantity = dto.output_quantity;
  output_uom_id = dto.output_uom_id;
  effective_from = day_or_today clock dto.effective_from;
  effective_to = day_or_none dto.effective_to;
  created_by = created_by;
  approved_by = none;
}

abbrev pub insert_version : Version → Boms → Boms
insert_version v s = record s { versions = v ∷ s.versions; next_version = suc s.next_version }

-- `createVersion`
unfoldable pub create_version : Clock → ℕ → VersionDto → ℕ → Action Boms Version
create_version clock header_id dto created_by = do
  or_throw (← gets (λ s. find_header header_id s.headers)) not_found
  throw_if (not (← gets (λ s. exists_where (λ u. u == dto.output_uom_id) s.uoms))) not_found
  version ← gets (new_version clock header_id dto created_by)
  modify (insert_version version)
  pure version

-- A field is absent, or null, or a value; null clears the column.
pub record UpdateVersionDto : Type 0 where
  pub version_name : Option (Option ℕ)
  pub effective_to : Option (Option ℕ)

abbrev pub set_effective_to : Option (Option ℕ) → Version → Version
set_effective_to none v = v
set_effective_to (some t) v = record v { effective_to = day_or_none t }

abbrev pub set_version_name : Option (Option ℕ) → Version → Version
set_version_name none v = v
set_version_name (some n) v = record v { version_name = n }

abbrev pub set_where : ℕ → (Version → Version) → Boms → Boms
set_where version_id f s = record s {
  versions = update_where (λ v. v.id == version_id) f s.versions;
}

-- what `updateVersion` sets: of an active version only the end of its validity
abbrev pub updates_of : UpdateVersionDto → VersionStatus → Version → Version
updates_of dto VersionStatus.active v = set_effective_to dto.effective_to v
updates_of dto _ v = set_effective_to dto.effective_to (set_version_name dto.version_name v)

-- `updateVersion`
unfoldable pub update_version : ℕ → UpdateVersionDto → Action Boms (Unit {0})
update_version version_id dto = do
  version ← or_throw (← gets (λ s. find_version version_id s.versions)) not_found
  modify (set_where version_id (updates_of dto version.status))

abbrev pub is_active_of : ℕ → Version → Bool
is_active_of header_id v = v.bom_header_id == header_id && is_active v.status

abbrev pub as_obsolete : Version → Version
as_obsolete v = record v { status = VersionStatus.obsolete }

abbrev pub as_active : ℕ → Version → Version
as_active approved_by v = record v { status = VersionStatus.active; approved_by = some approved_by }

-- the two updates of `activateVersion`
abbrev pub activate : ℕ → ℕ → ℕ → Boms → Boms
activate version_id header_id approved_by s = record s {
  versions =
      update_where (λ v. v.id == version_id) (as_active approved_by)
        (update_where (is_active_of header_id) as_obsolete s.versions);
}

-- `activateVersion`
unfoldable pub activate_version : ℕ → ℕ → Action Boms (Unit {0})
activate_version version_id approved_by = do
  version ← or_throw (← gets (λ s. find_version version_id s.versions)) not_found
  throw_if (is_active version.status) conflict
  throw_if (is_obsolete version.status) conflict
  throw_if (not (← gets (λ s. exists_where (λ i. i.bom_version_id == version_id) s.items)))
      bad_request
  modify (activate version_id version.bom_header_id approved_by)

abbrev pub is_active_for : ℕ → List Header → Version → Bool
is_active_for variant_id headers v =
    exists_where (λ h. h.id == v.bom_header_id && h.variant_id == variant_id) headers
    && is_active v.status

-- `getActiveVersionForVariant`
unfoldable pub get_active_version_for_variant : ℕ → Action Boms Version
get_active_version_for_variant variant_id = do
  or_throw (← gets (λ s. take_first (is_active_for variant_id s.headers) s.versions)) not_found
