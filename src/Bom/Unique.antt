-- ===== src/Bom/Unique.antt =====
-- At most one version of a header is active, and no two versions of a header have one number.
use backend_erp.Prelude.{
  ℕ, suc, ◌≤◌, ◌<◌, ◌==◌, if◌then◌else◌, ◌≡◌, refl, sym, inl, inr, true, false, some, List, [], ◌∷◌,
  ◌&&◌, arith, Bool-cases, All, All-map, ap, subst, Bool, count, count-none, count-update_where,
  update_where,
}
use backend_erp.Bom.Schema.{Version, find_version, is_active}
use backend_erp.Bom.Versions.{max_number, is_active_of, as_obsolete, as_active}

abbrev pub is_numbered : ℕ → ℕ → Version → Bool
is_numbered header_id number v = v.bom_header_id == header_id && v.version_number == number

abbrev pub IsNewestFirst : List Version → Type 0
IsNewestFirst [] = Unit
IsNewestFirst (v ∷ vs) = (All (λ w. w.id < v.id) vs) × IsNewestFirst vs

pub record IsVersioned (vs : List Version) : Type 0 where
  pub newest_first : IsNewestFirst vs
  pub one_active : (header_id : ℕ) → count (is_active_of header_id) vs ≤ 1
  pub one_number : (header_id number : ℕ) → count (is_numbered header_id number) vs ≤ 1

pub max_number-All :
    (header_id : ℕ) (vs : List Version)
    → All (λ v. is_numbered header_id (suc (max_number header_id vs)) v ≡ false) vs
max_number-All header_id vs =
    All-map _ _ vs
      (λ v le. elim (Bool-cases (v.bom_header_id == header_id)) [
        | inl e ↦ ground (arith, e, le e)
        | inr e ↦ rw e refl
      ])
      (bounded vs)
  where
    bounded :
        (vs : List Version)
        → All
            (λ v.
              (v.bom_header_id == header_id) ≡ true → v.version_number ≤ max_number header_id vs)
            vs
    bounded [] = tt
    bounded (v ∷ vs) =
        (λ e. ground (arith, e), All-map _ _ vs (λ w le e. ground (arith, le e)) (bounded vs))

one_id : (n : ℕ) (vs : List Version) → IsNewestFirst vs → count (λ v. v.id == n) vs ≤ 1
one_id n [] h = omega arith
one_id n (v ∷ vs) (older, rest) = elim (Bool-cases (v.id == n)) [
  | inl e ↦
      let none_older =
        count-none (λ w. w.id == n) vs (All-map _ _ vs (λ w lt. ground (arith, e)) older) in
      ground (arith, e, none_older)
  | inr e ↦ ground (arith, e, one_id n vs rest)
]

-- The rows with an identifier are the one that is found.
pub find_version-All :
    (n : ℕ) (vs : List Version) (v : Version)
    → IsNewestFirst vs
    → find_version n vs ≡ some v
    → All (λ w. (w.id == n) ≡ true → w.bom_header_id ≡ v.bom_header_id) vs
find_version-All n [] v h found = cc
find_version-All n (w ∷ ws) v (older, rest) found = elim (Bool-cases (w.id == n)) [
  | inl e ↦
      let same : w ≡ v = ground arith in
      (λ _. ap (λ z. z.bom_header_id) same, All-map _ _ ws (λ z lt eq. ground (arith, e)) older)
  | inr e ↦ (λ eq. ground (arith, e), find_version-All n ws v rest (ground (arith, e)))
]

module _ (n header_id approved_by : ℕ) where
  abbrev activated : List Version → List Version
  activated vs =
      update_where (λ v. v.id == n) (as_active approved_by)
        (update_where (is_active_of header_id) as_obsolete vs)

  active_here :
      (vs : List Version)
      → count (is_active_of header_id) (activated vs) ≤ count (λ v. v.id == n) vs
  active_here [] = omega arith
  active_here (v ∷ vs) = ground (arith, active_here vs)

  active_elsewhere :
      (other : ℕ) (vs : List Version)
      → (header_id == other) ≡ false
      → All (λ w. (w.id == n) ≡ true → w.bom_header_id ≡ header_id) vs
      → count (is_active_of other) (activated vs) ≡ count (is_active_of other) vs
  active_elsewhere other [] ne h = refl
  active_elsewhere other (v ∷ vs) ne h = ground (arith, active_elsewhere other vs ne h.1, h.0)

IsNewestFirst-update_where :
    (where_ : Version → Bool) (f : Version → Version) (vs : List Version)
    → ((v : Version) → (f v).id ≡ v.id)
    → IsNewestFirst vs
    → IsNewestFirst (update_where where_ f vs)
IsNewestFirst-update_where where_ f [] same h = tt
IsNewestFirst-update_where where_ f (v ∷ vs) same (older, rest) =
    (All-older vs older, IsNewestFirst-update_where where_ f vs same rest)
  where
    All-older :
        (ws : List Version)
        → All (λ w. w.id < v.id) ws
        → All (λ w. w.id < (if where_ v then f v else v).id) (update_where where_ f ws)
    All-older [] h = tt
    All-older (w ∷ ws) h = (ground (arith, h.0, same v, same w), All-older ws h.1)

-- An update of what is not an identifier, a header, a number or a status.
pub update_where-IsVersioned :
    (where_ : Version → Bool) (f : Version → Version) (vs : List Version)
    → ((v : Version) → (f v).id ≡ v.id)
    → ((header_id : ℕ) (v : Version) → is_active_of header_id (f v) ≡ is_active_of header_id v)
    → ((header_id number : ℕ) (v : Version)
        → is_numbered header_id number (f v) ≡ is_numbered header_id number v)
    → IsVersioned vs
    → IsVersioned (update_where where_ f vs)
update_where-IsVersioned where_ f vs same_id same_active same_number w = record {
  newest_first = IsNewestFirst-update_where where_ f vs same_id w.newest_first;
  one_active = λ h.
      omega
        (arith, w.one_active h, count-update_where (is_active_of h) where_ f vs (same_active h));
  one_number = λ h n.
      omega (
        arith,
        w.one_number h n,
        count-update_where (is_numbered h n) where_ f vs (same_number h n),
      );
}

pub create-IsVersioned :
    (v : Version) (vs : List Version)
    → All (λ w. w.id < v.id) vs
    → is_active v.status ≡ false
    → v.version_number ≡ suc (max_number v.bom_header_id vs)
    → IsVersioned vs
    → IsVersioned (v ∷ vs)
create-IsVersioned v vs older inactive number w = record {
  newest_first = (older, w.newest_first);
  one_active = λ h. ground (arith, inactive, w.one_active h);
  one_number = λ h n. elim (Bool-cases (is_numbered h n v)) [
    | inl e ↦
        let header : v.bom_header_id ≡ h = ground arith in
        let same : n ≡ suc (max_number h vs) =
          subst (λ z. n ≡ suc (max_number z vs)) header (ground arith) in
        let none_older =
          count-none (is_numbered h n) vs (
            subst (λ z. All (λ v. is_numbered h z v ≡ false) vs) (sym same)
              (max_number-All h vs)) in
        ground (arith, e, none_older)
    | inr e ↦ ground (arith, e, w.one_number h n)
  ];
}

pub activate-IsVersioned :
    (n approved_by : ℕ) (v : Version) (vs : List Version)
    → find_version n vs ≡ some v
    → IsVersioned vs
    → IsVersioned (activated n v.bom_header_id approved_by vs)
activate-IsVersioned n approved_by v vs found w =
    let middle = update_where (is_active_of v.bom_header_id) as_obsolete vs in
    record {
      newest_first =
          IsNewestFirst-update_where _ _ middle (λ _. refl)
            (IsNewestFirst-update_where _ _ vs (λ _. refl) w.newest_first);
      one_active = λ h. elim (Bool-cases (v.bom_header_id == h)) [
        | inl e ↦
            let same : v.bom_header_id ≡ h = ground arith in
            subst (λ z. count (is_active_of z) (activated n v.bom_header_id approved_by vs) ≤ 1)
              same
              (omega
                (arith, active_here n v.bom_header_id approved_by vs, one_id n vs w.newest_first))
        | inr e ↦ omega (
          arith,
          w.one_active h,
          active_elsewhere n v.bom_header_id approved_by h vs e
              (find_version-All n vs v w.newest_first found),
        )
      ];
      one_number = λ h k. omega (
        arith,
        w.one_number h k,
        count-update_where (is_numbered h k) (λ v. v.id == n) (as_active approved_by) middle
            (λ _. refl),
        count-update_where (is_numbered h k) (is_active_of v.bom_header_id) as_obsolete vs
            (λ _. refl),
      );
    }
