-- ===== src/Accounting/ChartRooted.antt =====
-- What an update keeps of the chart of accounts (`update`
-- of src/modules/accounting/services/account.service.ts).
use backend_erp.Prelude.{
  ℕ, ◌+◌, ◌<◌, ◌==◌, if◌then◌else◌, Bool, true, false, ◌&&◌, ◌≡◌, ◌≢◌, refl, sym, ◌∙◌, inl, inr, ap,
  Option, none, some, List, [], ◌∷◌, arith, Bool-cases, All, All-zip, update_where,
}
use backend_erp.Accounting.Chart.{
  ChartAccount, Chart, UpdateAccountDto, find_row, is_false, is_system, with_changes,
}

-- An account has no parent and level 1, or lies one level below an older header. The accounts that
-- the migration inserts, with identifiers below `seeded`, have no parent and any level.
pub data IsUnder (seeded : ℕ) (as_ : List ChartAccount) (a : ChartAccount) : Type 0 where
  at_seed : a.parent_id ≡ none → a.id < seeded → IsUnder seeded as_ a
  at_root : a.parent_id ≡ none → a.level ≡ 1 → IsUnder seeded as_ a
  below :
      (parent : ChartAccount)
      → a.parent_id ≡ some parent.id
      → find_row parent.id as_ ≡ some parent
      → parent.is_header ≡ true
      → a.level ≡ parent.level + 1
      → parent.id < a.id
      → IsUnder seeded as_ a

-- no two accounts of one code
abbrev pub HasDistinctCodes : List ChartAccount → Type 0
HasDistinctCodes [] = Unit
HasDistinctCodes (a ∷ as_) = All (λ b. (b.code == a.code) ≡ false) as_ × HasDistinctCodes as_

-- no two rows of one identifier
abbrev pub IsNewestFirst : List ChartAccount → Type 0
IsNewestFirst [] = Unit
IsNewestFirst (a ∷ as_) = All (λ b. b.id < a.id) as_ × IsNewestFirst as_

pub record IsRooted (seeded : ℕ) (s : Chart) : Type 0 where
  pub under : All (IsUnder seeded s.accounts) s.accounts
  pub codes : HasDistinctCodes s.accounts
  pub active : All (λ a. is_system a ≡ true → a.is_active ≢ some false) s.accounts
  pub ids : All (λ a. a.id < s.next_account) s.accounts
  pub newest_first : IsNewestFirst s.accounts

active_after :
    (o : Option (Option Bool)) (a : ChartAccount)
    → (is_false o && is_system a) ≡ false
    → (is_system a ≡ true → a.is_active ≢ some false)
    → is_system a ≡ true
    → (elim o [ none ↦ a.is_active | some b ↦ b ]) ≢ some false
active_after none a test h system = h system
active_after (some none) a test h system = λ e. cc
active_after (some (some true)) a test h system = λ e. cc
active_after (some (some false)) a test h system = ground (arith, test, system)

module _ (n : ℕ) (dto : UpdateAccountDto) where
  abbrev pub changed : ChartAccount → ChartAccount
  changed a = if a.id == n then with_changes dto a else a

  abbrev pub update_rows : List ChartAccount → List ChartAccount
  update_rows as_ = update_where (λ a. a.id == n) (with_changes dto) as_

  -- What an update does not touch.
  pub record IsSameBut (a b : ChartAccount) : Type 0 where
    pub id : b.id ≡ a.id
    pub code : b.code ≡ a.code
    pub parent_id : b.parent_id ≡ a.parent_id
    pub is_header : b.is_header ≡ a.is_header
    pub level : b.level ≡ a.level
    system : is_system b ≡ is_system a

  pub changed-IsSameBut : (a : ChartAccount) → IsSameBut a (changed a)
  changed-IsSameBut a = either (a.id == n)
    where
      either : (t : Bool) → IsSameBut a (if t then with_changes dto a else a)
      either true = record {
        id = refl;
        code = refl;
        parent_id = refl;
        is_header = refl;
        level = refl;
        system = refl;
      }
      either false = record {
        id = refl;
        code = refl;
        parent_id = refl;
        is_header = refl;
        level = refl;
        system = refl;
      }

  find_row-update_rows :
      (k : ℕ) (as_ : List ChartAccount) (a : ChartAccount)
      → find_row k as_ ≡ some a
      → find_row k (update_rows as_) ≡ some (changed a)
  find_row-update_rows k [] a h = cc
  find_row-update_rows k (b ∷ bs) a h =
      let same = changed-IsSameBut b in
      elim (Bool-cases (b.id == k)) [
        | inl e ↦
            let here : b ≡ a = ground (arith, h, e) in
            let test : ((changed b).id == k) ≡ true = ground (arith, same.id, e) in
            rw test (ap (λ z. some (changed z)) here)
        | inr e ↦
            let test : ((changed b).id == k) ≡ false = ground (arith, same.id, e) in
            rw test (find_row-update_rows k bs a (rw e at h))
      ]

  pub IsUnder-update :
      (seeded : ℕ) (as_ : List ChartAccount) (a : ChartAccount)
      → IsUnder seeded as_ a
      → IsUnder seeded (update_rows as_) (changed a)
  IsUnder-update seeded as_ a (at_seed e lt) =
      let same = changed-IsSameBut a in at_seed (same.parent_id ∙ e) (ground (arith, same.id, lt))
  IsUnder-update seeded as_ a (at_root e l) =
      let same = changed-IsSameBut a in at_root (same.parent_id ∙ e) (same.level ∙ l)
  IsUnder-update seeded as_ a (below parent e found h l lt) =
      let same = changed-IsSameBut a in
      let up = changed-IsSameBut parent in
      below (changed parent) (same.parent_id ∙ e ∙ ap some (sym up.id))
        (ap (λ k. find_row k (update_rows as_)) up.id
          ∙ find_row-update_rows parent.id as_ parent found)
        (up.is_header ∙ h) (ground (arith, same.level, up.level, l))
        (ground (arith, same.id, up.id, lt))

  pub All-changed :
      (P Q : ChartAccount → Type 0) (as_ : List ChartAccount)
      → ((a : ChartAccount) → P a → Q (changed a))
      → All P as_
      → All Q (update_rows as_)
  All-changed P Q [] keep h = tt
  All-changed P Q (a ∷ as_) keep h = (keep a h.0, All-changed P Q as_ keep h.1)

  pub HasDistinctCodes-update :
      (as_ : List ChartAccount) → HasDistinctCodes as_ → HasDistinctCodes (update_rows as_)
  HasDistinctCodes-update [] h = tt
  HasDistinctCodes-update (a ∷ as_) h = (
    All-changed _ _ as_
        (λ b ne.
          ap (λ k. k == (changed a).code) (changed-IsSameBut b).code
          ∙ ap (λ k. b.code == k) (changed-IsSameBut a).code
          ∙ ne)
        h.0,
    HasDistinctCodes-update as_ h.1,
  )

  pub IsNewestFirst-update :
      (as_ : List ChartAccount) → IsNewestFirst as_ → IsNewestFirst (update_rows as_)
  IsNewestFirst-update [] h = tt
  IsNewestFirst-update (a ∷ as_) h = (
    All-changed _ _ as_
        (λ b lt. ground (arith, lt, (changed-IsSameBut a).id, (changed-IsSameBut b).id)) h.0,
    IsNewestFirst-update as_ h.1,
  )

  pub stays_active :
      (as_ : List ChartAccount) (found : ChartAccount)
      → IsNewestFirst as_
      → find_row n as_ ≡ some found
      → (is_false dto.is_active && is_system found) ≡ false
      → All (λ a. is_system a ≡ true → a.is_active ≢ some false) as_
      → All (λ a. is_system a ≡ true → a.is_active ≢ some false) (update_rows as_)
  stays_active [] found newest e test h = cc
  stays_active (a ∷ as_) found newest e test h = elim (Bool-cases (a.id == n)) [
    | inl t ↦
        let same : a ≡ found = ground (arith, e, t) in
        (
          rw t (
              active_after dto.is_active a
                (ap (λ z. is_false dto.is_active && is_system z) same ∙ test) h.0),
          All-changed _ _ as_
              (λ b k. let other : (b.id == n) ≡ false = ground (arith, k.0, t) in rw other k.1)
              (All-zip _ _ as_ newest.0 h.1),
        )
    | inr t ↦ (rw t h.0, stays_active as_ found newest.1 (rw t at e) test h.1)
  ]
