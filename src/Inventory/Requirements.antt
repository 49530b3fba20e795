-- ===== src/Inventory/Requirements.antt =====
-- The Map `requirements` of `validateSufficientStock`: it holds one entry for a key, with the sum of
-- what the items take from it.
use backend_erp.Prelude.{
  ℕ, ◌+◌, ◌==◌, ltb, if◌then◌else◌, ◌≡◌, refl, ◌⊎◌, inl, inr, Bool, true, false, Option, none, some,
  List, [], ◌∷◌, arith, Bool-cases, All, subst,
}
use backend_erp.Prelude.Int.{ℤ, pos, ◌≤ℤ◌, ltb_ℤ}
use backend_erp.Database.{ok}
use backend_erp.Inventory.Schema.{Item, Key, Stock}
use backend_erp.Inventory.OnHand.{stock_on_hand, key_at}
use backend_erp.Inventory.Movements.{
  Requirement, batch_number, same_text, add_requirement, require_from, requirements_of,
  check_requirements,
}

-- What the Map asks of a key.
abbrev pub need : List Requirement → Key → ℕ
need [] k = 0
need (r ∷ rs) k = (if same_text r.key k then r.quantity else 0) + need rs k

need-add_requirement :
    (j k : Key) (n : ℕ) (rs : List Requirement)
    → need (add_requirement j n rs) k ≡ (if same_text j k then n else 0) + need rs k
need-add_requirement j k n [] = refl
need-add_requirement j k n (r ∷ rs) = ground (arith, need-add_requirement j k n rs)

-- What an item takes from a key.
abbrev pub taken_by : Key → Item → Option ℕ → ℕ
taken_by k i none = 0
taken_by k i (some w) = if same_text (key_at i w) k then i.quantity else 0

abbrev pub taken : Key → List Item → ℕ
taken k [] = 0
taken k (i ∷ is) = taken_by k i i.from_warehouse_id + taken k is

need-require_from :
    (k : Key) (i : Item) (o : Option ℕ) (rs : List Requirement)
    → need (require_from i o rs) k ≡ taken_by k i o + need rs k
need-require_from k i none rs = omega arith
need-require_from k i (some w) rs = need-add_requirement (key_at i w) k i.quantity rs

pub need-requirements_of : (k : Key) (is : List Item) → need (requirements_of is) k ≡ taken k is
need-requirements_of k [] = refl
need-requirements_of k (i ∷ is) = omega (
  arith,
  need-require_from k i i.from_warehouse_id (requirements_of is),
  need-requirements_of k is,
)

-- No two entries have the same text.
abbrev pub Distinct : List Requirement → Type 0
Distinct [] = Unit
Distinct (r ∷ rs) = All (λ q. same_text q.key r.key ≡ false) rs × Distinct rs

-- What holds of all keys and of the one that is added holds of all afterwards.
add_requirement-All :
    (P : Key → Type 0) (j : Key) (n : ℕ) (rs : List Requirement)
    → P j
    → All (λ r. P r.key) rs
    → All (λ r. P r.key) (add_requirement j n rs)
add_requirement-All P j n [] h hs = (h, tt)
add_requirement-All P j n (r ∷ rs) h hs = elim (Bool-cases (same_text r.key j)) [
  | inl e ↦ rw e hs
  | inr e ↦ rw e (hs.0, add_requirement-All P j n rs h hs.1)
]

add_requirement-Distinct :
    (j : Key) (n : ℕ) (rs : List Requirement) → Distinct rs → Distinct (add_requirement j n rs)
add_requirement-Distinct j n [] d = (tt, tt)
add_requirement-Distinct j n (r ∷ rs) d = elim (Bool-cases (same_text r.key j)) [
  | inl e ↦ rw e d
  | inr e ↦
      let other : same_text j r.key ≡ false = ground arith in
      rw e (
        add_requirement-All (λ k. same_text k r.key ≡ false) j n rs other d.0,
        add_requirement-Distinct j n rs d.1,
      )
]

require_from-Distinct :
    (i : Item) (o : Option ℕ) (rs : List Requirement) → Distinct rs → Distinct (require_from i o rs)
require_from-Distinct i none rs d = d
require_from-Distinct i (some w) rs d = add_requirement-Distinct (key_at i w) i.quantity rs d

pub requirements_of-Distinct : (is : List Item) → Distinct (requirements_of is)
requirements_of-Distinct [] = tt
requirements_of-Distinct (i ∷ is) =
    require_from-Distinct i i.from_warehouse_id (requirements_of is) (requirements_of-Distinct is)

-- Identifiers begin at 1, so 0 is no batch.
abbrev pub is_real : Option ℕ → Bool
is_real none = true
is_real (some n) = ltb 0 n

require_from-All :
    (i : Item) (o : Option ℕ) (rs : List Requirement)
    → is_real i.batch_id ≡ true
    → All (λ r. is_real r.key.batch_id ≡ true) rs
    → All (λ r. is_real r.key.batch_id ≡ true) (require_from i o rs)
require_from-All i none rs h hs = hs
require_from-All i (some w) rs h hs =
    add_requirement-All (λ k. is_real k.batch_id ≡ true) (key_at i w) i.quantity rs h hs

pub requirements_of-All :
    (is : List Item)
    → All (λ i. is_real i.batch_id ≡ true) is
    → All (λ r. is_real r.key.batch_id ≡ true) (requirements_of is)
requirements_of-All [] h = tt
requirements_of-All (i ∷ is) h =
    require_from-All i i.from_warehouse_id (requirements_of is) h.0 (requirements_of-All is h.1)

batch_number-eq :
    (a b : Option ℕ)
    → is_real a ≡ true
    → is_real b ≡ true
    → (batch_number a == batch_number b) ≡ true
    → a ≡ b
batch_number-eq none none ra rb e = refl
batch_number-eq none (some b) ra rb e = ground arith
batch_number-eq (some a) none ra rb e = ground arith
batch_number-eq (some a) (some b) ra rb e = ground arith

-- Of real batches the text tells the keys apart.
same_text-eq :
    (j k : Key)
    → is_real j.batch_id ≡ true
    → is_real k.batch_id ≡ true
    → same_text j k ≡ true
    → j ≡ k
same_text-eq j k rj rk e =
    let v : j.variant_id ≡ k.variant_id = ground arith in
    let w : j.warehouse_id ≡ k.warehouse_id = ground arith in
    let b : j.batch_id ≡ k.batch_id = batch_number-eq j.batch_id k.batch_id rj rk (ground arith) in
    λ i. record { variant_id = v i; warehouse_id = w i; batch_id = b i }

need_none :
    (k : Key) (rs : List Requirement) → All (λ q. same_text q.key k ≡ false) rs → need rs k ≡ 0
need_none k [] h = refl
need_none k (r ∷ rs) h = ground (arith, need_none k rs h.1)

-- If every entry is covered, what the Map asks of a key is covered, or is nothing.
pub need-bounded :
    (f : Key → ℤ) (k : Key) (rs : List Requirement)
    → is_real k.batch_id ≡ true
    → Distinct rs
    → All (λ r. is_real r.key.batch_id ≡ true) rs
    → All (λ r. ltb_ℤ (f r.key) (pos r.quantity) ≡ false) rs
    → (need rs k ≡ 0) ⊎ (pos (need rs k) ≤ℤ f k)
need-bounded f k [] real d reals h = inl refl
need-bounded f k (r ∷ rs) real d reals h = elim (Bool-cases (same_text r.key k)) [
  | inr e ↦
      let skip : need rs k ≡ need (r ∷ rs) k = ground (arith, e) in
      subst (λ n. (n ≡ 0) ⊎ (pos n ≤ℤ f k)) skip (need-bounded f k rs real d.1 reals.1 h.1)
  | inl e ↦
      let same = same_text-eq r.key k reals.0 real e in
      let rest = need_none k rs (subst (λ x. All (λ q. same_text q.key x ≡ false) rs) same d.0) in
      let here : ltb_ℤ (f k) (pos r.quantity) ≡ false =
        subst (λ x. ltb_ℤ (f x) (pos r.quantity) ≡ false) same h.0 in
      inr (ground (arith, rest, e, here))
]

pub check_requirements-All :
    (rs : List Requirement) (s s' : Stock)
    → check_requirements rs s ≡ ok (tt, s')
    → (s' ≡ s) × All (λ r. ltb_ℤ (stock_on_hand r.key s) (pos r.quantity) ≡ false) rs
check_requirements-All [] s s' h = (ground arith, tt)
check_requirements-All (r ∷ rs) s s' h =
    elim (Bool-cases (ltb_ℤ (stock_on_hand r.key s) (pos r.quantity))) [
      | inl e ↦ cc (rw e at h)
      | inr e ↦ let (same, rest) = check_requirements-All rs s s' (rw e at h) in (same, (e, rest))
    ]
