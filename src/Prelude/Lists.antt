-- ===== src/Prelude/Lists.antt =====
-- Predicates on lists by recursion, and the four statements that the services issue against a
-- table: select the rows that pass a test, take the first, ask whether one exists, update them.
use Prim.Native.Nat.{ℕ, suc, ◌+◌}
use mathlib.Core.Path.{◌≡◌, refl, subst, sym}
use mathlib.Core.Bool.{Bool, true, false, ◌||◌, false≢true}
use mathlib.Core.List.{List, [], ◌∷◌, ◌++◌}
use mathlib.Core.Logic.{inl, inr}
use mathlib.Core.Option.{Option, none, some}
use native.Mathlib.Omega.{arith}
use backend_erp.Prelude.Tests.{if◌then◌else◌, Bool-cases}

abbrev pub All {ℓ κ} : {A : Type ℓ} → (A → Type κ) → List A → Type κ
All P [] = Unit
All P (x ∷ xs) = P x × All P xs

module _ {ℓ} {A : Type ℓ} where
  abbrev pub length : List A → ℕ
  length [] = 0
  length (x ∷ xs) = suc (length xs)

  abbrev pub sum_of : (A → ℕ) → List A → ℕ
  sum_of f [] = 0
  sum_of f (x ∷ xs) = f x + sum_of f xs

  -- `SELECT … WHERE test`
  abbrev pub select_where : (A → Bool) → List A → List A
  select_where test [] = []
  select_where test (x ∷ xs) = if test x then x ∷ select_where test xs else select_where test xs

  -- `SELECT … WHERE test LIMIT 1` (`executeTakeFirst`)
  abbrev pub take_first : (A → Bool) → List A → Option A
  take_first test [] = none
  take_first test (x ∷ xs) = if test x then some x else take_first test xs

  -- whether a row passes the test
  abbrev pub exists_where : (A → Bool) → List A → Bool
  exists_where test [] = false
  exists_where test (x ∷ xs) = test x || exists_where test xs

  -- `UPDATE … SET … WHERE test`
  abbrev pub update_where : (A → Bool) → (A → A) → List A → List A
  update_where test f [] = []
  update_where test f (x ∷ xs) = (if test x then f x else x) ∷ update_where test f xs

module _ {ℓ κ} {A : Type ℓ} where
  pub All-append : (P : A → Type κ) (xs ys : List A) → All P xs → All P ys → All P (xs ++ ys)
  All-append P [] ys hx hy = hy
  All-append P (x ∷ xs) ys hx hy = (hx.0, All-append P xs ys hx.1 hy)

  pub All-intro : (P : A → Type κ) (xs : List A) → ((x : A) → P x) → All P xs
  All-intro P [] f = tt
  All-intro P (x ∷ xs) f = (f x, All-intro P xs f)

  pub All-update_where :
      (P : A → Type κ) (test : A → Bool) (f : A → A) (xs : List A)
      → ((x : A) → P x → test x ≡ true → P (f x))
      → All P xs
      → All P (update_where test f xs)
  All-update_where P test f [] keep h = tt
  All-update_where P test f (x ∷ xs) keep h = (
    elim (Bool-cases (test x)) [ inl e ↦ rw e (keep x h.0 e) | inr e ↦ rw e h.0 ],
    All-update_where P test f xs keep h.1,
  )

  pub All-take_first :
      (P : A → Type κ) (test : A → Bool) (xs : List A) (x : A)
      → All P xs
      → take_first test xs ≡ some x
      → P x × (test x ≡ true)
  All-take_first P test [] y h e = cc
  All-take_first P test (x ∷ xs) y h e = elim (Bool-cases (test x)) [
    | inl t ↦
        (let same : x ≡ y = ground arith in (subst P same h.0, subst (λ z. test z ≡ true) same t))
    | inr t ↦ All-take_first P test xs y h.1 (rw t at e)
  ]

  pub All-select_where :
      (P : A → Type κ) (test : A → Bool) (xs : List A) → All P xs → All P (select_where test xs)
  All-select_where P test [] h = tt
  All-select_where P test (x ∷ xs) h = elim (Bool-cases (test x)) [
    | inl t ↦ rw t (h.0, All-select_where P test xs h.1)
    | inr t ↦ rw t (All-select_where P test xs h.1)
  ]

module _ {ℓ κ μ} {A : Type ℓ} where
  pub All-map :
      (P : A → Type κ) (Q : A → Type μ) (xs : List A) → ((x : A) → P x → Q x) → All P xs → All Q xs
  All-map P Q [] f h = tt
  All-map P Q (x ∷ xs) f h = (f x h.0, All-map P Q xs f h.1)

  pub All-zip :
      (P : A → Type κ) (Q : A → Type μ) (xs : List A)
      → All P xs
      → All Q xs
      → All (λ x. P x × Q x) xs
  All-zip P Q [] h k = tt
  All-zip P Q (x ∷ xs) h k = ((h.0, k.0), All-zip P Q xs h.1 k.1)

module _ {ℓ} {A : Type ℓ} where
  pub exists_where-All :
      (test : A → Bool) (xs : List A) → exists_where test xs ≡ false → All (λ x. test x ≡ false) xs
  exists_where-All test [] h = tt
  exists_where-All test (x ∷ xs) h = elim (Bool-cases (test x)) [
    | inl t ↦ absurd (false≢true (sym (rw t at h)))
    | inr t ↦ (t, exists_where-All test xs (rw t at h))
  ]

  pub take_first-exists :
      (test : A → Bool) (xs : List A) (x : A)
      → take_first test xs ≡ some x
      → exists_where test xs ≡ true
  take_first-exists test [] x h = cc
  take_first-exists test (y ∷ ys) x h = ground (arith, take_first-exists test ys x)

  pub take_first-none :
      (test : A → Bool) (xs : List A) → exists_where test xs ≡ false → take_first test xs ≡ none
  take_first-none test [] h = refl
  take_first-none test (y ∷ ys) h = ground (arith, take_first-none test ys)
