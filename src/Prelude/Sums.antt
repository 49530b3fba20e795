-- ===== src/Prelude/Sums.antt =====
-- Sums over lists: two lists with the same sum for every weight hold the same elements, each as
-- often.
use Prim.Native.Nat.{ℕ, ◌+◌}
use mathlib.Core.Path.{◌≡◌, refl, ◌∙◌}
use mathlib.Core.Bool.{Bool, false}
use mathlib.Core.List.{List, [], ◌∷◌, ◌++◌}
use mathlib.Core.Logic.{inl, inr}
use native.Mathlib.Omega.{arith}
use backend_erp.Prelude.Tests.{if◌then◌else◌, Bool-cases}
use backend_erp.Prelude.Lists.{All, All-intro, All-map, sum_of, select_where, update_where}

module _ {A : Type 0} where
  pub sum_of-append : (f : A → ℕ) (xs ys : List A) → sum_of f (xs ++ ys) ≡ sum_of f xs + sum_of f ys
  sum_of-append f [] ys = omega arith
  sum_of-append f (x ∷ xs) ys = omega (arith, sum_of-append f xs ys)

  -- terms that agree on a list
  pub sum_of-cong :
      (f g : A → ℕ) (xs : List A) → All (λ x. f x ≡ g x) xs → sum_of f xs ≡ sum_of g xs
  sum_of-cong f g [] h = refl
  sum_of-cong f g (x ∷ xs) h = omega (arith, h.0, sum_of-cong f g xs h.1)

  pub sum_of-same : (f g : A → ℕ) (xs : List A) → ((x : A) → f x ≡ g x) → sum_of f xs ≡ sum_of g xs
  sum_of-same f g xs h = sum_of-cong f g xs (All-intro _ xs h)

  pub sum_of-zero : (xs : List A) → sum_of (λ _. 0) xs ≡ 0
  sum_of-zero [] = refl
  sum_of-zero (x ∷ xs) = omega (arith, sum_of-zero xs)

  pub sum_of-select_where :
      (f : A → ℕ) (test : A → Bool) (xs : List A)
      → sum_of f (select_where test xs) ≡ sum_of (λ x. if test x then f x else 0) xs
  sum_of-select_where f test [] = refl
  sum_of-select_where f test (x ∷ xs) = elim (Bool-cases (test x)) [
    | inl e ↦ rw e (omega (arith, sum_of-select_where f test xs))
    | inr e ↦ rw e (omega (arith, sum_of-select_where f test xs))
  ]

  pub sum_of-add :
      (f g : A → ℕ) (xs : List A) → sum_of f xs + sum_of g xs ≡ sum_of (λ x. f x + g x) xs
  sum_of-add f g [] = refl
  sum_of-add f g (x ∷ xs) = omega (arith, sum_of-add f g xs)

  -- how many elements pass a test
  abbrev pub count : (A → Bool) → List A → ℕ
  count test xs = sum_of (λ x. if test x then 1 else 0) xs

  pub count-none :
      (test : A → Bool) (xs : List A) → All (λ x. test x ≡ false) xs → count test xs ≡ 0
  count-none test xs h =
      sum_of-cong _ (λ _. 0) xs (All-map _ _ xs (λ x e. rw e refl) h) ∙ sum_of-zero xs

  -- an update that changes no answer to the test
  pub count-update_where :
      (test where_ : A → Bool) (f : A → A) (xs : List A)
      → ((x : A) → test (f x) ≡ test x)
      → count test (update_where where_ f xs) ≡ count test xs
  count-update_where test where_ f [] same = refl
  count-update_where test where_ f (x ∷ xs) same =
      ground (arith, same x, count-update_where test where_ f xs same)
