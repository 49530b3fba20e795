-- ===== src/Database.antt =====
-- What every service shares: the exceptions that it throws, and code that runs against the database
-- (src/database/transaction.ts, and the exceptions of @nestjs/common and of PostgreSQL).
--
-- Code takes the tables and gives a result with the new tables. An exception carries no tables:
-- the transaction is rolled back, and the caller goes on with the tables that it began with.
use backend_erp.Prelude.{ℕ, ◌==◌, Bool, true, false, Option, none, some, ◌≡◌, refl}

-- The unique indexes that the services can run into.
pub data UniqueIndex : Type 0 where
  journal_entry_business_reference : UniqueIndex
  inventory_movement_source_document : UniqueIndex

-- `not_found`, `conflict` and `bad_request` are thrown by the services, `internal_error` is a plain
-- `Error` of theirs. The others are
-- PostgreSQL's: 23505, 23514, 23503, 22P02, and 25P02 for a statement in a transaction that has failed.
pub data Failure : Type 0 where
  not_found conflict bad_request internal_error : Failure
  unique_violation : UniqueIndex → Failure
  check_violation foreign_key_violation invalid_text_representation in_failed_transaction : Failure

pub data Result (A : Type 0) : Type 0 where
  ok : A → Result A
  err : Failure → Result A

abbrev pub Action : Type 0 → Type 0 → Type 0
Action S A = S → Result (A × S)

module _ {S A : Type 0} where
  abbrev pub pure : A → Action S A
  pure a s = ok (a, s)

  abbrev pub throw : Failure → Action S A
  throw e s = err e

  abbrev pub gets : (S → A) → Action S A
  gets f s = ok (f s, s)

  -- `if (!row) throw …`
  abbrev pub or_throw : Option A → Failure → Action S A
  or_throw none e = throw e
  or_throw (some a) e = pure a

infixl 5 ◌>>=◌ ◌>>◌
abbrev pub ◌>>=◌ : {S A B : Type 0} → Action S A → (A → Action S B) → Action S B
◌>>=◌ m f s = elim (m s) [ ok r ↦ f r.0 r.1 | err e ↦ err e ]

abbrev pub ◌>>◌ : {S A B : Type 0} → Action S A → Action S B → Action S B
m >> k = m >>= λ _. k

module _ {S : Type 0} where
  -- `if (test) throw …`
  abbrev pub throw_if : Bool → Failure → Action S (Unit {0})
  throw_if true e s = err e
  throw_if false e s = ok (tt, s)

  abbrev pub modify : (S → S) → Action S (Unit {0})
  modify f s = ok (tt, f s)

-- What `db` is: the pool, where a transaction is begun, or a transaction that is under way.
pub data Session : Type 0 where
  pool transaction : Session

-- How the database driver gives a column of type BIGINT: as a number, or as a string, which `===`
-- and `!==` tell apart from every number.
pub data Reading : Type 0 where
  as_numbers as_strings : Reading

-- `row.column === number`
abbrev pub same_value : Reading → ℕ → ℕ → Bool
same_value as_numbers a b = a == b
same_value as_strings a b = false

-- Inversion of a chain that succeeds.
pub >>=-eq-ok :
    {S A B : Type 0} (m : Action S A) (f : A → Action S B) (s : S) {r : B × S}
    → (m >>= f) s ≡ ok r
    → (a : A) × (s' : S) × (m s ≡ ok (a, s')) × (f a s' ≡ ok r)
>>=-eq-ok {S} {A} {B} m f s {r} h = go (m s) refl h
  where
    go :
        (q : Result (A × S))
        → m s ≡ q
        → (elim q as (λ _. Result (B × S)) [ ok p ↦ f p.0 p.1 | err e ↦ err e ]) ≡ ok r
        → (a : A) × (s' : S) × (m s ≡ ok (a, s')) × (f a s' ≡ ok r)
    go (ok (a, s')) e k = (a, s', e, k)
    go (err x) e k = cc
