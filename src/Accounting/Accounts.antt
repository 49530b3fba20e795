-- ===== src/Accounting/Accounts.antt =====
-- The look-ups of src/modules/accounting/services/account.service.ts.
use backend_erp.Prelude.{ℕ, ◌==◌, Bool, true, false, ◌&&◌, ◌≡◌, none, some, take_first, arith}
use backend_erp.Database.{ok, not_found, conflict, Action, ◌>>=◌, gets, or_throw}
use backend_erp.Accounting.Schema.{
  SystemAccount, ap, ar, cash, cogs, inventory_raw, inventory_finished, Account, Books,
}

abbrev is_key : SystemAccount → SystemAccount → Bool
is_key ap ap = true
is_key ar ar = true
is_key cash cash = true
is_key cogs cogs = true
is_key inventory_raw inventory_raw = true
is_key inventory_finished inventory_finished = true
is_key _ _ = false

abbrev is_system_account : SystemAccount → Account → Bool
is_system_account key a =
    elim a.system_account [ none ↦ false | some k ↦ is_key key k ] && a.is_active

-- `getSystemAccount`
abbrev pub get_system_account : SystemAccount → Action Books Account
get_system_account key = do
  account ← gets (λ b. take_first (is_system_account key) b.accounts)
  or_throw account conflict

-- `findOne`
abbrev pub find_account : ℕ → Action Books Account
find_account account_id = do
  account ← gets (λ b. take_first (λ a. a.id == account_id) b.accounts)
  or_throw account not_found

-- Neither changes the books.
pub get_system_account-same :
    (key : SystemAccount) (a : Account) (b b' : Books)
    → get_system_account key b ≡ ok (a, b')
    → b' ≡ b
get_system_account-same key a b b' h = ground arith

pub find_account-same :
    (n : ℕ) (a : Account) (b b' : Books) → find_account n b ≡ ok (a, b') → b' ≡ b
find_account-same n a b b' h = ground arith
