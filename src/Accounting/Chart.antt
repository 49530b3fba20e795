-- ===== src/Accounting/Chart.antt =====
-- The chart of accounts: `create` and `update`
-- of src/modules/accounting/services/account.service.ts, over the columns of the table accounts
-- that they use. A code is compared only, so it stands as a number; name and notes are left out,
-- and with them an update to a name of null, which the column refuses.
use backend_erp.Prelude.{
  ℕ, suc, ◌+◌, ◌==◌, Bool, true, false, not, ◌&&◌, Option, none, some, List, ◌∷◌, take_first,
  exists_where, update_where,
}
use backend_erp.Database.{
  Action, not_found, conflict, bad_request, ◌>>=◌, ◌>>◌, pure, gets, or_throw, throw_if, modify,
}
use backend_erp.Accounting.Schema.{AccountType, SystemAccount}

pub record ChartAccount : Type 0 where
  pub id : ℕ
  pub code : ℕ
  pub parent_id : Option ℕ
  pub account_type : AccountType
  pub is_header : Bool
  pub system_account : Option SystemAccount
  pub level : ℕ
  pub is_active : Option Bool

pub record Chart : Type 0 where
  pub accounts : List ChartAccount
  pub next_account : ℕ

pub record CreateAccountDto : Type 0 where
  pub code : ℕ
  pub parent_id : Option ℕ
  pub account_type : AccountType
  pub is_header : Option Bool

-- absent, or null, or a value
pub record UpdateAccountDto : Type 0 where
  pub is_active : Option (Option Bool)

abbrev pub find_row : ℕ → List ChartAccount → Option ChartAccount
find_row account_id as_ = take_first (λ a. a.id == account_id) as_

-- one level below the parent, which has to be a header
abbrev pub level_below : Option ℕ → Action Chart ℕ
level_below none = pure 1
level_below (some parent_id) = do
  parent ← or_throw (← gets (λ s. find_row parent_id s.accounts)) not_found
  throw_if (not parent.is_header) bad_request
  pure (parent.level + 1)

abbrev or_false : Option Bool → Bool
or_false none = false
or_false (some b) = b

abbrev pub new_account : CreateAccountDto → ℕ → Chart → ChartAccount
new_account dto level s = record {
  id = s.next_account;
  code = dto.code;
  parent_id = dto.parent_id;
  account_type = dto.account_type;
  is_header = or_false dto.is_header;
  system_account = none;
  level = level;
  is_active = some true;
}

abbrev pub insert_account : ChartAccount → Chart → Chart
insert_account a s = record { accounts = a ∷ s.accounts; next_account = suc s.next_account }

-- `create`
unfoldable pub create_account : CreateAccountDto → Action Chart ChartAccount
create_account dto = do
  throw_if (← gets (λ s. exists_where (λ a. a.code == dto.code) s.accounts)) conflict
  level ← level_below dto.parent_id
  account ← gets (new_account dto level)
  modify (insert_account account)
  pure account

-- `dto.isActive === false`
abbrev pub is_false : Option (Option Bool) → Bool
is_false (some (some false)) = true
is_false _ = false

abbrev pub is_system : ChartAccount → Bool
is_system a = elim a.system_account [ none ↦ false | some _ ↦ true ]

abbrev pub with_changes : UpdateAccountDto → ChartAccount → ChartAccount
with_changes dto a = record a { is_active = elim dto.is_active [ none ↦ a.is_active | some b ↦ b ] }

-- `update`
unfoldable pub update_account : ℕ → UpdateAccountDto → Action Chart (Unit {0})
update_account account_id dto = do
  account ← or_throw (← gets (λ s. find_row account_id s.accounts)) not_found
  throw_if (is_false dto.is_active && is_system account) conflict
  modify (λ s. record s {
    accounts = update_where (λ a. a.id == account_id) (with_changes dto) s.accounts;
  })
