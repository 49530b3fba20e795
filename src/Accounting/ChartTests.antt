-- ===== src/Accounting/ChartTests.antt =====
-- An account that is made under a header and made inactive again.
use backend_erp.Prelude.{
  ℕ, ◌≡◌, refl, Bool, true, false, Option, none, some, [], ◌∷◌, arith, map, select_where,
}
use backend_erp.Database.{Result, ok, err, not_found, conflict, bad_request}
use backend_erp.Accounting.Schema.{asset, SystemAccount, cash}
use backend_erp.Accounting.Chart.{
  ChartAccount, Chart, is_system, CreateAccountDto, UpdateAccountDto, new_account, create_account,
  update_account,
}
use backend_erp.Accounting.ChartRooted.{IsRooted, at_seed}
use backend_erp.Accounting.ChartReach.{here, next, created, updated, Reach-IsRooted}

abbrev seeded_row : ℕ → ℕ → Bool → Option SystemAccount → ℕ → ChartAccount
seeded_row id code is_header system_account level = record {
  id = id;
  code = code;
  parent_id = none;
  account_type = asset;
  is_header = is_header;
  system_account = system_account;
  level = level;
  is_active = some true;
}

-- the first four accounts of src/database/migrations/tenant/009_create_accounting.sql
abbrev start : Chart
start = record {
  accounts =
      seeded_row 4 11002 false none 3
      ∷ seeded_row 3 11001 false (some cash) 3
      ∷ seeded_row 2 11 true none 2
      ∷ seeded_row 1 1 true none 1
      ∷ [];
  next_account = 5;
}

abbrev petty_cash : CreateAccountDto
petty_cash = record { code = 11010; parent_id = some 2; account_type = asset; is_header = none }

abbrev inactive : UpdateAccountDto
inactive = record { is_active = some (some false) }

abbrev after : {A : Type 0} → Chart → Result (A × Chart) → Chart
after s (ok r) = r.1
after s (err _) = s

abbrev made : Chart
made = after start (create_account petty_cash start)

abbrev closed : Chart
closed = after made (update_account 5 inactive made)

account_was_created : create_account petty_cash start ≡ ok (new_account petty_cash 3 start, made)
unfolding create_account
account_was_created = refl

account_was_updated : update_account 5 inactive made ≡ ok (tt, closed)
unfolding create_account update_account
account_was_updated = refl

refused :
    (create_account (record petty_cash { parent_id = some 9 }) start ≡ err not_found)
    × (create_account (record petty_cash { parent_id = some 3 }) start ≡ err bad_request)
    × (create_account (record petty_cash { code = 11 }) start ≡ err conflict)
    × (update_account 3 inactive start ≡ err conflict)
unfolding create_account update_account
refused = (refl, refl, refl, refl)

-- a null that makes the cash account unknown to `getSystemAccount`
abbrev unset : Chart
unset = after start (update_account 3 (record { is_active = some none }) start)

cash_was_unset :
    (update_account 3 (record { is_active = some none }) start ≡ ok (tt, unset))
    × (map (λ a. a.is_active) (select_where is_system unset.accounts) ≡ none ∷ [])
unfolding update_account
cash_was_unset = (refl, refl)

start-IsRooted : IsRooted 5 start
start-IsRooted = record {
  under = (
    at_seed refl (omega arith),
    (at_seed refl (omega arith), (at_seed refl (omega arith), (at_seed refl (omega arith), tt))),
  );
  codes = ((refl, (refl, (refl, tt))), ((refl, (refl, tt)), ((refl, tt), (tt, tt))));
  active = (λ _ e. cc, (λ _ e. cc, (λ _ e. cc, (λ _ e. cc, tt))));
  ids = (omega arith, (omega arith, (omega arith, (omega arith, tt))));
  newest_first = (
    (omega arith, (omega arith, (omega arith, tt))),
    ((omega arith, (omega arith, tt)), ((omega arith, tt), (tt, tt))),
  );
}

Reach-IsRooted_example : IsRooted 5 closed
Reach-IsRooted_example =
    Reach-IsRooted 5 start closed
      (next (next here (created petty_cash (new_account petty_cash 3 start) account_was_created))
        (updated 5 inactive account_was_updated))
      start-IsRooted
