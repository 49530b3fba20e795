-- ===== src/Accounting/ChartReach.antt =====
-- What every sequence of calls keeps of the chart of accounts.
use backend_erp.Prelude.{
  ℕ, ◌+◌, ◌<◌, ◌==◌, true, false, ◌&&◌, ◌≡◌, refl, sym, ◌∙◌, inl, inr, ap, subst, Option, none,
  some, List, ◌∷◌, arith, Bool-cases, Option-cases, All, All-map, All-take_first, exists_where,
  exists_where-All,
}
use backend_erp.Database.{ok, >>=-eq-ok}
use backend_erp.Accounting.Chart.{
  ChartAccount, Chart, CreateAccountDto, UpdateAccountDto, find_row, level_below, new_account,
  insert_account, create_account, is_false, is_system, update_account,
}
use backend_erp.Accounting.ChartRooted.{
  IsUnder, at_seed, at_root, below, IsRooted, update_rows, changed-IsSameBut, All-changed,
  IsUnder-update, HasDistinctCodes-update, stays_active, IsNewestFirst-update,
}

IsUnder-insert :
    (seeded : ℕ) (new : ChartAccount) (as_ : List ChartAccount)
    → All (λ a. a.id < new.id) as_
    → (a : ChartAccount) → IsUnder seeded as_ a
    → IsUnder seeded (new ∷ as_) a
IsUnder-insert seeded new as_ older a (at_seed e lt) = at_seed e lt
IsUnder-insert seeded new as_ older a (at_root e l) = at_root e l
IsUnder-insert seeded new as_ older a (below parent e found h l lt) =
    let (bound, _) = All-take_first _ (λ a. a.id == parent.id) as_ parent older found in
    below parent e (ground (arith, found, bound)) h l lt

-- The level that an account gets, and the place that it is put in.
level_below-IsUnder :
    (seeded : ℕ) (dto : CreateAccountDto) (level : ℕ) (s s' : Chart) (o : Option ℕ)
    → dto.parent_id ≡ o
    → level_below o s ≡ ok (level, s')
    → All (λ a. a.id < s.next_account) s.accounts
    → (s' ≡ s) × IsUnder seeded (new_account dto level s ∷ s.accounts) (new_account dto level s)
level_below-IsUnder seeded dto level s s' none e h ids = (ground arith, at_root e (ground arith))
level_below-IsUnder seeded dto level s s' (some p) e h ids =
    elim (Option-cases (find_row p s.accounts)) [
      | inl f ↦ ground (arith, f)
      | inr (parent, f) ↦
          let (lt, test) = All-take_first _ (λ a. a.id == p) s.accounts parent ids f in
          let id : parent.id ≡ p = ground (arith, test) in
          let found = ap (λ k. find_row k s.accounts) id ∙ f in
          let header : parent.is_header ≡ true = ground (arith, f) in
          let result : (s' ≡ s) × (level ≡ parent.level + 1) =
            (ground (arith, f), ground (arith, f)) in
          (
            result.0,
            below parent (e ∙ ap some (sym id)) (ground (arith, found, lt)) header result.1 lt,
          )
    ]

create_account-IsRooted :
    (seeded : ℕ) (dto : CreateAccountDto) (a : ChartAccount) (s s' : Chart)
    → create_account dto s ≡ ok (a, s')
    → IsRooted seeded s
    → IsRooted seeded s'
unfolding create_account
create_account-IsRooted seeded dto a s s' h w =
    elim (Bool-cases (exists_where (λ a. a.code == dto.code) s.accounts)) [
      | inl e ↦ ground (arith, e)
      | inr e ↦
          let (level, s1, x, y) = >>=-eq-ok (level_below dto.parent_id) _ s (rw e at h) in
          let (same, under) =
            level_below-IsUnder seeded dto level s s1 dto.parent_id refl x w.ids in
          let new = new_account dto level s in
          let result : s' ≡ insert_account new s = ground (arith, same, y) in
          subst (IsRooted seeded) (sym result) (record {
            under = (
              under,
              All-map _ _ s.accounts (IsUnder-insert seeded new s.accounts w.ids) w.under,
            );
            codes = (exists_where-All _ s.accounts e, w.codes);
            active = (λ system e. cc, w.active);
            ids = (omega arith, All-map _ _ s.accounts (λ b lt. omega (arith, lt)) w.ids);
            newest_first = (w.ids, w.newest_first);
          })
    ]

update_account-IsRooted :
    (seeded n : ℕ) (dto : UpdateAccountDto) (s s' : Chart)
    → update_account n dto s ≡ ok (tt, s')
    → IsRooted seeded s
    → IsRooted seeded s'
unfolding update_account
update_account-IsRooted seeded n dto s s' h w = elim (Option-cases (find_row n s.accounts)) [
  | inl e ↦ ground (arith, e)
  | inr (a, e) ↦
      let test : (is_false dto.is_active && is_system a) ≡ false = ground (arith, e) in
      let result : s' ≡ record s { accounts = update_rows n dto s.accounts } = ground (arith, e) in
      subst (IsRooted seeded) (sym result) (record {
        under = All-changed n dto _ _ s.accounts (IsUnder-update n dto seeded s.accounts) w.under;
        codes = HasDistinctCodes-update n dto s.accounts w.codes;
        active = stays_active n dto s.accounts a w.newest_first e test w.active;
        ids =
            All-changed n dto _ _ s.accounts
              (λ b lt. ground (arith, lt, (changed-IsSameBut n dto b).id)) w.ids;
        newest_first = IsNewestFirst-update n dto s.accounts w.newest_first;
      })
]

-- One call that commits.
pub data Step (s s' : Chart) : Type 0 where
  created :
      (dto : CreateAccountDto) (a : ChartAccount) → create_account dto s ≡ ok (a, s') → Step s s'
  updated : (n : ℕ) (dto : UpdateAccountDto) → update_account n dto s ≡ ok (tt, s') → Step s s'

pub data Reach (s : Chart) : Chart → Type 0 where
  here : Reach s s
  next : {t u : Chart} → Reach s t → Step t u → Reach s u

Step-IsRooted : (seeded : ℕ) (s s' : Chart) → Step s s' → IsRooted seeded s → IsRooted seeded s'
Step-IsRooted seeded s s' (created dto a h) w = create_account-IsRooted seeded dto a s s' h w
Step-IsRooted seeded s s' (updated n dto h) w = update_account-IsRooted seeded n dto s s' h w

-- Whatever accounts are created and updated, in any order, from a chart where this holds: an account
-- has no parent and level 1 or lies one level below an older header, or it was seeded and has no
-- parent; no two accounts have one identifier or one code; and no system account is set inactive
-- (though null, which counts as inactive elsewhere, is let through).
pub Reach-IsRooted : (seeded : ℕ) (s t : Chart) → Reach s t → IsRooted seeded s → IsRooted seeded t
Reach-IsRooted seeded s t here w = w
Reach-IsRooted seeded s t (next {t = u} r step) w =
    Step-IsRooted seeded u t step (Reach-IsRooted seeded s u r w)
