-- ===== src/Payables/Settled.antt =====
-- What the receivables keep: a row for an invoice at most, and a status that agrees with its amounts.
use backend_erp.Prelude.{
  ℕ, suc, ◌≤◌, ◌<◌, ◌==◌, ltb, leb, if◌then◌else◌, ◌≡◌, ◌≢◌, refl, sym, subst, inl, inr, none, some,
  List, [], ◌∷◌, arith, false, take_first, exists_where, exists_where-All, update_where,
  Option-cases, Bool-cases, All, All-map, All-zip, All-update_where,
}
use backend_erp.Database.{ok}
use backend_erp.Payables.Schema.{DebtStatus, opened, partial, paid, cancelled, ArTransaction, Debts}
use backend_erp.Payables.Transactions.{
  DebtDto, create_receivable, new_receivable, status_of, with_received, exceeds, update_received,
}

abbrev pub Matches : DebtStatus → ℕ → ℕ → Type 0
Matches opened received amount = received ≡ 0
Matches partial received amount = (0 < received) × (received < amount)
Matches paid received amount = received ≡ amount
Matches cancelled received amount = Unit

abbrev pub IsSettledRow : ArTransaction → Type 0
IsSettledRow t = (t.received_amount ≤ t.amount) × Matches t.status t.received_amount t.amount

-- Rows have identifiers and invoices of their own.
abbrev pub AllDistinct : List ArTransaction → Type 0
AllDistinct [] = Unit
AllDistinct (t ∷ ts) =
    All (λ u. (u.id ≢ t.id) × (u.customer_invoice_id ≢ t.customer_invoice_id)) ts × AllDistinct ts

pub record IsSettled (s : Debts) : Type 0 where
  pub rows : All IsSettledRow s.receivables
  pub distinct : AllDistinct s.receivables
  pub known : All (λ t. t.id < s.next_receivable) s.receivables

pub status_of-Matches :
    (received amount : ℕ) → received ≤ amount → Matches (status_of received amount) received amount
status_of-Matches received amount h = elim (Bool-cases (leb amount received)) [
  | inl e ↦ rw e (ground (arith, e))
  | inr e ↦ elim (Bool-cases (ltb 0 received)) [
    | inl f ↦ rw (e, f) (ground (arith, f), ground (arith, e))
    | inr f ↦ rw (e, f) (ground (arith, f))
  ]
]

find-distinct :
    (n : ℕ) (ts : List ArTransaction) (a : ArTransaction)
    → AllDistinct ts
    → take_first (λ t. t.id == n) ts ≡ some a
    → All (λ t. t.id ≡ n → t ≡ a) ts
find-distinct n [] a d h = tt
find-distinct n (t ∷ ts) a d h = elim (Bool-cases (t.id == n)) [
  | inl e ↦
      let first : t ≡ a = ground arith in
      (λ _. first, All-map _ _ ts (λ u apart same. absurd (apart.0 (ground arith))) d.0)
  | inr e ↦ (λ same. absurd (ground arith), find-distinct n ts a d.1 (rw e at h))
]

update-AllDistinct :
    (n received : ℕ) (status : DebtStatus) (ts : List ArTransaction)
    → AllDistinct ts
    → AllDistinct (update_where (λ t. t.id == n) (with_received received status) ts)
update-AllDistinct n received status [] d = tt
update-AllDistinct n received status (t ∷ ts) d =
    let kept =
      All-update_where (λ u. (u.id ≢ t.id) × (u.customer_invoice_id ≢ t.customer_invoice_id))
        (λ u. u.id == n) (with_received received status) ts (λ u k e. k) d.0 in
    (
      elim (Bool-cases (t.id == n)) [ inl e ↦ rw e kept | inr e ↦ rw e kept ],
      update-AllDistinct n received status ts d.1,
    )

-- an update that succeeds
record Received (n received : ℕ) (s s' : Debts) (a : ArTransaction) : Type 0 where
  found : take_first (λ t. t.id == n) s.receivables ≡ some a
  within : exists_where (exceeds n received) s.receivables ≡ false
  result : s' ≡ record s {
    receivables =
        update_where
          (λ t. t.id == n)
          (with_received received (status_of received a.amount))
          s.receivables;
  }

update_received-Received :
    (n received : ℕ) (s s' : Debts)
    → update_received n received s ≡ ok (tt, s')
    → (a : ArTransaction) × Received n received s s' a
unfolding update_received
update_received-Received n received s s' h =
    elim (Option-cases (take_first (λ t. t.id == n) s.receivables)) [
      | inl e ↦ cc (rw e at h)
      | inr (a, e) ↦
          (a, record { found = e; within = ground (arith, e); result = ground (arith, e) })
    ]

-- What an update needs to know of a row.
abbrev Updatable : ℕ → ℕ → ArTransaction → ArTransaction → Type 0
Updatable n received a t = IsSettledRow t × ((t.id ≡ n → t ≡ a) × (exceeds n received t ≡ false))

updated-row :
    (n received : ℕ) (a t : ArTransaction)
    → Updatable n received a t
    → IsSettledRow (if t.id == n then with_received received (status_of received a.amount) t else t)
updated-row n received a t (row, (same, within)) = elim (Bool-cases (t.id == n)) [
  | inr e ↦ rw e row
  | inl e ↦
      let amount : a.amount ≡ t.amount = λ i. (sym (same (ground arith)) i).amount in
      let le : received ≤ t.amount = ground arith in
      rw e (
        le,
        subst (λ m. Matches (status_of received m) received t.amount) (sym amount)
            (status_of-Matches received t.amount le),
      )
]

updated_rows :
    (n received : ℕ) (a : ArTransaction) (ts : List ArTransaction)
    → All (Updatable n received a) ts
    → All IsSettledRow
        (update_where (λ t. t.id == n) (with_received received (status_of received a.amount)) ts)
updated_rows n received a [] h = tt
updated_rows n received a (t ∷ ts) h =
    (updated-row n received a t h.0, updated_rows n received a ts h.1)

update_received-IsSettled :
    (n received : ℕ) (s s' : Debts)
    → update_received n received s ≡ ok (tt, s')
    → IsSettled s
    → IsSettled s'
update_received-IsSettled n received s s' h k =
    let (a, r) = update_received-Received n received s s' h in
    let status = status_of received a.amount in
    subst IsSettled (sym r.result) (record {
      rows = updated_rows n received a s.receivables (
          All-zip _ _ s.receivables k.rows (
            All-zip _ _ s.receivables (find-distinct n s.receivables a k.distinct r.found)
              (exists_where-All (exceeds n received) s.receivables r.within)));
      distinct = update-AllDistinct n received status s.receivables k.distinct;
      known =
          All-update_where _ (λ t. t.id == n) (with_received received status) s.receivables
            (λ t lt e. lt) k.known;
    })

create_receivable-IsSettled :
    (dto : DebtDto) (n : ℕ) (s s' : Debts)
    → create_receivable dto s ≡ ok (n, s')
    → IsSettled s
    → IsSettled s'
unfolding create_receivable
create_receivable-IsSettled dto n s s' h k =
    elim (Option-cases (take_first (λ t. t.customer_invoice_id == dto.invoice_id) s.receivables)) [
      | inr (t, e) ↦ subst IsSettled (sym (ground (arith, e))) k
      | inl e ↦
          let new = new_receivable dto s in
          let after = record s {
            receivables = new ∷ s.receivables;
            next_receivable = suc s.next_receivable;
          } in
          let result : s' ≡ after = ground (arith, e) in
          subst IsSettled (sym result) (record {
            rows = ((omega arith, refl), k.rows);
            distinct = (
              All-map _ _ s.receivables (λ u h. (ground arith, ground arith))
                  (All-zip _ _ s.receivables k.known (no_invoice dto.invoice_id s.receivables e)),
              k.distinct,
            );
            known = (omega arith, All-map _ _ s.receivables (λ u lt. omega arith) k.known);
          })
    ]
  where
    no_invoice :
        (i : ℕ) (ts : List ArTransaction)
        → take_first (λ t. t.customer_invoice_id == i) ts ≡ none
        → All (λ t. (t.customer_invoice_id == i) ≡ false) ts
    no_invoice i [] h = tt
    no_invoice i (t ∷ ts) h = (ground (arith, h), no_invoice i ts (ground (arith, h)))

-- One call of the services on the receivables.
pub data Step (s s' : Debts) : Type 0 where
  created : (dto : DebtDto) (n : ℕ) → create_receivable dto s ≡ ok (n, s') → Step s s'
  updated : (n received : ℕ) → update_received n received s ≡ ok (tt, s') → Step s s'

pub data Reach (s : Debts) : Debts → Type 0 where
  here : Reach s s
  next : {t u : Debts} → Reach s t → Step t u → Reach s u

-- Whatever receivables are made and updated, in any order, from rows where this holds: an invoice has
-- one row at most, no more is received than the amount, and the status is open only if nothing has
-- been received, partial only between, and paid only if all has.
pub Reach-IsSettled : (s t : Debts) → Reach s t → IsSettled s → IsSettled t
Reach-IsSettled s t here k = k
Reach-IsSettled s t (next {t = u} r (created dto n h)) k =
    create_receivable-IsSettled dto n u t h (Reach-IsSettled s u r k)
Reach-IsSettled s t (next {t = u} r (updated n received h)) k =
    update_received-IsSettled n received u t h (Reach-IsSettled s u r k)
