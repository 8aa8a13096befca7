-- ===== src/Ledger/Debit/Balance.antt =====
-- What `tbDebit` leaves on the account that it debits.
use mathlib.Core.Option
use mathlib.Core.Path.{subst}
use coinos_server.Base.{
  ℕ, ◌+◌, ◌*◌, ◌^◌, ap, ◌+ℤ◌, ◌<◌, ◌≡◌, refl, ◌∙◌, ◌≢◌, true, Option, none, some, List, ◌==◌,
  ==_iff, ℤ, pos, ◌-ℤ◌, ◌≤ℤ◌, ltb_ℤ, int_laws, arith, inl, inr, Bool-cases,
}
use coinos_server.Ledger.Ids.{
  PaymentType, msats, balance_id, credit_ledger, house_credit_account, credit_id, u128, house_sats,
}
use coinos_server.Ledger.Distinct.{IsUuid, Role, account_of, account_ids, balance_id-IsUuid}
use coinos_server.Ledger.Client.{Account, Transfer, Client, IsCluster, post, moved_in, moved_out}
use coinos_server.Ledger.Posting.{micro-post}
use coinos_server.Ledger.Debit.{
  Tb, DebitArgs, DebitResult, debited, refused, Plan, account_balance_micro, get_account,
  covered_micro, debit_plan, debit_transfers, debit_commit, tb_debit, credit_owner,
}
use coinos_server.Ledger.Debit.Outcome.{Settles, debit_commit-Settles, debit_plan-fee}

role-ne :
    (r : Role) (aid : ℕ) → IsUuid aid → r ≢ Role.balance → account_of r aid ≢ u128 (balance_id aid)
role-ne r aid u ne e = ne ((account_ids r Role.balance aid aid u u).1 e)

own_credit-ne :
    (t : PaymentType) (aid : ℕ)
    → IsUuid aid
    → credit_ledger t ≢ none
    → u128 (credit_id aid t) ≢ u128 (balance_id aid)
own_credit-ne PaymentType.bitcoin aid u h = role-ne Role.credit_bitcoin aid u (λ e. cc)
own_credit-ne PaymentType.lightning aid u h = role-ne Role.credit_lightning aid u (λ e. cc)
own_credit-ne PaymentType.liquid aid u h = role-ne Role.credit_liquid aid u (λ e. cc)
own_credit-ne _ aid u h = absurd (h refl)

zero_credit-lt : (t : PaymentType) → u128 (credit_id 0 t) < 2 ^ 67
unfolding credit_id u128
zero_credit-lt t = ground arith

credit_owner-ne :
    (a : DebitArgs)
    → IsUuid a.aid
    → credit_ledger a.credit_type ≢ none
    → u128 (credit_id (credit_owner a) a.credit_type) ≢ u128 (balance_id a.aid)
credit_owner-ne a u h = elim (Bool-cases (a.uid == a.aid)) [
  | inl same ↦ rw (same, (==_iff a.uid a.aid).0 same) (own_credit-ne a.credit_type a.aid u h)
  | inr other ↦
      rw other (λ e. omega (arith, e, zero_credit-lt a.credit_type, (balance_id-IsUuid u).large))
]

house_credit-lt : (t : PaymentType) → u128 (Option.get_or (house_credit_account t) 0) < 2 ^ 67
unfolding u128
house_credit-lt t = ground arith

house_sats-lt : u128 house_sats < 2 ^ 67
unfolding u128
house_sats-lt = omega arith

module _ {Db : Type 0} (c : Client Db) where
  open c use {lookup_account, create_transfers}

  covered_pos :
      (a : DebitArgs) (db : Db)
      → ltb_ℤ (pos 0) (debit_plan c a db).covered ≡ true
      → credit_ledger a.credit_type ≢ none
  unfolding debit_plan covered_micro
  covered_pos a db h = ground arith

  -- Of the two transfers of the batch only one touches the debited balance.
  moved_balance :
      (a : DebitArgs) (db : Db) (s : Tb Db)
      → IsUuid a.aid
      → let ts = debit_transfers c a (debit_plan c a db) s in
        let id = u128 (balance_id a.aid) in
        (moved_in id ts ≡ 0) × (moved_out id ts ≡ (debit_plan c a db).total_micro)
  unfolding debit_transfers
  moved_balance a db s u = ground (
    arith,
    balance_id-IsUuid u,
    house_sats-lt,
    house_credit-lt a.credit_type,
    covered_pos a db,
    credit_owner-ne a u,
  )

  micro-of_map :
      (i : ℕ) (ts : List Transfer) (o o' : Option Account) {n : ℕ}
      → o ≢ none
      → o' ≡ Option.map (post i ts) o
      → moved_in i ts ≡ 0
      → moved_out i ts ≡ n
      → account_balance_micro o' ≡ account_balance_micro o -ℤ pos n
  micro-of_map i ts none o' h e p q = absurd (h refl)
  micro-of_map i ts (some x) o' {n} h e p q = rw e (micro-post i ts x ∙ rw (p, q) (omega int_laws))

  pub debit_commit-moves :
      (laws : IsCluster c) (a : DebitArgs) (db : Db) (s : Tb Db)
      → IsUuid a.aid
      → get_account c (balance_id a.aid) s.db ≢ none
      → let p = debit_plan c a db in
        let (r, s') = debit_commit c a p s in
        ((f : ℤ)
          → r ≡ debited f
          → (f ≡ p.ourfee)
            × (account_balance_micro (get_account c (balance_id a.aid) s'.db)
                ≡ account_balance_micro (get_account c (balance_id a.aid) s.db)
                  -ℤ pos p.total_micro))
        × ((avail need : ℤ)
            → r ≡ refused avail need
            → (i : ℕ) → lookup_account i s'.db ≡ lookup_account i s.db)
  unfolding get_account
  debit_commit-moves laws a db s u h =
      split (debit_commit c a (debit_plan c a db) s)
        (debit_commit-Settles c laws a (debit_plan c a db) s)
    where
      split :
          (r : DebitResult × Tb Db)
          → Settles c a (debit_plan c a db) s r
          → ((f : ℤ)
              → r.0 ≡ debited f
              → (f ≡ (debit_plan c a db).ourfee)
                × (account_balance_micro (lookup_account (u128 (balance_id a.aid)) (r.1).db)
                    ≡ account_balance_micro (lookup_account (u128 (balance_id a.aid)) s.db)
                      -ℤ pos (debit_plan c a db).total_micro))
            × ((avail need : ℤ)
                → r.0 ≡ refused avail need
                → (i : ℕ) → lookup_account i (r.1).db ≡ lookup_account i s.db)
      split (refused x y, s') h' = (λ f e. cc, λ p q e. h')
      split (debited g, s') h' = (
        λ f e. (
          cc (e, h'.0),
          micro-of_map (u128 (balance_id a.aid)) (debit_transfers c a (debit_plan c a db) s)
              (lookup_account (u128 (balance_id a.aid)) s.db)
              (lookup_account (u128 (balance_id a.aid)) s'.db) h (h'.2 (u128 (balance_id a.aid)))
              (moved_balance a db s u).0 (moved_balance a db s u).1,
        ),
        λ p q e. cc,
      )

  -- A debit that is carried out takes the amount, the tip, the network fee and the fee that it returns
  -- from the balance of the account, whatever changed since it was read, and the fee is what the
  -- credits that were read do not cover, in whole satoshis; a refused debit leaves every account as it
  -- is. The account is a uuid that exists.
  pub debit_commit-balance :
      (laws : IsCluster c) (a : DebitArgs) (db : Db) (s : Tb Db)
      → IsUuid a.aid
      → get_account c (balance_id a.aid) s.db ≢ none
      → let (r, s') = debit_commit c a (debit_plan c a db) s in
        ((f : ℤ)
          → r ≡ debited f
          → (n : ℕ) × (f ≡ pos n)
            × (account_balance_micro (get_account c (balance_id a.aid) s'.db)
                ≡ account_balance_micro (get_account c (balance_id a.aid) s.db)
                  -ℤ pos ((a.amount + a.tip + a.fee + n) * msats))
            × (covered_micro c a db +ℤ pos (n * msats) ≤ℤ pos (a.ourfee * msats))
            × (pos (a.ourfee * msats + 1) ≤ℤ covered_micro c a db +ℤ pos ((n + 1) * msats)))
        × ((avail need : ℤ)
            → r ≡ refused avail need
            → (i : ℕ) → lookup_account i s'.db ≡ lookup_account i s.db)
  unfolding debit_plan
  debit_commit-balance laws a db s u h =
      let (taken, kept) = debit_commit-moves laws a db s u h in
      let (n, whole, most, least, total) = debit_plan-fee c a db in
      (
        λ f e.
            let (same, moved) = taken f e in
            (
              n,
              same ∙ whole,
              moved
                  ∙ ap (λ t. account_balance_micro (get_account c (balance_id a.aid) s.db) -ℤ pos t)
                      total,
              most,
              least,
            ),
        kept,
      )

  -- When nothing runs between the reads and the batch of a debit that is carried out, the balance
  -- afterwards is at least the frozen amount. The account is a uuid that exists.
  pub tb_debit-keeps_frozen :
      (laws : IsCluster c) (a : DebitArgs) (s : Tb Db) (f : ℤ)
      → IsUuid a.aid
      → get_account c (balance_id a.aid) s.db ≢ none
      → (tb_debit c a s).0 ≡ debited f
      → pos (a.frozen * msats)
        ≤ℤ account_balance_micro (get_account c (balance_id a.aid) (tb_debit c a s).1.db)
  unfolding tb_debit
  tb_debit-keeps_frozen laws a s f u h e =
      rw moved (fits (debit_commit c a p s) (debit_commit-Settles c laws a p s) e)
    where
      p : Plan c
      p = debit_plan c a s.db

      moved :
          account_balance_micro (get_account c (balance_id a.aid) (debit_commit c a p s).1.db)
          ≡ account_balance_micro (get_account c (balance_id a.aid) s.db) -ℤ pos p.total_micro
      moved = ((debit_commit-moves laws a s.db s u h).0 f e).1

      available :
          p.available_micro
          ≡ account_balance_micro (get_account c (balance_id a.aid) s.db) -ℤ pos (a.frozen * msats)
      available = unfold debit_plan in refl

      fits :
          (r : DebitResult × Tb Db)
          → Settles c a p s r
          → r.0 ≡ debited f
          → pos (a.frozen * msats)
            ≤ℤ account_balance_micro (get_account c (balance_id a.aid) s.db) -ℤ pos p.total_micro
      fits (refused x y, s') k e' = cc
      fits (debited g, s') k e' =
          let large : pos p.total_micro
              ≤ℤ account_balance_micro (get_account c (balance_id a.aid) s.db)
                -ℤ pos (a.frozen * msats) =
            subst (λ z. pos p.total_micro ≤ℤ z) available k.1 in
          omega int_laws
