-- ===== src/Payments/Onward/Kept.antt =====
-- lib/payments.ts: a debit that fits above a reserve leaves the reserve on the account.
use mathlib.Core.Path.{subst}
use coinos_server.Base.{
  ℕ, ◌+◌, ◌*◌, ◌≤◌, ◌≡◌, ◌≢◌, refl, sym, ap, ◌∙◌, Option, none, some, ℤ, pos, negsuc, pos_part,
  neg_part, neg, ◌+ℤ◌, ◌-ℤ◌, ◌/ℤ◌, ◌≤ℤ◌, arith, int_laws,
}
use coinos_server.Ledger.Ids.{msats, balance_id, credit_id}
use coinos_server.Ledger.Distinct.{IsUuid}
use coinos_server.Ledger.Client.{Account, Client, IsCluster}
use coinos_server.Ledger.Debit.{
  DebitArgs, debit_plan, account_balance, account_balance_micro, get_account, get_balance,
  covered_micro, credit_owner,
}
use coinos_server.Ledger.Debit.Outcome.{debit_plan-fee}
use coinos_server.Limits.Breaker.{Limits}
use coinos_server.Payments.Store.{Payment, World, returns}
use coinos_server.Payments.Debit.{
  Request, Fees, Facts, account, tip_of, ourfee_of, debit_args, debit,
}
use coinos_server.Payments.Debit.Results.{
  Passed-ledger, debited_args, debit-record, charge_positive, taken,
}
use coinos_server.Payments.Debit.Steps.{debit-Passed}

-- A balance that covers some satoshis above the reserve does so in microsatoshis.
covers_micro :
    (micro : ℤ) (t reserve : ℕ)
    → 1 ≤ t
    → pos t ≤ℤ micro /ℤ msats -ℤ pos reserve
    → pos ((t + reserve) * msats) ≤ℤ micro
unfolding ◌/ℤ◌ ◌-ℤ◌
covers_micro (pos m) t reserve h k = ground arith
covers_micro (negsuc m) t reserve h k = ground arith

whole_balance : (o : Option Account) → account_balance o ≡ account_balance_micro o /ℤ msats
unfolding account_balance account_balance_micro ◌/ℤ◌
whole_balance none = refl
whole_balance (some x) = refl

left_over :
    (b b' : ℤ) (t t' reserve : ℕ)
    → t' ≤ t
    → pos ((t + reserve) * msats) ≤ℤ b
    → b' ≡ b -ℤ pos (t' * msats)
    → pos (reserve * msats) ≤ℤ b'
left_over b b' t t' reserve h k e =
    subst (λ z. pos (reserve * msats) ≤ℤ z) (sym e) (omega (int_laws, h, k))

neg_part-neg : (n : ℕ) → neg_part (neg n) ≡ n
neg_part-neg n = ground arith

module _ {Db : Type 0} (c : Client Db) where
  pub covered_nonneg :
      (a : DebitArgs) (db : Db)
      → pos 0 ≤ℤ account_balance_micro (get_account c (credit_id (credit_owner a) a.credit_type) db)
      → pos 0 ≤ℤ covered_micro c a db
  unfolding covered_micro
  covered_nonneg a db h = ground arith

  module _ (laws : IsCluster c) (l : Limits) (fees : Fees) (f : Facts) (r : Request) (w : World Db)
      (p : Payment) where
    -- The platform's fee of a payment is no more than what was asked for, less what credits cover.
    record Charged : Type 0 where
      taken_fee : ℕ
      small : taken_fee ≤ ourfee_of fees f r
      parts :
          neg_part p.amount + p.tip + p.fee + pos_part p.ourfee
          ≡ pos_part r.amount + pos_part (tip_of f r) + r.fee + taken_fee

    debit-Charged :
        IsUuid (account r)
        → get_account c (balance_id (account r)) w.tb.db ≢ none
        → pos 0 ≤ℤ covered_micro c (debited_args c l fees f r w) w.tb.db
        → (debit c l fees f r w).0 ≡ returns p
        → Charged
    unfolding debit_plan debit_args
    debit-Charged u ex credits h =
        let (fee, made, d, _, _) = Passed-ledger c l fees f r w p h in
        let args = debited_args c l fees f r w in
        let (same, _) = (taken c l fees f r w laws u ex).0 fee d in
        let (n, whole, most, _, _) = debit_plan-fee c args w.tb.db in
        let fee_is : fee ≡ pos n = same ∙ whole in
        record {
          taken_fee = n;
          small = within n args.ourfee most;
          parts =
              ap (λ q. neg_part q.amount + q.tip + q.fee + pos_part q.ourfee) made
              ∙ ap
                  (λ z.
                    neg_part (neg (pos_part r.amount)) + pos_part (tip_of f r) + r.fee + pos_part z)
                  fee_is
              ∙ ap (λ z. z + pos_part (tip_of f r) + r.fee + n) (neg_part-neg (pos_part r.amount));
        }
      where
        within :
            (n o : ℕ)
            → covered_micro c (debited_args c l fees f r w) w.tb.db +ℤ pos (n * msats)
              ≤ℤ pos (o * msats)
            → n ≤ o
        within n o k = omega (int_laws, k, credits)

    -- A payment that fits above a reserve leaves the reserve.
    pub debit-reserve :
        (reserve : ℕ)
        → IsUuid (account r)
        → get_account c (balance_id (account r)) w.tb.db ≢ none
        → pos 0 ≤ℤ covered_micro c (debited_args c l fees f r w) w.tb.db
        → pos_part (tip_of f r) ≡ 0
        → pos (pos_part r.amount + r.fee + ourfee_of fees f r)
          ≤ℤ get_balance c (account r) w.tb.db -ℤ pos reserve
        → (debit c l fees f r w).0 ≡ returns p
        → pos (reserve * msats)
          ≤ℤ account_balance_micro
              (get_account c (balance_id (account r)) (debit c l fees f r w).1.tb.db)
    unfolding get_balance
    debit-reserve reserve u ex credits no_tip fits h =
        let k = debit-Charged u ex credits h in
        let (moved, _, _, _) = debit-record c l fees f r w laws p u ex h in
        let one = charge_positive fees f r (debit-Passed c l fees f r w p h).charged in
        let some_paid : 1 ≤ pos_part r.amount = positive r.amount one in
        let asked = pos_part r.amount + r.fee + ourfee_of fees f r in
        let fits_micro =
          subst (λ z. pos asked ≤ℤ z -ℤ pos reserve)
            (whole_balance (get_account c (balance_id (account r)) w.tb.db)) fits in
        let enough =
          covers_micro (account_balance_micro (get_account c (balance_id (account r)) w.tb.db))
            asked reserve (omega (arith, some_paid)) fits_micro in
        let small = k.small in
        let parts = k.parts in
        left_over _ _ asked _ reserve (omega (arith, small, parts, no_tip)) enough moved
      where
        positive : (z : ℤ) → pos 1 ≤ℤ z → 1 ≤ pos_part z
        positive (pos n) h = omega (arith, h)
        positive (negsuc n) h = absurd (omega (arith, h))
