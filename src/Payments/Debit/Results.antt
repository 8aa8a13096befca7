-- ===== src/Payments/Debit/Results.antt =====
-- What `debit` of lib/payments.ts guarantees when it returns a payment and when it fails.
use mathlib.Core.Option
use mathlib.Core.Path.{subst}
use coinos_server.Base.{
  ℕ, ◌+◌, ◌*◌, ◌≡◌, refl, sym, ap, ◌∙◌, ◌≢◌, true, false, ◌||◌, Option, none, some, ℤ, pos,
  pos_part, neg_part, ◌-ℤ◌, ◌≤ℤ◌, ltb_ℤ, arith, inl, inr, Bool-cases,
}
use coinos_server.Ledger.Ids.{PaymentType, msats, balance_id}
use coinos_server.Ledger.Distinct.{IsUuid}
use coinos_server.Ledger.Client.{Client, IsCluster}
use coinos_server.Ledger.Debit.{
  Tb, DebitArgs, DebitResult, debited, refused, account_balance_micro, get_account, debit_plan,
  tb_debit,
}
use coinos_server.Ledger.Debit.Outcome.{debit_plan-fee}
use coinos_server.Ledger.Debit.Balance.{debit_commit-moves}
use coinos_server.Limits.Breaker.{Limits, Dir, Verdict, allowed, disabled, assert_withdraw_breaker}
use coinos_server.Payments.Store.{Payment, World, returns}
use coinos_server.Payments.Debit.{
  Request, Fees, Facts, account, is_internal, is_withdraw_locked, gate, reserve, charge, set_limit,
  breaker, breaker_result, ledger, ledger_result, debit_args, payment_of, store, debit, tip_of,
}
use coinos_server.Payments.Debit.Steps.{debit-Passed, returns-injective, fails-returns}

-- The gates that an external payment has passed.
gate_external :
    {Db : Type 0} (f : Facts) (r : Request) (w : World Db)
    → gate f r w ≡ none
    → is_internal r.type ≡ false
    → (is_withdraw_locked r.type w ≡ false)
      × (f.hard_freeze || f.freeze ≡ true → f.whitelisted ≡ true)
unfolding gate
gate_external f r w h e = (ground arith, λ k. ground arith)

pub charge_positive :
    (fees : Fees) (f : Facts) (r : Request) → charge fees f r ≡ none → pos 1 ≤ℤ r.amount
unfolding charge
charge_positive fees f r h = ground arith

set_limit-same :
    (t : PaymentType) (v : Option ℤ) (f : PaymentType → Option ℤ) → set_limit t v f t ≡ v
set_limit-same t v f = ground arith

reserve_external :
    {Db : Type 0} (r : Request) (w : World Db)
    → is_internal r.type ≡ false
    → (reserve r w).0 ≡ returns tt
    → (r.amount ≤ℤ Option.get_or (w.limit r.type) (pos 0))
      × ((reserve r w).1.limit r.type ≡ some (Option.get_or (w.limit r.type) (pos 0) -ℤ r.amount))
unfolding reserve
reserve_external r w e h =
    elim (Bool-cases (ltb_ℤ (Option.get_or (w.limit r.type) (pos 0)) r.amount)) [
      | inl over ↦ absurd (fails-returns (rw (e, over) at h))
      | inr fits ↦ simp (e, fits) (ground arith, set_limit-same r.type _ w.limit)
    ]

module _ {Db : Type 0} (c : Client Db) where
  pub reserve-tb : (r : Request) (w : World Db) → (reserve r w).1.tb ≡ w.tb
  unfolding reserve
  reserve-tb r w = ground arith

  pub breaker-keeps :
      (l : Limits) (f : Facts) (r : Request) (w : World Db)
      → ((breaker l f r w).1.tb ≡ w.tb) × ((breaker l f r w).1.limit ≡ w.limit)
  unfolding breaker
  breaker-keeps l f r w = elim (Bool-cases (is_internal r.type)) [
    | inl e ↦ simp e (refl, refl)
    | inr e ↦ simp e (go (assert_withdraw_breaker l f.now (pos_part r.amount) w.dir))
  ]
    where
      go :
          (x : Verdict × Dir)
          → ((breaker_result w x).1.tb ≡ w.tb) × ((breaker_result w x).1.limit ≡ w.limit)
      go (allowed, d) = (refl, refl)
      go (disabled, d) = (refl, refl)

  pub ledger-returns :
      (fees : Fees) (f : Facts) (r : Request) (w : World Db) (fee : ℤ)
      → (ledger c fees f r w).0 ≡ returns fee
      → ((tb_debit c (debit_args c fees f r w) w.tb).0 ≡ debited fee)
        × ((ledger c fees f r w).1
            ≡ record w { tb = (tb_debit c (debit_args c fees f r w) w.tb).1 })
  unfolding ledger
  ledger-returns fees f r w fee h = go (tb_debit c (debit_args c fees f r w) w.tb) h
    where
      go :
          (x : DebitResult × Tb Db)
          → (ledger_result c w x).0 ≡ returns fee
          → (x.0 ≡ debited fee) × ((ledger_result c w x).1 ≡ record w { tb = x.1 })
      go (debited g, s) e = (ap debited (returns-injective e), refl)
      go (refused a n, s) e = absurd (fails-returns e)

  -- The world in which the ledger is asked has the ledger of the start.
  pub asked :
      (l : Limits) (f : Facts) (r : Request) (w : World Db)
      → (breaker l f r (reserve r w).1).1.tb ≡ w.tb
  asked l f r w = (breaker-keeps l f r (reserve r w).1).0 ∙ reserve-tb r w

  store-keeps :
      (l : Limits) (f : Facts) (r : Request) (p : Payment) (w : World Db)
      → ((store c l f r p w).tb ≡ w.tb)
        × ((store c l f r p w).limit ≡ w.limit)
        × ((store c l f r p w).payment p.id ≡ some p)
  unfolding store
  store-keeps l f r p w = (refl, refl, ground arith)

  module _ (l : Limits) (fees : Fees) (f : Facts) (r : Request) (w : World Db) where
    abbrev pub debited_args : DebitArgs
    debited_args = debit_args c fees f r (breaker l f r (reserve r w).1).1

    -- What the ledger did for a payment.
    pub Passed-ledger :
        (p : Payment)
        → (debit c l fees f r w).0 ≡ returns p
        → (fee : ℤ) × (p ≡ payment_of c f r fee)
          × ((tb_debit c debited_args w.tb).0 ≡ debited fee)
          × ((debit c l fees f r w).1.tb ≡ (tb_debit c debited_args w.tb).1)
          × ((debit c l fees f r w).1.payment p.id ≡ some p)
    Passed-ledger p h =
        let k = debit-Passed c l fees f r w p h in
        let w2 = (breaker l f r (reserve r w).1).1 in
        let (d, e) = ledger-returns fees f r w2 k.fee k.settled in
        let at_start : w2.tb ≡ w.tb = asked l f r w in
        (
          k.fee,
          k.made,
          subst (λ s. (tb_debit c (debit_args c fees f r w2) s).0 ≡ debited k.fee) at_start d,
          ap (λ x. x.tb) k.stored
              ∙ (store-keeps l f r p (ledger c fees f r w2).1).0
              ∙ ap (λ x. x.tb) e
              ∙ ap (λ s. (tb_debit c (debit_args c fees f r w2) s).1) at_start,
          ap (λ x. x.payment p.id) k.stored ∙ (store-keeps l f r p (ledger c fees f r w2).1).2,
        )

    -- An external payment goes out only if no lock file of its kind exists, the sender is
    -- whitelisted or no freeze is on, and the amount is positive and within the limit of its kind,
    -- of which it is then taken off.
    pub debit-permitted :
        (p : Payment)
        → (debit c l fees f r w).0 ≡ returns p
        → is_internal r.type ≡ false
        → (f.blocked ≡ false)
          × (is_withdraw_locked r.type w ≡ false)
          × (f.hard_freeze || f.freeze ≡ true → f.whitelisted ≡ true)
          × (pos 1 ≤ℤ r.amount)
          × (r.amount ≤ℤ Option.get_or (w.limit r.type) (pos 0))
          × ((debit c l fees f r w).1.limit r.type
              ≡ some (Option.get_or (w.limit r.type) (pos 0) -ℤ r.amount))
    debit-permitted p h e =
        let k = debit-Passed c l fees f r w p h in
        let (lock, freeze) = gate_external f r w k.gated e in
        let (fits, taken) = reserve_external r w e k.reserved in
        let w2 = (breaker l f r (reserve r w).1).1 in
        (
          k.free,
          lock,
          freeze,
          charge_positive fees f r k.charged,
          fits,
          ap (λ x. x.limit r.type) k.stored
              ∙ ap (λ g. g r.type) (store-keeps l f r p (ledger c fees f r w2).1).1
              ∙ ap (λ x. x.limit r.type) (ledger-returns fees f r w2 k.fee k.settled).1
              ∙ ap (λ g. g r.type) (breaker-keeps l f r (reserve r w).1).1
              ∙ taken,
        )

    pub taken :
        (laws : IsCluster c)
        → IsUuid (account r)
        → get_account c (balance_id (account r)) w.tb.db ≢ none
        → let p = debit_plan c debited_args w.tb.db in
          let (x, s') = tb_debit c debited_args w.tb in
          ((g : ℤ)
            → x ≡ debited g
            → (g ≡ p.ourfee)
              × (account_balance_micro (get_account c (balance_id (account r)) s'.db)
                  ≡ account_balance_micro (get_account c (balance_id (account r)) w.tb.db)
                    -ℤ pos p.total_micro))
          × ((a n : ℤ)
              → x ≡ refused a n
              → (i : ℕ) → c.lookup_account i s'.db ≡ c.lookup_account i w.tb.db)
    unfolding tb_debit debit_args
    taken laws u ex = debit_commit-moves c laws debited_args w.tb.db w.tb u ex

    -- The record of a payment says what the ledger did: the balance of the account falls by the
    -- amount, the tip, the network fee and the platform fee of the record, and the record is stored.
    pub debit-record :
        (laws : IsCluster c) (p : Payment)
        → IsUuid (account r)
        → get_account c (balance_id (account r)) w.tb.db ≢ none
        → (debit c l fees f r w).0 ≡ returns p
        → let w' = (debit c l fees f r w).1 in
          (account_balance_micro (get_account c (balance_id (account r)) w'.tb.db)
            ≡ account_balance_micro (get_account c (balance_id (account r)) w.tb.db)
              -ℤ pos ((neg_part p.amount + p.tip + p.fee + pos_part p.ourfee) * msats))
          × (pos_part p.amount ≡ 0)
          × (p.aid ≡ account r)
          × (w'.payment p.id ≡ some p)
    unfolding debit_args
    debit-record laws p u ex h =
        let (fee, made, d, tb, st) = Passed-ledger p h in
        let (same, moved) = (taken laws u ex).0 fee d in
        let (n, whole, _, _, total) = debit_plan-fee c debited_args w.tb.db in
        (
          ap (λ s. account_balance_micro (get_account c (balance_id (account r)) s.db)) tb
              ∙ moved
              ∙ ap
                  (λ t.
                    account_balance_micro (get_account c (balance_id (account r)) w.tb.db) -ℤ pos t)
                  (total ∙ sym (amounts p fee n made (same ∙ whole))),
          ap (λ q. pos_part q.amount) made ∙ neg-parts.1,
          ap (λ q. q.aid) made,
          st,
        )
      where
        neg-parts :
            (neg_part (payment_of c f r (pos 0)).amount ≡ pos_part r.amount)
            × (pos_part (payment_of c f r (pos 0)).amount ≡ 0)
        neg-parts = (ground arith, ground arith)

        amounts :
            (p : Payment) (fee : ℤ) (n : ℕ)
            → p ≡ payment_of c f r fee
            → fee ≡ pos n
            → (neg_part p.amount + p.tip + p.fee + pos_part p.ourfee) * msats
              ≡ (debited_args.amount + debited_args.tip + debited_args.fee + n) * msats
        amounts p fee n made e =
            ap (λ q. (neg_part q.amount + q.tip + q.fee + pos_part q.ourfee) * msats) made
            ∙ ap
                (λ z.
                  (neg_part (payment_of c f r (pos 0)).amount
                    + pos_part (tip_of f r)
                    + r.fee
                    + pos_part z)
                  * msats)
                e
            ∙ ap (λ z. (z + pos_part (tip_of f r) + r.fee + n) * msats) neg-parts.0
