-- ===== src/Payments/Debit/Refusals.antt =====
-- Payments that `debit` of lib/payments.ts never makes, and what a failed call leaves.
use mathlib.Core.Option
use mathlib.Core.Path.{subst}
use coinos_server.Base.{
  ℕ, ◌*◌, ◌≡◌, refl, sym, ap, ◌∙◌, ◌≢◌, true, false, Option, none, some, ℤ, pos, negsuc, pos_part,
  ◌-ℤ◌, ◌/ℤ◌, ◌≤ℤ◌, ltb_ℤ, int_laws, inl, inr, Bool-cases,
}
use coinos_server.Ledger.Ids.{msats, balance_id}
use coinos_server.Ledger.Client.{Account, Client, IsCluster}
use coinos_server.Ledger.Debit.{
  Tb, DebitArgs, DebitResult, debited, refused, account_balance, account_balance_micro, get_account,
  get_balance, debit_plan, debit_commit, tb_debit,
}
use coinos_server.Ledger.Debit.Outcome.{Settles, debit_commit-Settles, debit_plan-fee}
use coinos_server.Limits.Breaker.{Limits, Dir, Verdict, allowed, disabled, assert_withdraw_breaker}
use coinos_server.Payments.Store.{Payment, World, Failure, Result, fails, returns, bind}
use coinos_server.Payments.Debit.{
  Request, Fees, Facts, account, reserve, charge, is_internal, breaker, breaker_result, ledger,
  ledger_result, debit_args, payment_of, store, debit, gate, checked,
}
use coinos_server.Payments.Debit.Steps.{debit-Passed, debit_unblocked}
use coinos_server.Payments.Debit.Results.{Passed-ledger, debited_args, asked, charge_positive}

remainder : (z : ℤ) → z -ℤ pos (pos_part (z /ℤ msats) * msats) ≤ℤ pos 999_999
unfolding ◌/ℤ◌
remainder (pos n) = omega int_laws
remainder (negsuc n) = omega int_laws

-- Less than a satoshi is left when the whole satoshis of a balance are frozen.
frozen_remainder :
    (o : Option Account)
    → account_balance_micro o -ℤ pos (pos_part (account_balance o) * msats) ≤ℤ pos 999_999
unfolding account_balance account_balance_micro
frozen_remainder none = omega int_laws
frozen_remainder (some x) = remainder (account_balance_micro (some x))

module _ {Db : Type 0} (c : Client Db) (laws : IsCluster c) where
  open c use {lookup_account}

  settled_fits :
      (a : DebitArgs) (s : Tb Db) (fee : ℤ)
      → (tb_debit c a s).0 ≡ debited fee
      → pos (debit_plan c a s.db).total_micro ≤ℤ (debit_plan c a s.db).available_micro
  unfolding tb_debit
  settled_fits a s fee e =
      go (debit_commit c a (debit_plan c a s.db) s)
        (debit_commit-Settles c laws a (debit_plan c a s.db) s) e
    where
      go :
          (x : DebitResult × Tb Db)
          → Settles c a (debit_plan c a s.db) s x
          → x.0 ≡ debited fee
          → pos (debit_plan c a s.db).total_micro ≤ℤ (debit_plan c a s.db).available_micro
      go (refused m n, t) h e = cc
      go (debited g, t) h e = h.1

  -- A call that freezes the whole balance has less than a satoshi available.
  frozen_available :
      (a : DebitArgs) (db : Db)
      → a.frozen ≡ pos_part (get_balance c a.aid db)
      → (debit_plan c a db).available_micro ≤ℤ pos 999_999
  unfolding debit_plan get_balance get_account
  frozen_available a db e =
      subst
        (λ n.
          account_balance_micro (get_account c (balance_id a.aid) db) -ℤ pos (n * msats)
          ≤ℤ pos 999_999)
        (sym e) (frozen_remainder (get_account c (balance_id a.aid) db))

  -- No payment of any kind is made for a user who is blacklisted and not whitelisted, from
  -- whichever of the user's accounts.
  pub debit-blacklisted :
      (l : Limits) (fees : Fees) (f : Facts) (r : Request) (w : World Db) (p : Payment)
      → f.blacklisted ≡ true
      → f.whitelisted ≡ false
      → (debit c l fees f r w).0 ≢ returns p
  unfolding debit_args
  debit-blacklisted l fees f r w p b v h =
      let (fee, made, d, tb, st) = Passed-ledger c l fees f r w p h in
      let a = debited_args c l fees f r w in
      let fits = settled_fits a w.tb fee d in
      let few =
        frozen_available a w.tb.db
          (simp (b, v) (ap (λ s. pos_part (get_balance c (account r) s.db)) (asked c l f r w))) in
      let (n, whole, _, _, total) = debit_plan-fee c a w.tb.db in
      let one = charge_positive fees f r (debit-Passed c l fees f r w p h).charged in
      omega (int_laws, fits, few, total, one)

  abbrev pub Same : World Db → World Db → Type 0
  Same w w' =
      ((i : ℕ) → lookup_account i w'.tb.db ≡ lookup_account i w.tb.db)
      × (w'.payment ≡ w.payment)
      × (w'.payments_of ≡ w.payments_of)

  -- A failure leaves every account and every record as it was in `w`.
  abbrev pub FailsClean : {A : Type 0} → World Db → Result A × World Db → Type 0
  FailsClean w (fails _, w') = Same w w'
  FailsClean w (returns _, w') = Unit

  bind-FailsClean :
      {A B : Type 0} (w : World Db) (m : Result A × World Db)
      (k : A → World Db → Result B × World Db)
      → Same w m.1
      → ((a : A) (w1 : World Db) → Same w w1 → FailsClean w (k a w1))
      → FailsClean w (bind m k)
  bind-FailsClean w (fails x, w') k h q = h
  bind-FailsClean w (returns a, w') k h q = q a w' h

  checked-Same : (w w1 : World Db) (o : Option Failure) → Same w w1 → Same w (checked o w1).1
  checked-Same w w1 none h = h
  checked-Same w w1 (some x) h = h

  reserve-Same : (r : Request) (w w1 : World Db) → Same w w1 → Same w (reserve r w1).1
  unfolding reserve
  reserve-Same r w w1 h = elim (Bool-cases (is_internal r.type)) [
    | inl e ↦ simp e h
    | inr e ↦ elim (Bool-cases (ltb_ℤ (Option.get_or (w1.limit r.type) (pos 0)) r.amount)) [
      | inl e' ↦ simp (e, e') h
      | inr e' ↦ simp (e, e') h
    ]
  ]

  breaker-Same :
      (l : Limits) (f : Facts) (r : Request) (w w1 : World Db)
      → Same w w1
      → Same w (breaker l f r w1).1
  unfolding breaker
  breaker-Same l f r w w1 h = elim (Bool-cases (is_internal r.type)) [
    | inl e ↦ simp e h
    | inr e ↦ simp e (go (assert_withdraw_breaker l f.now (pos_part r.amount) w1.dir))
  ]
    where
      go : (x : Verdict × Dir) → Same w (breaker_result w1 x).1
      go (allowed, d) = h
      go (disabled, d) = h

  ledger-FailsClean :
      (fees : Fees) (f : Facts) (r : Request) (w w1 : World Db)
      (k : ℤ → World Db → Payment × World Db)
      → Same w w1
      → FailsClean w (bind (ledger c fees f r w1) (λ a w2. (returns (k a w2).0, (k a w2).1)))
  unfolding ledger tb_debit
  ledger-FailsClean fees f r w w1 k h =
      go (debit_commit c a (debit_plan c a w1.tb.db) w1.tb)
        (debit_commit-Settles c laws a (debit_plan c a w1.tb.db) w1.tb)
    where
      a : DebitArgs
      a = debit_args c fees f r w1

      go :
          (x : DebitResult × Tb Db)
          → Settles c a (debit_plan c a w1.tb.db) w1.tb x
          → FailsClean w (bind (ledger_result c w1 x) (λ a w2. (returns (k a w2).0, (k a w2).1)))
      go (refused m n, t) q = (λ i. q i ∙ h.0 i, h.1, h.2)
      go (debited g, t) q = tt

  -- A call that fails, at whatever step, leaves every account of the ledger and every payment record
  -- as it was.
  pub debit-FailsClean :
      (l : Limits) (fees : Fees) (f : Facts) (r : Request) (w : World Db)
      → FailsClean w (debit c l fees f r w)
  debit-FailsClean l fees f r w = elim (Bool-cases f.blocked) [
    | inl b ↦ unfold debit in simp b (λ i. refl, refl, refl)
    | inr b ↦ subst (FailsClean w) (sym (debit_unblocked c l fees f r w b)) (
        bind-FailsClean w (checked (gate f r w) w) _
          (checked-Same w w (gate f r w) (λ i. refl, refl, refl))
          (λ _ w1 h1. bind-FailsClean w (reserve r w1) _ (reserve-Same r w w1 h1) (λ _ w2 h2.
            bind-FailsClean w (checked (charge fees f r) w2) _
              (checked-Same w w2 (charge fees f r) h2)
              (λ _ w3 h3.
                bind-FailsClean w (breaker l f r w3) _ (breaker-Same l f r w w3 h3) (λ _ w4 h4.
                  ledger-FailsClean fees f r w w4
                    (λ g w5. (payment_of c f r g, store c l f r (payment_of c f r g) w5)) h4)))))
  ]
