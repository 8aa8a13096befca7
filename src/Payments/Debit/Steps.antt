-- ===== src/Payments/Debit/Steps.antt =====
-- A payment that `debit` of lib/payments.ts returns has been through every step.
use mathlib.Core.Path.{subst}
use coinos_server.Base.{
  ◌≢◌, ◌≡◌, refl, sym, ap, ◌∙◌, true, false, Option, none, some, ℤ, inl, inr, Bool-cases,
}
use coinos_server.Ledger.Client.{Client}
use coinos_server.Limits.Breaker.{Limits}
use coinos_server.Payments.Store.{
  Payment, World, Failure, Result, address_blocked, fails, returns, bind, bind-returns,
}
use coinos_server.Payments.Debit.{
  Request, Fees, Facts, gate, reserve, charge, checked, breaker, ledger, payment_of, store, debit,
}

pub returns-injective : {A : Type 0} {a b : A} → ◌≡◌ {A = Result A} (returns a) (returns b) → a ≡ b
returns-injective e = cc

pub fails-returns : {A : Type 0} {x : Failure} {a : A} → ◌≢◌ {A = Result A} (fails x) (returns a)
fails-returns e = cc

module _ {Db : Type 0} (c : Client Db) where
  pub record Passed (l : Limits) (fees : Fees) (f : Facts) (r : Request) (w : World Db)
      (p : Payment) (w' : World Db) : Type 0 where
    pub free : f.blocked ≡ false
    pub gated : gate f r w ≡ none
    pub reserved : (reserve r w).0 ≡ returns tt
    pub charged : charge fees f r ≡ none
    pub cleared : (breaker l f r (reserve r w).1).0 ≡ returns tt
    pub fee : ℤ
    pub settled : (ledger c fees f r (breaker l f r (reserve r w).1).1).0 ≡ returns fee
    pub made : p ≡ payment_of c f r fee
    pub stored : w' ≡ store c l f r p (ledger c fees f r (breaker l f r (reserve r w).1).1).1

  bind-checked :
      {B : Type 0} (o : Option Failure) (w : World Db)
      (k : Unit {0} → World Db → Result B × World Db) (b : B)
      → (bind (checked o w) k).0 ≡ returns b
      → (o ≡ none) × (bind (checked o w) k ≡ k tt w)
  bind-checked none w k b e = (refl, refl)
  bind-checked (some x) w k b e = cc

  -- `debit` from a step on.
  module _ (l : Limits) (fees : Fees) (f : Facts) (r : Request) where
    abbrev from_store : ℤ → World Db → Result Payment × World Db
    from_store fee w = (returns (payment_of c f r fee), store c l f r (payment_of c f r fee) w)

    abbrev from_ledger : Unit {0} → World Db → Result Payment × World Db
    from_ledger _ w = bind (ledger c fees f r w) from_store

    abbrev from_breaker : Unit {0} → World Db → Result Payment × World Db
    from_breaker _ w = bind (breaker l f r w) from_ledger

    abbrev from_charge : Unit {0} → World Db → Result Payment × World Db
    from_charge _ w = bind (checked (charge fees f r) w) from_breaker

    abbrev from_reserve : Unit {0} → World Db → Result Payment × World Db
    from_reserve _ w = bind (reserve r w) from_charge

    pub debit_unblocked :
        (w : World Db)
        → f.blocked ≡ false
        → debit c l fees f r w ≡ bind (checked (gate f r w) w) from_reserve
    unfolding debit
    debit_unblocked w e = simp e refl

    pub debit_blocked :
        (w : World Db) → f.blocked ≡ true → (debit c l fees f r w).0 ≡ fails address_blocked
    unfolding debit
    debit_blocked w e = simp e refl

    from_reserve-Passed :
        (w : World Db) (p : Payment)
        → f.blocked ≡ false
        → gate f r w ≡ none
        → (from_reserve tt w).0 ≡ returns p
        → Passed l fees f r w p (from_reserve tt w).1
    from_reserve-Passed w p b g h =
        let (_, reserved, e1) = bind-returns (reserve r w) from_charge p h in
        let w1 = (reserve r w).1 in
        let (charged, e2) =
          bind-checked (charge fees f r) w1 from_breaker p (ap (λ x. x.0) (sym e1) ∙ h) in
        let e12 = e1 ∙ e2 in
        let (_, cleared, e3) =
          bind-returns (breaker l f r w1) from_ledger p (ap (λ x. x.0) (sym e12) ∙ h) in
        let w2 = (breaker l f r w1).1 in
        let e123 = e12 ∙ e3 in
        let (fee, settled, e4) =
          bind-returns (ledger c fees f r w2) from_store p (ap (λ x. x.0) (sym e123) ∙ h) in
        let e = e123 ∙ e4 in
        let made : p ≡ payment_of c f r fee = returns-injective (sym h ∙ ap (λ x. x.0) e) in
        record {
          free = b;
          gated = g;
          reserved = reserved;
          charged = charged;
          cleared = cleared;
          fee = fee;
          settled = settled;
          made = made;
          stored = ap (λ x. x.1) e ∙ ap (λ q. store c l f r q (ledger c fees f r w2).1) (sym made);
        }

    pub debit-Passed :
        (w : World Db) (p : Payment)
        → (debit c l fees f r w).0 ≡ returns p
        → Passed l fees f r w p (debit c l fees f r w).1
    debit-Passed w p h = elim (Bool-cases f.blocked) [
      | inl b ↦ absurd (fails-returns (sym (debit_blocked w b) ∙ h))
      | inr b ↦
          let e0 = debit_unblocked w b in
          let (g, e1) = bind-checked (gate f r w) w from_reserve p (ap (λ x. x.0) (sym e0) ∙ h) in
          let e = e0 ∙ e1 in
          subst (λ x. Passed l fees f r w p x.1) (sym e)
            (from_reserve-Passed w p b g (ap (λ x. x.0) (sym e) ∙ h))
    ]
