-- ===== src/Payments/Credit/Amounts.antt =====
-- What `credit` and `sendInternal` of lib/payments.ts add to balances.
use mathlib.Core.Path.{subst}
use coinos_server.Base.{
  ℕ, ◌+◌, ◌*◌, ◌≤◌, ◌≡◌, ◌≢◌, refl, sym, ap, ◌∙◌, true, not, ◌&&◌, ◌||◌, none, some, ℤ, pos,
  pos_part, ◌+ℤ◌, ltb_ℤ, leb_ℤ, arith, inl, inr, Bool-cases,
}
use coinos_server.Ledger.Ids.{msats}
use coinos_server.Ledger.Distinct.{IsUuid, account_of}
use coinos_server.Ledger.Client.{Client, IsCluster}
use coinos_server.Ledger.Debit.{Tb, account_balance_micro}
use coinos_server.Ledger.Operations.{CreditResult, credited, credit_failed, tb_credit}
use coinos_server.Ledger.Credits.{role_of, tb_credit-adds}
use coinos_server.Payments.Store.{Payment, Invoice, set_at}
use coinos_server.Payments.Debit.{is_bolt12}
use coinos_server.Payments.Credit.{
  Desk, Receipt, Reads, End, done, settlement_ref, claims_ref, on_chain, credit_args, ledger_credit,
  claim_and_credit, keep_payment, point, receipt_payment, owner_account, credited_amount, tip_kept,
  tip_given, locked_credit, with_invoice, invoice_found, credit,
}

module _ {Db : Type 0} (c : Client Db) (f : Reads) (r : Receipt) where
  -- What a call that credits `q` has done with the ledger `s`.
  record Done (i : Invoice) (s : Tb Db) (q : Payment) (s' : Tb Db) : Type 0 where
    made : q ≡ receipt_payment f r i
    accepted : (tb_credit c (credit_args c f r i) s).0 ≡ credited
    after : s' ≡ (tb_credit c (credit_args c f r i) s).1

  Does : Invoice → Tb Db → End × Desk Db → Type 0
  Does i s x = (q : Payment) → x.0 ≡ done q → Done i s q x.1.world.tb

  ledger_credit-Does :
      (i : Invoice) (d : Desk Db) (x : CreditResult × Tb Db) (q : Payment)
      → (ledger_credit c f r i (receipt_payment f r i) d x).0 ≡ done q
      → (q ≡ receipt_payment f r i)
        × (x.0 ≡ credited)
        × ((ledger_credit c f r i (receipt_payment f r i) d x).1.world.tb ≡ x.1)
  unfolding keep_payment
  ledger_credit-Does i d (credited, s) q h = (done-injective (sym h), refl, refl)
    where
      done-injective : {a b : Payment} → done a ≡ done b → a ≡ b
      done-injective e = cc
  ledger_credit-Does i d (credit_failed, s) q h = cc

  claim_and_credit-Does :
      (i : Invoice) (ref : ℕ) (d : Desk Db)
      → Does i d.world.tb (claim_and_credit c f r i ref (receipt_payment f r i) d)
  unfolding Does claim_and_credit
  claim_and_credit-Does i ref d = elim (Bool-cases (claims_ref r ref && d.credited ref)) [
    | inl e ↦ rw e (λ q h. cc)
    | inr e ↦ rw e (elim (Bool-cases (claims_ref r ref)) [
      | inl e' ↦ rw e' (λ q h. from_ledger (record d { credited = set_at ref true d.credited }) q h)
      | inr e' ↦ rw e' (λ q h. from_ledger d q h)
    ])
  ]
    where
      from_ledger :
          (d' : Desk Db) (q : Payment)
          → (ledger_credit c f r i
              (receipt_payment f r i)
              d'
              (tb_credit c (credit_args c f r i) d.world.tb)).0
            ≡ done q
          → Done i d.world.tb q
              (ledger_credit c f r i
                (receipt_payment f r i)
                d'
                (tb_credit c (credit_args c f r i) d.world.tb)).1.world.tb
      from_ledger d' q h =
          let (m, a, t) =
            ledger_credit-Does i d' (tb_credit c (credit_args c f r i) d.world.tb) q h in
          record { made = m; accepted = a; after = t }

  point-tb : (p : Payment) (d : Desk Db) → (point c f r p d).world.tb ≡ d.world.tb
  point-tb p d = elim (Bool-cases (on_chain r.type)) [ inl e ↦ rw e refl | inr e ↦ rw e refl ]

  locked_credit-Does : (i : Invoice) (d : Desk Db) → Does i d.world.tb (locked_credit c f r i d)
  unfolding Does locked_credit
  locked_credit-Does i d =
      elim (Bool-cases (leb_ℤ r.amount (pos i.received) && not (is_bolt12 i.type))) [
        | inl e ↦ rw e (λ q h. cc)
        | inr e ↦
            rw e (elim (Bool-cases (ltb_ℤ r.amount (pos 0) || ltb_ℤ (tip_given r i) (pos 0))) [
              | inl e' ↦ rw e' (λ q h. cc)
              | inr e' ↦ rw e' (elim (Bool-cases f.user_exists) [
                | inl u ↦ simp u (
                    subst
                      (λ s. Does i s (
                        claim_and_credit c f r i (settlement_ref f r i) (receipt_payment f r i)
                          (point c f r (receipt_payment f r i) d)))
                      (point-tb (receipt_payment f r i) d)
                      (claim_and_credit-Does i (settlement_ref f r i)
                        (point c f r (receipt_payment f r i) d)))
                | inr u ↦ simp u (λ q h. cc)
              ])
            ])
      ]

  with_invoice-Does :
      (i : Invoice) (d : Desk Db) → Does i d.world.tb (with_invoice c f r (some i) d)
  unfolding Does with_invoice
  with_invoice-Does i d = elim (Bool-cases (d.lock r.hash)) [
    | inl e ↦ rw e (λ q h. cc)
    | inr e ↦ rw e (locked_credit-Does i (record d { lock = set_at r.hash true d.lock }))
  ]

  credit-Does :
      (i : Invoice) (d : Desk Db) (q : Payment)
      → invoice_found c f r d ≡ some i
      → (credit c f r d).0 ≡ done q
      → Done i d.world.tb q (credit c f r d).1.world.tb
  unfolding Does credit
  credit-Does i d q e h =
      subst
        (λ o.
          (with_invoice c f r o d).0 ≡ done q
          → Done i d.world.tb q (with_invoice c f r o d).1.world.tb)
        (sym e) (with_invoice-Does i d q) h

tip-fits : (r : Receipt) (i : Invoice) → tip_kept r i ≤ credited_amount r i
tip-fits r i = ground arith

module _ {Db : Type 0} (c : Client Db) (laws : IsCluster c) where
  open c use {lookup_account}

  -- What an incoming payment is credited to: the balance, or the pending account for a payment on
  -- chain.
  abbrev pub holding : Receipt → ℕ → Tb Db → ℤ
  holding r uid s =
      account_balance_micro (lookup_account (account_of (role_of (on_chain r.type)) uid) s.db)

  -- A credit to the receiver's own account raises the balance, or the pending balance of a payment on
  -- chain, by exactly what its record says, the amount and the tip, neither of which is negative.
  pub credit-record :
      (f : Reads) (r : Receipt) (i : Invoice) (d : Desk Db) (q : Payment)
      → invoice_found c f r d ≡ some i
      → owner_account r i ≡ i.uid
      → IsUuid i.uid
      → lookup_account (account_of (role_of (on_chain r.type)) i.uid) d.world.tb.db ≢ none
      → (credit c f r d).0 ≡ done q
      → (holding r i.uid (credit c f r d).1.world.tb
          ≡ holding r i.uid d.world.tb +ℤ pos ((pos_part q.amount + q.tip) * msats))
        × (q ≡ receipt_payment f r i)
        × (pos_part q.amount + q.tip ≡ credited_amount r i)
  unfolding receipt_payment
  credit-record f r i d q e own u ex h =
      let k = credit-Does c f r i d q e h in
      let amount : pos_part q.amount + q.tip ≡ credited_amount r i =
        ap (λ x. pos_part x.amount + x.tip) k.made ∙ omega (arith, tip-fits r i) in
      (
        ap (holding r i.uid) k.after
            ∙ tb_credit-adds c laws (credit_args c f r i) d.world.tb u own ex k.accepted
            ∙ ap (λ n. holding r i.uid d.world.tb +ℤ pos (n * msats)) (sym amount),
        k.made,
        amount,
      )
