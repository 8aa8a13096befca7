-- ===== src/Payments/Credit/Internal.antt =====
-- An internal send of lib/payments.ts moves money from one user to another and makes none.
use coinos_server.Base.{
  ℕ, ◌+◌, ◌*◌, ◌≡◌, ◌≢◌, refl, sym, ap, ◌∙◌, false, Option, none, some, ℤ, pos, pos_part, neg_part,
  ◌+ℤ◌, ◌-ℤ◌, ◌/ℤ◌, arith,
}
use coinos_server.Ledger.Ids.{msats, balance_id}
use coinos_server.Ledger.Distinct.{IsUuid}
use coinos_server.Ledger.Client.{Client, IsCluster}
use coinos_server.Ledger.Debit.{
  DebitArgs, account_balance_micro, get_account, covered_micro, debit_plan,
}
use coinos_server.Limits.Breaker.{Limits}
use coinos_server.Payments.Store.{Payment, Invoice, World, Result, returns, fails}
use coinos_server.Payments.Debit.{Fees, Facts, Request, debit, debit_args, platform_fee}
use coinos_server.Payments.Debit.Results.{Passed-ledger, debited_args, debit-record, taken}
use coinos_server.Payments.Credit.{
  Desk, Reads, End, find, sent, done, get_invoice, internal_request, internal_receipt, credit_after,
  credit, send_internal,
}
use coinos_server.Payments.Credit.Amounts.{credit-record}

sent-payment : {p q : Payment} {e e' : End} → sent p e ≡ sent q e' → p ≡ q
sent-payment h = cc

sent-end : {p q : Payment} {e e' : End} → sent p e ≡ sent q e' → e ≡ e'
sent-end h = cc

module _ {Db : Type 0} (c : Client Db) (laws : IsCluster c) where
  covered_zero : (a : DebitArgs) (db : Db) → a.ourfee ≡ 0 → covered_micro c a db ≡ pos 0
  unfolding covered_micro
  covered_zero a db e = ground arith

  no_fee : (a : DebitArgs) (db : Db) → a.ourfee ≡ 0 → (debit_plan c a db).ourfee ≡ pos 0
  unfolding debit_plan ◌-ℤ◌ ◌/ℤ◌
  no_fee a db e = rw (covered_zero a db e, e) refl

  module _ (l : Limits) (fees : Fees) (df : Facts) (f : Reads) (sender hash : ℕ) (amount : ℤ)
      (max_total : Option ℕ) (d : Desk Db) where
    abbrev facts_of : Facts
    facts_of = record df { invoice = get_invoice d hash }

    abbrev request_of : Request
    request_of = internal_request sender hash amount max_total

    -- The world between the debit and the credit.
    abbrev pub debited_world : World Db
    debited_world = (debit c l fees facts_of request_of d.world).1

    sent-both :
        (p q : Payment)
        → (send_internal c l fees df f sender hash amount max_total d).0 ≡ sent p (done q)
        → ((debit c l fees facts_of request_of d.world).0 ≡ returns p)
          × ((credit c f
                (internal_receipt sender hash amount p.tip)
                (record d { world = debited_world })).0
              ≡ done q)
          × ((send_internal c l fees df f sender hash amount max_total d).1
              ≡ (credit c f
                  (internal_receipt sender hash amount p.tip)
                  (record d { world = debited_world })).1)
    unfolding send_internal
    sent-both p q h = go (debit c l fees facts_of request_of d.world) h
      where
        go :
            (x : Result Payment × World Db)
            → (credit_after c l fees df f sender hash amount d x).0 ≡ sent p (done q)
            → (x.0 ≡ returns p)
              × ((credit c f
                    (internal_receipt sender hash amount p.tip)
                    (record d { world = x.1 })).0
                  ≡ done q)
              × ((credit_after c l fees df f sender hash amount d x).1
                  ≡ (credit c f
                      (internal_receipt sender hash amount p.tip)
                      (record d { world = x.1 })).1)
        go (fails y, w) e = cc
        go (returns y, w) e =
            let same = sent-payment e in
            (
              ap returns same,
              ap
                    (λ x.
                      (credit c f (internal_receipt sender hash amount x.tip)
                        (record d { world = w })).0)
                    (sym same)
                  ∙ sent-end e,
              ap
                  (λ x.
                    (credit c f (internal_receipt sender hash amount x.tip)
                      (record d { world = w })).1)
                  same,
            )

    no_ourfee :
        (p : Payment)
        → (debit c l fees facts_of request_of d.world).0 ≡ returns p
        → IsUuid sender
        → get_account c (balance_id sender) d.world.tb.db ≢ none
        → (p.ourfee ≡ pos 0) × (p.fee ≡ 0) × (neg_part p.amount ≡ pos_part amount)
    unfolding debit_args platform_fee ◌-ℤ◌
    no_ourfee p h u ex =
        let (fee, made, x, _, _) = Passed-ledger c l fees facts_of request_of d.world p h in
        let a = debited_args c l fees facts_of request_of d.world in
        let (same, _) = (taken c l fees facts_of request_of d.world laws u ex).0 fee x in
        (
          ap (λ z. z.ourfee) made ∙ same ∙ no_fee a d.world.tb.db (ground arith),
          ap (λ z. z.fee) made,
          ap (λ z. neg_part z.amount) made ∙ ground arith,
        )

    -- An internal send that is carried out takes the amount and the tip from the sender, and nothing
    -- more, and credits the same to the receiver. The two are uuids whose accounts exist, the
    -- receiver's when it is credited, and the invoice is the receiver's.
    pub send_internal-moves :
        (p q : Payment) (i : Invoice)
        → (send_internal c l fees df f sender hash amount max_total d).0 ≡ sent p (done q)
        → get_invoice d hash ≡ some i
        → IsUuid sender
        → IsUuid i.uid
        → get_account c (balance_id sender) d.world.tb.db ≢ none
        → get_account c (balance_id i.uid) debited_world.tb.db ≢ none
        → let n = (pos_part amount + p.tip) * msats in
          let d' = (send_internal c l fees df f sender hash amount max_total d).1 in
          (account_balance_micro (get_account c (balance_id sender) debited_world.tb.db)
            ≡ account_balance_micro (get_account c (balance_id sender) d.world.tb.db) -ℤ pos n)
          × (account_balance_micro (get_account c (balance_id i.uid) d'.world.tb.db)
              ≡ account_balance_micro (get_account c (balance_id i.uid) debited_world.tb.db)
                +ℤ pos n)
    unfolding get_account
    send_internal-moves p q i h e u v ex ex' =
        let (dh, ch, same) = sent-both p q h in
        let (zero, free, gone) = no_ourfee p dh u ex in
        let (moved, _, _, _) = debit-record c l fees facts_of request_of d.world laws p u ex dh in
        let (got, _, n) =
          credit-record c laws f (internal_receipt sender hash amount p.tip) i
            (record d { world = debited_world }) q (found e) refl v ex' ch in
        (
          moved
              ∙ ap
                  (λ k.
                    account_balance_micro (get_account c (balance_id sender) d.world.tb.db)
                    -ℤ pos (k * msats))
                  (sum_up p gone free zero),
          ap (λ x. account_balance_micro (get_account c (balance_id i.uid) x.world.tb.db)) same
              ∙ got
              ∙ ap
                  (λ k.
                    account_balance_micro (get_account c (balance_id i.uid) debited_world.tb.db)
                    +ℤ pos (k * msats))
                  n,
        )
      where
        sum_up :
            (p : Payment)
            → neg_part p.amount ≡ pos_part amount
            → p.fee ≡ 0
            → p.ourfee ≡ pos 0
            → neg_part p.amount + p.tip + p.fee + pos_part p.ourfee ≡ pos_part amount + p.tip
        sum_up p g n z = omega (arith, g, n, ap pos_part z)

        found :
            {o : Option Invoice}
            → o ≡ some i
            → find o false f.offer (record d { world = debited_world }) ≡ some i
        found e = ap (λ o. find o false f.offer (record d { world = debited_world })) e
