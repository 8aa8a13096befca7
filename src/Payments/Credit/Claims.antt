-- ===== src/Payments/Credit/Claims.antt =====
-- A settlement is credited once.
use mathlib.Core.Path.{subst}
use coinos_server.Base.{
  ℕ, ◌≡◌, refl, sym, ap, ◌∙◌, Bool, true, false, not, ◌&&◌, ◌||◌, Option, none, some, if◌then◌else◌,
  pos, ltb_ℤ, leb_ℤ, arith, inl, inr, Bool-cases,
}
use coinos_server.Ledger.Client.{Client}
use coinos_server.Ledger.Debit.{Tb}
use coinos_server.Ledger.Operations.{CreditResult, credited, credit_failed}
use coinos_server.Payments.Store.{Payment, Invoice, set_at}
use coinos_server.Payments.Debit.{is_bolt12}
use coinos_server.Payments.Credit.Kept.{Later, Later-Keeps}
use coinos_server.Payments.Credit.{
  Desk, Receipt, Reads, End, done, settlement_ref, claims_ref, on_chain, ledger_credit,
  claim_and_credit, point, receipt_payment, tip_given, locked_credit, keep_payment, with_invoice,
  invoice_found, credit,
}

set_at-same : {A : Type 0} (i : ℕ) (a : A) (f : ℕ → A) → set_at i a f i ≡ a
set_at-same i a f = ground arith

either : (b : Bool) (n : ℕ) → (if b then n else n) ≡ n
either true n = refl
either false n = refl

module _ {Db : Type 0} (c : Client Db) (f : Reads) (r : Receipt)
    (claims : claims_ref r r.ref ≡ true) (own : f.stored_preimage ≡ none) where
  ref-own : (i : Invoice) → settlement_ref f r i ≡ r.ref
  unfolding settlement_ref
  ref-own i = rw own (either _ r.ref)

  -- A call that credits has claimed the settlement.
  Claimed : End × Desk Db → Type 0
  Claimed x = (q : Payment) → x.0 ≡ done q → x.1.credited r.ref ≡ true

  ledger_credit-Claimed :
      (i : Invoice) (p : Payment) (d : Desk Db) (x : CreditResult × Tb Db)
      → d.credited r.ref ≡ true
      → Claimed (ledger_credit c f r i p d x)
  unfolding Claimed keep_payment
  ledger_credit-Claimed i p d (credited, s) h q e = h
  ledger_credit-Claimed i p d (credit_failed, s) h q e = cc

  claim_and_credit-Claimed :
      (i : Invoice) (p : Payment) (d : Desk Db) → Claimed (claim_and_credit c f r i r.ref p d)
  unfolding Claimed claim_and_credit
  claim_and_credit-Claimed i p d = elim (Bool-cases (d.credited r.ref)) [
    | inl e ↦ simp (claims, e) (λ q h. cc)
    | inr e ↦
        simp (claims, e)
          (ledger_credit-Claimed i p (record d { credited = set_at r.ref true d.credited }) _
            (set_at-same r.ref true d.credited))
  ]

  locked_credit-Claimed : (i : Invoice) (d : Desk Db) → Claimed (locked_credit c f r i d)
  unfolding Claimed locked_credit
  locked_credit-Claimed i d =
      elim (Bool-cases (leb_ℤ r.amount (pos i.received) && not (is_bolt12 i.type))) [
        | inl e ↦ rw e (λ q h. cc)
        | inr e ↦
            rw e (elim (Bool-cases (ltb_ℤ r.amount (pos 0) || ltb_ℤ (tip_given r i) (pos 0))) [
              | inl e' ↦ rw e' (λ q h. cc)
              | inr e' ↦ rw e' (elim (Bool-cases f.user_exists) [
                | inl u ↦ rw u (
                    subst
                      (λ n. Claimed (
                        claim_and_credit c f r i n (receipt_payment f r i)
                          (point c f r (receipt_payment f r i) d)))
                      (sym (ref-own i))
                      (claim_and_credit-Claimed i (receipt_payment f r i)
                        (point c f r (receipt_payment f r i) d)))
                | inr u ↦ rw u (λ q h. cc)
              ])
            ])
      ]

  -- A call whose settlement has been claimed moves no money.
  Unmoved : Desk Db → End × Desk Db → Type 0
  Unmoved d x = x.1.world.tb ≡ d.world.tb

  claim_and_credit-Unmoved :
      (i : Invoice) (p : Payment) (d : Desk Db)
      → d.credited r.ref ≡ true
      → Unmoved d (claim_and_credit c f r i r.ref p d)
  unfolding Unmoved claim_and_credit
  claim_and_credit-Unmoved i p d h = simp (claims, h) refl

  point-keeps :
      (p : Payment) (d : Desk Db)
      → ((point c f r p d).world.tb ≡ d.world.tb) × ((point c f r p d).credited ≡ d.credited)
  point-keeps p d = elim (Bool-cases (on_chain r.type)) [
    | inl e ↦ rw e (refl, refl)
    | inr e ↦ rw e (refl, refl)
  ]

  locked_credit-Unmoved :
      (i : Invoice) (d : Desk Db) → d.credited r.ref ≡ true → Unmoved d (locked_credit c f r i d)
  unfolding Unmoved locked_credit
  locked_credit-Unmoved i d h =
      elim (Bool-cases (leb_ℤ r.amount (pos i.received) && not (is_bolt12 i.type))) [
        | inl e ↦ rw e refl
        | inr e ↦
            rw e (elim (Bool-cases (ltb_ℤ r.amount (pos 0) || ltb_ℤ (tip_given r i) (pos 0))) [
              | inl e' ↦ rw e' refl
              | inr e' ↦ rw e' (elim (Bool-cases f.user_exists) [
                | inl u ↦ rw u (
                    subst
                      (λ n.
                        (claim_and_credit c f r i n (receipt_payment f r i)
                          (point c f r (receipt_payment f r i) d)).1.world.tb
                        ≡ d.world.tb)
                      (sym (ref-own i))
                      (claim_and_credit-Unmoved i (receipt_payment f r i)
                          (point c f r (receipt_payment f r i) d)
                          (ap (λ g. g r.ref) (point-keeps (receipt_payment f r i) d).1 ∙ h)
                        ∙ (point-keeps (receipt_payment f r i) d).0))
                | inr u ↦ rw u refl
              ])
            ])
      ]

  with_invoice-Claimed : (o : Option Invoice) (d : Desk Db) → Claimed (with_invoice c f r o d)
  unfolding Claimed with_invoice
  with_invoice-Claimed none d = λ q h. cc
  with_invoice-Claimed (some i) d = elim (Bool-cases (d.lock r.hash)) [
    | inl e ↦ rw e (λ q h. cc)
    | inr e ↦ rw e (locked_credit-Claimed i (record d { lock = set_at r.hash true d.lock }))
  ]

  with_invoice-Unmoved :
      (o : Option Invoice) (d : Desk Db)
      → d.credited r.ref ≡ true
      → Unmoved d (with_invoice c f r o d)
  unfolding Unmoved with_invoice
  with_invoice-Unmoved none d h = refl
  with_invoice-Unmoved (some i) d h = elim (Bool-cases (d.lock r.hash)) [
    | inl e ↦ rw e refl
    | inr e ↦ rw e (locked_credit-Unmoved i (record d { lock = set_at r.hash true d.lock }) h)
  ]

  pub credit-Claimed :
      (d : Desk Db) (q : Payment)
      → (credit c f r d).0 ≡ done q
      → (credit c f r d).1.credited r.ref ≡ true
  unfolding Claimed credit
  credit-Claimed d = with_invoice-Claimed (invoice_found c f r d) d

  pub credit-Unmoved :
      (d : Desk Db) → d.credited r.ref ≡ true → (credit c f r d).1.world.tb ≡ d.world.tb
  unfolding Unmoved credit
  credit-Unmoved d h = with_invoice-Unmoved (invoice_found c f r d) d h

-- A Lightning settlement that has been credited is never credited again, whatever calls with
-- whatever receipts come first and whatever is read: a call with its reference moves no money, as
-- long as no preimage of a merchant stands for the reference and the claims are kept.
pub credit-once :
    {Db : Type 0} (c : Client Db) (f f' : Reads) (r r' : Receipt) (d e : Desk Db) (p : Payment)
    → claims_ref r r.ref ≡ true
    → claims_ref r' r'.ref ≡ true
    → r'.ref ≡ r.ref
    → f.stored_preimage ≡ none
    → f'.stored_preimage ≡ none
    → (credit c f r d).0 ≡ done p
    → Later c (credit c f r d).1 e
    → (credit c f' r' e).1.world.tb ≡ e.world.tb
credit-once c f f' r r' d e p claims claims' same own own' h l =
    credit-Unmoved c f' r' claims' own' e (
      ap e.credited same
      ∙ Later-Keeps c (credit c f r d).1 e r.ref l (credit-Claimed c f r claims own d p h))
