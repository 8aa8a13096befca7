-- ===== src/Payments/Credit/Kept.antt =====
-- The settlements that calls of `credit` of lib/payments.ts have claimed stay claimed.
use coinos_server.Base.{
  ℕ, ◌≡◌, refl, ap, ◌∙◌, Bool, true, not, ◌&&◌, ◌||◌, Option, none, some, pos, ltb_ℤ, leb_ℤ, ◌==◌,
  inl, inr, Bool-cases,
}
use coinos_server.Ledger.Client.{Client}
use coinos_server.Ledger.Debit.{Tb}
use coinos_server.Ledger.Operations.{tb_credit, CreditResult, credited, credit_failed}
use coinos_server.Payments.Store.{Payment, Invoice, set_at}
use coinos_server.Payments.Debit.{is_bolt12}
use coinos_server.Payments.Credit.{
  Desk, Receipt, Reads, End, settlement_ref, claims_ref, on_chain, credit_args, ledger_credit,
  claim_and_credit, point, receipt_payment, tip_given, locked_credit, keep_payment, with_invoice,
  invoice_found, credit,
}

set_at-true : (i j : ℕ) (g : ℕ → Bool) → g j ≡ true → set_at i true g j ≡ true
set_at-true i j g h = elim (Bool-cases (i == j)) [ inl e ↦ simp e refl | inr e ↦ simp e h ]

module _ {Db : Type 0} (c : Client Db) (f : Reads) (r : Receipt) (j : ℕ) where
  abbrev Keeps : End × Desk Db → Type 0
  Keeps x = x.1.credited j ≡ true

  ledger_credit-Keeps :
      (i : Invoice) (p : Payment) (d : Desk Db) (x : CreditResult × Tb Db)
      → d.credited j ≡ true
      → Keeps (ledger_credit c f r i p d x)
  unfolding keep_payment
  ledger_credit-Keeps i p d (credited, s) h = h
  ledger_credit-Keeps i p d (credit_failed, s) h = h

  claim_and_credit-Keeps :
      (i : Invoice) (ref : ℕ) (p : Payment) (d : Desk Db)
      → d.credited j ≡ true
      → Keeps (claim_and_credit c f r i ref p d)
  unfolding claim_and_credit
  claim_and_credit-Keeps i ref p d h = elim (Bool-cases (claims_ref r ref)) [
    | inl k ↦ elim (Bool-cases (d.credited ref)) [
      | inl e ↦ simp (k, e) h
      | inr e ↦
          simp (k, e)
            (ledger_credit-Keeps i p (record d { credited = set_at ref true d.credited })
              (tb_credit c (credit_args c f r i) d.world.tb) (set_at-true ref j d.credited h))
    ]
    | inr k ↦ simp k (ledger_credit-Keeps i p d (tb_credit c (credit_args c f r i) d.world.tb) h)
  ]

  point-Keeps :
      (p : Payment) (d : Desk Db) → d.credited j ≡ true → (point c f r p d).credited j ≡ true
  point-Keeps p d h = elim (Bool-cases (on_chain r.type)) [ inl e ↦ rw e h | inr e ↦ rw e h ]

  locked_credit-Keeps :
      (i : Invoice) (d : Desk Db) → d.credited j ≡ true → Keeps (locked_credit c f r i d)
  unfolding locked_credit
  locked_credit-Keeps i d h =
      elim (Bool-cases (leb_ℤ r.amount (pos i.received) && not (is_bolt12 i.type))) [
        | inl e ↦ rw e h
        | inr e ↦
            rw e (elim (Bool-cases (ltb_ℤ r.amount (pos 0) || ltb_ℤ (tip_given r i) (pos 0))) [
              | inl e' ↦ rw e' h
              | inr e' ↦ rw e' (elim (Bool-cases f.user_exists) [
                | inl u ↦ simp u (
                    claim_and_credit-Keeps i (settlement_ref f r i) (receipt_payment f r i)
                      (point c f r (receipt_payment f r i) d)
                      (point-Keeps (receipt_payment f r i) d h))
                | inr u ↦ simp u h
              ])
            ])
      ]

  with_invoice-Keeps :
      (o : Option Invoice) (d : Desk Db) → d.credited j ≡ true → Keeps (with_invoice c f r o d)
  unfolding with_invoice
  with_invoice-Keeps none d h = h
  with_invoice-Keeps (some i) d h = elim (Bool-cases (d.lock r.hash)) [
    | inl e ↦ rw e h
    | inr e ↦ rw e (locked_credit-Keeps i (record d { lock = set_at r.hash true d.lock }) h)
  ]

  pub credit-Keeps : (d : Desk Db) → d.credited j ≡ true → (credit c f r d).1.credited j ≡ true
  unfolding credit
  credit-Keeps d h = with_invoice-Keeps (invoice_found c f r d) d h

-- The desks that calls of `credit` lead to, with anything in between that leaves the claims.
pub data Later {Db : Type 0} (c : Client Db) (d : Desk Db) : Desk Db → Type 0 where
  at_once : Later c d d
  calls : {e : Desk Db} (f : Reads) (r : Receipt) → Later c d e → Later c d (credit c f r e).1
  elsewhere : {e : Desk Db} (e' : Desk Db) → Later c d e → e'.credited ≡ e.credited → Later c d e'

pub Later-Keeps :
    {Db : Type 0} (c : Client Db) (d e : Desk Db) (j : ℕ)
    → Later c d e
    → d.credited j ≡ true
    → e.credited j ≡ true
Later-Keeps c d _ j at_once h = h
Later-Keeps c d _ j (calls {e} f r l) h = credit-Keeps c f r j e (Later-Keeps c d e j l h)
Later-Keeps c d _ j (elsewhere {e} e' l k) h = ap (λ g. g j) k ∙ Later-Keeps c d e j l h
