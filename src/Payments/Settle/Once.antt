-- ===== src/Payments/Settle/Once.antt =====
-- A payment ends once: after `finalize` or `reverse` of lib/payments.ts, another call of either moves
-- no money.
use mathlib.Core.Path.{subst}
use coinos_server.Base.{
  ℕ, ◌≢◌, ◌≡◌, refl, sym, ap, ◌∙◌, Bool, true, false, Option, none, some, inl, inr, arith,
  Bool-cases, Option-cases,
}
use coinos_server.Ledger.Client.{Client}
use coinos_server.Payments.Store.{Payment}
use coinos_server.Payments.Debit.{Fees}
use coinos_server.Payments.Settle.{
  Book, skipped, declined, reversed, finalized, missing_preimage, reversed_then_completed,
  is_settled, claim, release, clean, reverse_record, reverse, Receipt, finalized_record,
  kept_record, refund, finalize, finalize_record,
}

-- How a payment can have ended: its fee has been given back and its record is settled, or its record
-- is gone.
pub data Ended {Db : Type 0} (b : Book Db) : Type 0 where
  settled : (p : Payment) → b.record_of ≡ some p → is_settled p ≡ true → b.refunded ≡ true → Ended b
  gone : b.record_of ≡ none → Ended b

missing-ne : missing_preimage ≢ finalized
missing-ne e = cc

skipped-ne : skipped ≢ reversed
skipped-ne e = cc

declined-ne : declined ≢ reversed
declined-ne e = cc

gone-ne : reversed_then_completed ≢ finalized
gone-ne e = cc

module _ {Db : Type 0} (c : Client Db) (fees : Fees) where
  refund_again : (r : Receipt) (p : Payment) (b : Book Db) → b.refunded ≡ true → refund c r p b ≡ b
  unfolding refund
  refund_again r p b e = simp e refl

  pub refunds :
      (r : Receipt) (p : Payment) (b : Book Db)
      → ((refund c r p b).refunded ≡ true) × ((refund c r p b).record_of ≡ b.record_of)
  unfolding refund
  refunds r p b = elim (Bool-cases b.refunded) [
    | inl e ↦ simp e (refl, refl)
    | inr e ↦ simp e (refl, refl)
  ]

  pub kept_record-settled :
      (r : Receipt) (n : ℕ) (p stored : Payment)
      → is_settled (kept_record stored (finalized_record r n p)) ≡ true
  kept_record-settled r n p stored = ground arith

  pub finalize-some :
      (r : Receipt) (n : ℕ) (p stored : Payment) (b : Book Db)
      → r.preimage ≡ some n
      → b.record_of ≡ some stored
      → finalize c r p b ≡ (
        finalized,
        refund c r p (record b {
          pending = false;
          record_of = some (kept_record stored (finalized_record r n p));
        }),
      )
  unfolding finalize finalize_record
  finalize-some r n p stored b e e' =
      ap (λ x. finalize_record c r p b x b.record_of) e ∙ ap (finalize_record c r p b (some n)) e'

  pub finalize-none :
      (r : Receipt) (n : ℕ) (p : Payment) (b : Book Db)
      → r.preimage ≡ some n
      → b.record_of ≡ none
      → finalize c r p b ≡ (reversed_then_completed, record b { pending = false })
  unfolding finalize finalize_record
  finalize-none r n p b e e' =
      ap (λ x. finalize_record c r p b x b.record_of) e ∙ ap (finalize_record c r p b (some n)) e'

  pub finalize_missing :
      (r : Receipt) (p : Payment) (b : Book Db)
      → r.preimage ≡ none
      → finalize c r p b ≡ (missing_preimage, b)
  unfolding finalize finalize_record
  finalize_missing r p b e = ap (λ x. finalize_record c r p b x b.record_of) e

  -- A call that finalizes ends the payment.
  pub finalize-Ended :
      (r : Receipt) (p : Payment) (b : Book Db)
      → (finalize c r p b).0 ≡ finalized
      → Ended (finalize c r p b).1
  finalize-Ended r p b h = elim (Option-cases r.preimage) [
    | inl e ↦ absurd (missing-ne (sym (ap (λ x. x.0) (finalize_missing r p b e)) ∙ h))
    | inr (n, e) ↦ elim (Option-cases b.record_of) [
      | inl e' ↦ absurd (gone-ne (sym (ap (λ x. x.0) (finalize-none r n p b e e')) ∙ h))
      | inr (stored, e') ↦
          let kept = kept_record stored (finalized_record r n p) in
          let (f, k) = refunds r p (record b { pending = false; record_of = some kept }) in
          subst (λ x. Ended x.1) (sym (finalize-some r n p stored b e e'))
            (settled kept k (kept_record-settled r n p stored) f)
    ]
  ]

  reverse_free :
      (flagged : Bool) (p : Payment) (b : Book Db)
      → b.reversing ≡ false
      → reverse c fees flagged p b
        ≡ reverse_record c fees flagged p b.record_of (claim c fees flagged p b)
  unfolding reverse
  reverse_free flagged p b e = simp e refl

  reverse_held :
      (flagged : Bool) (p : Payment) (b : Book Db)
      → b.reversing ≡ true
      → reverse c fees flagged p b ≡ (skipped, b)
  unfolding reverse
  reverse_held flagged p b e = simp e refl

  Still : Book Db → Book Db → Type 0
  Still b b' = (b'.tb ≡ b.tb) × Ended b'

  finalize-Still :
      (r : Receipt) (p : Payment) (b : Book Db) → Ended b → Still b (finalize c r p b).1
  unfolding Still
  finalize-Still r p b h = elim (Option-cases r.preimage) [
    | inl e ↦ subst (λ x. Still b x.1) (sym (finalize_missing r p b e)) (refl, h)
    | inr (n, e) ↦ go n e h
  ]
    where
      go : (n : ℕ) → r.preimage ≡ some n → Ended b → Still b (finalize c r p b).1
      go n e (gone g) = subst (λ x. Still b x.1) (sym (finalize-none r n p b e g)) (refl, gone g)
      go n e (settled q s d f) =
          let kept = kept_record q (finalized_record r n p) in
          let b' : Book Db = record b { pending = false; record_of = some kept } in
          subst (λ x. Still b x.1) (sym (finalize-some r n p q b e s))
            (subst (Still b) (sym (refund_again r p b' f))
              (refl, settled kept refl (kept_record-settled r n p q) f))

  reverse_record-Still :
      (flagged : Bool) (p : Payment) (b : Book Db)
      → Ended b
      → Still b (reverse_record c fees flagged p b.record_of b).1
  unfolding Still reverse_record release
  reverse_record-Still flagged p b (gone g) =
      subst (λ x. Still b (reverse_record c fees flagged p x b).1) (sym g) (refl, gone g)
  reverse_record-Still flagged p b (settled q s d f) =
      subst (λ x. Still b (reverse_record c fees flagged p x b).1) (sym s)
        (simp d (refl, settled q s d f))

  reverse-Still :
      (flagged : Bool) (p : Payment) (b : Book Db)
      → Ended b
      → Still b (reverse c fees flagged p b).1
  unfolding Still claim
  reverse-Still flagged p b h = elim (Bool-cases b.reversing) [
    | inl e ↦ subst (λ x. Still b x.1) (sym (reverse_held flagged p b e)) (refl, h)
    | inr e ↦
        subst (λ x. Still b x.1) (sym (reverse_free flagged p b e))
          (reverse_record-Still flagged p (claim c fees flagged p b) (claimed h))
  ]
    where
      claimed : Ended b → Ended (claim c fees flagged p b)
      claimed (gone g) = gone g
      claimed (settled q s d f) = settled q s d f

  reverse_record-Ended :
      (flagged : Bool) (p : Payment) (o : Option Payment) (b : Book Db)
      → (reverse_record c fees flagged p o b).0 ≡ reversed
      → Ended (reverse_record c fees flagged p o b).1
  unfolding reverse_record clean
  reverse_record-Ended flagged p none b h = cc
  reverse_record-Ended flagged p (some q) b h = elim (Bool-cases (is_settled q)) [
    | inl e ↦ absurd (declined-ne (simp e at h))
    | inr e ↦ simp e (gone refl)
  ]

  -- A call that reverses ends the payment.
  pub reverse-Ended :
      (flagged : Bool) (p : Payment) (b : Book Db)
      → (reverse c fees flagged p b).0 ≡ reversed
      → Ended (reverse c fees flagged p b).1
  unfolding claim
  reverse-Ended flagged p b h = elim (Bool-cases b.reversing) [
    | inl e ↦ absurd (skipped-ne (sym (ap (λ x. x.0) (reverse_held flagged p b e)) ∙ h))
    | inr e ↦
        subst (λ x. Ended x.1) (sym (reverse_free flagged p b e))
          (go b.record_of (ap (λ x. x.0) (sym (reverse_free flagged p b e)) ∙ h))
  ]
    where
      go :
          (o : Option Payment)
          → (reverse_record c fees flagged p o (claim c fees flagged p b)).0 ≡ reversed
          → Ended (reverse_record c fees flagged p o (claim c fees flagged p b)).1
      go o h = reverse_record-Ended flagged p o (claim c fees flagged p b) h

  -- A call of either on a payment that has ended moves no money, and the payment stays ended: neither
  -- a second refund of the fee, nor a reversal of a payment that settled, nor a second reversal.
  pub Ended-still :
      (r : Receipt) (p : Payment) (flagged : Bool) (b : Book Db)
      → Ended b
      → (((finalize c r p b).1.tb ≡ b.tb) × Ended (finalize c r p b).1)
        × (((reverse c fees flagged p b).1.tb ≡ b.tb) × Ended (reverse c fees flagged p b).1)
  unfolding Still
  Ended-still r p flagged b h = (finalize-Still r p b h, reverse-Still flagged p b h)
