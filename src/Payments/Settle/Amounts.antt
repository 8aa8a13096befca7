-- ===== src/Payments/Settle/Amounts.antt =====
-- What `finalize` and `reverse` of lib/payments.ts give back, compared with what `debit` took.
use mathlib.Core.Option
use mathlib.Core.Path.{subst}
use coinos_server.Base.{
  ℕ, ◌+◌, ◌-◌, ◌*◌, ◌≡◌, ◌≢◌, ◌⊎◌, refl, sym, ap, ◌∙◌, Bool, true, false, Option, none, some, List,
  ℤ, pos, pos_part, neg_part, ◌+ℤ◌, ◌-ℤ◌, int_laws, arith, inl, inr,
}
use coinos_server.Ledger.Ids.{PaymentType, msats, balance_id, u128}
use coinos_server.Ledger.Distinct.{IsUuid}
use coinos_server.Ledger.Client.{Account, Transfer, Client, IsCluster}
use coinos_server.Ledger.Debit.{
  Tb, DebitArgs, DebitResult, debited, refused, debit_plan, debit_commit, tb_debit,
  account_balance_micro, get_account, is_empty,
}
use coinos_server.Ledger.Debit.Outcome.{Settles, debit_commit-Settles}
use coinos_server.Ledger.Operations.{reverse_transfers, tb_reverse, refund_transfers}
use coinos_server.Ledger.Refunds.{tb_refund-adds}
use coinos_server.Payments.Settle.Once.{finalize-some}
use coinos_server.Ledger.Effects.{tb_reverse-restores}
use coinos_server.Limits.Breaker.{Limits}
use coinos_server.Payments.Store.{Payment, Invoice, World, returns}
use coinos_server.Payments.Debit.{
  Request, Fees, Facts, account, is_internal, in_flight, tip_of, payment_of, debit,
}
use coinos_server.Payments.Debit.Results.{Passed-ledger, debited_args, debit-record}
use coinos_server.Payments.Settle.{
  Book, reversed, declined, Receipt, finalized, finalize, refund, actual_fee, is_settled, total_of,
  credit_of, claim, pay_back, clean, reverse, reverse_record,
}

-- The book of a payment that has just been debited.
abbrev pub opened_book : {Db : Type 0} → World Db → Payment → Book Db
opened_book w p = record {
  tb = w.tb;
  record_of = w.payment p.id;
  pending = true;
  reversing = false;
  refunded = false;
}

external_kind : (t : PaymentType) → in_flight t ≡ true → is_internal t ≡ false
external_kind t e = ground arith

back : (m m' : ℤ) (n t : ℕ) → m' ≡ m -ℤ pos (n * msats) → t ≡ n → m' +ℤ pos (t * msats) ≡ m
back m m' n t e q = rw (e, q) (omega int_laws)

positive : (a b : ℕ) → pos_part (pos a -ℤ pos b) ≡ a - b
unfolding ◌-ℤ◌
positive a b = ground arith

module _ {Db : Type 0} (c : Client Db) (laws : IsCluster c) where
  open c use {lookup_account, create_transfers}

  abbrev pub balance_of : ℕ → Tb Db → ℤ
  balance_of aid s = account_balance_micro (get_account c (balance_id aid) s.db)

  -- The cluster does not accept the batch as a whole.
  abbrev pub Refuses : List Transfer → Tb Db → Type 0
  Refuses ts s = is_empty (create_transfers ts s.db).0 ≡ false

  pub reverse_unsettled :
      (fees : Fees) (flagged : Bool) (p q : Payment) (b : Book Db)
      → b.reversing ≡ false
      → b.record_of ≡ some q
      → is_settled q ≡ false
      → ((reverse c fees flagged p b).0 ≡ reversed)
        × ((reverse c fees flagged p b).1.tb
            ≡ tb_reverse c p.uid (total_of p) (credit_of fees flagged p) b.tb)
  unfolding reverse reverse_record claim clean pay_back
  reverse_unsettled fees flagged p q b e s u = simp e (go b.record_of s)
    where
      go :
          (o : Option Payment)
          → o ≡ some q
          → ((reverse_record c fees flagged p o (record b { reversing = true })).0 ≡ reversed)
            × ((reverse_record c fees flagged p o (record b { reversing = true })).1.tb
                ≡ tb_reverse c p.uid (total_of p) (credit_of fees flagged p) b.tb)
      go o s =
          subst
            (λ x.
              ((reverse_record c fees flagged p x (record b { reversing = true })).0 ≡ reversed)
              × ((reverse_record c fees flagged p x (record b { reversing = true })).1.tb
                  ≡ tb_reverse c p.uid (total_of p) (credit_of fees flagged p) b.tb))
            (sym s) (simp u (refl, refl))

  pub restores :
      (uid total : ℕ) (credit : ℤ) (s : Tb Db)
      → IsUuid uid
      → get_account c (balance_id uid) s.db ≢ none
      → (balance_of uid (tb_reverse c uid total credit s) ≡ balance_of uid s +ℤ pos (total * msats))
        ⊎ (Refuses (reverse_transfers c uid total credit s) s
            × ((i : ℕ)
                → lookup_account i (tb_reverse c uid total credit s).db ≡ lookup_account i s.db))
  unfolding get_account
  restores uid total credit s u ex = tb_reverse-restores c laws uid u total credit s ex

  map-ne-none : (g : Account → Account) (o : Option Account) → o ≢ none → Option.map g o ≢ none
  map-ne-none g none h = absurd (h refl)
  map-ne-none g (some x) h = λ e. cc

  tb_debit-exists :
      (a : DebitArgs) (s : Tb Db) (fee : ℤ) (i : ℕ)
      → (tb_debit c a s).0 ≡ debited fee
      → lookup_account i s.db ≢ none
      → lookup_account i (tb_debit c a s).1.db ≢ none
  unfolding tb_debit
  tb_debit-exists a s fee i e h =
      go (debit_commit c a (debit_plan c a s.db) s)
        (debit_commit-Settles c laws a (debit_plan c a s.db) s) e
    where
      go :
          (x : DebitResult × Tb Db)
          → Settles c a (debit_plan c a s.db) s x
          → x.0 ≡ debited fee
          → lookup_account i x.1.db ≢ none
      go (refused m n, t) k e = cc
      go (debited g, t) k e = λ z. map-ne-none _ (lookup_account i s.db) h (sym (k.2 i) ∙ z)

  module _ (l : Limits) (fees : Fees) (f : Facts) (r : Request) (w : World Db) (p : Payment) where
    external_record :
        (fee : ℤ)
        → p ≡ payment_of c f r fee
        → in_flight r.type ≡ true
        → f.invoice ≡ none
        → (is_settled p ≡ false) × (p.tip ≡ 0)
    external_record fee made e i =
        (ap is_settled made ∙ simp (i, e) refl, ap (λ q. q.tip) made ∙ no_tip)
      where
        no_tip : pos_part (tip_of f r) ≡ 0
        no_tip = simp (external_kind r.type e) refl

    debited_exists :
        (debit c l fees f r w).0 ≡ returns p
        → get_account c (balance_id r.uid) w.tb.db ≢ none
        → get_account c (balance_id r.uid) (debit c l fees f r w).1.tb.db ≢ none
    unfolding get_account
    debited_exists h ex =
        let (fee, _, d, tb, _) = Passed-ledger c l fees f r w p h in
        λ z.
          tb_debit-exists (debited_args c l fees f r w) w.tb fee _ d ex
            (sym (ap (λ s. lookup_account (u128 (balance_id r.uid)) s.db) tb) ∙ z)

    total_taken :
        account r ≡ r.uid
        → IsUuid r.uid
        → get_account c (balance_id r.uid) w.tb.db ≢ none
        → (debit c l fees f r w).0 ≡ returns p
        → p.tip ≡ 0
        → balance_of r.uid (debit c l fees f r w).1.tb +ℤ pos (total_of p * msats)
          ≡ balance_of r.uid w.tb
    total_taken own u ex h tip =
        let (moved, zero, _, _) =
          debit-record c l fees f r w laws p (subst IsUuid (sym own) u)
            (λ z. ex (sym (ap (λ a. get_account c (balance_id a) w.tb.db) own) ∙ z)) h in
        back (balance_of r.uid w.tb) _ _ (total_of p)
          (sym (ap (λ a. balance_of a (debit c l fees f r w).1.tb) own)
            ∙ moved
            ∙ ap
                (λ a.
                  balance_of a w.tb
                  -ℤ pos ((neg_part p.amount + p.tip + p.fee + pos_part p.ourfee) * msats))
                own)
          (omega (arith, zero, tip))

    -- A Lightning payment that `debit` returns, from the sender's own account and whose hash matches
    -- no invoice here, is accepted by `reverse`, which brings the balance back to what it was before
    -- the debit, unless the cluster refuses the batch of the reversal, and then no account changes.
    -- The sender is a uuid whose account exists.
    pub debit-reverse :
        (flagged : Bool)
        → (debit c l fees f r w).0 ≡ returns p
        → in_flight r.type ≡ true
        → account r ≡ r.uid
        → f.invoice ≡ none
        → IsUuid r.uid
        → get_account c (balance_id r.uid) w.tb.db ≢ none
        → let b = opened_book (debit c l fees f r w).1 p in
          let (how, b') = reverse c fees flagged p b in
          (how ≡ reversed)
          × ((balance_of r.uid b'.tb ≡ balance_of r.uid w.tb)
              ⊎ (Refuses
                    (reverse_transfers c r.uid (total_of p) (credit_of fees flagged p) b.tb)
                    b.tb
                  × ((i : ℕ) → lookup_account i b'.tb.db ≡ lookup_account i b.tb.db)))
    debit-reverse flagged h e own i u ex =
        let (fee, made, d, tb, st) = Passed-ledger c l fees f r w p h in
        let (open_record, tip) = external_record fee made e i in
        let b = opened_book (debit c l fees f r w).1 p in
        let (how, after) = reverse_unsettled fees flagged p p b refl st open_record in
        let back_to =
          after
          ∙ ap (λ x. tb_reverse c x (total_of p) (credit_of fees flagged p) b.tb)
              (ap (λ q. q.uid) made) in
        (
          how,
          elim (restores r.uid (total_of p) (credit_of fees flagged p) b.tb u
              (debited_exists h ex)) [
                | inl q ↦ inl (ap (balance_of r.uid) back_to ∙ q ∙ total_taken own u ex h tip)
                | inr q ↦ inr (q.0, λ j. ap (λ s. lookup_account j s.db) back_to ∙ q.1 j)
              ],
        )

  -- A payment whose hash matches an invoice here is never given back: its record has the id of the
  -- invoice's owner where `reverse` looks for a preimage.
  pub debit-matched_invoice :
      (l : Limits) (fees : Fees) (f : Facts) (r : Request) (w : World Db) (p : Payment)
      (i : Invoice) (flagged : Bool)
      → (debit c l fees f r w).0 ≡ returns p
      → f.invoice ≡ some i
      → let b = opened_book (debit c l fees f r w).1 p in
        ((reverse c fees flagged p b).0 ≡ declined) × ((reverse c fees flagged p b).1.tb ≡ b.tb)
  unfolding reverse reverse_record claim
  debit-matched_invoice l fees f r w p i flagged h e =
      let (fee, made, _, _, st) = Passed-ledger c l fees f r w p h in
      let b = record (opened_book (debit c l fees f r w).1 p) { reversing = true } in
      let settled : is_settled p ≡ true = ap is_settled made ∙ matched fee in
      subst
        (λ x.
          ((reverse_record c fees flagged p x b).0 ≡ declined)
          × ((reverse_record c fees flagged p x b).1.tb ≡ b.tb))
        (sym st) (simp settled (refl, refl))
    where
      matched : (fee : ℤ) → is_settled (payment_of c f r fee) ≡ true
      matched fee = simp e refl

  -- A payment that is finalized for the first time, with a preimage and a record, gives back what its
  -- fee reserve exceeds the actual fee by, and nothing when it does not, unless the cluster refuses
  -- the refund's batch, and then no account changes. The user is a uuid whose account exists.
  pub finalize-refunds :
      (fees : Fees) (r : Receipt) (preimage : ℕ) (p stored : Payment) (b : Book Db)
      → r.preimage ≡ some preimage
      → b.record_of ≡ some stored
      → b.refunded ≡ false
      → IsUuid p.uid
      → get_account c (balance_id p.uid) b.tb.db ≢ none
      → let (how, b') = finalize c r p b in
        (how ≡ finalized)
        × ((balance_of p.uid b'.tb
              ≡ balance_of p.uid b.tb +ℤ pos ((p.fee - actual_fee r p) * msats))
            ⊎ (Refuses (refund_transfers c p.uid (p.fee - actual_fee r p) b.tb) b.tb
                × ((i : ℕ) → lookup_account i b'.tb.db ≡ lookup_account i b.tb.db)))
  unfolding refund
  finalize-refunds fees r preimage p stored b e e' f u ex =
      subst
        (λ x.
          (x.0 ≡ finalized)
          × ((balance_of p.uid x.1.tb
                ≡ balance_of p.uid b.tb +ℤ pos ((p.fee - actual_fee r p) * msats))
              ⊎ (Refuses (refund_transfers c p.uid (p.fee - actual_fee r p) b.tb) b.tb
                  × ((i : ℕ) → lookup_account i x.1.tb.db ≡ lookup_account i b.tb.db))))
        (sym (finalize-some c fees r preimage p stored b e e'))
        (
          refl,
          simp f (elim (tb_refund-adds c laws p.uid u (pos p.fee -ℤ pos (actual_fee r p)) b.tb ex) [
            | inl q ↦ inl (
                q
                ∙ ap (λ n. balance_of p.uid b.tb +ℤ pos (n * msats))
                    (positive p.fee (actual_fee r p)))
            | inr (bad, q) ↦ inr (
              subst (λ n. Refuses (refund_transfers c p.uid n b.tb) b.tb)
                  (positive p.fee (actual_fee r p)) bad,
              q,
            )
          ]),
        )
