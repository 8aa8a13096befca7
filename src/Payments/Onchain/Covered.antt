-- ===== src/Payments/Onchain/Covered.antt =====
-- lib/payments.ts, lines 1186 to 1300: what `sendOnchain` debits for a transaction that it sends.
use mathlib.Core.Path.{subst}
use coinos_server.Base.{
  ℕ, ◌+◌, ◌-◌, ◌≤◌, ◌≡◌, ◌≢◌, refl, sym, ap, ◌∙◌, true, Option, none, some, List, [], ◌∷◌,
  if◌then◌else◌, ◌>>=◌, arith, inl, inr, Bool-cases,
}
use coinos_server.Ledger.Client.{Client}
use coinos_server.Limits.Breaker.{Limits}
use coinos_server.Payments.Store.{Payment, World, Result, fails, returns}
use coinos_server.Payments.Debit.{Fees, Facts, debit}
use coinos_server.Payments.Onchain.{
  Output, Tx, Counted, Send, Vault, Declined, Dispatch, declines, dispatched, is_at, counted,
  with_output, count_bitcoin, amount_and_fee, broadcast, debited, pay_out, evaluate, final_txid,
  rebuild_of, kept, onchain_request,
}

-- What comes back to the wallet, and all that is paid out.
abbrev pub mine_value : List Output → ℕ
mine_value [] = 0
mine_value (o ∷ os) = (if o.is_mine then o.value else 0) + mine_value os

abbrev pub value_out : List Output → ℕ
value_out [] = 0
value_out (o ∷ os) = o.value + value_out os

record InBounds (os : List Output) (k : Counted) : Type 0 where
  mine : k.change ≤ mine_value os
  out : k.total ≤ value_out os
  part : k.change ≤ k.total

counted-InBounds :
    (dest : Option ℕ) (a : ℕ) (o : Output) (os : List Output) (k : Counted)
    → InBounds os k
    → InBounds (o ∷ os) (counted dest a o k)
counted-InBounds dest a o os k b = record {
  mine =
      let h = b.mine in
      elim (Bool-cases o.is_mine) [
        | inl e ↦ simp e (ground (arith, h))
        | inr e ↦ simp e (ground (arith, h))
      ];
  out = omega (arith, b.out);
  part = let h = b.part in ground (arith, h);
}

some-injective : {A : Type 0} {a b : A} → ◌≡◌ {A = Option A} (some a) (some b) → a ≡ b
some-injective e = cc

none-some : {A : Type 0} {a : A} → ◌≢◌ {A = Option A} none (some a)
none-some e = cc

>>=-some :
    {A B : Type 0} (o : Option A) (g : A → Option B) (b : B)
    → (o >>= g) ≡ some b
    → (a : A) × (o ≡ some a) × (g a ≡ some b)
>>=-some none g b h = absurd (none-some h)
>>=-some (some a) g b h = (a, refl, h)

skipped-InBounds :
    (o : Output) (os : List Output) (k : Counted) → InBounds os k → InBounds (o ∷ os) k
skipped-InBounds o os k b = record {
  mine = omega (arith, b.mine);
  out = omega (arith, b.out);
  part = b.part;
}

with_output-InBounds :
    (aid : ℕ) (dest : Option ℕ) (o : Output) (os : List Output) (a : Option ℕ)
    (rest : Option Counted) (k : Counted)
    → ((j : Counted) → rest ≡ some j → InBounds os j)
    → with_output aid dest o a rest ≡ some k
    → InBounds (o ∷ os) k
with_output-InBounds aid dest o os none rest k b h = skipped-InBounds o os k (b k h)
with_output-InBounds aid dest o os (some a) rest k b h =
    elim (Bool-cases (is_at aid o.invoice_aid)) [
      | inl e ↦ absurd (none-some (rw e at h))
      | inr e ↦
          let (j, r, q) = >>=-some rest (λ j. some (counted dest a o j)) k (rw e at h) in
          subst (InBounds (o ∷ os)) (some-injective q) (counted-InBounds dest a o os j (b j r))
    ]

count_bitcoin-InBounds :
    (aid : ℕ) (dest : Option ℕ) (os : List Output) (k : Counted)
    → count_bitcoin aid dest os ≡ some k
    → InBounds os k
unfolding count_bitcoin
count_bitcoin-InBounds aid dest [] k h =
    subst (InBounds []) (some-injective h)
      (record { mine = omega arith; out = omega arith; part = omega arith })
count_bitcoin-InBounds aid dest (o ∷ os) k h =
    with_output-InBounds aid dest o os o.address (count_bitcoin aid dest os) k
      (count_bitcoin-InBounds aid dest os) h

-- What is debited and what comes back are all that the transaction takes in.
pub amount_and_fee-covers :
    (aid : ℕ) (dest : Option ℕ) (tx : Tx) (amount fee : ℕ)
    → tx.is_bitcoin ≡ true
    → value_out tx.vout ≤ tx.total_in
    → amount_and_fee aid dest tx ≡ some (amount, fee)
    → tx.total_in ≤ amount + fee + mine_value tx.vout
unfolding amount_and_fee
amount_and_fee-covers aid dest tx amount fee b v h =
    let (k, c, e) =
      >>=-some (count_bitcoin aid dest tx.vout)
        (λ k. some (k.total - k.change, tx.total_in - k.total)) (amount, fee) (rw b at h) in
    let i = count_bitcoin-InBounds aid dest tx.vout k c in
    let sums = some-injective e in
    let first : k.total - k.change ≡ amount = ap (λ x. x.0) sums in
    let second : tx.total_in - k.total ≡ fee = ap (λ x. x.1) sums in
    omega (arith, i.mine, i.out, i.part, v, first, second)

module _ {Db : Type 0} (c : Client Db) (l : Limits) (fees : Fees) (f : Facts) (q : Send)
    (tx : Tx) where
  -- What a call has done that sent the transaction it was given.
  pub record Paid (w : World Db) (p : Payment) (w' : World Db) : Type 0 where
    pub amount : ℕ
    pub fee : ℕ
    pub sums : amount_and_fee q.aid q.dest tx ≡ some (amount, fee)
    pub fresh : w.payment_of_hash tx.signed_txid ≡ none
    pub debit_of : Payment
    pub debited_once :
        (debit c l fees f (onchain_request q tx tx.signed_txid amount fee) w).0 ≡ returns debit_of
    pub record_kept : p ≡ kept tx fee debit_of
    pub ledger_of :
        w'.tb ≡ (debit c l fees f (onchain_request q tx tx.signed_txid amount fee) w).1.tb
    pub hashes :
        w'.payment_of_hash
        ≡ (debit c l fees f (onchain_request q tx tx.signed_txid amount fee) w).1.payment_of_hash

  dispatched-injective : {a b : Payment} → ◌≡◌ {A = Dispatch} (dispatched a) (dispatched b) → a ≡ b
  dispatched-injective h = cc

  pub declines-dispatched :
      {e : Declined} {a : Payment} → ◌≢◌ {A = Dispatch} (declines e) (dispatched a)
  declines-dispatched h = cc

  broadcast-dispatched :
      (hash : ℕ) (p0 p : Payment) (s : Vault Db)
      → (broadcast q tx hash p0 s).0 ≡ dispatched p
      → (p0 ≡ p)
        × ((broadcast q tx hash p0 s).1.world.tb ≡ s.world.tb)
        × ((broadcast q tx hash p0 s).1.world.payment_of_hash ≡ s.world.payment_of_hash)
  unfolding broadcast
  broadcast-dispatched hash p0 p s h = elim (Bool-cases q.broadcasts) [
    | inl e ↦ simp e (dispatched-injective (rw e at h), refl, refl)
    | inr e ↦ absurd (declines-dispatched (rw e at h))
  ]

  debited-dispatched :
      (hash fee : ℕ) (s : Vault Db) (x : Result Payment × World Db) (p : Payment)
      → (debited q tx hash fee s x).0 ≡ dispatched p
      → (p0 : Payment) × (x.0 ≡ returns p0)
        × (p ≡ kept tx fee p0)
        × ((debited q tx hash fee s x).1.world.tb ≡ x.1.tb)
        × ((debited q tx hash fee s x).1.world.payment_of_hash ≡ x.1.payment_of_hash)
  debited-dispatched hash fee s (fails e, w) p h = absurd (declines-dispatched h)
  debited-dispatched hash fee s (returns p0, w) p h =
      let (e, t, k) = broadcast-dispatched hash (kept tx fee p0) p (record s { world = w }) h in
      (p0, refl, sym e, t, k)

  pay_out-Paid :
      (amount fee : ℕ) (s : Vault Db) (w : World Db) (p : Payment)
      → rebuild_of q tx ≡ none
      → amount_and_fee q.aid q.dest tx ≡ some (amount, fee)
      → w.payment_of_hash tx.signed_txid ≡ none
      → s.world ≡ w
      → (pay_out c l fees f q tx amount fee (final_txid tx (rebuild_of q tx)) s).0 ≡ dispatched p
      → Paid w p (pay_out c l fees f q tx amount fee (final_txid tx (rebuild_of q tx)) s).1.world
  unfolding pay_out
  pay_out-Paid amount fee s w p e sums fresh same h =
      let r = onchain_request q tx tx.signed_txid amount fee in
      let once : final_txid tx (rebuild_of q tx) ≡ some (tx.signed_txid, none) =
        ap (final_txid tx) e in
      let start : debit c l fees f r s.world ≡ debit c l fees f r w =
        ap (debit c l fees f r) same in
      let (p0, d, m, t, k) =
        debited-dispatched tx.signed_txid fee s (debit c l fees f r s.world) p (rw once at h) in
      rw once (record {
        amount = amount;
        fee = fee;
        sums = sums;
        fresh = fresh;
        debit_of = p0;
        debited_once = sym (ap (λ x. x.0) start) ∙ d;
        record_kept = m;
        ledger_of = t ∙ ap (λ x. x.1.tb) start;
        hashes = k ∙ ap (λ x. x.1.payment_of_hash) start;
      })

  pub evaluate-Paid :
      (o : Option ℕ) (sums : Option (ℕ × ℕ)) (s : Vault Db) (p : Payment)
      → rebuild_of q tx ≡ none
      → s.world.payment_of_hash tx.signed_txid ≡ o
      → amount_and_fee q.aid q.dest tx ≡ sums
      → (evaluate c l fees f q tx o sums s).0 ≡ dispatched p
      → Paid s.world p (evaluate c l fees f q tx o sums s).1.world
  unfolding evaluate pay_out broadcast
  evaluate-Paid (some id) sums s p e m n h = absurd (declines-dispatched h)
  evaluate-Paid none none s p e m n h = elim (Bool-cases q.accepted) [
    | inl a ↦ absurd (declines-dispatched (rw a at h))
    | inr a ↦ absurd (declines-dispatched (rw a at h))
  ]
  evaluate-Paid none (some (amount, fee)) s p e m n h = elim (Bool-cases q.accepted) [
    | inl a ↦ simp a (pay_out-Paid amount fee s s.world p e n m refl (rw a at h))
    | inr a ↦ absurd (declines-dispatched (rw a at h))
  ]
