-- ===== src/Payments/Onchain/Backed.antt =====
-- lib/payments.ts, lines 1108 to 1321: what stands behind a transaction that `sendOnchain` sends.
use mathlib.Core.Path.{subst}
use coinos_server.Base.{
  ℕ, ◌-◌, ◌*◌, ◌≤◌, ◌≡◌, ◌≢◌, refl, sym, ap, ◌∙◌, true, false, not, ◌&&◌, none, ℤ, pos, neg_part,
  neg, ◌-ℤ◌, ◌≤ℤ◌, arith, int_laws, inl, inr, Bool-cases,
}
use coinos_server.Ledger.Ids.{msats, balance_id}
use coinos_server.Ledger.Distinct.{IsUuid}
use coinos_server.Ledger.Client.{Client, IsCluster}
use coinos_server.Ledger.Debit.{account_balance_micro, get_account}
use coinos_server.Limits.Breaker.{Limits}
use coinos_server.Payments.Store.{Payment}
use coinos_server.Payments.Debit.{Fees, Facts}
use coinos_server.Payments.Debit.Steps.{debit-Passed}
use coinos_server.Payments.Debit.Results.{debit-record}
use coinos_server.Payments.Onchain.{
  Tx, Send, Vault, dispatched, is_at, some_locked, onchain_request, rebuild_of, send_onchain,
}
use coinos_server.Payments.Onchain.Released.{
  send_onchain-unrecognized, send_onchain-taken, send_onchain-in_flight, send_onchain-evaluated,
}
use coinos_server.Payments.Onchain.Covered.{
  Paid, mine_value, value_out, amount_and_fee-covers, declines-dispatched, evaluate-Paid,
}

neg_part-neg : (n : ℕ) → neg_part (neg n) ≡ n
neg_part-neg n = ground arith

-- A balance that falls by more than a part falls by the part.
falls_by : (b b' : ℤ) (n m : ℕ) → m ≤ n → b' ≡ b -ℤ pos (n * msats) → b' ≤ℤ b -ℤ pos (m * msats)
falls_by b b' n m h e = subst (λ z. z ≤ℤ b -ℤ pos (m * msats)) (sym e) (omega (int_laws, h))

module _ {Db : Type 0} (c : Client Db) (l : Limits) (fees : Fees) (f : Facts) where
  module _ (q : Send) (tx : Tx) (s : Vault Db) (p : Payment) where
    -- A transaction that is sent has been through every guard.
    record Reached : Type 0 where
      known : q.supplied && not (is_at q.aid (s.receipt tx.txid)) ≡ false
      free : some_locked tx.vin s.locked ≡ false
      idle : s.sending tx.signed_txid ≡ false

    send_onchain-Reached : (send_onchain c l fees f q tx s).0 ≡ dispatched p → Reached
    send_onchain-Reached h =
        elim (Bool-cases (q.supplied && not (is_at q.aid (s.receipt tx.txid)))) [
          | inl u ↦ absurd (
              declines-dispatched c l fees f q tx
                (sym (ap (λ x. x.0) (send_onchain-unrecognized c l fees f q tx s u)) ∙ h))
          | inr u ↦ elim (Bool-cases (some_locked tx.vin s.locked)) [
            | inl v ↦ absurd (
                declines-dispatched c l fees f q tx
                  (sym (ap (λ x. x.0) (send_onchain-taken c l fees f q tx s u v)) ∙ h))
            | inr v ↦ elim (Bool-cases (s.sending tx.signed_txid)) [
              | inl k ↦ absurd (
                  declines-dispatched c l fees f q tx
                    (sym (send_onchain-in_flight c l fees f q tx s u v k) ∙ h))
              | inr k ↦ record { known = u; free = v; idle = k }
            ]
          ]
        ]

    send_onchain-Paid :
        rebuild_of q tx ≡ none
        → (send_onchain c l fees f q tx s).0 ≡ dispatched p
        → Paid c l fees f q tx s.world p (send_onchain c l fees f q tx s).1.world
    send_onchain-Paid e h =
        let g = send_onchain-Reached h in
        let at = send_onchain-evaluated c l fees f q tx s g.known g.free g.idle in
        subst (λ x. Paid c l fees f q tx s.world p x.1.world) (sym at)
          (evaluate-Paid c l fees f q tx _ _ _ p e refl refl (sym (ap (λ x. x.0) at) ∙ h))

    -- What leaves the wallet with a Bitcoin transaction has been taken from the sender: the balance
    -- of the account falls at least by what the transaction takes in, less what comes back to the
    -- wallet. The transaction pays out no more than it takes in, and is not built again.
    pub send_onchain-covers :
        (laws : IsCluster c)
        → IsUuid q.aid
        → get_account c (balance_id q.aid) s.world.tb.db ≢ none
        → tx.is_bitcoin ≡ true
        → rebuild_of q tx ≡ none
        → value_out tx.vout ≤ tx.total_in
        → (send_onchain c l fees f q tx s).0 ≡ dispatched p
        → account_balance_micro
            (get_account c (balance_id q.aid) (send_onchain c l fees f q tx s).1.world.tb.db)
          ≤ℤ account_balance_micro (get_account c (balance_id q.aid) s.world.tb.db)
            -ℤ pos ((tx.total_in - mine_value tx.vout) * msats)
    send_onchain-covers laws u ex b e v h =
        let k = send_onchain-Paid e h in
        let r = onchain_request q tx tx.signed_txid k.amount k.fee in
        let made = (debit-Passed c l fees f r s.world k.debit_of k.debited_once).made in
        let d = (debit-record c l fees f r s.world laws k.debit_of u ex k.debited_once).0 in
        let total : neg_part k.debit_of.amount ≡ k.amount =
          ap (λ x. neg_part x.amount) made ∙ neg_part-neg k.amount in
        let fee : k.debit_of.fee ≡ k.fee = ap (λ x. x.fee) made in
        let most = amount_and_fee-covers q.aid q.dest tx k.amount k.fee b v k.sums in
        subst
          (λ t.
            account_balance_micro (get_account c (balance_id q.aid) t.db)
            ≤ℤ account_balance_micro (get_account c (balance_id q.aid) s.world.tb.db)
              -ℤ pos ((tx.total_in - mine_value tx.vout) * msats))
          (sym k.ledger_of) (falls_by _ _ _ _ (omega (arith, most, total, fee)) d)
