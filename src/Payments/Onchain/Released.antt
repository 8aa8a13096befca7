-- ===== src/Payments/Onchain/Released.antt =====
-- lib/payments.ts, lines 1310 to 1320: what a call of `sendOnchain` that fails gives back.
use mathlib.Core.Path.{subst}
use coinos_server.Base.{
  ℕ, ◌≡◌, ◌≢◌, refl, sym, ap, ◌∙◌, Bool, true, false, not, ◌&&◌, ◌||◌, Option, none, some, List, [],
  ◌∷◌, ◌==◌, ==_iff, if◌then◌else◌, arith, inl, inr, Bool-cases,
}
use coinos_server.Ledger.Client.{Client}
use coinos_server.Limits.Breaker.{Limits}
use coinos_server.Payments.Store.{Payment, World, Result, fails, returns, set_at}
use coinos_server.Payments.Debit.{Fees, Facts}
use coinos_server.Payments.Onchain.{
  Tx, Send, Vault, Declined, Dispatch, declines, dispatched, unrecognized, inputs_taken, in_flight,
  processed, rejected, not_countable, not_rebuilt, not_debited, not_broadcast, some_locked,
  lock_all, is_at, release, aborts, broadcast, debited, pay_out, evaluate, guarded, send_onchain,
  final_txid, rebuild_of, kept, amount_and_fee,
}

abbrev mem : ℕ → List ℕ → Bool
mem j [] = false
mem j (i ∷ is) = (i == j) || mem j is

lock_all-mem :
    (b : Bool) (is : List ℕ) (g : ℕ → Bool) (j : ℕ)
    → lock_all b is g j ≡ (if mem j is then b else g j)
lock_all-mem b [] g j = refl
lock_all-mem b (i ∷ is) g j = elim (Bool-cases (i == j)) [
  | inl e ↦ simp e refl
  | inr e ↦ simp e (lock_all-mem b is g j)
]

some_locked-mem :
    (is : List ℕ) (g : ℕ → Bool) (j : ℕ) → some_locked is g ≡ false → mem j is ≡ true → g j ≡ false
some_locked-mem [] g j h m = cc
some_locked-mem (i ∷ is) g j h m = elim (Bool-cases (i == j)) [
  | inl e ↦ ap g (sym ((==_iff i j).0 e)) ∙ ground arith
  | inr e ↦ some_locked-mem is g j (ground arith) (rw e at m)
]

unlocked :
    (is : List ℕ) (g : ℕ → Bool) (j : ℕ)
    → some_locked is g ≡ false
    → lock_all false is (lock_all true is g) j ≡ g j
unlocked is g j h = lock_all-mem false is (lock_all true is g) j ∙ elim (Bool-cases (mem j is)) [
  | inl e ↦ simp e (sym (some_locked-mem is g j h e))
  | inr e ↦ simp e (lock_all-mem true is g j ∙ simp e refl)
]

module _ {Db : Type 0} where
  -- The outputs that are locked and the transactions that are being sent, as they were.
  abbrev pub Freed : Vault Db → Vault Db → Type 0
  Freed s s' = ((i : ℕ) → s'.locked i ≡ s.locked i) × ((t : ℕ) → s'.sending t ≡ s.sending t)

  -- What a failure at a later step is to give back.
  abbrev FreesAll : Vault Db → Dispatch × Vault Db → Type 0
  FreesAll s x = (e : Declined) → x.0 ≡ declines e → Freed s x.1

  module _ (tx : Tx) (s : Vault Db) (free : some_locked tx.vin s.locked ≡ false)
      (idle : s.sending tx.signed_txid ≡ false) where
    abbrev Held : Vault Db → Type 0
    Held s' =
        (s'.locked ≡ lock_all true tx.vin s.locked)
        × (s'.sending ≡ set_at tx.signed_txid true s.sending)

    aborts-FreesAll : (e : Declined) (s' : Vault Db) → Held s' → FreesAll s (aborts e tx s')
    unfolding release
    aborts-FreesAll e s' (h, k) _ _ = (
      λ i. ap (λ g. lock_all false tx.vin g i) h ∙ unlocked tx.vin s.locked i free,
      λ t. ap (λ g. set_at tx.signed_txid false g t) k ∙ twice t,
    )
      where
        twice :
            (t : ℕ)
            → set_at tx.signed_txid false (set_at tx.signed_txid true s.sending) t ≡ s.sending t
        twice t = elim (Bool-cases (tx.signed_txid == t)) [
          | inl e ↦ simp e (sym (ap s.sending (sym ((==_iff tx.signed_txid t).0 e)) ∙ idle))
          | inr e ↦ simp e refl
        ]

    dispatched-declines :
        {p : Payment} {e : Declined} → ◌≢◌ {A = Dispatch} (dispatched p) (declines e)
    dispatched-declines h = cc

    broadcast-FreesAll :
        (q : Send) (hash : ℕ) (p : Payment) (s' : Vault Db)
        → Held s'
        → FreesAll s (broadcast q tx hash p s')
    unfolding broadcast
    broadcast-FreesAll q hash p s' k = elim (Bool-cases q.broadcasts) [
      | inl e ↦ simp e (λ _ h. absurd (dispatched-declines h))
      | inr e ↦ simp e (aborts-FreesAll not_broadcast _ k)
    ]

    debited-FreesAll :
        (q : Send) (hash fee : ℕ) (s' : Vault Db) (x : Result Payment × World Db)
        → Held s'
        → FreesAll s (debited q tx hash fee s' x)
    debited-FreesAll q hash fee s' (fails e, w) k =
        aborts-FreesAll (not_debited e) (record s' { world = w }) k
    debited-FreesAll q hash fee s' (returns p, w) k =
        broadcast-FreesAll q hash (kept tx fee p) (record s' { world = w }) k

    module _ (c : Client Db) (l : Limits) (fees : Fees) (f : Facts) (q : Send) where
      pay_out-FreesAll :
          (amount fee : ℕ) (o : Option (ℕ × Option ℕ)) (s' : Vault Db)
          → Held s'
          → FreesAll s (pay_out c l fees f q tx amount fee o s')
      unfolding pay_out
      pay_out-FreesAll amount fee none s' k = aborts-FreesAll not_rebuilt s' k
      pay_out-FreesAll amount fee (some (hash, new_fee)) s' k = debited-FreesAll q hash _ s' _ k

      evaluate-FreesAll :
          (o : Option ℕ) (sums : Option (ℕ × ℕ)) (s' : Vault Db)
          → Held s'
          → FreesAll s (evaluate c l fees f q tx o sums s')
      unfolding evaluate
      evaluate-FreesAll (some id) sums s' k = aborts-FreesAll processed s' k
      evaluate-FreesAll none none s' k = elim (Bool-cases q.accepted) [
        | inl e ↦ simp e (aborts-FreesAll not_countable s' k)
        | inr e ↦ simp e (aborts-FreesAll rejected s' k)
      ]
      evaluate-FreesAll none (some (amount, fee)) s' k = elim (Bool-cases q.accepted) [
        | inl e ↦ simp e (pay_out-FreesAll amount fee (final_txid tx (rebuild_of q tx)) s' k)
        | inr e ↦ simp e (aborts-FreesAll rejected s' k)
      ]

  module _ (c : Client Db) (l : Limits) (fees : Fees) (f : Facts) (q : Send) (tx : Tx)
      (s : Vault Db) where
    pub send_onchain-unrecognized :
        q.supplied && not (is_at q.aid (s.receipt tx.txid)) ≡ true
        → send_onchain c l fees f q tx s ≡ (declines unrecognized, s)
    unfolding send_onchain
    send_onchain-unrecognized e = simp e refl

    pub send_onchain-taken :
        q.supplied && not (is_at q.aid (s.receipt tx.txid)) ≡ false
        → some_locked tx.vin s.locked ≡ true
        → send_onchain c l fees f q tx s ≡ (declines inputs_taken, s)
    unfolding send_onchain
    send_onchain-taken e h = simp (e, h) refl

    pub send_onchain-in_flight :
        q.supplied && not (is_at q.aid (s.receipt tx.txid)) ≡ false
        → some_locked tx.vin s.locked ≡ false
        → s.sending tx.signed_txid ≡ true
        → (send_onchain c l fees f q tx s).0 ≡ declines in_flight
    unfolding send_onchain guarded
    send_onchain-in_flight e h k = simp (e, h, k) refl

    pub send_onchain-evaluated :
        q.supplied && not (is_at q.aid (s.receipt tx.txid)) ≡ false
        → some_locked tx.vin s.locked ≡ false
        → s.sending tx.signed_txid ≡ false
        → send_onchain c l fees f q tx s
          ≡ evaluate c l fees f q tx
              (s.world.payment_of_hash tx.signed_txid)
              (amount_and_fee q.aid q.dest tx)
              (record s {
                locked = lock_all true tx.vin s.locked;
                sending = set_at tx.signed_txid true s.sending;
              })
    unfolding send_onchain guarded
    send_onchain-evaluated e h k = simp (e, h, k) refl

    -- A call of `sendOnchain` that fails, at whatever step, has given back the outputs that it
    -- locked and its own claim of the transaction: those that are locked and those that are being
    -- sent are as before. No other call is sending the transaction.
    pub send_onchain-Freed :
        (e : Declined)
        → s.sending tx.signed_txid ≡ false
        → (send_onchain c l fees f q tx s).0 ≡ declines e
        → Freed s (send_onchain c l fees f q tx s).1
    send_onchain-Freed e k h =
        elim (Bool-cases (q.supplied && not (is_at q.aid (s.receipt tx.txid)))) [
          | inl u ↦
              subst (λ x. Freed s x.1) (sym (send_onchain-unrecognized u)) (λ i. refl, λ t. refl)
          | inr u ↦ elim (Bool-cases (some_locked tx.vin s.locked)) [
            | inl v ↦ subst (λ x. Freed s x.1) (sym (send_onchain-taken u v)) (λ i. refl, λ t. refl)
            | inr v ↦
                subst (FreesAll s) (sym (send_onchain-evaluated u v k))
                  (evaluate-FreesAll tx s v k c l fees f q _ _ _ (refl, refl)) e h
          ]
        ]
