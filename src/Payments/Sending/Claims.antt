-- ===== src/Payments/Sending/Claims.antt =====
-- lib/payments.ts, lines 1496 to 1631: the set `pending` under calls of `sendLightning`.
use coinos_server.Base.{
  ℕ, ◌≡◌, ◌≢◌, ◌⊎◌, refl, sym, ap, ◌∙◌, Bool, true, false, List, ◌==◌, ==_iff, arith, inl, inr,
  Bool-cases,
}
use coinos_server.Ledger.Client.{Client}
use coinos_server.Limits.Breaker.{Limits}
use coinos_server.Payments.Store.{Payment, World, Result, fails, returns, set_at}
use coinos_server.Payments.Debit.{Request, Fees, Facts, debit}
use coinos_server.Payments.Debit.Steps.{debit-Passed}
use coinos_server.Payments.Route.{Status, all_failed, some_complete-all_failed}
use coinos_server.Payments.Sending.{
  Nodes, Ask, Refusal, Answer, refuses, gives, then_ask, Site, prepare, checked_amount, invoice_for,
  fee_limit, unpaid, debit_request, payee_of, settle_claim, claim_and_debit, sent, still_settling,
  send_lightning,
}

pub gives-injective : {A : Type 0} {a b : A} → ◌≡◌ {A = Answer A} (gives a) (gives b) → a ≡ b
gives-injective e = cc

pub refuses-gives : {A : Type 0} {e : Refusal} {a : A} → ◌≢◌ {A = Answer A} (refuses e) (gives a)
refuses-gives h = cc

then_ask-gives :
    {A B : Type 0} (x : Answer A) (k : A → Answer B) (b : B)
    → then_ask x k ≡ gives b
    → (a : A) × (x ≡ gives a) × (k a ≡ gives b)
then_ask-gives (refuses e) k b h = absurd (refuses-gives h)
then_ask-gives (gives a) k b h = (a, refl, h)

unpaid-all_failed : (pays : List Status) → unpaid pays ≡ gives tt → all_failed pays ≡ true
unfolding unpaid
unpaid-all_failed pays h = some_complete-all_failed pays (ground arith) (ground arith)

-- A request that is made is for an invoice of which every earlier attempt has failed.
pub prepare-all_failed :
    (n : Nodes) (a : Ask) (r : Request)
    → prepare n a ≡ gives r
    → all_failed (n.listpays r.hash) ≡ true
unfolding prepare debit_request
prepare-all_failed n a r h =
    let (amount, _, h1) = then_ask-gives (checked_amount a.amount) _ r h in
    let (pr, _, h2) = then_ask-gives (invoice_for n amount a.pr) _ r h1 in
    let (fee, _, h3) =
      then_ask-gives (fee_limit (n.is_peer (payee_of (n.decode pr))) amount a.fee) _ r h2 in
    let (u, e, h4) = then_ask-gives (unpaid (n.listpays pr)) _ r h3 in
    let same : pr ≡ r.hash = ap (λ q. q.hash) (gives-injective h4) in
    ap (λ i. all_failed (n.listpays i)) (sym same) ∙ unpaid-all_failed (n.listpays pr) e

set_at-same {ℓ} : {A : Type ℓ} (i : ℕ) (a : A) (f : ℕ → A) → set_at i a f i ≡ a
set_at-same i a f = ground arith

-- Claiming and releasing leaves the set as it was.
pub restored : (i j : ℕ) (f : ℕ → Bool) → f i ≡ false → set_at i false (set_at i true f) j ≡ f j
restored i j f h = elim (Bool-cases (i == j)) [
  | inl e ↦ simp e (sym (ap f (sym ((==_iff i j).0 e)) ∙ h))
  | inr e ↦ simp e refl
]

module _ {Db : Type 0} (c : Client Db) (l : Limits) (fees : Fees) (f : Facts) where
  settle_claim-gives :
      (pr : ℕ) (pending : ℕ → Bool) (x : Result Payment × World Db) (p : Payment)
      → (settle_claim c l fees f pr pending x).0 ≡ gives p
      → (x.0 ≡ returns p)
        × (settle_claim c l fees f pr pending x).1 ≡ record { world = x.1; pending = pending }
  unfolding settle_claim
  settle_claim-gives pr pending (returns q, w) p h = (ap returns (gives-injective h), refl)
  settle_claim-gives pr pending (fails e, w) p h = absurd (refuses-gives h)

  pub settle_claim-refuses :
      (pr : ℕ) (pending : ℕ → Bool) (x : Result Payment × World Db) (e : Refusal)
      → (settle_claim c l fees f pr pending x).0 ≡ refuses e
      → (settle_claim c l fees f pr pending x).1
        ≡ record { world = x.1; pending = set_at pr false pending }
  unfolding settle_claim
  settle_claim-refuses pr pending (returns q, w) e h = absurd (refuses-gives (sym h))
  settle_claim-refuses pr pending (fails x, w) e h = refl

  pub claim_and_debit-free :
      (r : Request) (s : Site Db)
      → s.pending r.hash ≡ false
      → claim_and_debit c l fees f r s
        ≡ settle_claim c l fees f r.hash (set_at r.hash true s.pending) (debit c l fees f r s.world)
  unfolding claim_and_debit
  claim_and_debit-free r s e = simp e refl

  pub claim_and_debit-held :
      (r : Request) (s : Site Db)
      → s.pending r.hash ≡ true
      → claim_and_debit c l fees f r s ≡ (refuses still_settling, s)
  unfolding claim_and_debit
  claim_and_debit-held r s e = simp e refl

  pub send_lightning-prepared :
      (n : Nodes) (a : Ask) (s : Site Db) (r : Request)
      → prepare n a ≡ gives r
      → send_lightning c l fees f n a s ≡ claim_and_debit c l fees f r s
  unfolding send_lightning
  send_lightning-prepared n a s r e = ap (λ x. sent c l fees f x s) e

  pub send_lightning-refused :
      (n : Nodes) (a : Ask) (s : Site Db) (e : Refusal)
      → prepare n a ≡ refuses e
      → send_lightning c l fees f n a s ≡ (refuses e, s)
  unfolding send_lightning
  send_lightning-refused n a s e h = ap (λ x. sent c l fees f x s) h

  -- What a send has done that returned a payment.
  pub record Sent (n : Nodes) (a : Ask) (s : Site Db) (p : Payment) : Type 0 where
    pub asked : Request
    pub prepared : prepare n a ≡ gives asked
    pub none_live : all_failed (n.listpays asked.hash) ≡ true
    pub free : s.pending asked.hash ≡ false
    pub debited : (debit c l fees f asked s.world).0 ≡ returns p
    pub hash : p.hash ≡ asked.hash
    pub after : (send_lightning c l fees f n a s).1 ≡ record {
      world = (debit c l fees f asked s.world).1;
      pending = set_at asked.hash true s.pending;
    }

  debit-hash :
      (r : Request) (w : World Db) (p : Payment)
      → (debit c l fees f r w).0 ≡ returns p
      → p.hash ≡ r.hash
  debit-hash r w p h = ap (λ q. q.hash) (debit-Passed c l fees f r w p h).made

  -- A Lightning payment is returned only if the node knows of no attempt of its invoice that
  -- has not failed and no claim of it was held; it is then the payment of one debit, and its invoice
  -- is claimed.
  pub send_lightning-Sent :
      (n : Nodes) (a : Ask) (s : Site Db) (p : Payment)
      → (send_lightning c l fees f n a s).0 ≡ gives p
      → Sent n a s p
  send_lightning-Sent n a s p h = elim (answered (prepare n a)) [
    | inl (e, k) ↦
        absurd (refuses-gives (sym (ap (λ x. x.0) (send_lightning-refused n a s e k)) ∙ h))
    | inr (r, k) ↦ elim (Bool-cases (s.pending r.hash)) [
      | inl held ↦ absurd (
          refuses-gives (
            sym (ap (λ x. x.0) (send_lightning-prepared n a s r k ∙ claim_and_debit-held r s held))
            ∙ h))
      | inr free ↦
          let q = send_lightning-prepared n a s r k ∙ claim_and_debit-free r s free in
          let (d, e) =
            settle_claim-gives r.hash (set_at r.hash true s.pending) (debit c l fees f r s.world) p
              (sym (ap (λ x. x.0) q) ∙ h) in
          record {
            asked = r;
            prepared = k;
            none_live = prepare-all_failed n a r k;
            free = free;
            debited = d;
            hash = debit-hash r s.world p d;
            after = ap (λ x. x.1) q ∙ e;
          }
    ]
  ]
    where
      answered :
          {A : Type 0} (x : Answer A)
          → ((e : Refusal) × (x ≡ refuses e)) ⊎ ((b : A) × (x ≡ gives b))
      answered (refuses e) = inl (e, refl)
      answered (gives b) = inr (b, refl)
