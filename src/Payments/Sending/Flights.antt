-- ===== src/Payments/Sending/Flights.antt =====
-- lib/payments.ts, lines 1496 to 1724: calls of `sendLightning` one after another, and between
-- them what decides their payments. What runs between the claim and the debit of one call is left out.
use mathlib.Core.Path.{subst}
use coinos_server.Base.{
  ◌≢◌, ℕ, suc, ◌≡◌, refl, sym, ap, ◌∙◌, Bool, true, false, Option, List, [], ◌∷◌, if◌then◌else◌,
  ◌==◌, inl, inr, Bool-cases,
}
use coinos_server.Ledger.Client.{Client, IsCluster}
use coinos_server.Limits.Breaker.{Limits}
use coinos_server.Payments.Store.{Payment, World, Result, fails, returns, set_at}
use coinos_server.Payments.Debit.{Request, Fees, Facts, debit}
use coinos_server.Payments.Debit.Refusals.{Same, FailsClean, debit-FailsClean}
use coinos_server.Payments.Route.{Status, Attempt, background, check, waits}
use coinos_server.Payments.Sending.{
  Nodes, Ask, Refusal, Answer, refuses, gives, Site, prepare, settle_claim, claim_and_debit, sent,
  send_lightning,
}
use coinos_server.Payments.Sending.Claims.{
  refuses-gives, claim_and_debit-free, claim_and_debit-held, restored,
}

abbrev pub count : ℕ → List ℕ → ℕ
count h [] = 0
count h (x ∷ xs) = if x == h then suc (count h xs) else count h xs

abbrev pub without : ℕ → List ℕ → List ℕ
without h [] = []
without h (x ∷ xs) = if x == h then without h xs else x ∷ without h xs

abbrev flag : Bool → ℕ
flag true = 1
flag false = 0

-- What the background handler or `check` is told makes it do more than wait.
pub data Decides : Type 0 where
  by_background :
      (a : Attempt) (settled : Bool) (pays : Option (List Status))
      → background a settled pays ≢ waits
      → Decides
  by_check :
      (p : Option Payment) (age : ℕ) (being_paid : Bool) (pays : Option (List Status))
      → check true p age being_paid pays ≢ waits
      → Decides

module _ {Db : Type 0} (c : Client Db) (laws : IsCluster c) (l : Limits) (fees : Fees) where
  -- What a refused call leaves as it was: the set, every account and every payment record.
  abbrev pub Kept : Site Db → Site Db → Type 0
  Kept s s' = ((i : ℕ) → s'.pending i ≡ s.pending i) × Same c laws s.world s'.world

  same : (s : Site Db) → Kept s s
  same s = (λ i. refl, (λ i. refl, refl, refl))

  module _ (f : Facts) where
    settle_claim-Kept :
        (r : Request) (s : Site Db) (x : Result Payment × World Db) (e : Refusal)
        → s.pending r.hash ≡ false
        → FailsClean c laws s.world x
        → (settle_claim c l fees f r.hash (set_at r.hash true s.pending) x).0 ≡ refuses e
        → Kept s (settle_claim c l fees f r.hash (set_at r.hash true s.pending) x).1
    unfolding settle_claim
    settle_claim-Kept r s (returns p, w) e free q h = absurd (refuses-gives (sym h))
    settle_claim-Kept r s (fails x, w) e free q h = (λ i. restored r.hash i s.pending free, q)

    claim_and_debit-Kept :
        (r : Request) (s : Site Db) (e : Refusal)
        → (claim_and_debit c l fees f r s).0 ≡ refuses e
        → Kept s (claim_and_debit c l fees f r s).1
    claim_and_debit-Kept r s e h = elim (Bool-cases (s.pending r.hash)) [
      | inl held ↦ subst (λ x. Kept s x.1) (sym (claim_and_debit-held c l fees f r s held)) (same s)
      | inr free ↦
          let q = claim_and_debit-free c l fees f r s free in
          subst (λ x. Kept s x.1) (sym q)
            (settle_claim-Kept r s (debit c l fees f r s.world) e free
              (debit-FailsClean c laws l fees f r s.world) (sym (ap (λ x. x.0) q) ∙ h))
    ]

    sent-Kept :
        (x : Answer Request) (s : Site Db) (e : Refusal)
        → (sent c l fees f x s).0 ≡ refuses e
        → Kept s (sent c l fees f x s).1
    sent-Kept (refuses y) s e h = same s
    sent-Kept (gives r) s e h = claim_and_debit-Kept r s e h

    -- A call that refuses, for whatever reason, has released the claim that it made: the set of the
    -- claimed invoices, the accounts of the ledger and the records of the payments are as before it.
    pub send_lightning-Kept :
        (n : Nodes) (a : Ask) (s : Site Db) (e : Refusal)
        → (send_lightning c l fees f n a s).0 ≡ refuses e
        → Kept s (send_lightning c l fees f n a s).1
    unfolding send_lightning
    send_lightning-Kept n a s e h = sent-Kept (prepare n a) s e h

  -- The sites that calls lead to, with the invoices of the payments that are not decided.
  pub data Flights : Site Db → List ℕ → Type 0 where
    begins : (w : World Db) → Flights (record { world = w; pending = λ _. false }) []
    sends :
        {s : Site Db} {live : List ℕ} (f : Facts) (n : Nodes) (a : Ask) (p : Payment)
        → Flights s live
        → (send_lightning c l fees f n a s).0 ≡ gives p
        → Flights (send_lightning c l fees f n a s).1 (p.hash ∷ live)
    refused :
        {s : Site Db} {live : List ℕ} (f : Facts) (n : Nodes) (a : Ask) (e : Refusal)
        → Flights s live
        → (send_lightning c l fees f n a s).0 ≡ refuses e
        → Flights (send_lightning c l fees f n a s).1 live
    -- the payment is decided and its claim released, before or after it is finalized or reversed
    decided :
        {s : Site Db} {live : List ℕ} (h : ℕ) (w : World Db)
        → Decides
        → Flights s live
        → Flights (record { world = w; pending = set_at h false s.pending }) (without h live)
    -- it is decided, but a part of `finalize` or `reverse` fails and the claim stays
    left_claimed :
        {s : Site Db} {live : List ℕ} (h : ℕ) (w : World Db)
        → Decides
        → Flights s live
        → Flights (record s { world = w }) (without h live)
    -- anything that leaves the set alone
    passes :
        {s : Site Db} {live : List ℕ} (w : World Db)
        → Flights s live
        → Flights (record s { world = w }) live
