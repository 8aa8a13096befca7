-- ===== src/Wallet/Admission/Once.antt =====
-- lib/nwc.ts: no event is taken up twice.
use coinos_server.Base.{
  ℕ, ◌+◌, ◌*◌, ◌≤◌, ◌<◌, ◌≡◌, ◌≢◌, ◌⊎◌, List, [], ◌∷◌, ltb, arith, inl, inr, Bool-cases,
}
use coinos_server.Wallet.Admission.{NostrEvent, Answer, Relay, admitted, max_age_seconds, on_event}

-- An event that arrives so long after the last one.
abbrev pub Arrival : Type 0
Arrival = ℕ × NostrEvent

pub record Feed : Type 0 where
  pub now : ℕ
  pub relay : Relay

module _ (rate_limit : ℕ) where
  abbrev pub arrives : Arrival → Feed → Answer × Feed
  arrives (wait, e) f =
      let (a, r) = on_event rate_limit (f.now + wait) e f.relay in
      (a, record { now = f.now + wait; relay = r })

  unfoldable pub arrive_all : List Arrival → Feed → Feed
  arrive_all [] f = f
  arrive_all (a ∷ as') f = arrive_all as' (arrives a f).1

  on_event-claims :
      (now : ℕ) (e : NostrEvent) (r : Relay)
      → e.created_at ≢ 0
      → (on_event rate_limit now e r).0 ≡ admitted
      → (e.created_at + max_age_seconds + 1) * 1000
        ≤ (on_event rate_limit now e r).1.claimed_until e.id
  unfolding on_event
  on_event-claims now e r h k = ground arith

  on_event-keeps :
      (now : ℕ) (e : NostrEvent) (r : Relay) (id until : ℕ)
      → until ≤ r.claimed_until id
      → now < until
      → until ≤ (on_event rate_limit now e r).1.claimed_until id
  unfolding on_event
  on_event-keeps now e r id until h k = ground arith

  on_event-claimed :
      (now : ℕ) (e : NostrEvent) (r : Relay)
      → now < r.claimed_until e.id
      → (on_event rate_limit now e r).0 ≢ admitted
  unfolding on_event
  on_event-claimed now e r h = λ k. ground arith

  on_event-old :
      (now : ℕ) (e : NostrEvent) (r : Relay)
      → e.created_at ≢ 0
      → (e.created_at + max_age_seconds + 1) * 1000 ≤ now
      → (on_event rate_limit now e r).0 ≢ admitted
  unfolding on_event
  on_event-old now e r h k = λ a. ground arith

  -- Either the claim of an event still holds when it becomes too old, or it has become too old.
  abbrev IsSpent : NostrEvent → Feed → Type 0
  IsSpent e f =
      let until = (e.created_at + max_age_seconds + 1) * 1000 in
      (until ≤ f.relay.claimed_until e.id) ⊎ (until ≤ f.now)

  arrives-IsSpent :
      (e : NostrEvent) (a : Arrival) (f : Feed) → IsSpent e f → IsSpent e (arrives a f).1
  arrives-IsSpent e (wait, e') f (inr old) = inr (omega arith)
  arrives-IsSpent e (wait, e') f (inl h) =
      let until = (e.created_at + max_age_seconds + 1) * 1000 in
      elim (Bool-cases (ltb (f.now + wait) until)) [
        | inl early ↦ inl (on_event-keeps (f.now + wait) e' f.relay e.id until h (ground arith))
        | inr late ↦ inr (ground arith)
      ]

  arrive_all-IsSpent :
      (e : NostrEvent) (as' : List Arrival) (f : Feed) → IsSpent e f → IsSpent e (arrive_all as' f)
  unfolding arrive_all
  arrive_all-IsSpent e [] f h = h
  arrive_all-IsSpent e (a ∷ as') f h =
      arrive_all-IsSpent e as' (arrives a f).1 (arrives-IsSpent e a f h)

  IsSpent-refused :
      (e : NostrEvent) (wait : ℕ) (f : Feed)
      → e.created_at ≢ 0
      → IsSpent e f
      → (arrives (wait, e) f).0 ≢ admitted
  IsSpent-refused e wait f h (inr old) = on_event-old (f.now + wait) e f.relay h (omega arith)
  IsSpent-refused e wait f h (inl claim) =
      let until = (e.created_at + max_age_seconds + 1) * 1000 in
      elim (Bool-cases (ltb (f.now + wait) until)) [
        | inl early ↦ on_event-claimed (f.now + wait) e f.relay (ground arith)
        | inr late ↦ on_event-old (f.now + wait) e f.relay h (ground arith)
      ]

  -- An event that has been admitted is never admitted again, whatever arrives in between and however
  -- long it takes, although the database forgets the claim. The event says when it was created.
  pub admitted-once :
      (e : NostrEvent) (wait : ℕ) (f : Feed) (as' : List Arrival) (wait' : ℕ)
      → e.created_at ≢ 0
      → (arrives (wait, e) f).0 ≡ admitted
      → (arrives (wait', e) (arrive_all as' (arrives (wait, e) f).1)).0 ≢ admitted
  admitted-once e wait f as' wait' h k =
      IsSpent-refused e wait' (arrive_all as' (arrives (wait, e) f).1) h (
        arrive_all-IsSpent e as' (arrives (wait, e) f).1
          (inl (on_event-claims (f.now + wait) e f.relay h k)))
