-- ===== src/Wallet/Admission/Rate.antt =====
-- lib/nwc.ts: how many events of an app are taken up.
use coinos_server.Base.{
  ℕ, ◌+◌, ◌≤◌, ◌<◌, ◌≡◌, ◌⊎◌, refl, sym, ap, ◌∙◌, Bool, true, false, not, ◌&&◌, List, [], ◌∷◌, ◌++◌,
  ltb, leb, ◌==◌, if◌then◌else◌, arith, inl, inr, Bool-cases, ==_iff, length, length-append,
}
use coinos_server.Wallet.Admission.{
  NostrEvent, Answer, Relay, admitted, limited, claim, is_old, is_new, recent_times, on_event,
}
use coinos_server.Wallet.Admission.Once.{Arrival, Feed, arrives}

recent-append :
    (c : ℕ) (xs ys : List ℕ) → recent_times c (xs ++ ys) ≡ recent_times c xs ++ recent_times c ys
unfolding recent_times
recent-append c [] ys = refl
recent-append c (x ∷ xs) ys = ground (arith, recent-append c xs ys)

-- What a later window leaves out can be left out before.
recent-recent :
    (c now : ℕ) (xs : List ℕ) → now ≤ c → recent_times c (recent_times now xs) ≡ recent_times c xs
unfolding recent_times
recent-recent c now [] h = refl
recent-recent c now (x ∷ xs) h = ground (arith, recent-recent c now xs h)

recent-later :
    (c now : ℕ) (xs : List ℕ) → now ≤ c → length (recent_times c xs) ≤ length (recent_times now xs)
unfolding recent_times
recent-later c now [] h = omega arith
recent-later c now (x ∷ xs) h = ground (arith, recent-later c now xs h)

abbrev pub is_admitted : Answer → Bool
is_admitted admitted = true
is_admitted _ = false

recent-one : (c t : ℕ) → length (recent_times c (t ∷ [])) ≤ 1
unfolding recent_times
recent-one c t = ground arith

-- The times at which requests of `pubkey` were let through.
abbrev pub logged : ℕ → ℕ → NostrEvent → Answer → List ℕ → List ℕ
logged pubkey now e a log = if is_admitted a && e.pubkey == pubkey then log ++ (now ∷ []) else log

module _ (rate_limit pubkey : ℕ) where
  unfoldable pub arrive_logged : List Arrival → Feed → List ℕ → Feed × List ℕ
  arrive_logged [] f log = (f, log)
  arrive_logged ((wait, e) ∷ as') f log =
      let (a, f') = arrives rate_limit (wait, e) f in
      arrive_logged as' f' (logged pubkey f'.now e a log)

  -- The times that are kept for the app account for its log, and no window has too many.
  pub record IsCounted (now : ℕ) (r : Relay) (log : List ℕ) : Type 0 where
    pub accounted : (c : ℕ) → now ≤ c → recent_times c (r.request_times pubkey) ≡ recent_times c log
    pub few : length (recent_times now log) ≤ rate_limit

  later-IsCounted :
      (now now' : ℕ) (r r' : Relay) (log : List ℕ)
      → now ≤ now'
      → r'.request_times pubkey ≡ r.request_times pubkey
      → IsCounted now r log
      → IsCounted now' r' log
  later-IsCounted now now' r r' log h e k = record {
    accounted = λ c l. ap (recent_times c) e ∙ k.accounted c (omega arith);
    few = let f = k.few in omega (arith, recent-later now' now log h);
  }

  -- Within the limit, a request that is let through.
  push-IsCounted :
      (now now' : ℕ) (r r' : Relay) (log : List ℕ)
      → now ≤ now'
      → r'.request_times pubkey ≡ recent_times now' (r.request_times pubkey) ++ (now' ∷ [])
      → length (recent_times now' (r.request_times pubkey)) < rate_limit
      → IsCounted now r log
      → IsCounted now' r' (log ++ (now' ∷ []))
  push-IsCounted now now' r r' log h e l k = record {
    accounted = λ c m.
        ap (recent_times c) e
        ∙ recent-append c (recent_times now' (r.request_times pubkey)) (now' ∷ [])
        ∙ ap (λ (ts : List ℕ). ts ++ recent_times c (now' ∷ []))
            (recent-recent c now' (r.request_times pubkey) m ∙ k.accounted c (omega arith))
        ∙ sym (recent-append c log (now' ∷ []));
    few =
        let same = ap length (k.accounted now' h) in
        let parts = ap length (recent-append now' log (now' ∷ [])) in
        omega (
          arith,
          recent-one now' now',
          length-append (recent_times now' log) (recent_times now' (now' ∷ [])),
        );
  }

  -- Whether the time of a request is added to those of the app.
  abbrev Counts : ℕ → NostrEvent → Relay → Answer × Relay → Type 0
  Counts now e r (a, r') =
      ((is_admitted a && e.pubkey == pubkey ≡ false)
        × (r'.request_times pubkey ≡ r.request_times pubkey))
      ⊎ ((is_admitted a && e.pubkey == pubkey ≡ true)
          × (r'.request_times pubkey ≡ recent_times now (r.request_times pubkey) ++ (now ∷ []))
          × (length (recent_times now (r.request_times pubkey)) < rate_limit))

  limited-Counts :
      (now : ℕ) (e : NostrEvent) (r : Relay) → Counts now e r (limited rate_limit now e r)
  limited-Counts now e r =
      elim (Bool-cases (leb rate_limit (length (recent_times now (r.request_times e.pubkey))))) [
        | inl full ↦ rw full (inl (refl, refl))
        | inr free ↦ rw free (elim (Bool-cases (e.pubkey == pubkey)) [
          | inl same ↦
              let eq =
                ap (λ (p : ℕ). recent_times now (r.request_times p))
                  ((==_iff e.pubkey pubkey).0 same) in
              let below : length (recent_times now (r.request_times e.pubkey)) < rate_limit =
                ground arith in
              let len = ap length eq in
              rw same (inr (refl, ap (λ (ts : List ℕ). ts ++ (now ∷ [])) eq, omega arith))
          | inr other ↦ rw other (inl (refl, refl))
        ])
      ]

  on_event-Counts :
      (now : ℕ) (e : NostrEvent) (r : Relay) → Counts now e r (on_event rate_limit now e r)
  unfolding on_event
  on_event-Counts now e r = elim (Bool-cases (not (e.created_at == 0) && is_old now e)) [
    | inl h ↦ rw h (inl (refl, refl))
    | inr h ↦ rw h (elim (Bool-cases (not (e.created_at == 0) && is_new now e)) [
      | inl k ↦ rw k (inl (refl, refl))
      | inr k ↦ rw k (elim (Bool-cases (ltb now (r.claimed_until e.id))) [
        | inl l ↦ rw l (inl (refl, refl))
        | inr l ↦ rw l (limited-Counts now e (claim now e r))
      ])
    ])
  ]

  logged-IsCounted :
      (now now' : ℕ) (e : NostrEvent) (r : Relay) (log : List ℕ) (o : Answer × Relay)
      → now ≤ now'
      → IsCounted now r log
      → Counts now' e r o
      → IsCounted now' o.1 (logged pubkey now' e o.0 log)
  logged-IsCounted now now' e r log (a, r') h k (inl (out, same)) =
      rw out (later-IsCounted now now' r r' log h same k)
  logged-IsCounted now now' e r log (a, r') h k (inr (taken, pushed, below)) =
      rw taken (push-IsCounted now now' r r' log h pushed below k)

  arrive_logged-IsCounted :
      (as' : List Arrival) (f : Feed) (log : List ℕ)
      → IsCounted f.now f.relay log
      → let (f', log') = arrive_logged as' f log in IsCounted f'.now f'.relay log'
  unfolding arrive_logged
  arrive_logged-IsCounted [] f log h = h
  arrive_logged-IsCounted ((wait, e) ∷ as') f log h =
      let now = f.now + wait in
      let o = on_event rate_limit now e f.relay in
      arrive_logged-IsCounted as' _ _
        (logged-IsCounted f.now now e f.relay log o (omega arith) h (on_event-Counts now e f.relay))

  -- Whatever arrives, of the times at which requests of an app were let through no more than the
  -- limit lie in the window that ends with the last arrival. No time is kept for the app at first.
  pub arrive_logged-few :
      (as' : List Arrival) (f : Feed)
      → f.relay.request_times pubkey ≡ []
      → let (f', log) = arrive_logged as' f [] in length (recent_times f'.now log) ≤ rate_limit
  arrive_logged-few as' f h =
      (arrive_logged-IsCounted as' f [] (record {
        accounted = λ c m. ap (recent_times c) h;
        few = unfold recent_times in omega arith;
      })).few
