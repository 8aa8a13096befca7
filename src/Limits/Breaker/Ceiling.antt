-- ===== src/Limits/Breaker/Ceiling.antt =====
-- The cap of lib/withdraw-breaker.ts is a ceiling for withdrawals that are checked and recorded one
-- after the other.
use coinos_server.Base.{
  ℕ, ◌+◌, ◌≤◌, ◌<◌, ◌≡◌, refl, ap, ◌∙◌, true, ◌&&◌, List, [], ◌∷◌, ◌++◌, ltb, leb, if◌then◌else◌,
  arith, inl, inr, Bool-cases,
}
use coinos_server.Limits.Breaker.{
  Entry, entries, Limits, Dir, Verdict, allowed, disabled, got, read, prune, sum, trip,
  assert_withdraw_breaker, record_withdrawal,
}

-- What was withdrawn at `lo` or later.
abbrev pub since : ℕ → List Entry → ℕ
since lo [] = 0
since lo (e ∷ es) = (if leb lo e.t then e.amount else 0) + since lo es

-- What was withdrawn from `lo` on for the time of one window.
abbrev pub in_window : Limits → ℕ → List Entry → ℕ
in_window c lo [] = 0
in_window c lo (e ∷ es) =
    (if leb lo e.t && ltb e.t (lo + c.window_ms) then e.amount else 0) + in_window c lo es

-- One external send: the check, and the record when the check passed.
pub record Send : Type 0 where
  pub wait : ℕ
  pub amount : ℕ

-- The clock, the directory, and all that was ever sent, the last first.
pub record World : Type 0 where
  pub clock : ℕ
  pub dir : Dir
  pub history : List Entry

unfoldable pub settled : Limits → ℕ → ℕ → List Entry → Verdict × Dir → World
settled c now amount h (allowed, d) = record {
  clock = now;
  dir = record_withdrawal c now amount d;
  history = record { t = now; amount = amount } ∷ h;
}
settled c now amount h (disabled, d) = record { clock = now; dir = d; history = h }

unfoldable pub send : Limits → Send → World → World
unfolding settled
send c m w =
    settled c (w.clock + m.wait) m.amount w.history
      (assert_withdraw_breaker c (w.clock + m.wait) m.amount w.dir)

unfoldable pub sends : Limits → List Send → World → World
unfolding send
sends c [] w = w
sends c (m ∷ ms) w = sends c ms (send c m w)

sum-since : (lo : ℕ) (es : List Entry) → since lo es ≤ sum es
sum-since lo [] = omega arith
sum-since lo (e ∷ es) = ground (arith, sum-since lo es)

since-append : (lo : ℕ) (es fs : List Entry) → since lo (es ++ fs) ≡ since lo es + since lo fs
since-append lo [] fs = omega arith
since-append lo (e ∷ es) fs = omega (arith, since-append lo es fs)

pub sum-append : (es fs : List Entry) → sum (es ++ fs) ≡ sum es + sum fs
sum-append [] fs = omega arith
sum-append (e ∷ es) fs = omega (arith, sum-append es fs)

-- What a window that has not ended contains is never pruned.
since-prune :
    (c : Limits) (lo now : ℕ) (es : List Entry)
    → now < lo + c.window_ms
    → since lo (prune c es now) ≡ since lo es
since-prune c lo now [] h = refl
since-prune c lo now (e ∷ es) h = ground (arith, since-prune c lo now es h)

in_window-since : (c : Limits) (lo : ℕ) (es : List Entry) → in_window c lo es ≤ since lo es
in_window-since c lo [] = omega arith
in_window-since c lo (e ∷ es) = ground (arith, in_window-since c lo es)

-- The file has every entry of a window that has not ended, and no window exceeds the cap.
record Holds (c : Limits) (es : List Entry) (w : World) : Type 0 where
  file : read w.dir.state ≡ got es
  writes : w.dir.writable ≡ true
  recent : (lo : ℕ) → w.clock < lo + c.window_ms → since lo w.history ≤ since lo es
  bounded : (lo : ℕ) → in_window c lo w.history ≤ c.cap

module _ (c : Limits) (on : 0 < c.cap) where
  refused-Holds :
      {es : List Entry} {w : World} (now : ℕ)
      → w.clock ≤ now
      → Holds c es w
      → (d : Dir) → read d.state ≡ got es
      → d.writable ≡ true
      → Holds c es (record { clock = now; dir = d; history = w.history })
  refused-Holds now later h d f wr = record {
    file = f;
    writes = wr;
    recent = λ lo p. h.recent lo (omega arith);
    bounded = h.bounded;
  }

  -- The window that a new entry is in has nothing that the check did not count.
  recorded-recent :
      (es : List Entry) (w : World) (now amount lo : ℕ)
      → w.clock ≤ now
      → Holds c es w
      → now < lo + c.window_ms
      → since lo (record { t = now; amount = amount } ∷ w.history)
        ≤ since lo (prune c es now ++ record { t = now; amount = amount } ∷ [])
  recorded-recent es w now amount lo later h p = ground (
    arith,
    since-append lo (prune c es now) (record { t = now; amount = amount } ∷ []),
    since-prune c lo now es p,
    h.recent lo (omega arith),
  )

  recorded-bounded :
      (es : List Entry) (w : World) (now amount lo : ℕ)
      → w.clock ≤ now
      → Holds c es w
      → sum (prune c es now) + amount ≤ c.cap
      → in_window c lo (record { t = now; amount = amount } ∷ w.history) ≤ c.cap
  recorded-bounded es w now amount lo later h q =
      elim (Bool-cases (leb lo now && ltb now (lo + c.window_ms))) [
        | inl inside ↦
            let p : now < lo + c.window_ms = ground arith in
            rw inside (
              omega (
                arith,
                in_window-since c lo w.history,
                h.recent lo (omega arith),
                since-prune c lo now es p,
                sum-since lo (prune c es now),
              ))
        | inr outside ↦ rw outside (omega (arith, h.bounded lo))
      ]

  pub assert_got :
      (now amount : ℕ) (d : Dir) (es : List Entry)
      → read d.state ≡ got es
      → assert_withdraw_breaker c now amount d
        ≡ (if ltb c.cap (sum (prune c es now) + amount) then (disabled, trip d) else (allowed, d))
  unfolding assert_withdraw_breaker
  assert_got now amount d es e = rw (e, enabled) refl
    where
      enabled : ltb 0 c.cap ≡ true
      enabled = ground arith

  pub record_got :
      (now amount : ℕ) (d : Dir) (es : List Entry)
      → read d.state ≡ got es
      → d.writable ≡ true
      → record_withdrawal c now amount d
        ≡ record d { state = entries (prune c es now ++ record { t = now; amount = amount } ∷ []) }
  unfolding record_withdrawal
  record_got now amount d es e wr = rw (e, enabled, wr) refl
    where
      enabled : ltb 0 c.cap ≡ true
      enabled = ground arith

  trip_state : (d : Dir) → (trip d).state ≡ d.state
  trip_state d = ground arith

  trip_writable : (d : Dir) → (trip d).writable ≡ d.writable
  trip_writable d = ground arith

  send-Holds :
      (m : Send) (es : List Entry) (w : World)
      → Holds c es w
      → (es' : List Entry) × Holds c es' (send c m w)
  unfolding send settled
  send-Holds m es w h =
      rw (assert_got now m.amount w.dir es h.file)
        (elim (Bool-cases (ltb c.cap (sum (prune c es now) + m.amount))) [
          | inl over ↦ rw over (
            es,
            refused-Holds now later h (trip w.dir) (ap read (trip_state w.dir) ∙ h.file)
                (trip_writable w.dir ∙ h.writes),
          )
          | inr fits ↦
              rw (fits, record_got now m.amount w.dir es h.file h.writes)
                (
                  prune c es now ++ record { t = now; amount = m.amount } ∷ [],
                  record {
                    file = refl;
                    writes = h.writes;
                    recent = λ lo p. recorded-recent es w now m.amount lo later h p;
                    bounded = λ lo. recorded-bounded es w now m.amount lo later h (ground arith);
                  },
                )
        ])
    where
      now : ℕ
      now = w.clock + m.wait

      later : w.clock ≤ now
      later = omega arith

  sends-Holds :
      (ms : List Send) (es : List Entry) (w : World)
      → Holds c es w
      → (es' : List Entry) × Holds c es' (sends c ms w)
  unfolding sends
  sends-Holds [] es w h = (es, h)
  sends-Holds (m ∷ ms) es w h =
      let (es', h') = send-Holds m es w h in sends-Holds ms es' (send c m w) h'

  -- When every send is recorded before the next is checked, the directory can be written and its
  -- file read, then no window of the configured length ever has more than the cap in it.
  pub sends-in_window :
      (ms : List Send) (clock lo : ℕ) (d : Dir) (es : List Entry)
      → read d.state ≡ got es
      → d.writable ≡ true
      → in_window c lo (sends c ms (record { clock = clock; dir = d; history = [] })).history
        ≤ c.cap
  sends-in_window ms clock lo d es f wr =
      (sends-Holds ms es _ (record {
        file = f;
        writes = wr;
        recent = λ lo p. omega arith;
        bounded = λ lo. omega arith;
      })).1.bounded
        lo
