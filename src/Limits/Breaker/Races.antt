-- ===== src/Limits/Breaker/Races.antt =====
-- What lib/withdraw-breaker.ts does with a file that it cannot read, and with sends that overlap:
-- `debit` awaits the ledger between the check and the record, and other requests run meanwhile.
use coinos_server.Base.{
  ℕ, ◌+◌, ◌≤◌, ◌<◌, ◌≡◌, refl, ap, ◌∙◌, ◌↔◌, true, false, List, [], ◌∷◌, ◌++◌, ltb, if◌then◌else◌,
  arith, inl, inr, Bool-cases,
}
use coinos_server.Limits.Breaker.{
  Entry, Limits, Dir, allowed, disabled, got, threw, read, prune, sum, trip, unreadable,
  assert_withdraw_breaker, record_withdrawal, withdraw_window_total,
}
use coinos_server.Limits.Breaker.Ceiling.{
  Send, World, sends, send, settled, assert_got, record_got, sum-append,
}

-- The amounts of the sends, all checked at one time before the first is recorded.
abbrev pub AllAllowed : Limits → ℕ → List ℕ → Dir → Type 0
AllAllowed c now [] d = Unit
AllAllowed c now (a ∷ ns) d =
    (assert_withdraw_breaker c now a d ≡ (allowed, d)) × AllAllowed c now ns d

abbrev pub records : Limits → ℕ → List ℕ → Dir → Dir
records c now [] d = d
records c now (a ∷ ns) d = records c now ns (record_withdrawal c now a d)

abbrev pub AllFit : Limits → ℕ → List ℕ → Type 0
AllFit c total [] = Unit
AllFit c total (a ∷ ns) = (total + a ≤ c.cap) × AllFit c total ns

abbrev pub total : List ℕ → ℕ
total [] = 0
total (a ∷ ns) = a + total ns

prune-prune :
    (c : Limits) (now : ℕ) (es : List Entry) → prune c (prune c es now) now ≡ prune c es now
prune-prune c now [] = refl
prune-prune c now (e ∷ es) = elim (Bool-cases (ltb now (e.t + c.window_ms))) [
  | inl h ↦ rw (h, h) (ap (◌∷◌ e) (prune-prune c now es))
  | inr h ↦ rw h (prune-prune c now es)
]

prune-append :
    (c : Limits) (now : ℕ) (es fs : List Entry)
    → prune c (es ++ fs) now ≡ prune c es now ++ prune c fs now
prune-append c now [] fs = refl
prune-append c now (e ∷ es) fs = elim (Bool-cases (ltb now (e.t + c.window_ms))) [
  | inl h ↦ rw h (ap (◌∷◌ e) (prune-append c now es fs))
  | inr h ↦ rw h (prune-append c now es fs)
]

window_total_got :
    (c : Limits) (d : Dir) (now : ℕ) (es : List Entry)
    → read d.state ≡ got es
    → withdraw_window_total c d now ≡ sum (prune c es now)
unfolding withdraw_window_total
window_total_got c d now es e = rw (e, withdraw_window_total) refl

module _ (c : Limits) (on : 0 < c.cap) where
  -- A send passes the check exactly when the file can be read and the window has room for it; one
  -- that the cap stops leaves the lock behind if the directory can be written, and nothing else
  -- changes.
  pub assert_withdraw_breaker-verdict :
      (now amount : ℕ) (d : Dir) (es : List Entry)
      → read d.state ≡ got es
      → d.writable ≡ true
      → let (v, d') = assert_withdraw_breaker c now amount d in
        (v ≡ allowed ↔ withdraw_window_total c d now + amount ≤ c.cap)
        × (v ≡ disabled → d'.locked ≡ true)
        × (d'.state ≡ d.state)
  assert_withdraw_breaker-verdict now amount d es f wr =
      rw (assert_got c on now amount d es f, window_total_got c d now es f)
        (elim (Bool-cases (ltb c.cap (sum (prune c es now) + amount))) [
          | inl over ↦ rw (over, wr) ((λ e. cc, λ p. absurd (ground arith)), λ e. refl, refl)
          | inr fits ↦ rw fits ((λ e. ground arith, λ p. refl), λ e. cc, refl)
        ])

  assert_unreadable :
      (now amount : ℕ) (d : Dir)
      → d.state ≡ unreadable
      → assert_withdraw_breaker c now amount d ≡ (disabled, d)
  unfolding assert_withdraw_breaker
  assert_unreadable now amount d e = rw enabled (
      ap
        (λ f. elim (read f) [
          | threw ↦ (disabled, d)
          | got es ↦
              if ltb c.cap (sum (prune c es now) + amount) then (disabled, trip d) else (allowed, d)
        ])
        e)
    where
      enabled : ltb 0 c.cap ≡ true
      enabled = ground arith

  send_unreadable :
      (m : Send) (w : World)
      → w.dir.state ≡ unreadable
      → ((send c m w).history ≡ w.history) × ((send c m w).dir ≡ w.dir)
  unfolding send settled
  send_unreadable m w e = rw (assert_unreadable (w.clock + m.wait) m.amount w.dir e) (refl, refl)

  -- While the file cannot be read, nothing is sent and the directory stays as it is.
  pub sends-unreadable :
      (ms : List Send) (w : World)
      → w.dir.state ≡ unreadable
      → ((sends c ms w).history ≡ w.history) × ((sends c ms w).dir ≡ w.dir)
  unfolding sends
  sends-unreadable [] w e = (refl, refl)
  sends-unreadable (m ∷ ms) w e =
      let (h, d) = send_unreadable m w e in
      let (h', d') = sends-unreadable ms (send c m w) (ap (λ x. x.state) d ∙ e) in (h' ∙ h, d' ∙ d)

  module _ (window : 0 < c.window_ms) where
    records-total :
        (now : ℕ) (ns : List ℕ) (d : Dir) (es : List Entry)
        → read d.state ≡ got es
        → d.writable ≡ true
        → withdraw_window_total c (records c now ns d) now ≡ sum (prune c es now) + total ns
    records-total now [] d es f wr = window_total_got c d now es f ∙ omega arith
    records-total now (a ∷ ns) d es f wr = rw (record_got c on now a d es f wr) (
        records-total now ns _ (prune c es now ++ record { t = now; amount = a } ∷ []) refl wr
        ∙ rw
            (
              prune-append c now (prune c es now) (record { t = now; amount = a } ∷ []),
              prune-prune c now es,
              live,
              sum-append (prune c es now) (record { t = now; amount = a } ∷ []),
            )
            (omega arith))
      where
        live : ltb now (now + c.window_ms) ≡ true
        live = ground arith

    checks-AllAllowed :
        (now : ℕ) (ns : List ℕ) (d : Dir) (es : List Entry)
        → read d.state ≡ got es
        → AllFit c (sum (prune c es now)) ns
        → AllAllowed c now ns d
    checks-AllAllowed now [] d es f h = tt
    checks-AllAllowed now (a ∷ ns) d es f h =
        (assert_got c on now a d es f ∙ rw fits refl, checks-AllAllowed now ns d es f h.1)
      where
        fits : ltb c.cap (sum (prune c es now) + a) ≡ false
        fits = ground arith

    -- Sends that each fit alone all pass when they are checked before the first is recorded, and the
    -- window then has the sum of them in it, whatever the cap is.
    pub overlapping-total :
        (now : ℕ) (ns : List ℕ) (d : Dir) (es : List Entry)
        → read d.state ≡ got es
        → d.writable ≡ true
        → AllFit c (withdraw_window_total c d now) ns
        → AllAllowed c now ns d
          × (withdraw_window_total c (records c now ns d) now
              ≡ withdraw_window_total c d now + total ns)
    overlapping-total now ns d es f wr h = rw (window_total_got c d now es f) (
      checks-AllAllowed now ns d es f (rw (window_total_got c d now es f) at h),
      records-total now ns d es f wr,
    )
