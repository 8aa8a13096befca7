-- ===== src/Wallet/Budget/Window.antt =====
-- lib/nwc.ts: what a budget bounds.
use coinos_server.Base.{
  ℕ, ◌+◌, ◌-◌, ◌≤◌, ◌≡◌, refl, none, some, List, [], ◌∷◌, ◌==◌, arith, inl, inr, Bool-cases,
  Option-cases, ℤ, pos, ◌-ℤ◌, ltb_ℤ,
}
use coinos_server.Limits.Allowance.{finite, assert_within_spend_limit}
use coinos_server.Wallet.Budget.{
  App, MaxAmount, Entry, Check, Spending, Event, spends, reversed, Wallet, period_of, against,
  total, spent_in, check_budget, recorded, carried_out, entry_of, without, happens, run,
}

spent_in-later :
    (t t' period : ℕ) (es : List Entry) → t ≤ t' → spent_in t' period es ≤ spent_in t period es
unfolding spent_in
spent_in-later t t' period [] h = omega arith
spent_in-later t t' period (e ∷ es) h = ground (arith, spent_in-later t t' period es h)

spent_in-without :
    (t period id : ℕ) (es : List Entry) → spent_in t period (without id es) ≤ spent_in t period es
unfolding spent_in
spent_in-without t period id [] = omega arith
spent_in-without t period id (e ∷ es) = elim (Bool-cases (e.id == id)) [
  | inl h ↦ rw h (ground (arith, spent_in-without t period id es))
  | inr h ↦ rw h (ground (arith, spent_in-without t period id es))
]

total-entry_of :
    (s : Spending) (now : ℕ) → total (entry_of s now) ≡ s.amount + s.tip + s.fee + s.ourfee
unfolding ◌-ℤ◌
total-entry_of s now = ground arith

-- What a check that refuses nothing leaves of a limit.
against-remaining :
    (limit spent : ℕ) (asked : ℤ)
    → (against limit spent asked).budget_error ≡ none
    → (against limit spent asked).remaining ≡ some (limit - spent)
against-remaining limit spent asked h = elim (Bool-cases (ltb_ℤ (pos (limit - spent)) asked)) [
  | inl e ↦ rw e refl
  | inr e ↦ rw e refl
]

module _ (app : App) (limit period : ℕ) (budgeted : app.max_amount ≡ MaxAmount.capped (pos limit))
    (renewed : period_of app.budget_renewal ≡ some period) where
  -- A check refuses, or leaves at most what the window has not spent.
  pub check_budget-against :
      (now : ℕ) (es : List Entry) (asked : ℤ)
      → (check_budget app now es asked).budget_error ≡ none
      → (check_budget app now es asked).remaining ≡ some (limit - spent_in now period es)
  unfolding check_budget
  check_budget-against now es asked h = elim (Bool-cases (app.created == 0)) [
    | inl e ↦ let h' = simp e at h in cc
    | inr e ↦ elim (Bool-cases (limit == 0)) [
      | inl z ↦ let h' = simp (e, budgeted, z) at h in cc
      | inr z ↦
          simp (e, budgeted, z, renewed)
            (against-remaining limit (spent_in now period es) asked
              (simp (e, budgeted, z, renewed) at h))
    ]
  ]

  abbrev IsWithin : Wallet → Type 0
  IsWithin w = spent_in w.now period w.entries ≤ limit

  -- The send holds what it debits to what the check left.
  recorded-within :
      (s : Spending) (now : ℕ) (es : List Entry)
      → spent_in now period es ≤ limit
      → spent_in now period (
          recorded s now es (
            assert_within_spend_limit
              (finite s.amount)
              (finite s.tip)
              (finite s.fee)
              (finite s.ourfee)
              (some (limit - spent_in now period es))))
        ≤ limit
  unfolding assert_within_spend_limit spent_in
  recorded-within s now es h = ground (arith, total-entry_of s now)

  carried_out-within :
      (s : Spending) (now : ℕ) (es : List Entry) (c : Check)
      → (c.budget_error ≡ none → c.remaining ≡ some (limit - spent_in now period es))
      → spent_in now period es ≤ limit
      → spent_in now period (carried_out s now es c) ≤ limit
  carried_out-within s now es c left h = elim (Option-cases c.budget_error) [
    | inl e ↦ simp (e, left e) (recorded-within s now es h)
    | inr (x, e) ↦ simp e h
  ]

  happens-IsWithin : (v : Event) (w : Wallet) → IsWithin w → IsWithin (happens app v w)
  unfolding happens
  happens-IsWithin (spends s) w h =
      let now = w.now + s.wait in
      let later = spent_in-later w.now now period w.entries (omega arith) in
      carried_out-within s now w.entries (check_budget app now w.entries s.asked)
        (check_budget-against now w.entries s.asked) (omega arith)
  happens-IsWithin (reversed id) w h =
      let fewer = spent_in-without w.now period id w.entries in omega arith

  -- However an app spends, and whatever payments are reversed in between, the payments on its record
  -- within its renewal period never exceed its budget. The budget is a number and the period is
  -- known, the spends run one after the other, and the budget is kept at first. A keysend that throws
  -- although its debit stays is not on record.
  pub run-within :
      (vs : List Event) (w : Wallet)
      → spent_in w.now period w.entries ≤ limit
      → spent_in (run app vs w).now period (run app vs w).entries ≤ limit
  unfolding run
  run-within [] w h = h
  run-within (v ∷ vs) w h = run-within vs (happens app v w) (happens-IsWithin v w h)
