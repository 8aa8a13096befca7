-- ===== src/Wallet/Handlers/Guarded.antt =====
-- lib/nwc.ts: no handler moves money past the budget of its connection.
use mathlib.Core.Option
use coinos_server.Base.{
  ℕ, ◌-◌, ◌≤◌, ◌*◌, ◌≡◌, ◌⊎◌, refl, sym, ap, ◌∙◌, Bool, true, false, not, ◌&&◌, ◌||◌, Option, none,
  some, List, [], ◌∷◌, ◌==◌, if◌then◌else◌, arith, inl, inr, pos,
}
use coinos_server.Wallet.Budget.{App, MaxAmount, BudgetError, period_of, spent_in}
use coinos_server.Wallet.Budget.Window.{check_budget-against}
use coinos_server.Wallet.Instruction.{Parsed, instruction, no_instruction, unsupported}
use coinos_server.Wallet.Handlers.{
  Call, send_internal, send_lightning, send_keysend, push, Reply, Outcome, Asked, Decoded,
  is_missing, replies, sats_of, or_number, sends, after_check, within_budget, check, conflicts,
  pay_invoice, pay_decoded, pay, spendable, get_balance,
}

abbrev pub amount_of : Call → ℕ
amount_of (send_internal amount _) = amount
amount_of (send_lightning amount _ _) = amount
amount_of (send_keysend amount _ _) = amount
amount_of (push _) = 0

abbrev pub limit_of : Call → Option ℕ
limit_of (send_internal _ left) = left
limit_of (send_lightning _ _ left) = left
limit_of (send_keysend _ _ left) = left
limit_of (push _) = none

abbrev pub pushes : Option ℕ → List Call
pushes none = []
pushes (some id) = push id ∷ []

module _ (app : App) (a : Asked) where
  -- Nothing is called, or one send, of an amount that the check lets through and with what it leaves
  -- as its limit, and then what came of it is recorded.
  abbrev pub Guarded : List Call → Type 0
  Guarded calls =
      (calls ≡ [])
      ⊎ ((s : Call) × ((check app a (amount_of s)).budget_error ≡ none)
          × (limit_of s ≡ (check app a (amount_of s)).remaining)
          × (calls ≡ s ∷ pushes a.sent))

  -- An outcome of one send with the amount and the limit that are given.
  abbrev Sends : ℕ → Option ℕ → Outcome → Type 0
  Sends amount left o =
      (s : Call) × (amount_of s ≡ amount) × (limit_of s ≡ left) × (o.calls ≡ s ∷ pushes a.sent)

  sends-Sends :
      (c : Call) (failed : Reply) (then_ : ℕ → Reply) (r : Option ℕ)
      → a.sent ≡ r
      → Sends (amount_of c) (limit_of c) (sends c r failed then_)
  sends-Sends c failed then_ none e = (c, refl, refl, rw e refl)
  sends-Sends c failed then_ (some id) e = (c, refl, refl, rw e refl)

  if-Sends :
      (b : Bool) (amount : ℕ) (left : Option ℕ) (o p : Outcome)
      → Sends amount left o
      → Sends amount left p
      → Sends amount left (if b then o else p)
  if-Sends true amount left o p h k = h
  if-Sends false amount left o p h k = k

  after_check-Guarded :
      (amount : ℕ) (e : Option BudgetError) (left : Option ℕ) (k : Option ℕ → Outcome)
      → (check app a amount).budget_error ≡ e
      → (check app a amount).remaining ≡ left
      → Sends amount left (k left)
      → Guarded (after_check e left k).calls
  after_check-Guarded amount (some x) left k be re h = inl refl
  after_check-Guarded amount none left k be re (s, am, lim, calls) = inr (
    s,
    ap (λ (n : ℕ). (check app a n).budget_error) am ∙ be,
    lim ∙ sym re ∙ ap (λ (n : ℕ). (check app a n).remaining) (sym am),
    calls,
  )

  within_budget-Guarded :
      (amount : ℕ) (k : Option ℕ → Outcome)
      → ((left : Option ℕ) → Sends amount left (k left))
      → Guarded (within_budget (check app a amount) k).calls
  within_budget-Guarded amount k h =
      after_check-Guarded amount _ _ k refl refl (h (check app a amount).remaining)

  -- A test that replies before anything is called.
  guard-Guarded :
      (b : Bool) (r : Reply) (o : Outcome)
      → Guarded o.calls
      → Guarded (if b then replies r else o).calls
  guard-Guarded true r o h = inl refl
  guard-Guarded false r o h = h

  after_check-replies :
      (e : Option BudgetError) (left : Option ℕ) (r : Reply)
      → (after_check e left (λ _. replies r)).calls ≡ []
  after_check-replies none left r = refl
  after_check-replies (some x) left r = refl

  -- A test that replies after the budget is read and before anything is sent.
  unless-Guarded :
      (b : Bool) (r : Reply) (amount : ℕ) (k : Option ℕ → Outcome)
      → ((left : Option ℕ) → Sends amount left (k left))
      → Guarded (within_budget (check app a amount) (λ left. if b then replies r else k left)).calls
  unless-Guarded true r amount k h = inl (after_check-replies _ _ r)
  unless-Guarded false r amount k h = within_budget-Guarded amount k h

  pay_invoice-Guarded :
      (given : Bool) (amount_msat : ℕ) (ours : Bool) (mint : Option Bool) (answers : ℕ → Option ℕ)
      → Guarded (pay_invoice app a given amount_msat ours mint answers).calls
  unfolding pay_invoice
  pay_invoice-Guarded given amount_msat ours mint answers = guard-Guarded (not given) _ _ (
      guard-Guarded (or_number amount_msat a.request_msat == 0) _ _ (
        unless-Guarded (ours && is_missing mint) _ _ _ (λ left.
          if-Sends (ours && not (Option.get_or mint true)) _ left _ _
            (sends-Sends _ _ _ a.sent refl) (sends-Sends _ _ _ a.sent refl))))

  pay_decoded-Guarded :
      (d : Decoded) (noted invalid_amount : Bool) (ref : Option ℕ)
      → Guarded (pay_decoded app a d noted invalid_amount ref).calls
  unfolding pay_decoded
  pay_decoded-Guarded d noted invalid_amount ref = guard-Guarded (not d.valid) _ _ (
      guard-Guarded (not d.same_network) _ _ (
        guard-Guarded (noted && not d.bolt12) _ _ (
          guard-Guarded
            (invalid_amount
              || conflicts a.request_msat d.amount_msat
              || or_number d.amount_msat a.request_msat == 0)
            _ _
            (within_budget-Guarded (sats_of (or_number d.amount_msat a.request_msat)) _ (λ left.
              if-Sends d.local _ left _ _ (sends-Sends _ _ _ a.sent refl)
                (sends-Sends _ _ _ a.sent refl))))))

  pay-Guarded :
      (p : Parsed) (decode : List ℕ → Decoded) (noted invalid_amount : Bool) (ref : Option ℕ)
      → Guarded (pay app a p decode noted invalid_amount ref).calls
  unfolding pay
  pay-Guarded (instruction s) decode noted invalid_amount ref =
      pay_decoded-Guarded (decode s) noted invalid_amount ref
  pay-Guarded no_instruction decode noted invalid_amount ref = inl refl
  pay-Guarded (unsupported key) decode noted invalid_amount ref = inl refl

  -- Whatever they are asked and whatever the node answers, `pay_invoice` and `pay` call nothing, or
  -- make one send, of an amount that the budget lets through and with what the budget leaves as its
  -- limit, and record the payment if and only if the send returns.
  pub handlers-Guarded :
      (given : Bool) (amount_msat : ℕ) (ours : Bool) (mint : Option Bool) (answers : ℕ → Option ℕ)
      → (p : Parsed) (decode : List ℕ → Decoded) (noted invalid_amount : Bool) (ref : Option ℕ)
      → Guarded (pay_invoice app a given amount_msat ours mint answers).calls
        × Guarded (pay app a p decode noted invalid_amount ref).calls
  handlers-Guarded given amount_msat ours mint answers p decode noted invalid_amount ref = (
    pay_invoice-Guarded given amount_msat ours mint answers,
    pay-Guarded p decode noted invalid_amount ref,
  )

  spendable-bounded :
      (balance m : ℕ) (e : Option BudgetError) (left : Option ℕ)
      → (e ≡ none → left ≡ some m)
      → (spendable app a balance e left ≤ balance) × (spendable app a balance e left ≤ m)
  spendable-bounded balance m (some x) left h = (omega arith, omega arith)
  spendable-bounded balance m none left h = rw (h refl) (ground arith)

  -- A connection with a budget learns of a balance that is neither above that of its owner nor above
  -- what the budget leaves it.
  pub get_balance-bounded :
      (balance limit period : ℕ)
      → app.max_amount ≡ MaxAmount.capped (pos limit)
      → period_of app.budget_renewal ≡ some period
      → (get_balance app a balance ≤ balance * 1000)
        × (get_balance app a balance ≤ (limit - spent_in a.now period a.entries) * 1000)
  unfolding get_balance
  get_balance-bounded balance limit period budgeted renewed =
      let b =
        spendable-bounded balance (limit - spent_in a.now period a.entries) _ _
          (check_budget-against app limit period budgeted renewed a.now a.entries (pos 0)) in
      (omega arith, omega arith)
