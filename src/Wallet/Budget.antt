-- ===== src/Wallet/Budget.antt =====
-- lib/nwc.ts, `checkBudget` and the budget lock, with the limit that the send is given
-- (lib/spend-budget.ts). Amounts are whole numbers; the texts of the errors are left out.
pub mod Window
use coinos_server.Base.{
  ℕ, ◌+◌, ◌-◌, ◌*◌, ◌≡◌, refl, Bool, true, false, Option, none, some, List, [], ◌∷◌, ltb, ◌==◌,
  if◌then◌else◌, ℤ, pos, negsuc, pos_part, neg_part, ◌+ℤ◌, ◌-ℤ◌, ltb_ℤ, not, ◌&&◌,
}
use coinos_server.Limits.Allowance.{
  Unknown, Spend, within, exceeded, finite, assert_within_spend_limit,
}

-- `max_amount`: missing or empty, a number, or what `Number` turns into no finite number.
pub data MaxAmount : Type 0 where
  blank : MaxAmount
  capped : ℤ → MaxAmount
  not_finite : MaxAmount

pub data Renewal : Type 0 where
  daily weekly monthly yearly never : Renewal
  unknown : Renewal

-- `created` is 0 if it is missing.
pub record App : Type 0 where
  pub pubkey : ℕ
  pub uid : ℕ
  pub created : ℕ
  pub max_amount : MaxAmount
  pub budget_renewal : Renewal

-- A payment record as the budget reads it; `amount` is negative for a send.
pub record Entry : Type 0 where
  pub id : ℕ
  pub created : ℕ
  pub amount : ℤ
  pub tip : ℕ
  pub fee : ℕ
  pub ourfee : ℕ

pub data BudgetError : Type 0 where
  not_valid : BudgetError
  invalid_budget : BudgetError
  invalid_period : BudgetError
  -- "Budget exceeded: … of …"
  over_budget : ℤ → ℕ → BudgetError

-- `remaining` is `none` where no limit is set.
pub record Check : Type 0 where
  pub budget_error : Option BudgetError
  pub remaining : Option ℕ

abbrev refused : BudgetError → Check
refused e = record { budget_error = some e; remaining = some 0 }

-- In milliseconds.
abbrev pub period_of : Renewal → Option ℕ
period_of Renewal.daily = some 86_400_000
period_of Renewal.weekly = some 604_800_000
period_of Renewal.monthly = some 2_592_000_000
period_of Renewal.yearly = some 31_536_000_000
period_of Renewal.never = some 315_360_000_000
period_of Renewal.unknown = none

abbrev pub total : Entry → ℕ
total e = pos_part e.amount + neg_part e.amount + e.tip + e.fee + e.ourfee

-- `created > Date.now() - period`
abbrev pub recent : ℕ → ℕ → Entry → Bool
recent now period e = ltb now (e.created + period)

unfoldable pub spent_in : ℕ → ℕ → List Entry → ℕ
spent_in now period [] = 0
spent_in now period (e ∷ es) =
    let rest = spent_in now period es in if recent now period e then total e + rest else rest

abbrev pub against : ℕ → ℕ → ℤ → Check
against limit spent amount =
    if ltb_ℤ (pos (limit - spent)) amount
    then record {
      budget_error = some (over_budget (pos spent +ℤ amount) limit);
      remaining = some (limit - spent);
    }
    else record { budget_error = none; remaining = some (limit - spent) }

abbrev by_period : ℕ → List Entry → ℕ → ℤ → Option ℕ → Check
by_period now es limit amount none = refused invalid_period
by_period now es limit amount (some period) = against limit (spent_in now period es) amount

abbrev by_limit : App → ℕ → List Entry → ℤ → MaxAmount → Check
by_limit app now es amount MaxAmount.blank = record { budget_error = none; remaining = none }
by_limit app now es amount MaxAmount.not_finite = refused invalid_budget
by_limit app now es amount (MaxAmount.capped (negsuc n)) = refused invalid_budget
by_limit app now es amount (MaxAmount.capped (pos limit)) =
    if limit == 0
    then refused (over_budget amount 0)
    else by_period now es limit amount (period_of app.budget_renewal)

-- `es` are the records of `<pubkey>:payments` that can be read.
unfoldable pub check_budget : App → ℕ → List Entry → ℤ → Check
unfolding spent_in
check_budget app now es amount =
    if app.created == 0 then refused not_valid else by_limit app now es amount app.max_amount

-- A spend of an app, under its lock: the amount that is checked, what the send then debits, when
-- it does, whether nothing else refuses the send, and whether it throws all the same: `pay_keysend`
-- then puts nothing on record.
pub record Spending : Type 0 where
  pub id : ℕ
  pub wait : ℕ
  pub asked : ℤ
  pub amount : ℕ
  pub tip : ℕ
  pub fee : ℕ
  pub ourfee : ℕ
  pub goes_through : Bool
  -- a keysend that throws although its debit stays
  pub throws : Bool

abbrev pub entry_of : Spending → ℕ → Entry
entry_of s now = record {
  id = s.id;
  created = now;
  amount = pos 0 -ℤ pos s.amount;
  tip = s.tip;
  fee = s.fee;
  ourfee = s.ourfee;
}

abbrev pub recorded : Spending → ℕ → List Entry → Spend → List Entry
recorded s now es (within _) = if s.goes_through && not s.throws then entry_of s now ∷ es else es
recorded s now es (exceeded _ _) = es

abbrev sent : Spending → ℕ → List Entry → Option ℕ → Option BudgetError → List Entry
sent s now es remaining (some _) = es
sent s now es remaining none = recorded s now es (
    assert_within_spend_limit (finite s.amount) (finite s.tip) (finite s.fee) (finite s.ourfee)
      remaining)

abbrev pub carried_out : Spending → ℕ → List Entry → Check → List Entry
carried_out s now es c = sent s now es c.remaining c.budget_error

-- What happens to an app: a spend at a time after the last, or the record of a payment is deleted
-- because the payment is reversed.
pub data Event : Type 0 where
  spends : Spending → Event
  reversed : ℕ → Event

abbrev pub without : ℕ → List Entry → List Entry
without id [] = []
without id (e ∷ es) = let rest = without id es in if e.id == id then rest else e ∷ rest

pub record Wallet : Type 0 where
  pub now : ℕ
  pub entries : List Entry

unfoldable pub happens : App → Event → Wallet → Wallet
unfolding check_budget
happens app (spends s) w =
    let now = w.now + s.wait in
    record {
      now = now;
      entries = carried_out s now w.entries (check_budget app now w.entries s.asked);
    }
happens app (reversed id) w = record w { entries = without id w.entries }

unfoldable pub run : App → List Event → Wallet → Wallet
unfolding happens
run app [] w = w
run app (v ∷ vs) w = run app vs (happens app v w)
