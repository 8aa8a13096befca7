-- ===== src/Limits/Allowance.antt =====
-- lib/spend-budget.ts: the allowance that a caller, such as an app with a budget, may spend.
use coinos_server.Base.{
  ℕ, ◌+◌, ◌-◌, refl, ◌∙◌, ◌≡◌, Option, none, some, List, [], ◌∷◌, ltb, if◌then◌else◌, arith,
}

-- A value that `Number` turns into a finite number, or one that it does not.
pub data Unknown : Type 0 where
  finite : ℕ → Unknown
  not_finite : Unknown

abbrev pub number : Unknown → ℕ
number (finite n) = n
number not_finite = 0

unfoldable pub debit_total : Unknown → Unknown → Unknown → Unknown → ℕ
debit_total amount tip fee ourfee = number amount + number tip + number fee + number ourfee

pub data Spend : Type 0 where
  within : ℕ → Spend
  -- "Budget exceeded: … of … remaining"
  exceeded : ℕ → ℕ → Spend

abbrev bounded : Option ℕ → ℕ → Spend
bounded none total = within total
bounded (some max_total) total =
    if ltb max_total total then exceeded total max_total else within total

unfoldable pub assert_within_spend_limit : Unknown → Unknown → Unknown → Unknown → Option ℕ → Spend
unfolding debit_total
assert_within_spend_limit amount tip fee ourfee max_total =
    bounded max_total (debit_total amount tip fee ourfee)

-- Successive spends of one allowance, each against what the earlier ones left: what is left, and
-- the sum of what was let through.
pub record Left : Type 0 where
  pub remaining : ℕ
  pub spent : ℕ

abbrev pub spend : Spend → Left → Left
spend (within total) l = record { remaining = l.remaining - total; spent = l.spent + total }
spend (exceeded _ _) l = l

pub spend_all : List (Unknown × Unknown × Unknown × Unknown) → Left → Left
spend_all [] l = l
spend_all ((amount, tip, fee, ourfee) ∷ rest) l =
    spend_all rest (spend (assert_within_spend_limit amount tip fee ourfee (some l.remaining)) l)

spend-conserves :
    (amount tip fee ourfee : Unknown) (l : Left)
    → let l' = spend (assert_within_spend_limit amount tip fee ourfee (some l.remaining)) l in
      l'.spent + l'.remaining ≡ l.spent + l.remaining
unfolding assert_within_spend_limit
spend-conserves amount tip fee ourfee l = ground arith

-- However an allowance is spent, what was let through and what is left add up to it, so that it is
-- never exceeded.
pub spend_all-conserves :
    (ss : List (Unknown × Unknown × Unknown × Unknown)) (l : Left)
    → (spend_all ss l).spent + (spend_all ss l).remaining ≡ l.spent + l.remaining
unfolding spend_all
spend_all-conserves [] l = refl
spend_all-conserves ((amount, tip, fee, ourfee) ∷ rest) l =
    spend_all-conserves rest _ ∙ spend-conserves amount tip fee ourfee l
