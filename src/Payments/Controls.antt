-- ===== src/Payments/Controls.antt =====
-- lib/payments.ts, lines 62 to 79 and 2655 to 2719: the controls on fund withdrawals, and the limits
-- of the kinds of payment, which `freezeCheck` refreshes from the wallets' balances and `debit` takes
-- from.
use coinos_server.Base.{
  ℕ, ◌+◌, ◌-◌, ◌≤◌, ◌≡◌, refl, ap, ◌∙◌, Bool, true, false, ◌||◌, Option, none, some, List, [], ◌∷◌,
  if◌then◌else◌, ℤ, pos, pos_part, ◌-ℤ◌, ltb, arith, inl, inr, Bool-cases,
}
use coinos_server.Ledger.Ids.{PaymentType}
use coinos_server.Limits.Breaker.{Limits, Dir, Verdict, allowed, disabled, assert_withdraw_breaker}
use coinos_server.Payments.Store.{World, Result, fails, returns}
use coinos_server.Payments.Debit.{Request, is_internal, is_withdraw_locked, set_limit, reserve}

-- What `assertFundWithdrawable` reads besides the lock files and the breaker.
pub record FundFlags : Type 0 where
  pub all_disabled : Bool
  pub this_disabled : Bool
  pub hard_freeze : Bool
  pub freeze : Bool

pub data FundVerdict : Type 0 where
  withdrawable : FundVerdict
  transfers_disabled : FundVerdict
  fund_disabled : FundVerdict
  frozen : FundVerdict
  locked : FundVerdict
  stopped : FundVerdict

-- `Math.max(balance - threshold, 0)`
abbrev pub above : ℤ → ℤ → ℤ
above balance threshold = pos (pos_part (balance -ℤ threshold))

abbrev pub refreshed : Option ℤ → ℤ → Option ℤ → Option ℤ
refreshed none threshold old = old
refreshed (some balance) threshold old = some (above balance threshold)

-- The limits after one round; `none` is a wallet that could not be read.
abbrev pub refresh_limit :
    Option ℤ × ℤ → Option ℤ × ℤ → Option ℤ × ℤ → (PaymentType → Option ℤ) → PaymentType → Option ℤ
refresh_limit ln bc lq old PaymentType.lightning = refreshed ln.0 ln.1 (old PaymentType.lightning)
refresh_limit ln bc lq old PaymentType.fund = refreshed ln.0 ln.1 (old PaymentType.fund)
refresh_limit ln bc lq old PaymentType.ecash = refreshed ln.0 ln.1 (old PaymentType.ecash)
refresh_limit ln bc lq old PaymentType.bolt12 = refreshed ln.0 ln.1 (old PaymentType.bolt12)
refresh_limit ln bc lq old PaymentType.bitcoin = refreshed bc.0 bc.1 (old PaymentType.bitcoin)
refresh_limit ln bc lq old PaymentType.liquid = refreshed lq.0 lq.1 (old PaymentType.liquid)
refresh_limit ln bc lq old t = old t

abbrev amount_if : ℕ → Result (Unit {0}) → ℕ
amount_if n (returns _) = n
amount_if n (fails _) = 0

diff-fits : (m n : ℕ) → ltb m n ≡ false → pos m -ℤ pos n ≡ pos (m - n)
unfolding ◌-ℤ◌
diff-fits m n h = ground arith

plain : (n : ℕ) → n + 0 ≡ n
plain n = omega arith

set_limit-same :
    (t : PaymentType) (v : Option ℤ) (f : PaymentType → Option ℤ) → set_limit t v f t ≡ v
set_limit-same t v f = ground arith

module _ {Db : Type 0} where
  abbrev breaker_verdict : World Db → Verdict × Dir → FundVerdict × World Db
  breaker_verdict w (allowed, d) = (withdrawable, record w { dir = d })
  breaker_verdict w (disabled, d) = (stopped, record w { dir = d })

  unfoldable pub assert_fund_withdrawable :
      Limits → ℕ → FundFlags → ℕ → World Db → FundVerdict × World Db
  assert_fund_withdrawable l now f amount w =
      if f.all_disabled
      then (transfers_disabled, w)
      else if f.this_disabled
      then (fund_disabled, w)
      else if f.hard_freeze || f.freeze
      then (frozen, w)
      else if is_withdraw_locked PaymentType.lightning w
      then (locked, w)
      else breaker_verdict w (assert_withdraw_breaker l now amount w.dir)

  unfoldable pub freeze_check : Option ℤ × ℤ → Option ℤ × ℤ → Option ℤ × ℤ → World Db → World Db
  freeze_check ln bc lq w = record w { limit = refresh_limit ln bc lq w.limit }

  -- Reservations for payments of one kind, one after the other: the sum of those that succeed.
  pub reserved : Request → List ℕ → World Db → ℕ
  reserved r [] w = 0
  reserved r (n ∷ ns) w =
      let x = reserve (record r { amount = pos n }) w in amount_if n x.0 + reserved r ns x.1

  reserve-cases :
      (r : Request) (n : ℕ) (w : World Db) (m : ℕ)
      → is_internal r.type ≡ false
      → w.limit r.type ≡ some (pos m)
      → (k : ℕ) × ((reserve (record r { amount = pos n }) w).1.limit r.type ≡ some (pos k))
        × (amount_if n (reserve (record r { amount = pos n }) w).0 + k ≡ m)
  unfolding reserve
  reserve-cases r n w m e l = elim (Bool-cases (ltb m n)) [
    | inl over ↦ simp (e, l, plain m, plain n, over) (m, refl, omega arith)
    | inr fits ↦
        simp (e, l, plain m, plain n, fits)
          (m - n, set_limit-same r.type _ w.limit ∙ ap some (diff-fits m n fits), ground arith)
  ]

  -- Payments of one kind that are reserved between two refreshes of its limit never add up to more
  -- than the limit was.
  pub reserved-le :
      (r : Request) (ns : List ℕ) (w : World Db) (m : ℕ)
      → is_internal r.type ≡ false
      → w.limit r.type ≡ some (pos m)
      → reserved r ns w ≤ m
  unfolding reserved
  reserved-le r [] w m e l = omega arith
  reserved-le r (n ∷ ns) w m e l =
      let (k, l', s) = reserve-cases r n w m e l in
      omega (arith, s, reserved-le r ns (reserve (record r { amount = pos n }) w).1 k e l')

  -- After a round of `freezeCheck` that could read the Lightning wallet, the Lightning payments that
  -- are reserved until the next round add up to at most what the wallet had above the threshold, and
  -- to nothing when that is negative; the ledger is not touched.
  pub freeze_check-reserved :
      (r : Request) (ns : List ℕ) (balance threshold : ℤ) (bc lq : Option ℤ × ℤ) (w : World Db)
      → r.type ≡ PaymentType.lightning
      → (reserved r ns (freeze_check (some balance, threshold) bc lq w)
          ≤ pos_part (balance -ℤ threshold))
        × ((freeze_check (some balance, threshold) bc lq w).tb ≡ w.tb)
  unfolding freeze_check
  freeze_check-reserved r ns balance threshold bc lq w e = (
    reserved-le r ns _ (pos_part (balance -ℤ threshold)) (ap is_internal e)
        (ap (λ t. (freeze_check (some balance, threshold) bc lq w).limit t) e),
    refl,
  )

  -- A fund pays out over Lightning only if neither it nor all funds are disabled, no freeze is on, no
  -- lock file for Lightning or for all exists, and the breaker allows the amount.
  pub assert_fund_withdrawable-controls :
      (l : Limits) (now : ℕ) (f : FundFlags) (amount : ℕ) (w : World Db)
      → (assert_fund_withdrawable l now f amount w).0 ≡ withdrawable
      → (f.all_disabled || f.this_disabled || f.hard_freeze || f.freeze ≡ false)
        × (is_withdraw_locked PaymentType.lightning w ≡ false)
        × ((assert_withdraw_breaker l now amount w.dir).0 ≡ allowed)
        × ((assert_fund_withdrawable l now f amount w).1.tb ≡ w.tb)
  unfolding assert_fund_withdrawable
  assert_fund_withdrawable-controls l now f amount w h =
      go f.all_disabled f.this_disabled f.hard_freeze f.freeze
        (is_withdraw_locked PaymentType.lightning w) (assert_withdraw_breaker l now amount w.dir) h
    where
      chain : Bool → Bool → Bool → Bool → Bool → Verdict × Dir → FundVerdict × World Db
      chain a b y z k x =
          if a
          then (transfers_disabled, w)
          else if b
          then (fund_disabled, w)
          else if y || z
          then (frozen, w)
          else if k
          then (locked, w)
          else breaker_verdict w x

      go :
          (a b y z k : Bool) (x : Verdict × Dir)
          → (chain a b y z k x).0 ≡ withdrawable
          → (a || b || y || z ≡ false)
            × (k ≡ false)
            × (x.0 ≡ allowed)
            × ((chain a b y z k x).1.tb ≡ w.tb)
      go false false false false false (allowed, d) e = (refl, refl, refl, refl)
      go false false false false false (disabled, d) e = cc
      go false false false false true x e = cc
      go false false false true k x e = cc
      go false false true z k x e = cc
      go false true y z k x e = cc
      go true b y z k x e = cc
