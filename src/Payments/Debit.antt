-- ===== src/Payments/Debit.antt =====
-- lib/payments.ts, lines 38 to 42 and 323 to 586: `debit`, every outgoing payment's way to the
-- ledger. Nothing else runs in between; what overlapping calls can do to the ledger and to the
-- breaker is in Ledger and Limits. The exchange rates and texts of the record are left out. The
-- blacklist freezes the balance that it reads; a negative balance, which the ledger rules out,
-- would freeze nothing here.
pub mod Steps
pub mod Results
pub mod Refusals
use mathlib.Core.Option
use coinos_server.Base.{
  ℕ, ◌+◌, ◌≡◌, Bool, true, false, not, ◌&&◌, ◌||◌, Option, none, some, List, [], ◌∷◌, leb, ltb,
  ◌==◌, if◌then◌else◌, ℤ, pos, pos_part, ◌-ℤ◌, neg, ltb_ℤ, leb_ℤ,
}
use coinos_server.Ledger.Ids.{PaymentType}
use coinos_server.Ledger.Client.{Client}
use coinos_server.Ledger.Debit.{Tb, DebitArgs, DebitResult, debited, refused, get_balance, tb_debit}
use coinos_server.Ledger.Operations.{Rate, round_mul}
use coinos_server.Limits.Breaker.{
  Limits, Dir, Verdict, allowed, disabled, assert_withdraw_breaker, record_withdrawal,
}
use coinos_server.Limits.Allowance.{Spend, within, exceeded, finite, assert_within_spend_limit}
use coinos_server.Payments.Store.{
  Payment, Invoice, World, Failure, Result, fails, returns, bind, set_at, address_blocked,
  withdrawals_locked, payments_disabled, over_limit, limit_exhausted, already_paid, invalid_tip,
  no_amount, budget_exceeded, breaker_tripped, insufficient_funds,
}

pub record Request : Type 0 where
  pub aid : Option ℕ
  pub uid : ℕ
  pub hash : ℕ
  pub amount : ℤ
  pub fee : ℕ
  pub type : PaymentType
  pub ourfee_override : Option ℕ
  pub credit_type_override : Option PaymentType
  pub max_total : Option ℕ

-- `config.fee`
pub record Fees : Type 0 where
  pub bitcoin : Rate
  pub liquid : Rate
  pub lightning : Rate
  pub lightning_high : Rate

-- What the call reads besides the world: sets and flags of the database, the clock and a new uuid.
pub record Facts : Type 0 where
  pub whitelisted : Bool
  pub blacklisted : Bool
  pub blocked : Bool
  pub hard_freeze : Bool
  pub freeze : Bool
  -- the key `limit`
  pub user_limit : Option ℤ
  pub invoice : Option Invoice
  -- `ln:nofree:<uid>`
  pub no_free : Bool
  pub now : ℕ
  pub new_id : ℕ

abbrev pub is_internal : PaymentType → Bool
is_internal PaymentType.internal = true
is_internal _ = false

abbrev pub is_fund : PaymentType → Bool
is_fund PaymentType.fund = true
is_fund _ = false

abbrev pub is_bolt12 : PaymentType → Bool
is_bolt12 PaymentType.bolt12 = true
is_bolt12 _ = false

-- Sends that are in flight until the preimage arrives.
abbrev pub in_flight : PaymentType → Bool
in_flight PaymentType.lightning = true
in_flight PaymentType.bolt12 = true
in_flight _ = false

abbrev pub account : Request → ℕ
account r = Option.get_or r.aid r.uid

-- Whether a limit is set and below the amount.
abbrev pub exceeds : ℤ → Option ℤ → Bool
exceeds amount none = false
exceeds amount (some limit) = ltb_ℤ limit amount

unfoldable pub is_withdraw_locked : {Db : Type 0} → PaymentType → World Db → Bool
is_withdraw_locked type w = w.dir.locked || w.type_locked type

-- The checks up to the reservation.
unfoldable pub gate : {Db : Type 0} → Facts → Request → World Db → Option Failure
unfolding is_withdraw_locked
gate f r w =
    if not (is_internal r.type) && is_withdraw_locked r.type w
    then some withdrawals_locked
    else if (f.hard_freeze || (f.freeze && not (is_internal r.type))) && not f.whitelisted
    then some payments_disabled
    else if (exceeds r.amount f.user_limit && not f.whitelisted)
        || (not (is_fund r.type || is_internal r.type) && exceeds r.amount (w.limit r.type))
    then some over_limit
    else none

abbrev pub set_limit : PaymentType → Option ℤ → (PaymentType → Option ℤ) → PaymentType → Option ℤ
set_limit PaymentType.ark v f PaymentType.ark = v
set_limit PaymentType.internal v f PaymentType.internal = v
set_limit PaymentType.bitcoin v f PaymentType.bitcoin = v
set_limit PaymentType.lightning v f PaymentType.lightning = v
set_limit PaymentType.fund v f PaymentType.fund = v
set_limit PaymentType.liquid v f PaymentType.liquid = v
set_limit PaymentType.ecash v f PaymentType.ecash = v
set_limit PaymentType.bolt12 v f PaymentType.bolt12 = v
set_limit _ v f t = f t

-- Under the lock of the type: check, and decrement at once.
unfoldable pub reserve : {Db : Type 0} → Request → World Db → Result (Unit {0}) × World Db
reserve r w =
    if is_internal r.type
    then (returns tt, w)
    else if ltb_ℤ (Option.get_or (w.limit r.type) (pos 0)) r.amount
    then (fails limit_exhausted, w)
    else (
      returns tt,
      record w {
        limit =
            set_limit r.type (some (Option.get_or (w.limit r.type) (pos 0) -ℤ r.amount)) w.limit;
      },
    )

-- The type whose credits pay the fee.
abbrev pub credit_type : PaymentType → PaymentType
credit_type PaymentType.bolt12 = PaymentType.lightning
credit_type t = t

unfoldable pub platform_fee : Fees → Facts → Request → ℕ → ℕ
platform_fee c f r total = by_type r.type
  where
    by_type : PaymentType → ℕ
    by_type PaymentType.bitcoin = round_mul total c.bitcoin
    by_type PaymentType.liquid = round_mul total c.liquid
    by_type PaymentType.lightning =
        if account r == r.uid && f.no_free
        then round_mul total c.lightning_high
        else round_mul total c.lightning
    by_type _ = 0

-- The tip: only of an internal payment, and none if it is zero or no number.
abbrev pub tip_of : Facts → Request → ℤ
tip_of f r =
    if is_internal r.type
    then elim f.invoice [ none ↦ pos 0 | some i ↦ Option.get_or i.tip (pos 0) ]
    else pos 0

abbrev paid : Request → Option Invoice → Bool
paid r none = false
paid r (some i) = leb_ℤ r.amount (pos i.received) && not (is_bolt12 i.type)

abbrev pub ourfee_of : Fees → Facts → Request → ℕ
ourfee_of c f r =
    if account r == r.uid
    then Option.get_or r.ourfee_override
        (platform_fee c f r (pos_part r.amount + r.fee + pos_part (tip_of f r)))
    else 0

abbrev within_allowance : Spend → Option Failure
within_allowance (within _) = none
within_allowance (exceeded total max_total) = some (budget_exceeded total max_total)

-- The checks from the invoice to the allowance.
unfoldable pub charge : Fees → Facts → Request → Option Failure
charge c f r =
    if paid r f.invoice
    then some already_paid
    else if ltb_ℤ (tip_of f r) (pos 0)
    then some invalid_tip
    else if leb_ℤ r.amount (pos 0)
    then some no_amount
    else within_allowance (
        assert_within_spend_limit (finite (pos_part r.amount)) (finite (pos_part (tip_of f r)))
          (finite r.fee) (finite (ourfee_of c f r)) r.max_total)

abbrev checked : {Db : Type 0} → Option Failure → World Db → Result (Unit {0}) × World Db
checked none w = (returns tt, w)
checked (some e) w = (fails e, w)

abbrev breaker_result : {Db : Type 0} → World Db → Verdict × Dir → Result (Unit {0}) × World Db
breaker_result w (allowed, d) = (returns tt, record w { dir = d })
breaker_result w (disabled, d) = (fails breaker_tripped, record w { dir = d })

unfoldable pub breaker :
    {Db : Type 0} → Limits → Facts → Request → World Db → Result (Unit {0}) × World Db
breaker l f r w =
    if is_internal r.type
    then (returns tt, w)
    else breaker_result w (assert_withdraw_breaker l f.now (pos_part r.amount) w.dir)

module _ {Db : Type 0} (c : Client Db) where
  -- What the ledger is asked for.
  unfoldable pub debit_args : Fees → Facts → Request → World Db → DebitArgs
  debit_args fees f r w = record {
    aid = account r;
    uid = r.uid;
    credit_type = Option.get_or r.credit_type_override (credit_type r.type);
    amount = pos_part r.amount;
    tip = pos_part (tip_of f r);
    fee = r.fee;
    ourfee = ourfee_of fees f r;
    frozen =
        if not f.blacklisted || f.whitelisted
        then 0
        else pos_part (get_balance c (account r) w.tb.db);
  }

  abbrev ledger_result : World Db → DebitResult × Tb Db → Result ℤ × World Db
  ledger_result w (debited fee, s) = (returns fee, record w { tb = s })
  ledger_result w (refused available need, s) =
      (fails (insufficient_funds available need), record w { tb = s })

  unfoldable pub ledger : Fees → Facts → Request → World Db → Result ℤ × World Db
  ledger fees f r w = ledger_result w (tb_debit c (debit_args fees f r w) w.tb)

  abbrev pub payment_of : Facts → Request → ℤ → Payment
  payment_of f r ourfee = record {
    id = f.new_id;
    aid = account r;
    uid = r.uid;
    hash = r.hash;
    amount = neg (pos_part r.amount);
    fee = r.fee;
    ourfee = ourfee;
    tip = pos_part (tip_of f r);
    type = r.type;
    confirmed = not (in_flight r.type);
    ref = Option.map (λ i. i.uid) f.invoice;
  }

  -- The breaker's record and the payment's.
  unfoldable pub store : Limits → Facts → Request → Payment → World Db → World Db
  store l f r p w = record w {
    dir = if is_internal r.type then w.dir else record_withdrawal l f.now (pos_part r.amount) w.dir;
    payment = set_at p.id (some p) w.payment;
    payment_of_hash = set_at r.hash (some p.id) w.payment_of_hash;
    payments_of = set_at p.aid (p.id ∷ w.payments_of p.aid) w.payments_of;
  }

  unfoldable pub debit : Limits → Fees → Facts → Request → World Db → Result Payment × World Db
  unfolding gate reserve charge breaker ledger store
  debit l fees f r w =
      if f.blocked
      then (fails address_blocked, record w { changed = r.uid ∷ w.changed })
      else bind (checked (gate f r w) w) (λ _ w. bind (reserve r w) (λ _ w.
        bind (checked (charge fees f r) w) (λ _ w. bind (breaker l f r w) (λ _ w.
          bind (ledger fees f r w) (λ ourfee w.
            (returns (payment_of f r ourfee), store l f r (payment_of f r ourfee) w))))))
