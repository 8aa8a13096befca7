-- ===== src/Payments/Settle.antt =====
-- lib/payments.ts, lines 2474 to 2653: how a Lightning payment ends, by `finalize` or `reverse`.
-- The state is that of one payment: its record, its entry in `pending`, its two claims, and the
-- ledger. `reverse` awaits between its parts, and other calls run there: the parts are functions
-- of their own. Events, receipts and logs are left out.
pub mod Once
pub mod Amounts
pub mod Steps
use mathlib.Core.Option
use coinos_server.Base.{
  ℕ, ◌+◌, ◌*◌, ◌-◌, ◌/◌, Bool, true, false, ◌||◌, Option, none, some, if◌then◌else◌, ℤ, pos,
  pos_part, neg_part, ◌-ℤ◌,
}
use coinos_server.Ledger.Client.{Client}
use coinos_server.Ledger.Debit.{Tb}
use coinos_server.Ledger.Operations.{Rate, round_mul, tb_reverse, tb_refund}
use coinos_server.Payments.Store.{Payment}
use coinos_server.Payments.Debit.{Fees}

pub record Book (Db : Type 0) : Type 0 where
  pub tb : Tb Db
  -- `payment:<id>`
  pub record_of : Option Payment
  pub pending : Bool
  -- `reversing:<id>` and `refunded:<id>`
  pub reversing : Bool
  pub refunded : Bool

-- How a call of `reverse` ends.
pub data Reversal : Type 0 where
  -- another call has the claim
  skipped : Reversal
  -- "Payment has already been reversed", thrown
  already_reversed : Reversal
  -- the stored record is settled
  declined : Reversal
  reversed : Reversal

pub data Final : Type 0 where
  missing_preimage : Final
  -- "reversed-then-completed (double-pay leak)"
  reversed_then_completed : Final
  finalized : Final

-- |amount|, for amounts that are negative or zero as those of sent payments are
abbrev pub abs : ℤ → ℕ
abs z = pos_part z + neg_part z

abbrev pub total_of : Payment → ℕ
total_of p = abs p.amount + p.fee + pos_part p.ourfee

-- The credit that is given back: that of the rate now, less what was paid as a fee.
unfoldable pub credit_of : Fees → Bool → Payment → ℤ
credit_of fees flagged p =
    pos (round_mul (total_of p) (if flagged then fees.lightning_high else fees.lightning))
    -ℤ p.ourfee

-- `stored.ref || stored.confirmed`
abbrev settled_by : Option ℕ → Bool → Bool
settled_by none confirmed = confirmed
settled_by (some _) confirmed = true

abbrev pub is_settled : Payment → Bool
is_settled p = settled_by p.ref p.confirmed

module _ {Db : Type 0} (c : Client Db) (fees : Fees) (flagged : Bool) (p : Payment) where
  unfoldable pub claim : Book Db → Book Db
  claim b = record b { reversing = true }

  unfoldable pub release : Book Db → Book Db
  release b = record b { reversing = false }

  unfoldable pub pay_back : Book Db → Book Db
  pay_back b = record b { tb = tb_reverse c p.uid (total_of p) (credit_of fees flagged p) b.tb }

  unfoldable pub clean : Book Db → Book Db
  clean b = record b { record_of = none; pending = false }

  unfoldable pub reverse_record : Option Payment → Book Db → Reversal × Book Db
  unfolding release pay_back clean
  reverse_record none b = (already_reversed, release b)
  reverse_record (some stored) b =
      if is_settled stored then (declined, b) else (reversed, clean (pay_back b))

  -- The whole call when nothing runs in between.
  unfoldable pub reverse : Book Db → Reversal × Book Db
  unfolding claim reverse_record
  reverse b = if b.reversing then (skipped, b) else reverse_record b.record_of (claim b)

-- What `finalize` is told: the preimage once it has been looked up and converted, what was sent, and
-- the amount of the decoded invoice, `none` when it has none or cannot be decoded.
pub record Receipt : Type 0 where
  pub preimage : Option ℕ
  pub amount_sent_msat : Option ℕ
  pub invoice_msat : Option ℕ

-- `Math.max(0, Math.round((sent - invoice) / 1000))`, or the reserve if what was sent is not known
abbrev fee_of : Option ℕ → ℕ → ℕ → ℕ
fee_of none invoice_msat reserve = reserve
fee_of (some sent_msat) invoice_msat reserve = (sent_msat - invoice_msat + 500) / 1000

unfoldable pub actual_fee : Receipt → Payment → ℕ
actual_fee r p =
    fee_of r.amount_sent_msat (Option.get_or r.invoice_msat (abs p.amount * 1000)) p.fee

abbrev pub finalized_record : Receipt → ℕ → Payment → Payment
finalized_record r preimage p = record p {
  fee = actual_fee r p;
  confirmed = true;
  ref = some preimage;
}

-- The record with the preimage replaces one that has no `ref`.
abbrev keep : Option ℕ → Payment → Payment → Payment
keep none stored final = final
keep (some _) stored final = stored

abbrev pub kept_record : Payment → Payment → Payment
kept_record stored final = keep stored.ref stored final

module _ {Db : Type 0} (c : Client Db) where
  unfoldable pub refund : Receipt → Payment → Book Db → Book Db
  refund r p b = if b.refunded then b else record b {
    refunded = true;
    tb = tb_refund c p.uid (pos p.fee -ℤ pos (actual_fee r p)) b.tb;
  }

  unfoldable pub finalize_record :
      Receipt → Payment → Book Db → Option ℕ → Option Payment → Final × Book Db
  unfolding refund
  finalize_record r p b none stored = (missing_preimage, b)
  finalize_record r p b (some preimage) none =
      (reversed_then_completed, record b { pending = false })
  finalize_record r p b (some preimage) (some stored) = (
    finalized,
    refund r p (record b {
      pending = false;
      record_of = some (kept_record stored (finalized_record r preimage p));
    }),
  )

  unfoldable pub finalize : Receipt → Payment → Book Db → Final × Book Db
  unfolding finalize_record
  finalize r p b = finalize_record r p b r.preimage b.record_of
