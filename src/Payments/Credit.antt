-- ===== src/Payments/Credit.antt =====
-- lib/payments.ts, lines 588 to 796: `credit`, every incoming payment's way to the ledger, and
-- `sendInternal`. The invoice is the one that the first read found. The copies in the archive, the
-- receipt, and what `completePayment` does afterwards, notices and forwarding, are left out.
pub mod Claims
pub mod Kept
pub mod Amounts
pub mod Internal
mod Tests
use mathlib.Core.Option
use coinos_server.Base.{
  ℕ, ◌+◌, ◌-◌, Bool, true, false, not, ◌&&◌, ◌||◌, Option, none, some, List, ◌∷◌, ltb, leb, ◌==◌,
  if◌then◌else◌, ℤ, pos, pos_part, ltb_ℤ, leb_ℤ,
}
use coinos_server.Ledger.Ids.{PaymentType}
use coinos_server.Ledger.Client.{Client}
use coinos_server.Ledger.Debit.{Tb}
use coinos_server.Ledger.Operations.{
  Rate, CreditArgs, CreditResult, credited, credit_failed, tb_credit,
}
use coinos_server.Limits.Breaker.{Limits}
use coinos_server.Payments.Store.{Payment, Invoice, World, Failure, Result, fails, returns, set_at}
use coinos_server.Payments.Debit.{
  is_internal, is_bolt12, in_flight, credit_type, Fees, Facts, Request, debit,
}

-- The world, and the keys that only incoming payments use.
pub record Desk (Db : Type 0) : Type 0 where
  pub world : World Db
  -- the invoice's id for a hash, and `invoice:<id>`
  pub invoice_id : ℕ → Option ℕ
  pub invoice : ℕ → Option Invoice
  -- `lock:credit:<hash>`
  pub lock : ℕ → Bool
  -- `credited:<ref>`
  pub credited : ℕ → Bool
  pub missing : List ℕ

pub record Receipt : Type 0 where
  pub hash : ℕ
  -- `Number.parseInt(amount) || 0`
  pub amount : ℤ
  -- 0 is the empty text
  pub ref : ℕ
  pub type : PaymentType
  pub aid : Option ℕ
  -- `none` if no tip is passed
  pub tip : Option ℤ

-- What the call reads besides: the offer that a bolt12 invoice is of, the merchant's preimage,
-- whether the receiver exists, the fee rate and the flag for its credit, and a new uuid.
pub record Reads : Type 0 where
  pub offer : Option ℕ
  pub stored_preimage : Option ℕ
  pub user_exists : Bool
  pub fee_rate : Option Rate
  pub no_free : Bool
  pub new_id : ℕ

-- How a call ends: the first two and `duplicate` return nothing, the next three and the last but
-- one throw.
pub data End : Type 0 where
  no_invoice : End
  no_user : End
  duplicate : End
  being_processed : End
  already_received : End
  invalid_amount : End
  ledger_failed : End
  done : Payment → End

abbrev pub on_chain : PaymentType → Bool
on_chain PaymentType.bitcoin = true
on_chain PaymentType.liquid = true
on_chain _ = false

abbrev pub lookup_id : (ℕ → Option Invoice) → Option ℕ → Option Invoice
lookup_id invoice none = none
lookup_id invoice (some n) = invoice n

-- `getInvoice`
abbrev pub get_invoice : {Db : Type 0} → Desk Db → ℕ → Option Invoice
get_invoice d hash = lookup_id d.invoice (d.invoice_id hash)

abbrev offered : {Db : Type 0} → Desk Db → Option ℕ → Option Invoice
offered d none = none
offered d (some offer) = get_invoice d offer

abbrev pub find : {Db : Type 0} → Option Invoice → Bool → Option ℕ → Desk Db → Option Invoice
find (some i) _ _ d = some i
find none true offer d = offered d offer
find none false offer d = none

abbrev has_hash : Option ℕ → Bool
has_hash none = false
has_hash (some _) = true

-- The preimage that an invoice of a merchant keeps stands for the settlement once it is fully paid.
unfoldable pub settlement_ref : Reads → Receipt → Invoice → ℕ
settlement_ref f r i =
    if has_hash i.payment_hash
      && not (on_chain r.type)
      && leb_ℤ (pos i.amount) (pos (i.received + pos_part r.amount))
    then Option.get_or f.stored_preimage r.ref
    else r.ref

-- The tip, before and after it is held to the amount.
abbrev pub tip_given : Receipt → Invoice → ℤ
tip_given r i = elim r.tip [ none ↦ Option.get_or i.tip (pos 0) | some t ↦ t ]

abbrev pub tip_kept : Receipt → Invoice → ℕ
tip_kept r i =
    if not (is_internal r.type) && ltb_ℤ r.amount (tip_given r i)
    then pos_part r.amount
    else pos_part (tip_given r i)

-- What the ledger is asked to credit.
abbrev pub credited_amount : Receipt → Invoice → ℕ
credited_amount r i =
    if is_internal r.type then pos_part r.amount + tip_kept r i else pos_part r.amount

abbrev pub owner_account : Receipt → Invoice → ℕ
owner_account r i = Option.get_or r.aid i.uid

unfoldable pub receipt_payment : Reads → Receipt → Invoice → Payment
unfolding settlement_ref
receipt_payment f r i = record {
  id = f.new_id;
  aid = owner_account r i;
  uid = i.uid;
  hash = r.hash;
  amount = pos (credited_amount r i - tip_kept r i);
  fee = 0;
  ourfee = pos 0;
  tip = tip_kept r i;
  type = r.type;
  confirmed = not (on_chain r.type);
  ref = some (settlement_ref f r i);
}

abbrev pub received_invoice : Receipt → Invoice → Invoice
received_invoice r i =
    if on_chain r.type
    then record i { pending = i.pending + credited_amount r i }
    else record i { received = i.received + credited_amount r i }

-- Only Lightning settlements with a reference claim it.
abbrev pub claims_ref : Receipt → ℕ → Bool
claims_ref r ref = in_flight r.type && not (ref == 0)

module _ {Db : Type 0} (c : Client Db) (f : Reads) (r : Receipt) where
  abbrev pub credit_args : Invoice → CreditArgs
  credit_args i = record {
    aid = owner_account r i;
    uid = i.uid;
    credit_type = credit_type r.type;
    amount = credited_amount r i;
    is_pending = on_chain r.type;
    fee_rate = f.fee_rate;
    flagged = f.no_free;
  }

  -- Writing the record, the invoice and the list of payments.
  unfoldable pub keep_payment : Invoice → Payment → Desk Db → Desk Db
  keep_payment i p d = record d {
    invoice = set_at i.id (some (received_invoice r i)) d.invoice;
    world = record d.world {
      payment = set_at p.id (some p) d.world.payment;
      payments_of = set_at p.aid (p.id ∷ d.world.payments_of p.aid) d.world.payments_of;
    };
  }

  abbrev pub ledger_credit : Invoice → Payment → Desk Db → CreditResult × Tb Db → End × Desk Db
  ledger_credit i p d (credit_failed, s) =
      (ledger_failed, record d { world = record d.world { tb = s } })
  ledger_credit i p d (credited, s) =
      (done p, keep_payment i p (record d { world = record d.world { tb = s } }))

  -- From the claim of the settlement on; `p` has its reference.
  unfoldable pub claim_and_credit : Invoice → ℕ → Payment → Desk Db → End × Desk Db
  unfolding keep_payment
  claim_and_credit i ref p d =
      if claims_ref r ref && d.credited ref
      then (duplicate, d)
      else ledger_credit i p
          (if claims_ref r ref then record d { credited = set_at ref true d.credited } else d)
          (tb_credit c (credit_args i) d.world.tb)

  -- The pointer from the hash is written before the claim.
  abbrev pub point : Payment → Desk Db → Desk Db
  point p d = if on_chain r.type then d else record d {
    world = record d.world { payment_of_hash = set_at r.hash (some p.id) d.world.payment_of_hash };
  }

  -- What the lock is held for.
  unfoldable pub locked_credit : Invoice → Desk Db → End × Desk Db
  unfolding claim_and_credit settlement_ref receipt_payment
  locked_credit i d =
      if leb_ℤ r.amount (pos i.received) && not (is_bolt12 i.type)
      then (already_received, d)
      else if ltb_ℤ r.amount (pos 0) || ltb_ℤ (tip_given r i) (pos 0)
      then (invalid_amount, d)
      else if not f.user_exists
      then (no_user, record d { missing = settlement_ref f r i ∷ d.missing })
      else claim_and_credit i (settlement_ref f r i) (receipt_payment f r i)
          (point (receipt_payment f r i) d)

  abbrev pub unlock : End × Desk Db → End × Desk Db
  unlock (e, d) = (e, record d { lock = set_at r.hash false d.lock })

  unfoldable pub with_invoice : Option Invoice → Desk Db → End × Desk Db
  unfolding locked_credit
  with_invoice none d = (no_invoice, record d { missing = r.ref ∷ d.missing })
  with_invoice (some i) d =
      if d.lock r.hash
      then (being_processed, d)
      else unlock (locked_credit i (record d { lock = set_at r.hash true d.lock }))

  abbrev pub invoice_found : Desk Db → Option Invoice
  invoice_found d = find (get_invoice d r.hash) (is_bolt12 r.type) f.offer d

  unfoldable pub credit : Desk Db → End × Desk Db
  unfolding with_invoice
  credit d = with_invoice (invoice_found d) d

-- How `sendInternal` ends: the debit failed, or it is done and the credit ended some way.
pub data Sent : Type 0 where
  debit_failed : Failure → Sent
  sent : Payment → End → Sent

-- The debit of an internal send.
abbrev pub internal_request : ℕ → ℕ → ℤ → Option ℕ → Request
internal_request sender hash amount max_total = record {
  aid = none;
  uid = sender;
  hash = hash;
  amount = amount;
  fee = 0;
  type = PaymentType.internal;
  ourfee_override = none;
  credit_type_override = none;
  max_total = max_total;
}

abbrev pub internal_receipt : ℕ → ℕ → ℤ → ℕ → Receipt
internal_receipt sender hash amount tip = record {
  hash = hash;
  amount = amount;
  ref = sender;
  type = PaymentType.internal;
  aid = none;
  tip = some (pos tip);
}

module _ {Db : Type 0} (c : Client Db) (l : Limits) (fees : Fees) (df : Facts) (f : Reads) where
  abbrev pub credit_after : ℕ → ℕ → ℤ → Desk Db → Result Payment × World Db → Sent × Desk Db
  credit_after sender hash amount d (fails x, w) = (debit_failed x, record d { world = w })
  credit_after sender hash amount d (returns p, w) =
      let (e, d') =
        credit c f (internal_receipt sender hash amount p.tip) (record d { world = w }) in
      (sent p e, d')

  -- The sender's debit, and then the receiver's credit with the tip that was debited.
  unfoldable pub send_internal : ℕ → ℕ → ℤ → Option ℕ → Desk Db → Sent × Desk Db
  send_internal sender hash amount max_total d = credit_after sender hash amount d (
      debit c l fees (record df { invoice = get_invoice d hash })
        (internal_request sender hash amount max_total) d.world)
