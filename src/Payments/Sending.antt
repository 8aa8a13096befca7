-- ===== src/Payments/Sending.antt =====
-- lib/payments.ts, lines 1380 to 1631: `sendKeysend` and `sendLightning`, from the arguments to the
-- debit and to what becomes of it. The nodes' answers are arguments. A call of a node that throws
-- before the debit ends the call before anything is written, and is left out, as are the texts of
-- the invoices, their spelling and the time that a payment is retried for.
pub mod Claims
pub mod Flights
pub mod Baseline
mod Tests
use mathlib.Core.Option
use coinos_server.Base.{
  ℕ, ◌+◌, ◌*◌, ◌-◌, ◌/◌, Bool, true, false, ◌&&◌, Option, none, some, List, [], ◌∷◌, if◌then◌else◌,
  ltb, ◌==◌, ℤ, pos, negsuc, drop, arith,
}
use coinos_server.Ledger.Ids.{PaymentType}
use coinos_server.Ledger.Client.{Client}
use coinos_server.Ledger.Operations.{round_mul}
use coinos_server.Limits.Breaker.{Limits}
use coinos_server.Payments.Store.{Payment, World, Failure, Result, fails, returns, set_at}
use coinos_server.Payments.Debit.{Request, Fees, Facts, debit}
use coinos_server.Payments.Route.{
  Status, Action, waits, finalizes, reverses, all_failed, some_complete, some_pending,
}

abbrev pub sats : ℕ
sats = 100_000_000

-- What `ln.decode` says of an invoice or an offer; an amount that is 0 is none at all.
pub record Decoded : Type 0 where
  -- "bolt12 offer"
  pub is_offer : Bool
  -- the type includes "bolt12"
  pub is_bolt12 : Bool
  pub offer_currency : Bool
  pub offer_amount_msat : ℕ
  pub invoice_amount_msat : ℕ
  pub amount_msat : ℕ
  pub invoice_node_id : ℕ
  pub payee : ℕ

pub record Nodes : Type 0 where
  pub decode : ℕ → Decoded
  -- the invoice for an offer, and the amount that is asked for
  pub fetchinvoice : ℕ → Option ℕ → ℕ
  -- whether a channel with the node is among `listpeerchannels`
  pub is_peer : ℕ → Bool
  pub listpays : ℕ → List Status

-- `amount` as it comes, and `Number.parseInt` of it.
pub data Amount : Type 0 where
  absent : Amount
  not_a_number : Amount
  number : ℤ → Amount

pub record Ask : Type 0 where
  pub uid : ℕ
  pub pr : ℕ
  pub amount : Amount
  -- `Number.parseInt(fee)`, `none` if it is no number
  pub fee : Option ℤ
  pub max_total : Option ℕ

pub data Refusal : Type 0 where
  invalid_amount : Refusal
  currency_offer : Refusal
  amount_required : Refusal
  negative_fee : Refusal
  invoice_paid : Refusal
  underway : Refusal
  still_settling : Refusal
  duplicate_keysend : Refusal
  not_debited : Failure → Refusal

pub data Answer (A : Type 0) : Type 0 where
  refuses : Refusal → Answer A
  gives : A → Answer A

abbrev pub then_ask : {A B : Type 0} → Answer A → (A → Answer B) → Answer B
then_ask (refuses r) k = refuses r
then_ask (gives a) k = k a

-- The amount, `none` if none is given.
unfoldable pub checked_amount : Amount → Answer (Option ℕ)
checked_amount absent = gives none
checked_amount not_a_number = refuses invalid_amount
checked_amount (number (pos n)) = if ltb sats n then refuses invalid_amount else gives (some n)
checked_amount (number (negsuc n)) = refuses invalid_amount

-- The invoice to pay: the one that is given, or one fetched for an offer.
unfoldable pub invoice_for : Nodes → Option ℕ → ℕ → Answer ℕ
invoice_for n amount pr =
    let d = n.decode pr in
    let given = Option.get_or amount 0 in
    if not_offer d
    then gives pr
    else if d.offer_currency
    then refuses currency_offer
    else if (d.offer_amount_msat == 0) && (given == 0)
    then refuses amount_required
    else gives (n.fetchinvoice pr (if d.offer_amount_msat == 0 then some (given * 1000) else none))
  where
    not_offer : Decoded → Bool
    not_offer d = if d.is_offer then false else true

abbrev pub amount_msat_of : Decoded → ℕ
amount_msat_of d = if d.is_bolt12 then d.invoice_amount_msat else d.amount_msat

abbrev pub payee_of : Decoded → ℕ
payee_of d = if d.is_bolt12 then d.invoice_node_id else d.payee

-- `Math.max(10, Math.round(amount * 0.005))`
abbrev pub min_fee : ℕ → ℕ
min_fee amount =
    let part = round_mul amount (record { num = 5; den = 1000 }) in if ltb 10 part then part else 10

-- The most that the network may take; `none` is NaN.
unfoldable pub fee_limit : Bool → Option ℕ → Option ℤ → Answer (Option ℕ)
fee_limit is_direct amount (some (pos f)) = gives (some f)
fee_limit is_direct amount (some (negsuc f)) = refuses negative_fee
fee_limit true amount none = gives (some 0)
fee_limit false none none = gives none
fee_limit false (some amount) none = gives (some (min_fee amount))

unfoldable pub unpaid : List Status → Answer (Unit {0})
unpaid pays =
    if some_complete pays
    then refuses invoice_paid
    else if some_pending pays
    then refuses underway
    else gives tt

-- What is debited: the invoice's own amount, or else the one that is given.
unfoldable pub charged : Decoded → Option ℕ → ℤ
charged d amount =
    if amount_msat_of d == 0
    then pos (Option.get_or amount 0)
    else pos ((amount_msat_of d + 500) / 1000)

-- `debit` takes a fee that is NaN for 0, and the platform's fee with it.
unfoldable pub debit_request : Ask → Nodes → ℕ → Option ℕ → Option ℕ → Request
debit_request a n pr amount fee = record {
  aid = none;
  uid = a.uid;
  hash = pr;
  amount = charged (n.decode pr) amount;
  fee = Option.get_or fee 0;
  type = PaymentType.lightning;
  ourfee_override = elim fee [ none ↦ some 0 | some _ ↦ none ];
  credit_type_override = none;
  max_total = a.max_total;
}

-- Everything before the claim: what `debit` will be asked for.
unfoldable pub prepare : Nodes → Ask → Answer Request
unfolding checked_amount invoice_for fee_limit unpaid debit_request
prepare n a = then_ask (checked_amount a.amount) (λ amount.
    then_ask (invoice_for n amount a.pr) (λ pr.
      then_ask (fee_limit (n.is_peer (payee_of (n.decode pr))) amount a.fee)
        (λ fee. then_ask (unpaid (n.listpays pr)) (λ _. gives (debit_request a n pr amount fee)))))

-- The database and the ledger, and the set `pending`.
pub record Site (Db : Type 0) : Type 0 where
  pub world : World Db
  pub pending : ℕ → Bool

module _ {Db : Type 0} (c : Client Db) (l : Limits) (fees : Fees) (f : Facts) where
  -- A debit that fails releases the claim.
  unfoldable pub settle_claim :
      ℕ → (ℕ → Bool) → Result Payment × World Db → Answer Payment × Site Db
  settle_claim pr pending (returns p, w) = (gives p, record { world = w; pending = pending })
  settle_claim pr pending (fails e, w) =
      (refuses (not_debited e), record { world = w; pending = set_at pr false pending })

  -- SADD of the invoice, and the debit if it was not in the set.
  unfoldable pub claim_and_debit : Request → Site Db → Answer Payment × Site Db
  unfolding settle_claim
  claim_and_debit r s =
      if s.pending r.hash
      then (refuses still_settling, s)
      else settle_claim r.hash (set_at r.hash true s.pending) (debit c l fees f r s.world)

  abbrev pub sent : Answer Request → Site Db → Answer Payment × Site Db
  sent (refuses e) s = (refuses e, s)
  sent (gives r) s = claim_and_debit r s

  unfoldable pub send_lightning : Nodes → Ask → Site Db → Answer Payment × Site Db
  send_lightning n a s = sent (prepare n a) s

-- `Math.max(Number.parseInt(fee || amount * 0.005), 5)`, for a fee that is a whole number
unfoldable pub keysend_fee : Option ℕ → ℕ → ℕ
keysend_fee fee amount =
    let given = Option.get_or fee 0 in
    let wanted = if given == 0 then amount / 200 else given in if ltb wanted 5 then 5 else wanted

-- What `sendKeysend` asks `debit` for; the event that asks for it is the hash and the label.
abbrev pub keysend_request : ℕ → ℕ → ℤ → ℕ → Option ℕ → Request
keysend_request uid hash amount fee max_total = record {
  aid = none;
  uid = uid;
  hash = hash;
  amount = amount;
  fee = fee;
  type = PaymentType.lightning;
  ourfee_override = none;
  credit_type_override = none;
  max_total = max_total;
}

module _ {Db : Type 0} (c : Client Db) (l : Limits) (fees : Fees) (f : Facts) where
  abbrev debited_keysend : Result Payment × World Db → Answer Payment × World Db
  debited_keysend (returns p, w) = (gives p, w)
  debited_keysend (fails e, w) = (refuses (not_debited e), w)

  -- Up to the debit.
  unfoldable pub start_keysend :
      ℕ → ℕ → ℕ → Option ℕ → Option ℕ → World Db → Answer Payment × World Db
  unfolding keysend_fee
  start_keysend uid hash amount fee max_total w = elim (w.payment_of_hash hash) [
    | some id ↦ (refuses duplicate_keysend, w)
    | none ↦ debited_keysend (
        debit c l fees f (keysend_request uid hash (pos amount) (keysend_fee fee amount) max_total)
          w)
  ]

-- A record of `listsendpays`.
pub record Sendpay : Type 0 where
  -- its number, counted from the first
  pub created : ℕ
  pub label : ℕ
  pub status : Status

abbrev pub labelled : ℕ → List Sendpay → List Status
labelled hash [] = []
labelled hash (x ∷ xs) = if x.label == hash then x.status ∷ labelled hash xs else labelled hash xs

-- How a keysend that threw is resolved: the index of the last sendpay when it began, and the
-- sendpays from that index on; `none` is a call that throws.
unfoldable pub keysend_outcome : ℕ → Option ℕ → Option (List Sendpay) → Action
keysend_outcome hash none payments = waits
keysend_outcome hash (some start) none = waits
keysend_outcome hash (some start) (some payments) =
    let ours = labelled hash payments in
    if some_complete ours then waits else if all_failed ours then reverses else waits

-- `outLn.keysend`: whether the call returns, of the first node's answer, whether there is a second
-- node, and that one's.
abbrev pub out_keysend : Bool → Bool → Bool → Bool
out_keysend true has_lnd second = true
out_keysend false has_lnd second = has_lnd && second

-- What becomes of the debit of a keysend: its label, the answers of the nodes, the index that was
-- read at the start, and what `listsendpays` answers from an index on.
unfoldable pub keysend : ℕ → Bool → Bool → Bool → Option ℕ → (ℕ → Option (List Sendpay)) → Action
unfolding keysend_outcome
keysend hash first has_lnd second start listsendpays =
    if out_keysend first has_lnd second
    then finalizes
    else keysend_outcome hash start (listsendpays (Option.get_or start 0))
