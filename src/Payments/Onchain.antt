-- ===== src/Payments/Onchain.antt =====
-- lib/payments.ts, lines 1108 to 1321: `sendOnchain` of an account that the server keeps, for a
-- transaction on Bitcoin or Liquid. What the nodes answer is an argument, and a call of a node that
-- throws where the code does not ask for it is left out. Nothing else runs in between.
pub mod Covered
pub mod Released
pub mod Backed
mod Tests
use mathlib.Core.Option
use coinos_server.Base.{
  ℕ, ◌+◌, ◌-◌, Bool, true, false, not, ◌&&◌, ◌||◌, Option, none, some, List, [], ◌∷◌, ◌==◌,
  if◌then◌else◌, pos, ◌>>=◌,
}
use coinos_server.Ledger.Ids.{PaymentType}
use coinos_server.Ledger.Client.{Client}
use coinos_server.Limits.Breaker.{Limits}
use coinos_server.Payments.Store.{Payment, World, Failure, Result, fails, returns, set_at}
use coinos_server.Payments.Debit.{Request, Fees, Facts, debit}

-- An output, in sats, and what is known of its address.
pub record Output : Type 0 where
  pub address : Option ℕ
  pub value : ℕ
  -- `ismine`
  pub is_mine : Bool
  -- the account of the invoice with the address
  pub invoice_aid : Option ℕ
  -- on Liquid
  pub is_fee : Bool
  pub is_lbtc : Bool

pub record Tx : Type 0 where
  pub is_bitcoin : Bool
  pub txid : ℕ
  -- its id once it is blinded and signed
  pub signed_txid : ℕ
  -- the outputs that it spends, and their value
  pub vin : List ℕ
  pub total_in : ℕ
  pub vout : List Output

-- What is counted of the outputs: all with an address, and the part that comes back.
pub record Counted : Type 0 where
  pub total : ℕ
  pub change : ℕ

pub data Declined : Type 0 where
  unrecognized : Declined
  inputs_taken : Declined
  in_flight : Declined
  processed : Declined
  rejected : Declined
  not_countable : Declined
  not_rebuilt : Declined
  not_debited : Failure → Declined
  not_broadcast : Declined

pub data Dispatch : Type 0 where
  declines : Declined → Dispatch
  dispatched : Payment → Dispatch

abbrev pub is_at : ℕ → Option ℕ → Bool
is_at a none = false
is_at a (some b) = a == b

-- Whether an output is change: it is the wallet's, and not what is paid.
abbrev pub is_change : Option ℕ → ℕ → Output → Bool
is_change dest a o = not (is_at a dest) && o.is_mine

abbrev pub counted : Option ℕ → ℕ → Output → Counted → Counted
counted dest a o k = record {
  total = o.value + k.total;
  change = (if is_change dest a o then o.value else 0) + k.change;
}

abbrev pub with_output : ℕ → Option ℕ → Output → Option ℕ → Option Counted → Option Counted
with_output aid dest o none rest = rest
with_output aid dest o (some a) rest =
    if is_at aid o.invoice_aid then none else rest >>= (λ k. some (counted dest a o k))

-- The outputs of a Bitcoin transaction; `none` if one belongs to an invoice of the sender.
unfoldable pub count_bitcoin : ℕ → Option ℕ → List Output → Option Counted
count_bitcoin aid dest [] = some (record { total = 0; change = 0 })
count_bitcoin aid dest (o ∷ os) = with_output aid dest o o.address (count_bitcoin aid dest os)

abbrev counted_liquid : Option ℕ → Output → Option ℕ → Counted → Counted
counted_liquid dest o (some a) k = counted dest a o k
counted_liquid dest o none k = record k { total = o.value + k.total }

-- The outputs of a Liquid transaction; `none` if one is of another asset.
unfoldable pub count_liquid : Option ℕ → List Output → Option Counted
count_liquid dest [] = some (record { total = 0; change = 0 })
count_liquid dest (o ∷ os) =
    let rest = count_liquid dest os in
    if not o.is_lbtc
    then none
    else if o.is_fee
    then rest
    else rest >>= (λ k. some (counted_liquid dest o o.address k))

abbrev pub liquid_fee : ℕ
liquid_fee = 50

-- The amount and the fee that are debited. No transaction that the node accepts pays out more
-- than it takes in.
unfoldable pub amount_and_fee : ℕ → Option ℕ → Tx → Option (ℕ × ℕ)
amount_and_fee aid dest tx =
    if tx.is_bitcoin
    then count_bitcoin aid dest tx.vout >>= (λ k. some (k.total - k.change, tx.total_in - k.total))
    else count_liquid dest tx.vout >>= (λ k. some (k.total - k.change, liquid_fee))

-- `build`, for a transaction whose rate has become too low: its id and its fee.
pub record Rebuilt : Type 0 where
  pub txid : ℕ
  pub fee : ℕ

pub record Send : Type 0 where
  pub aid : ℕ
  pub uid : ℕ
  pub dest : Option ℕ
  -- the transaction came with the request
  pub supplied : Bool
  -- `testMempoolAccept`
  pub accepted : Bool
  -- `none` if the rate is kept; else what building again gives, if it is accepted
  pub rebuild : Option (Option Rebuilt)
  -- whether `sendRawTransaction` returns
  pub broadcasts : Bool

pub record Vault (Db : Type 0) : Type 0 where
  pub world : World Db
  -- `build:<txid>`
  pub receipt : ℕ → Option ℕ
  -- the outputs that the node has locked
  pub locked : ℕ → Bool
  -- `sendlock:<type>:<txid>`
  pub sending : ℕ → Bool
  -- the transactions that have been broadcast
  pub sent : List ℕ
  -- `outgoing:unconfirmed`
  pub unconfirmed : List ℕ

abbrev pub some_locked : List ℕ → (ℕ → Bool) → Bool
some_locked [] locked = false
some_locked (i ∷ is) locked = locked i || some_locked is locked

-- `lockUnspent`
abbrev pub lock_all : Bool → List ℕ → (ℕ → Bool) → ℕ → Bool
lock_all b [] locked = locked
lock_all b (i ∷ is) locked = set_at i b (lock_all b is locked)

abbrev pub final_txid : Tx → Option (Option Rebuilt) → Option (ℕ × Option ℕ)
final_txid tx none = some (tx.signed_txid, none)
final_txid tx (some none) = none
final_txid tx (some (some b)) = some (b.txid, some b.fee)

abbrev pub type_of : Tx → PaymentType
type_of tx = if tx.is_bitcoin then PaymentType.bitcoin else PaymentType.liquid

abbrev pub onchain_request : Send → Tx → ℕ → ℕ → ℕ → Request
onchain_request q tx hash amount fee = record {
  aid = some q.aid;
  uid = q.uid;
  hash = hash;
  amount = pos amount;
  fee = fee;
  type = type_of tx;
  ourfee_override = none;
  credit_type_override = none;
  max_total = none;
}

-- The record that is kept once `sendOnchain` has the fee.
abbrev pub kept : Tx → ℕ → Payment → Payment
kept tx fee p = record p { fee = fee; confirmed = if tx.is_bitcoin then false else p.confirmed }

-- A transaction that came with the request may have to be built again.
abbrev pub rebuild_of : Send → Tx → Option (Option Rebuilt)
rebuild_of q tx = if tx.is_bitcoin && q.supplied then q.rebuild else none

module _ {Db : Type 0} where
  -- The way out of every failure once the outputs are locked.
  unfoldable pub release : Tx → Vault Db → Vault Db
  release tx s = record s {
    locked = lock_all false tx.vin s.locked;
    sending = set_at tx.signed_txid false s.sending;
  }

  abbrev pub aborts : Declined → Tx → Vault Db → Dispatch × Vault Db
  aborts e tx s = (declines e, release tx s)

  -- The record, the broadcast and what follows it. A broadcast that fails leaves the debit.
  unfoldable pub broadcast : Send → Tx → ℕ → Payment → Vault Db → Dispatch × Vault Db
  broadcast q tx hash p s =
      let s' = record s {
        world = record s.world { payment = set_at p.id (some p) s.world.payment };
      } in
      if not q.broadcasts then aborts not_broadcast tx s' else (
        dispatched p,
        record s' {
          sent = hash ∷ s.sent;
          unconfirmed = if tx.is_bitcoin then p.id ∷ s.unconfirmed else s.unconfirmed;
          sending = set_at tx.signed_txid false s.sending;
        },
      )

  abbrev pub debited :
      Send → Tx → ℕ → ℕ → Vault Db → Result Payment × World Db → Dispatch × Vault Db
  debited q tx hash fee s (fails e, w) = aborts (not_debited e) tx (record s { world = w })
  debited q tx hash fee s (returns p, w) =
      broadcast q tx hash (kept tx fee p) (record s { world = w })

module _ {Db : Type 0} (c : Client Db) (l : Limits) (fees : Fees) (f : Facts) where
  unfoldable pub pay_out :
      Send → Tx → ℕ → ℕ → Option (ℕ × Option ℕ) → Vault Db → Dispatch × Vault Db
  pay_out q tx amount fee none s = aborts not_rebuilt tx s
  pay_out q tx amount fee (some (hash, new_fee)) s =
      debited q tx hash (Option.get_or new_fee fee) s
        (debit c l fees f (onchain_request q tx hash amount (Option.get_or new_fee fee)) s.world)

  unfoldable pub evaluate : Send → Tx → Option ℕ → Option (ℕ × ℕ) → Vault Db → Dispatch × Vault Db
  evaluate q tx (some id) sums s = aborts processed tx s
  evaluate q tx none none s =
      if not q.accepted then aborts rejected tx s else aborts not_countable tx s
  evaluate q tx none (some (amount, fee)) s =
      if not q.accepted
      then aborts rejected tx s
      else pay_out q tx amount fee (final_txid tx (rebuild_of q tx)) s

  -- With the outputs locked: one call at a time for a transaction.
  unfoldable pub guarded : Send → Tx → Vault Db → Dispatch × Vault Db
  guarded q tx s =
      if s.sending tx.signed_txid
      then aborts in_flight tx s
      else evaluate q tx (s.world.payment_of_hash tx.signed_txid) (amount_and_fee q.aid q.dest tx)
          (record s { sending = set_at tx.signed_txid true s.sending })

  unfoldable pub send_onchain : Send → Tx → Vault Db → Dispatch × Vault Db
  send_onchain q tx s =
      if q.supplied && not (is_at q.aid (s.receipt tx.txid))
      then (declines unrecognized, s)
      else if some_locked tx.vin s.locked
      then (declines inputs_taken, s)
      else guarded q tx (record s { locked = lock_all true tx.vin s.locked })
