-- ===== src/Payments/Onward.antt =====
-- lib/payments.ts, lines 803 to 1015: what `completePayment` does after a receipt, forwarding and
-- the automatic withdrawal, and how `pay` sends it on. Where a destination leads, which other
-- servers are asked for, is an argument, as is the fee of a route; notifications are left out.
pub mod Kept
pub mod Reserve
mod Tests
use mathlib.Core.Option
use coinos_server.Base.{
  ℕ, ◌+◌, Bool, true, false, not, ◌&&◌, Option, none, some, ltb, ◌==◌, if◌then◌else◌, ℤ, pos,
  pos_part, ◌-ℤ◌, ltb_ℤ,
}
use coinos_server.Ledger.Ids.{PaymentType}
use coinos_server.Ledger.Operations.{round_mul}
use coinos_server.Payments.Debit.{Fees}

-- The settings of an account or of a user, each `none` if it is not set.
pub record Settings : Type 0 where
  pub autowithdraw : Option Bool
  pub threshold : Option ℤ
  pub reserve : Option ℤ

-- `account?.x ?? user.x`, for an account other than the user's own
abbrev pub setting : {A : Type 0} → Option A → Option A → Option A
setting none y = y
setting (some x) y = some x

abbrev pub settings_of : Option Settings → Settings → Settings
settings_of none user = user
settings_of (some a) user = record {
  autowithdraw = setting a.autowithdraw user.autowithdraw;
  threshold = setting a.threshold user.threshold;
  reserve = setting a.reserve user.reserve;
}

pub record Received : Type 0 where
  pub confirmed : Bool
  pub is_ark : Bool
  pub amount : ℤ
  -- `inv.forward`, and whether it has been done
  pub forward : Bool
  pub forwarded : Bool
  -- the lock of the invoice could be taken
  pub locked : Bool
  -- the destination of the forwarding is the account that has received
  pub to_itself : Bool

pub data Next : Type 0 where
  rests : Next
  forwards : ℤ → Next
  withdraws : ℤ → Next

-- A threshold that is not set is below no balance; without a reserve the amount is NaN, which
-- `pay` takes for 0.
unfoldable pub withdrawal : Option ℤ → Option ℤ → ℤ → Next
withdrawal none reserve balance = rests
withdrawal (some threshold) none balance =
    if ltb_ℤ threshold balance then withdraws (pos 0) else rests
withdrawal (some threshold) (some reserve) balance =
    if ltb_ℤ threshold balance then withdraws (balance -ℤ reserve) else rests

unfoldable pub complete_payment : Settings → Received → ℤ → Next
complete_payment s r balance =
    if not r.confirmed
    then rests
    else if r.forward && not r.forwarded
    then (if r.locked && not r.to_itself then forwards r.amount else rests)
    else if Option.get_or s.autowithdraw false && not r.is_ark
    then withdrawal s.threshold s.reserve balance
    else rests

pub data Destination : Type 0 where
  -- a user of the server
  user : ℕ → Destination
  -- an invoice of the server
  local_invoice : Destination
  -- an LNURL or an address that leads to one
  lnurl : Destination
  -- an offer, and the fee of the first route to it
  offer : Option ℕ → Destination
  bolt11 : Destination
  chain : Destination

-- What is called, with the account that is debited.
pub data Transfer : Type 0 where
  refused : Transfer
  send_internal : ℕ → ℤ → Transfer
  send_lightning : ℕ → ℤ → ℕ → Transfer
  send_onchain : ℕ → ℤ → Transfer

abbrev pub five_at_least : ℕ → ℕ
five_at_least n = if ltb n 5 then 5 else n

abbrev pub lightning_fee : ℤ → ℕ
lightning_fee amount = five_at_least (round_mul (pos_part amount) (record { num = 2; den = 100 }))

-- What is left of the amount once a fee and the platform's are taken off.
unfoldable pub less_fees : Fees → ℕ → ℤ → ℕ → Transfer
less_fees fees uid amount fee =
    send_lightning uid (amount -ℤ pos (fee + round_mul (pos_part amount) fees.lightning)) fee

unfoldable pub pay : Fees → ℕ → ℕ → ℤ → Destination → Transfer
unfolding less_fees
pay fees uid aid amount (user id) = if id == aid then refused else send_internal uid amount
pay fees uid aid amount local_invoice = send_internal uid amount
pay fees uid aid amount lnurl = less_fees fees uid amount (lightning_fee amount)
pay fees uid aid amount (offer none) = less_fees fees uid amount 0
pay fees uid aid amount (offer (some fee)) = less_fees fees uid amount (five_at_least fee)
pay fees uid aid amount bolt11 = less_fees fees uid amount (lightning_fee amount)
pay fees uid aid amount chain = send_onchain aid amount
