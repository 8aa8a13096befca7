-- ===== src/Payments/Building.antt =====
-- lib/payments.ts, `build` for an account that the server keeps: the amounts of a transaction on
-- Bitcoin or Liquid. Rates are in tenths of a sat for each byte. What the node answers when it funds
-- a transaction is an argument; the inputs that it lists are left out.
pub mod Fits
mod Tests
use coinos_server.Base.{
  ℕ, ◌+◌, ◌-◌, Bool, true, false, ◌||◌, Option, none, some, leb, ltb, ◌==◌, if◌then◌else◌, ℤ, pos,
  negsuc, ltb_ℤ, zero, suc,
}
use coinos_server.Ledger.Operations.{Rate, round_mul}

pub record Wanted : Type 0 where
  pub is_bitcoin : Bool
  -- `Number.parseInt(amount)`, `none` if it is no number
  pub amount : Option ℤ
  -- 0 if none is given
  pub rate : ℕ
  pub subtract : Bool

-- What `build` looks up.
pub record Market : Type 0 where
  pub fastest : ℕ
  pub half_hour : ℕ
  pub minimum : ℕ
  pub balance : ℤ
  -- `getCredit`
  pub credit : ℕ
  pub platform : Rate
  -- `fundRawTransaction` for an amount, a rate and whether the fee is taken off the amount: the
  -- fee, or `none` if the wallet has not enough
  pub fund : ℕ → ℕ → Bool → Option ℕ

pub data Quote : Type 0 where
  not_positive : Quote
  rate_too_low : Quote
  insufficient : Quote
  hot_wallet_short : Quote
  -- the amount that the address gets, the fee, the platform's fee, the rate and `subtract`
  built : ℕ → ℕ → ℕ → ℕ → Bool → Quote

abbrev pub network_fee : ℕ
network_fee = 50

abbrev pub dust : ℕ
dust = 547

abbrev pub fee_on : Bool → ℕ → ℕ
fee_on is_bitcoin fee = if is_bitcoin then fee else network_fee

-- The platform's fee beyond what credits cover.
abbrev pub uncovered : Market → ℕ → ℕ
uncovered m amount = round_mul amount m.platform - m.credit

abbrev pub full_rate : Market → ℕ
full_rate m = if ltb m.fastest 10 then 10 else m.fastest

abbrev pub emptied : Wanted → Market → ℕ → Option ℕ → Quote
emptied w m amount none = hot_wallet_short
emptied w m amount (some fee) =
    built (amount - uncovered m amount - fee) (fee_on w.is_bitcoin fee) (uncovered m amount)
      (full_rate m) true

-- The fee comes off the amount.
unfoldable pub full : Wanted → Market → ℕ → ℕ → Quote
full w m amount fee =
    if leb amount (fee + uncovered m amount + dust)
    then insufficient
    else emptied w m amount (m.fund (amount - uncovered m amount) (full_rate m) true)

-- With the first answer of the node.
unfoldable pub quoted : Wanted → Market → ℕ → ℕ → Option ℕ → Quote
unfolding full
quoted w m amount rate none = full w m amount 0
quoted w m amount rate (some raw) =
    let fee = fee_on w.is_bitcoin raw in
    if w.subtract || ltb_ℤ m.balance (pos (amount + fee + uncovered m amount))
    then full w m amount fee
    else built amount fee (uncovered m amount) rate false

unfoldable pub rated : Wanted → Market → ℕ → ℕ → Quote
rated w m amount rate =
    if ltb rate m.minimum then rate_too_low else quoted w m amount rate (m.fund amount rate false)

unfoldable pub build : Wanted → Market → Option ℤ → Quote
build w m (some (pos (suc n))) = rated w m (suc n) (if w.rate == 0 then m.half_hour else w.rate)
build w m _ = not_positive
