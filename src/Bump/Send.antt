-- ===== src/Bump/Send.antt =====
-- lib/cpfp.ts, `buildCpfpSend`, and lib/p2a.ts, `calculateBumpReserve`: a payment that also raises
-- the fee of a transaction whose change it spends.
use coinos_server.Base.{
  ℕ, ◌+◌, ◌-◌, ◌*◌, ◌/◌, ◌≤◌, ◌<◌, ◌≡◌, refl, Bool, true, false, ◌&&◌, List, [], ◌∷◌, ◌++◌, ltb,
  leb, if◌then◌else◌, arith, length,
}
use coinos_server.Ledger.Operations.{Rate}
use coinos_server.Bump.{p2a_value, child_vsize, ceil_mul, ceil_mul-le, Out, preserved, sum}
use coinos_server.Bump.Child.{dust, with_change, with_change-sum, sum-append, mul_mono}

pub data Failure : Type 0 where
  too_many_outputs above_reserve not_evicted insufficient too_large : Failure

-- The parent that is found: its record, its change, and the child that it has, if the node finds
-- it: the fee on record, 0 if there is none, and its outputs.
pub record Parent : Type 0 where
  pub vsize : ℕ
  pub fee : ℕ
  pub bump_reserve : ℕ
  pub change : ℕ
  pub evicted_fee : ℕ
  pub evicted : List Out

-- The child: what it spends, what each output gets, and what the sender and the parent's payment are
-- charged.
pub record Sent : Type 0 where
  pub inputs : ℕ
  pub outputs : List ℕ
  pub fee : ℕ
  pub subsidy : ℕ
  pub bump_reserve : ℕ

pub data Built : Type 0 where
  fails : Failure → Built
  built : Sent → Built

-- `Math.ceil(Math.max(0, (fastest - rate) * vsize) + fastest * CHILD_VSIZE)`
unfoldable pub calculate_bump_reserve : Rate → ℕ → ℕ → ℕ
calculate_bump_reserve rate fastest vsize =
    ((fastest * rate.den - rate.num) * vsize + fastest * child_vsize * rate.den + (rate.den - 1))
    / rate.den

-- `Math.max(Math.ceil(fastestFee * 1.5), 4)` for a whole fee rate.
abbrev pub fastest_of : ℕ → ℕ
fastest_of fastest_fee = let f = (3 * fastest_fee + 1) / 2 in if ltb f 4 then 4 else f

abbrev pub estimated_vsize : List ℕ → ℕ
estimated_vsize payments = 180 + (length payments + 2) * 31

abbrev pub total_fee : Parent → Rate → List ℕ → ℕ
total_fee p rate payments = ceil_mul rate (p.vsize + estimated_vsize payments) - p.fee

abbrev pub sender_fee : Rate → List ℕ → ℕ
sender_fee rate payments = ceil_mul rate (estimated_vsize payments)

abbrev assembled : Parent → Rate → ℕ → List ℕ → ℕ → Sent
assembled p rate fastest payments vsize =
    let total = total_fee p rate payments in
    record {
      inputs = p2a_value + p.change;
      outputs =
          with_change payments (p.change + p2a_value - sum payments - total - p2a_value)
          ++ (p2a_value ∷ []);
      fee = sender_fee rate payments;
      subsidy = total - sender_fee rate payments;
      bump_reserve = calculate_bump_reserve rate fastest vsize;
    }

-- `vsize` is that of the signed child.
abbrev with_payments : Parent → Rate → ℕ → List ℕ → ℕ → Built
with_payments p rate fastest payments vsize =
    let total = total_fee p rate payments in
    if ltb 1000 (estimated_vsize payments)
    then fails too_many_outputs
    else if ltb p.bump_reserve (total - sender_fee rate payments)
    then fails above_reserve
    else if ltb 0 p.evicted_fee && leb total p.evicted_fee
    then fails not_evicted
    else if ltb (p.change + p2a_value) (sum payments + total + p2a_value)
    then fails insufficient
    else if ltb 1000 vsize
    then fails too_large
    else built (assembled p rate fastest payments vsize)

unfoldable pub build_cpfp_send : Parent → Rate → ℕ → ℕ → ℕ → Built
unfolding calculate_bump_reserve
build_cpfp_send p rate fastest_fee amount vsize =
    with_payments p rate (fastest_of fastest_fee) (amount ∷ preserved p.evicted) vsize

built-built : (a b : Sent) → built a ≡ built b → a ≡ b
built-built a b e = cc

abbrev pub paid : Sent → ℕ
paid s = s.inputs - sum s.outputs

-- What a child that is built charges and pays.
record Charges (p : Parent) (rate : Rate) (payments : List ℕ) (s : Sent) : Type 0 where
  balanced : sum s.outputs ≤ s.inputs
  total : total_fee p rate payments ≤ paid s
  most : paid s < total_fee p rate payments + dust
  shared : total_fee p rate payments ≤ s.fee + s.subsidy
  reserved : s.subsidy ≤ p.bump_reserve
  paid_out : sum payments + p2a_value ≤ sum s.outputs

assembled-Charges :
    (p : Parent) (rate : Rate) (fastest : ℕ) (payments : List ℕ) (vsize : ℕ)
    → total_fee p rate payments - sender_fee rate payments ≤ p.bump_reserve
    → sum payments + total_fee p rate payments + p2a_value ≤ p.change + p2a_value
    → Charges p rate payments (assembled p rate fastest payments vsize)
assembled-Charges p rate fastest payments vsize h k =
    let total = total_fee p rate payments in
    let change = p.change + p2a_value - sum payments - total - p2a_value in
    let w = with_change-sum payments total change in
    let a = sum-append (with_change payments change) (p2a_value ∷ []) in
    record {
      balanced = omega arith;
      total = omega arith;
      most = omega arith;
      shared = omega arith;
      reserved = h;
      paid_out = omega arith;
    }

-- A refusal is no child.
refused :
    (b : Bool) (f : Failure) (o : Built) (s : Sent)
    → (if b then fails f else o) ≡ built s
    → (b ≡ false) × (o ≡ built s)
refused true f o s e = cc
refused false f o s e = (refl, e)

not_below : (a b : ℕ) → ltb a b ≡ false → b ≤ a
not_below a b h = ground arith

with_payments-Charges :
    (p : Parent) (rate : Rate) (fastest : ℕ) (payments : List ℕ) (vsize : ℕ) (s : Sent)
    → with_payments p rate fastest payments vsize ≡ built s
    → Charges p rate payments s
with_payments-Charges p rate fastest payments vsize s e =
    let total = total_fee p rate payments in
    let subsidy = total - sender_fee rate payments in
    let r1 = refused (ltb 1000 (estimated_vsize payments)) too_many_outputs _ s e in
    let r2 = refused (ltb p.bump_reserve subsidy) above_reserve _ s r1.1 in
    let r3 = refused (ltb 0 p.evicted_fee && leb total p.evicted_fee) not_evicted _ s r2.1 in
    let r4 =
      refused (ltb (p.change + p2a_value) (sum payments + total + p2a_value)) insufficient _ s
        r3.1 in
    let r5 = refused (ltb 1000 vsize) too_large _ s r4.1 in
    let reserve : subsidy ≤ p.bump_reserve = not_below _ _ r2.0 in
    let enough : sum payments + total + p2a_value ≤ p.change + p2a_value = not_below _ _ r4.0 in
    rw (← built-built (assembled p rate fastest payments vsize) s r5.1)
      (assembled-Charges p rate fastest payments vsize reserve enough)

-- A child that is built brings the parent and itself, at its estimated size, at least to the rate that was asked
-- for. What it pays beyond the fee that the sender is charged and the subsidy, which the parent's
-- reserve covers, is below the dust limit, and it pays out the amount, what it took over and an anchor.
pub build_cpfp_send-pays :
    (p : Parent) (rate : Rate) (fastest_fee amount vsize : ℕ) (s : Sent)
    → 0 < rate.den
    → build_cpfp_send p rate fastest_fee amount vsize ≡ built s
    → ((p.vsize + estimated_vsize (amount ∷ preserved p.evicted)) * rate.num
        ≤ (p.fee + paid s) * rate.den)
      × (paid s < s.fee + s.subsidy + dust)
      × (s.subsidy ≤ p.bump_reserve)
      × (amount + sum (preserved p.evicted) + p2a_value ≤ sum s.outputs)
      × (sum s.outputs ≤ s.inputs)
unfolding build_cpfp_send
build_cpfp_send-pays p rate fastest_fee amount vsize s d e =
    let payments = amount ∷ preserved p.evicted in
    let c = with_payments-Charges p rate (fastest_of fastest_fee) payments vsize s e in
    let t = c.total in
    let m = c.most in
    let sh = c.shared in
    let size = p.vsize + estimated_vsize payments in
    let need = ceil_mul-le rate size d in
    let whole : ceil_mul rate size ≤ p.fee + paid s = omega arith in
    let more = mul_mono _ _ rate.den whole in
    (omega arith, omega arith, c.reserved, c.paid_out, c.balanced)
