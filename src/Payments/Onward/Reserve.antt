-- ===== src/Payments/Onward/Reserve.antt =====
-- lib/payments.ts, lines 836 to 845 and 926 to 1015: what an automatic withdrawal leaves.
use native.Mathlib.Nat.{div-zero, le-div_iff_mul-le, div-mul-le_self}
use coinos_server.Base.{
  ℕ, zero, suc, ◌+◌, ◌*◌, ◌/◌, ◌≤◌, ◌≡◌, ◌≢◌, refl, sym, ap, ◌∙◌, true, false, Option, none, some,
  ◌==◌, ==_iff, ℤ, pos, negsuc, pos_part, neg_part, ◌-ℤ◌, -ℤ_parts, ◌≤ℤ◌, ltb_ℤ, arith, inl, inr,
  Bool-cases,
}
use mathlib.Core.Path.{subst}
use coinos_server.Ledger.Ids.{PaymentType, msats, balance_id, credit_id}
use coinos_server.Ledger.Distinct.{IsUuid}
use coinos_server.Ledger.Client.{Client, IsCluster}
use coinos_server.Ledger.Debit.{account_balance_micro, get_account, get_balance, covered_micro}
use coinos_server.Limits.Breaker.{Limits}
use coinos_server.Payments.Store.{Payment, World, returns}
use coinos_server.Payments.Debit.Results.{Passed-ledger, debited_args}
use coinos_server.Payments.Onward.Kept.{covered_nonneg, debit-reserve}
use coinos_server.Ledger.Operations.{Rate, round_mul}
use coinos_server.Payments.Debit.{Fees, Facts, ourfee_of, platform_fee, debit_args, debit}
use coinos_server.Payments.Sending.{Ask, Nodes, charged, debit_request}
use coinos_server.Payments.Onward.{
  Settings, Received, Next, rests, forwards, withdraws, withdrawal, complete_payment, Destination,
  user, local_invoice, lnurl, offer, bolt11, chain, Transfer, send_lightning, less_fees, pay,
}

div_mono : (a b d : ℕ) → a ≤ b → a / d ≤ b / d
div_mono a b zero h = rw (div-zero a, div-zero b) (omega arith)
div_mono a b (suc d) h =
    (le-div_iff_mul-le {k = suc d} {x = a / suc d} {y = b} (omega arith)).1
      (omega (arith, div-mul-le_self a (suc d), h))

mul_mono : (a b d : ℕ) → a ≤ b → a * d ≤ b * d
mul_mono a b d h = grind arith

pub round_mul_mono : (m n : ℕ) (r : Rate) → m ≤ n → round_mul m r ≤ round_mul n r
unfolding round_mul
round_mul_mono m n r h =
    div_mono _ _ (2 * r.den) (omega (arith, mul_mono (2 * m) (2 * n) r.num (omega (arith, h))))

withdraws-injective : {a b : ℤ} → ◌≡◌ {A = Next} (withdraws a) (withdraws b) → a ≡ b
withdraws-injective e = cc

rests-withdraws : {a : ℤ} → ◌≢◌ {A = Next} rests (withdraws a)
rests-withdraws e = cc

forwards-withdraws : {a b : ℤ} → ◌≢◌ {A = Next} (forwards a) (withdraws b)
forwards-withdraws e = cc

withdrawal-amount :
    (threshold : Option ℤ) (reserve balance amount : ℤ)
    → withdrawal threshold (some reserve) balance ≡ withdraws amount
    → amount ≡ balance -ℤ reserve
unfolding withdrawal
withdrawal-amount none reserve balance amount h = absurd (rests-withdraws h)
withdrawal-amount (some t) reserve balance amount h = elim (Bool-cases (ltb_ℤ t balance)) [
  | inl e ↦ sym (withdraws-injective (rw e at h))
  | inr e ↦ absurd (rests-withdraws (rw e at h))
]

complete_payment-withdrawal :
    (s : Settings) (r : Received) (balance amount : ℤ)
    → complete_payment s r balance ≡ withdraws amount
    → withdrawal s.threshold s.reserve balance ≡ withdraws amount
unfolding complete_payment
complete_payment-withdrawal s r balance amount h = ground arith

send_lightning-injective :
    {u v : ℕ} {a b : ℤ} {m n : ℕ}
    → ◌≡◌ {A = Transfer} (send_lightning u a m) (send_lightning v b n)
    → (a ≡ b) × (m ≡ n) × (u ≡ v)
send_lightning-injective e = (cc, cc, cc)

less_fees-amount :
    (fees : Fees) (uid v : ℕ) (amount a : ℤ) (m fee : ℕ)
    → less_fees fees uid amount m ≡ send_lightning v a fee
    → (a ≡ amount -ℤ pos (fee + round_mul (pos_part amount) fees.lightning)) × (uid ≡ v)
unfolding less_fees
less_fees-amount fees uid v amount a m fee h =
    let (e, f, u) = send_lightning-injective h in
    (sym e ∙ ap (λ x. amount -ℤ pos (x + round_mul (pos_part amount) fees.lightning)) f, u)

pay-amount :
    (fees : Fees) (uid aid v : ℕ) (amount a : ℤ) (fee : ℕ) (d : Destination)
    → pay fees uid aid amount d ≡ send_lightning v a fee
    → (a ≡ amount -ℤ pos (fee + round_mul (pos_part amount) fees.lightning)) × (uid ≡ v)
unfolding pay
pay-amount fees uid aid v amount a fee (user id) h = elim (Bool-cases (id == aid)) [
  | inl e ↦ let h' = rw e at h in cc
  | inr e ↦ let h' = rw e at h in cc
]
pay-amount fees uid aid v amount a fee local_invoice h = cc
pay-amount fees uid aid v amount a fee lnurl h = less_fees-amount fees uid v amount a _ fee h
pay-amount fees uid aid v amount a fee (offer none) h = less_fees-amount fees uid v amount a _ fee h
pay-amount fees uid aid v amount a fee (offer (some m)) h =
    less_fees-amount fees uid v amount a _ fee h
pay-amount fees uid aid v amount a fee bolt11 h = less_fees-amount fees uid v amount a _ fee h
pay-amount fees uid aid v amount a fee chain h = cc

less_sums :
    (amount a : ℤ) (m : ℕ)
    → pos 1 ≤ℤ a
    → a ≡ amount -ℤ pos m
    → pos_part a + m + neg_part amount ≤ pos_part amount
less_sums amount (pos n) m h e =
    let up : n ≡ pos_part (amount -ℤ pos m) = ap pos_part e in
    let down : 0 ≡ neg_part (amount -ℤ pos m) = ap neg_part e in
    omega (arith, -ℤ_parts amount (pos m), up, down)
less_sums amount (negsuc n) m h e = absurd (omega (arith, h))

-- What is left of an amount once fees on all of it are taken off pays the fees on what is left.
kept_fees :
    (amount a : ℤ) (fee : ℕ) (r : Rate)
    → pos 1 ≤ℤ a
    → a ≡ amount -ℤ pos (fee + round_mul (pos_part amount) r)
    → pos (pos_part a + fee + round_mul (pos_part a + fee) r) ≤ℤ amount
kept_fees amount a fee r h e =
    let sum = less_sums amount a (fee + round_mul (pos_part amount) r) h e in
    omega (arith, sum, round_mul_mono (pos_part a + fee) (pos_part amount) r (omega (arith, sum)))

ourfee_plain :
    (fees : Fees) (f : Facts) (a : Ask) (n : Nodes) (pr m fee : ℕ)
    → f.no_free ≡ false
    → ourfee_of fees f (debit_request a n pr (some m) (some fee))
      ≡ round_mul (pos_part (charged (n.decode pr) (some m)) + fee) fees.lightning
unfolding debit_request platform_fee
ourfee_plain fees f a n pr m fee h =
    let same : (a.uid == a.uid) ≡ true = (==_iff a.uid a.uid).1 refl in
    simp (same, h) (ap (λ x. round_mul x fees.lightning) (omega arith))

-- The amount, the network's fee and the platform's that `debit` is asked for are together no more
-- than what the balance is above the reserve.
withdrawal_fits :
    (fees : Fees) (f : Facts) (s : Settings) (r : Received) (balance reserve amount a : ℤ)
    (uid aid v fee : ℕ) (d : Destination) (q : Ask) (n : Nodes) (pr : ℕ)
    → complete_payment s r balance ≡ withdraws amount
    → s.reserve ≡ some reserve
    → pay fees uid aid amount d ≡ send_lightning v a fee
    → pos 1 ≤ℤ a
    → charged (n.decode pr) (some (pos_part a)) ≡ a
    → f.no_free ≡ false
    → let asked = debit_request q n pr (some (pos_part a)) (some fee) in
      pos (pos_part asked.amount + asked.fee + ourfee_of fees f asked) ≤ℤ balance -ℤ reserve
unfolding debit_request
withdrawal_fits fees f s r balance reserve amount a uid aid v fee d q n pr h e p one c free =
    let took = (pay-amount fees uid aid v amount a fee d p).0 in
    let left = complete_payment-withdrawal s r balance amount h in
    let above : amount ≡ balance -ℤ reserve =
      withdrawal-amount s.threshold reserve balance amount
        (sym (ap (λ x. withdrawal s.threshold x balance) e) ∙ left) in
    let o = ourfee_plain fees f q n pr (pos_part a) fee free in
    let all = kept_fees amount a fee fees.lightning one took in rw (o, c, ← above) all

module _ {Db : Type 0} (c : Client Db) (laws : IsCluster c) (l : Limits) (fees : Fees) (f : Facts)
    (s : Settings) (r : Received) (w : World Db) (q : Ask) (n : Nodes) (pr : ℕ) where
  -- The credits that pay fees are the user's, who has no less than none.
  own_credits :
      (m fee : ℕ)
      → pos 0
        ≤ℤ account_balance_micro (get_account c (credit_id q.uid PaymentType.lightning) w.tb.db)
      → pos 0
        ≤ℤ covered_micro c
            (debited_args c l fees f (debit_request q n pr (some m) (some fee)) w)
            w.tb.db
  unfolding debit_args debit_request
  own_credits m fee h =
      let same : (q.uid == q.uid) ≡ true = (==_iff q.uid q.uid).1 refl in
      covered_nonneg c (debited_args c l fees f (debit_request q n pr (some m) (some fee)) w)
        w.tb.db (simp same h)

  -- An automatic withdrawal of a user's own account over Lightning leaves the reserve on it: the
  -- payment of the debit that the withdrawal asks for is from the account that was looked at, and
  -- after the debit the balance of that account is no less than the reserve. The invoice is over the amount that was asked for, or leaves it open, the
  -- account does not pay the higher rate, it is a uuid that exists, its credits are not negative, and
  -- nothing runs between the parts.
  pub withdrawal-reserve :
      (amount a : ℤ) (reserve uid v fee : ℕ) (d : Destination) (p : Payment)
      → complete_payment s r (get_balance c uid w.tb.db) ≡ withdraws amount
      → s.reserve ≡ some (pos reserve)
      → pay fees uid uid amount d ≡ send_lightning v a fee
      → q.uid ≡ v
      → pos 1 ≤ℤ a
      → charged (n.decode pr) (some (pos_part a)) ≡ a
      → f.no_free ≡ false
      → IsUuid uid
      → get_account c (balance_id uid) w.tb.db ≢ none
      → pos 0 ≤ℤ account_balance_micro (get_account c (credit_id uid PaymentType.lightning) w.tb.db)
      → (debit c l fees f (debit_request q n pr (some (pos_part a)) (some fee)) w).0 ≡ returns p
      → (p.aid ≡ uid)
        × (pos (reserve * msats)
            ≤ℤ account_balance_micro (
                get_account c
                  (balance_id uid)
                  (debit c l fees f
                    (debit_request q n pr (some (pos_part a)) (some fee))
                    w).1.tb.db))
  unfolding debit_request
  withdrawal-reserve amount a reserve uid v fee d p h e to own one charges free u ex credits paid =
      let same : uid ≡ q.uid = (pay-amount fees uid uid v amount a fee d to).1 ∙ sym own in
      let asked = debit_request q n pr (some (pos_part a)) (some fee) in
      let fits =
        withdrawal_fits fees f s r (get_balance c uid w.tb.db) (pos reserve) amount a uid uid v fee
          d q n pr h e to one charges free in
      let (took, made, _, _, _) = Passed-ledger c l fees f asked w p paid in
      (
        ap (λ x. x.aid) made ∙ sym same,
        subst
            (λ i.
              pos (reserve * msats)
              ≤ℤ account_balance_micro
                  (get_account c (balance_id i) (debit c l fees f asked w).1.tb.db))
            (sym same)
            (debit-reserve c laws l fees f asked w p reserve (subst IsUuid same u)
              (subst (λ i. get_account c (balance_id i) w.tb.db ≢ none) same ex)
              (own_credits (pos_part a) fee (
                subst
                  (λ i.
                    pos 0
                    ≤ℤ account_balance_micro
                        (get_account c (credit_id i PaymentType.lightning) w.tb.db))
                  same credits))
              refl
              (subst
                (λ i.
                  pos (pos_part asked.amount + asked.fee + ourfee_of fees f asked)
                  ≤ℤ get_balance c i w.tb.db -ℤ pos reserve)
                same fits)
              paid),
      )
