-- ===== src/Payments/Building/Fits.antt =====
-- lib/payments.ts, `build`: the amounts that it quotes, and what `sendOnchain` takes for them.
use coinos_server.Base.{
  ℕ, zero, suc, ◌+◌, ◌-◌, ◌≤◌, ◌≡◌, ◌≢◌, ◌⊎◌, refl, sym, ap, ◌∙◌, Bool, true, false, ◌||◌, Option,
  none, some, leb, ltb, ◌==◌, if◌then◌else◌, pos, ltb_ℤ, ◌≤ℤ◌, arith, inl, inr, Bool-cases,
}
use coinos_server.Ledger.Operations.{round_mul}
use coinos_server.Payments.Onward.Reserve.{round_mul_mono}
use coinos_server.Payments.Building.{
  Wanted, Market, Quote, rate_too_low, insufficient, hot_wallet_short, built, dust, fee_on,
  uncovered, full_rate, emptied, full, quoted, rated, build,
}

-- A quote keeps within the balance, or takes the fees off the amount; then what `debit` charges
-- for it, whose platform fee is on the amount and the fee that are left, is within the amount.
abbrev pub Fitting : Market → ℕ → ℕ → ℕ → ℕ → Bool → Type 0
Fitting m amount out fee ourfee sub =
    ((sub ≡ false) × (out ≡ amount) × (pos (out + fee + ourfee) ≤ℤ m.balance))
    ⊎ ((sub ≡ true)
        × (out + fee + ourfee ≡ amount)
        × (out + fee + (round_mul (out + fee) m.platform - m.credit) ≤ amount))

built-injective :
    {a b c d a' b' c' d' : ℕ} {s s' : Bool}
    → ◌≡◌ {A = Quote} (built a b c d s) (built a' b' c' d' s')
    → (a ≡ a') × (b ≡ b') × (c ≡ c') × (s ≡ s')
built-injective e = (cc, cc, cc, cc)

hot_wallet_short-built :
    {a b c d : ℕ} {s : Bool} → ◌≢◌ {A = Quote} hot_wallet_short (built a b c d s)
hot_wallet_short-built e = cc

insufficient-built : {a b c d : ℕ} {s : Bool} → ◌≢◌ {A = Quote} insufficient (built a b c d s)
insufficient-built e = cc

rate_too_low-built : {a b c d : ℕ} {s : Bool} → ◌≢◌ {A = Quote} rate_too_low (built a b c d s)
rate_too_low-built e = cc

-- The charge on what is left is no more than what has been taken off.
left_charge :
    (m : Market) (amount out fee : ℕ)
    → out + fee + uncovered m amount ≡ amount
    → out + fee + (round_mul (out + fee) m.platform - m.credit) ≤ amount
left_charge m amount out fee e =
    let mono = round_mul_mono (out + fee) amount m.platform (omega (arith, e)) in
    omega (arith, e, mono)

module _ (w : Wanted) (m : Market) (bitcoin : w.is_bitcoin ≡ true)
    (sound : (amount rate fee : ℕ) → m.fund amount rate true ≡ some fee → fee ≤ amount)
    (out fee ourfee rate : ℕ) (sub : Bool) where
  emptied-Fitting :
      (amount : ℕ) (o : Option ℕ)
      → m.fund (amount - uncovered m amount) (full_rate m) true ≡ o
      → uncovered m amount ≤ amount
      → emptied w m amount o ≡ built out fee ourfee rate sub
      → Fitting m amount out fee ourfee sub
  emptied-Fitting amount none h b e = absurd (hot_wallet_short-built e)
  emptied-Fitting amount (some raw) h b e =
      let (a1, a2, a3, a4) = built-injective e in
      let raw_fee : raw ≡ fee = sym (ap (λ x. fee_on x raw) bitcoin) ∙ a2 in
      let fits = sound (amount - uncovered m amount) (full_rate m) raw h in
      let total : out + fee + uncovered m amount ≡ amount = omega (arith, a1, raw_fee, fits, b) in
      inr (sym a4, omega (arith, total, a3), left_charge m amount out fee total)

  full-Fitting :
      (amount first : ℕ)
      → full w m amount first ≡ built out fee ourfee rate sub
      → Fitting m amount out fee ourfee sub
  unfolding full
  full-Fitting amount first e = elim (Bool-cases (leb amount (first + uncovered m amount + dust))) [
    | inl h ↦ absurd (insufficient-built (rw h at e))
    | inr h ↦
        let b : uncovered m amount ≤ amount = ground arith in
        emptied-Fitting amount (m.fund (amount - uncovered m amount) (full_rate m) true) refl b
          (rw h at e)
  ]

  quoted-Fitting :
      (amount rate' : ℕ) (o : Option ℕ)
      → quoted w m amount rate' o ≡ built out fee ourfee rate sub
      → Fitting m amount out fee ourfee sub
  unfolding quoted
  quoted-Fitting amount rate' none e = full-Fitting amount 0 e
  quoted-Fitting amount rate' (some raw) e =
      elim (Bool-cases (
        w.subtract
        || ltb_ℤ m.balance (pos (amount + fee_on w.is_bitcoin raw + uncovered m amount)))) [
          | inl h ↦ full-Fitting amount (fee_on w.is_bitcoin raw) (rw h at e)
          | inr h ↦
              let (a1, a2, a3, a4) = built-injective (rw h at e) in
              let fits : ltb_ℤ m.balance
                    (pos (amount + fee_on w.is_bitcoin raw + uncovered m amount))
                  ≡ false =
                ground arith in
              let within : pos (amount + fee_on w.is_bitcoin raw + uncovered m amount)
                  ≤ℤ m.balance =
                ground arith in
              inl (sym a4, sym a1, omega (arith, within, a1, a2, a3))
        ]

  -- What `build` quotes for a Bitcoin transaction fits: the amount, the fee and the platform's fee
  -- are within the balance, or all fees come off the amount, and then what `sendOnchain` has `debit`
  -- take for the transaction is within the amount. The node takes no more off than there is.
  pub build-Fitting :
      (amount : ℕ)
      → build w m (some (pos amount)) ≡ built out fee ourfee rate sub
      → Fitting m amount out fee ourfee sub
  unfolding build rated
  build-Fitting zero e = cc
  build-Fitting (suc n) e = go (if w.rate == 0 then m.half_hour else w.rate) e
    where
      go :
          (r : ℕ)
          → rated w m (suc n) r ≡ built out fee ourfee rate sub
          → Fitting m (suc n) out fee ourfee sub
      go r h = elim (Bool-cases (ltb r m.minimum)) [
        | inl low ↦ absurd (rate_too_low-built (rw low at h))
        | inr low ↦ quoted-Fitting (suc n) r (m.fund (suc n) r false) (rw low at h)
      ]
