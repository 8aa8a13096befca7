-- ===== src/Payments/Building/Tests.antt =====
-- Runs of the model of `build` of lib/payments.ts.
use coinos_server.Base.{ℕ, ◌≤◌, ◌≡◌, refl, true, false, none, some, pos, if◌then◌else◌, ltb, arith}
use coinos_server.Ledger.Operations.{round_mul}
use coinos_server.Payments.Building.{
  Wanted, Market, built, insufficient, full, quoted, rated, build,
}
use coinos_server.Payments.Building.Fits.{Fitting, build-Fitting}

abbrev wanted : Wanted
wanted = record { is_bitcoin = true; amount = some (pos 2000); rate = 0; subtract = false }

-- The wallet funds what leaves 100 of it for the fee.
abbrev market : Market
market = record {
  fastest = 20;
  half_hour = 10;
  minimum = 5;
  balance = pos 2100;
  credit = 0;
  platform = record { num = 1; den = 100 };
  fund = λ amount rate subtract. if ltb amount 100 then none else some 100;
}

wanted-built : build wanted market (some (pos 2000)) ≡ built 1880 100 20 20 true
unfolding build rated quoted full round_mul
wanted-built = refl

built_within :
    build wanted (record market { balance = pos 2120 }) (some (pos 2000))
    ≡ built 2000 100 20 10 false
unfolding build rated quoted full round_mul
built_within = refl

too_little : build wanted (record market { balance = pos 600 }) (some (pos 600)) ≡ insufficient
unfolding build rated quoted full round_mul
too_little = refl

fund_bounded : (amount rate fee : ℕ) → market.fund amount rate true ≡ some fee → fee ≤ amount
fund_bounded amount rate fee h = ground arith

build-Fitting_example : Fitting market 2000 1880 100 20 true
build-Fitting_example =
    build-Fitting wanted market refl fund_bounded 1880 100 20 20 true 2000 wanted-built
