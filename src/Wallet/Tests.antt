-- ===== src/Wallet/Tests.antt =====
-- Wallet connections at concrete values.
use coinos_server.Base.{
  ℕ, ◌≤◌, ◌≡◌, ◌≢◌, refl, true, false, none, some, List, [], ◌∷◌, arith, pos, length,
}
use coinos_server.Base.Int.{◌-ℤ◌}
use coinos_server.Limits.Allowance.{assert_within_spend_limit}
use coinos_server.Blocks.Frames.{codes}
use coinos_server.Wallet.Budget.{
  App, MaxAmount, Renewal, Spending, Event, spends, reversed, Wallet, spent_in, run,
}
use coinos_server.Wallet.Budget.Window.{run-within}
use coinos_server.Wallet.Admission.{NostrEvent, admitted, on_event}
use coinos_server.Wallet.Admission.Once.{Feed, arrives, arrive_all, admitted-once}
use coinos_server.Wallet.Containment.{Method, Facts, Quarantine, handled, on_request}
use coinos_server.Wallet.Containment.Barred.{on_requests, on_requests-barred}
use coinos_server.Wallet.Instruction.{Text, instruction}
use coinos_server.Wallet.Handlers.{Asked, Decoded, pay_invoice, pay}
use coinos_server.Wallet.Handlers.Guarded.{Guarded, handlers-Guarded}

abbrev budgeted_app : App
budgeted_app = record {
  pubkey = 5;
  uid = 6;
  created = 1000;
  max_amount = MaxAmount.capped (pos 100);
  budget_renewal = Renewal.daily;
}

abbrev buys : ℕ → Spending
buys sats = record {
  id = sats;
  wait = 10;
  asked = pos sats;
  amount = sats;
  tip = 0;
  fee = 2;
  ourfee = 1;
  goes_through = true;
  throws = false;
}

abbrev some_spends : List Event
some_spends = spends (buys 40) ∷ spends (buys 50) ∷ reversed 40 ∷ spends (buys 60) ∷ []

abbrev unused : Wallet
unused = record { now = 5000; entries = [] }

run-within_example :
    spent_in
      (run budgeted_app some_spends unused).now
      86_400_000
      (run budgeted_app some_spends unused).entries
    ≤ 100
run-within_example =
    run-within budgeted_app 100 86_400_000 refl refl some_spends unused
      (unfold spent_in in omega arith)

-- The second spend is above what the first one leaves.
second_refused :
    length (run budgeted_app (spends (buys 40) ∷ spends (buys 58) ∷ []) unused).entries ≡ 1
unfolding run spent_in assert_within_spend_limit ◌-ℤ◌
second_refused = refl

abbrev asks : ℕ → NostrEvent
asks id = record { id = id; pubkey = 5; created_at = 100 }

abbrev idle_feed : Feed
idle_feed = record {
  now = 120_000;
  relay = record { claimed_until = λ _. 0; request_times = λ _. [] };
}

asks-admitted : (arrives 60 (0, asks 1) idle_feed).0 ≡ admitted
unfolding on_event
asks-admitted = refl

admitted-once_example :
    (arrives 60
      (30_000, asks 1)
      (arrive_all 60 ((10, asks 2) ∷ []) (arrives 60 (0, asks 1) idle_feed).1)).0
    ≢ admitted
admitted-once_example =
    admitted-once 60 (asks 1) 0 idle_feed ((10, asks 2) ∷ []) 30_000 (λ e. omega arith)
      asks-admitted

abbrev facts : ℕ → Facts
facts cutoff = record {
  now = 5_000_000_000;
  disabled = false;
  app = some budgeted_app;
  user = true;
  credential_cutoff = cutoff;
  guards_keysend = true;
  newest = [];
}

abbrev nobody : Quarantine
nobody _ = false

on_requests-barred_example :
    (on_request (facts 0) Method.pay 5 (
      on_requests
        ((facts 0, Method.pay, 7) ∷ [])
        (on_request (facts 2000) Method.pay 5 nobody).1)).0
    ≢ handled
on_requests-barred_example =
    on_requests-barred (facts 2000) Method.pay 5 nobody ((facts 0, Method.pay, 7) ∷ []) (facts 0)
      Method.pay (unfold on_request in refl)

abbrev params : List (Text × Text)
params = (codes "LNO", []) ∷ (codes "lightning", codes "lnbc1") ∷ (codes "lno", codes "lno1") ∷ []

abbrev asked : Asked
asked = record { now = 5000; entries = []; max_fee = 0; request_msat = 7000; sent = some 9 }

abbrev decoded : List ℕ → Decoded
decoded _ = record {
  valid = true;
  same_network = true;
  bolt12 = true;
  amount_msat = 0;
  local = false;
}

handlers-Guarded_example :
    Guarded budgeted_app asked
      (pay_invoice budgeted_app asked true 7000 false none (λ i. some i)).calls
    × Guarded budgeted_app asked
        (pay budgeted_app asked (instruction (codes "lno1")) decoded true false none).calls
handlers-Guarded_example =
    handlers-Guarded budgeted_app asked true 7000 false none (λ i. some i)
      (instruction (codes "lno1")) decoded true false none
