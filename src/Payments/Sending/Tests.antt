-- ===== src/Payments/Sending/Tests.antt =====
-- Runs of the models of `sendLightning` and `sendKeysend` of lib/payments.ts.
use coinos_server.Base.{
  ◌≡◌, ◌↔◌, refl, true, false, none, some, List, [], ◌∷◌, ◌==◌, if◌then◌else◌, pos, ◌-ℤ◌, ◌/ℤ◌,
}
use coinos_server.Ledger.Ids.{balance_id, pending_id, credit_id, u128}
use coinos_server.Ledger.Cluster.{Accounts, cluster, cluster-IsCluster}
use coinos_server.Ledger.Debit.{
  get_account, get_balance, account_balance_micro, covered_micro, debit_plan, debit_transfers,
  debit_commit, tb_debit,
}
use coinos_server.Ledger.Operations.{round_mul}
use coinos_server.Limits.Breaker.{assert_withdraw_breaker, record_withdrawal}
use coinos_server.Limits.Allowance.{assert_within_spend_limit, debit_total}
use coinos_server.Payments.Debit.{
  is_withdraw_locked, gate, reserve, charge, breaker, ledger, debit_args, platform_fee, store,
  debit,
}
use coinos_server.Payments.Samples.{alice, world, limits, fees, facts, request, sent}
use coinos_server.Payments.Route.{failed, complete, pending, reverses, all_failed}
use coinos_server.Payments.Sending.{
  Nodes, absent, number, Ask, gives, refuses, still_settling, Site, checked_amount, invoice_for,
  fee_limit, unpaid, charged, debit_request, prepare, settle_claim, claim_and_debit, send_lightning,
  keysend_fee, Sendpay, labelled, keysend,
}
use coinos_server.Payments.Sending.Claims.{Sent, send_lightning-Sent}
use coinos_server.Payments.Sending.Flights.{Kept, send_lightning-Kept}
use coinos_server.Payments.Sending.Baseline.{from, keysend-reverses}

-- Invoice 9 over 50 sats, of which a first attempt has failed; offer 8 without an amount, for which
-- invoice 9 is fetched.
abbrev nodes : Nodes
nodes = record {
  decode = λ i. record {
    is_offer = i == 8;
    is_bolt12 = i == 8;
    offer_currency = false;
    offer_amount_msat = 0;
    invoice_amount_msat = 0;
    amount_msat = if i == 9 then 50_000 else 0;
    invoice_node_id = 0;
    payee = 2;
  };
  fetchinvoice = λ i amount. 9;
  is_peer = λ i. false;
  listpays = λ i. failed ∷ [];
}

abbrev ask : Ask
ask = record { uid = alice; pr = 9; amount = absent; fee = some (pos 3); max_total = some 60 }

abbrev site : Site Accounts
site = record { world = world; pending = λ _. false }

asks_once : prepare nodes ask ≡ gives request
unfolding prepare checked_amount invoice_for fee_limit unpaid charged debit_request
asks_once = refl

-- An offer needs an amount, which is at least the fee's share.
asks_offer :
    (prepare nodes (record ask { pr = 8; amount = number (pos 70); fee = none }))
    ≡ gives (record request { fee = 10 })
unfolding prepare checked_amount invoice_for fee_limit unpaid charged debit_request round_mul
asks_offer = refl

-- Without an amount and a fee, neither a fee nor a platform fee is asked for.
asks_nothing :
    prepare nodes (record ask { fee = none })
    ≡ gives (record request { fee = 0; ourfee_override = some 0 })
unfolding prepare checked_amount invoice_for fee_limit unpaid charged debit_request
asks_nothing = refl

keysend_fees : ((keysend_fee none 3000) ≡ 15) × (keysend_fee (some 2) 3000 ≡ 5)
unfolding keysend_fee
keysend_fees = (refl, refl)

ask-sent : (send_lightning cluster limits fees facts nodes ask site).0 ≡ gives sent
unfolding send_lightning claim_and_debit settle_claim prepare checked_amount invoice_for fee_limit
    unpaid charged debit_request debit gate reserve charge breaker ledger debit_args store
    is_withdraw_locked platform_fee round_mul assert_within_spend_limit debit_total
    assert_withdraw_breaker record_withdrawal tb_debit debit_plan debit_commit covered_micro
    debit_transfers get_account get_balance account_balance_micro credit_id pending_id balance_id
    u128 ◌-ℤ◌ ◌/ℤ◌
ask-sent = refl

send_lightning-Sent_example : Sent cluster limits fees facts nodes ask site sent
send_lightning-Sent_example =
    send_lightning-Sent cluster limits fees facts nodes ask site sent ask-sent

abbrev held : Site Accounts
held = record site { pending = λ i. i == 9 }

ask-held : (send_lightning cluster limits fees facts nodes ask held).0 ≡ refuses still_settling
unfolding send_lightning claim_and_debit prepare checked_amount invoice_for fee_limit unpaid charged
    debit_request
ask-held = refl

send_lightning-Kept_example :
    Kept cluster cluster-IsCluster limits fees held
      (send_lightning cluster limits fees facts nodes ask held).1
send_lightning-Kept_example =
    send_lightning-Kept cluster cluster-IsCluster limits fees facts nodes ask held still_settling
      ask-held

-- The last sendpay before the call has another label.
abbrev sendpays : List Sendpay
sendpays =
    record { created = 1; label = 1; status = complete }
    ∷ record { created = 2; label = 5; status = failed }
    ∷ record { created = 3; label = 6; status = pending }
    ∷ []

keysend-reverses_example :
    (keysend 5 false false true (some 1) (λ n. some (from n sendpays)) ≡ reverses)
    ↔ (all_failed (labelled 5 sendpays) ≡ true)
keysend-reverses_example =
    keysend-reverses 5 1 true sendpays (λ n. some (from n sendpays)) (λ n. refl) refl
