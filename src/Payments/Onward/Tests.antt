-- ===== src/Payments/Onward/Tests.antt =====
-- Runs of the models of `completePayment` and `pay` of lib/payments.ts.
use coinos_server.Base.{
  ◌≡◌, refl, true, false, none, some, [], pos, negsuc, ◌*◌, ◌-ℤ◌, ◌/ℤ◌, ◌≤ℤ◌, arith,
}
use coinos_server.Ledger.Operations.{round_mul}
use coinos_server.Ledger.Ids.{PaymentType, msats, balance_id, pending_id, credit_id, u128}
use coinos_server.Ledger.Cluster.{cluster, cluster-IsCluster}
use coinos_server.Ledger.Debit.{
  get_account, get_balance, account_balance, account_balance_micro, covered_micro, debit_plan,
  debit_transfers, debit_commit, tb_debit,
}
use coinos_server.Limits.Breaker.{assert_withdraw_breaker, record_withdrawal}
use coinos_server.Limits.Allowance.{assert_within_spend_limit, debit_total}
use coinos_server.Payments.Store.{Payment, returns}
use coinos_server.Payments.Debit.{
  is_withdraw_locked, gate, reserve, charge, breaker, ledger, debit_args, platform_fee, store,
  debit,
}
use coinos_server.Payments.Sending.{Nodes, absent, Ask, charged, debit_request}
use coinos_server.Payments.Samples.{
  alice, alice-IsUuid, alice-exists, world, limits, fees, facts, sent,
}
use coinos_server.Payments.Onward.{
  Settings, settings_of, Received, withdraws, forwards, rests, withdrawal, complete_payment, user,
  lnurl, chain, send_lightning, send_onchain, refused, less_fees, pay,
}
use coinos_server.Payments.Onward.Reserve.{withdrawal-reserve}

abbrev settings : Settings
settings = record { autowithdraw = some true; threshold = some (pos 50); reserve = some (pos 10) }

abbrev received : Received
received = record {
  confirmed = true;
  is_ark = false;
  amount = pos 30;
  forward = false;
  forwarded = false;
  locked = true;
  to_itself = false;
}

abbrev open_nodes : Nodes
open_nodes = record {
  decode = λ i. record {
    is_offer = false;
    is_bolt12 = false;
    offer_currency = false;
    offer_amount_msat = 0;
    invoice_amount_msat = 0;
    amount_msat = 0;
    invoice_node_id = 0;
    payee = 2;
  };
  fetchinvoice = λ i amount. i;
  is_peer = λ i. false;
  listpays = λ i. [];
}

abbrev ask : Ask
ask = record { uid = alice; pr = 9; amount = absent; fee = none; max_total = none }

withdraws_above : complete_payment settings received (pos 100) ≡ withdraws (pos 90)
unfolding complete_payment withdrawal ◌-ℤ◌
withdraws_above = refl

keeps_below : complete_payment settings received (pos 50) ≡ rests
unfolding complete_payment withdrawal
keeps_below = refl

forwards_first :
    complete_payment settings (record received { forward = true }) (pos 100) ≡ forwards (pos 30)
unfolding complete_payment
forwards_first = refl

-- The settings of the account come before those of the user.
account_first :
    settings_of
      (some (record { autowithdraw = some false; threshold = none; reserve = none }))
      settings
    ≡ record settings { autowithdraw = some false }
account_first = refl

paid_out : pay fees alice alice (pos 90) lnurl ≡ send_lightning alice (pos 84) 5
unfolding pay less_fees round_mul ◌-ℤ◌
paid_out = refl

-- A withdrawal of another account over Lightning is taken from the user's own.
other_account :
    (pay fees 1 2 (pos 90) lnurl ≡ send_lightning 1 (pos 84) 5)
    × (pay fees 1 2 (pos 90) chain ≡ send_onchain 2 (pos 90))
    × (pay fees 1 2 (pos 90) (user 2) ≡ refused)
unfolding pay less_fees round_mul ◌-ℤ◌
other_account = (refl, refl, refl)

open_charge : charged (open_nodes.decode 9) (some 84) ≡ pos 84
unfolding charged
open_charge = refl

asked_amount :
    complete_payment settings received (get_balance cluster alice world.tb.db) ≡ withdraws (pos 90)
unfolding complete_payment withdrawal get_balance get_account account_balance balance_id u128 ◌-ℤ◌
    ◌/ℤ◌
asked_amount = refl

no_credits :
    pos 0
    ≤ℤ account_balance_micro
        (get_account cluster (credit_id alice PaymentType.lightning) world.tb.db)
unfolding get_account account_balance_micro credit_id u128 balance_id
no_credits = omega arith

abbrev withdrawn : Payment
withdrawn = record sent { amount = negsuc 83; fee = 5 }

withdrawn-sent :
    (debit cluster limits fees facts (debit_request ask open_nodes 9 (some 84) (some 5)) world).0
    ≡ returns withdrawn
unfolding charged debit_request debit gate reserve charge breaker ledger debit_args store
    is_withdraw_locked platform_fee round_mul assert_within_spend_limit debit_total
    assert_withdraw_breaker record_withdrawal tb_debit debit_plan debit_commit covered_micro
    debit_transfers get_account get_balance account_balance_micro credit_id pending_id balance_id
    u128 ◌-ℤ◌ ◌/ℤ◌
withdrawn-sent = refl

withdrawal-reserve_example :
    let asked = debit_request ask open_nodes 9 (some 84) (some 5) in
    (alice ≡ alice)
    × (pos (10 * msats)
        ≤ℤ account_balance_micro (
            get_account cluster
              (balance_id alice)
              (debit cluster limits fees facts asked world).1.tb.db))
withdrawal-reserve_example =
    withdrawal-reserve cluster cluster-IsCluster limits fees facts settings received world ask
      open_nodes 9 (pos 90) (pos 84) 10 alice alice 5 lnurl withdrawn asked_amount refl paid_out
      refl (omega arith) open_charge refl alice-IsUuid alice-exists no_credits withdrawn-sent
