-- ===== src/Payments/Onchain/Tests.antt =====
-- Runs of the model of `sendOnchain` of lib/payments.ts.
use coinos_server.Base.{
  ◌*◌, ◌-◌, ◌≡◌, refl, true, false, none, some, [], ◌∷◌, ◌==◌, if◌then◌else◌, pos, negsuc, ◌-ℤ◌,
  ◌/ℤ◌, ◌≤ℤ◌, arith,
}
use coinos_server.Ledger.Ids.{PaymentType, msats, balance_id, pending_id, credit_id, u128}
use coinos_server.Ledger.Cluster.{Accounts, cluster, cluster-IsCluster}
use coinos_server.Ledger.Debit.{
  get_account, get_balance, account_balance_micro, covered_micro, debit_plan, debit_transfers,
  debit_commit, tb_debit,
}
use coinos_server.Ledger.Operations.{round_mul}
use coinos_server.Limits.Breaker.{assert_withdraw_breaker, record_withdrawal}
use coinos_server.Limits.Allowance.{assert_within_spend_limit, debit_total}
use coinos_server.Payments.Store.{Payment}
use coinos_server.Payments.Debit.{
  is_withdraw_locked, gate, reserve, charge, breaker, ledger, debit_args, platform_fee, store,
  debit,
}
use coinos_server.Payments.Samples.{alice, alice-IsUuid, alice-exists, world, limits, fees, facts}
use coinos_server.Payments.Onchain.{
  Output, Tx, Send, Vault, declines, dispatched, inputs_taken, not_countable, count_bitcoin,
  count_liquid, amount_and_fee, broadcast, pay_out, evaluate, guarded, send_onchain,
}
use coinos_server.Payments.Onchain.Released.{Freed, send_onchain-Freed}
use coinos_server.Payments.Onchain.Covered.{mine_value}
use coinos_server.Payments.Onchain.Backed.{send_onchain-covers}

abbrev output : Output
output = record {
  address = some 5;
  value = 40;
  is_mine = false;
  invoice_aid = none;
  is_fee = false;
  is_lbtc = true;
}

abbrev change : Output
change = record output { address = some 6; value = 50; is_mine = true }

-- It pays 40 sats, has 50 in change and burns 2, and the fee is 8.
abbrev tx : Tx
tx = record {
  is_bitcoin = true;
  txid = 11;
  signed_txid = 11;
  vin = 21 ∷ 22 ∷ [];
  total_in = 100;
  vout = output ∷ change ∷ record output { address = none; value = 2 } ∷ [];
}

abbrev send : Send
send = record {
  aid = alice;
  uid = alice;
  dest = some 5;
  supplied = true;
  accepted = true;
  rebuild = none;
  broadcasts = true;
}

abbrev vault : Vault Accounts
vault = record {
  world = world;
  receipt = λ i. if i == 11 then some alice else none;
  locked = λ i. i == 23;
  sending = λ i. false;
  sent = [];
  unconfirmed = [];
}

abbrev payment : Payment
payment = record {
  id = 77;
  aid = alice;
  uid = alice;
  hash = 11;
  amount = negsuc 39;
  fee = 10;
  ourfee = pos 1;
  tip = 0;
  type = PaymentType.bitcoin;
  confirmed = false;
  ref = none;
}

-- On Liquid the output for the fee is not counted, and the fee is fixed.
liquid_sums :
    amount_and_fee alice (some 5) (record tx {
      is_bitcoin = false;
      vout = output ∷ change ∷ record output { is_fee = true } ∷ [];
    })
    ≡ some (40, 50)
unfolding amount_and_fee count_liquid
liquid_sums = refl

to_invoice :
    amount_and_fee alice none (record tx { vout = record output { invoice_aid = some alice } ∷ [] })
    ≡ none
unfolding amount_and_fee count_bitcoin
to_invoice = refl

vault-sent : (send_onchain cluster limits fees facts send tx vault).0 ≡ dispatched payment
unfolding send_onchain guarded evaluate pay_out broadcast amount_and_fee count_bitcoin debit gate
    reserve charge breaker ledger debit_args store is_withdraw_locked platform_fee round_mul
    assert_within_spend_limit debit_total assert_withdraw_breaker record_withdrawal tb_debit
    debit_plan debit_commit covered_micro debit_transfers get_account get_balance
    account_balance_micro credit_id pending_id balance_id u128 ◌-ℤ◌ ◌/ℤ◌
vault-sent = refl

send_onchain-covers_example :
    account_balance_micro (
      get_account cluster
        (balance_id alice)
        (send_onchain cluster limits fees facts send tx vault).1.world.tb.db)
    ≤ℤ account_balance_micro (get_account cluster (balance_id alice) world.tb.db)
      -ℤ pos ((100 - mine_value tx.vout) * msats)
send_onchain-covers_example =
    send_onchain-covers cluster limits fees facts send tx vault payment cluster-IsCluster
      alice-IsUuid alice-exists refl refl (omega arith) vault-sent

-- One of the outputs is locked by another call.
abbrev taken : Vault Accounts
taken = record vault { locked = λ i. i == 22 }

taken-declines : (send_onchain cluster limits fees facts send tx taken).0 ≡ declines inputs_taken
unfolding send_onchain
taken-declines = refl

-- The transaction pays an invoice of the sender, which is found once the outputs are locked.
abbrev own : Tx
own = record tx { vout = record output { invoice_aid = some alice } ∷ [] }

own-declines : (send_onchain cluster limits fees facts send own vault).0 ≡ declines not_countable
unfolding send_onchain guarded evaluate amount_and_fee count_bitcoin
own-declines = refl

send_onchain-Freed_example : Freed vault (send_onchain cluster limits fees facts send own vault).1
send_onchain-Freed_example =
    send_onchain-Freed cluster limits fees facts send own vault not_countable refl own-declines
