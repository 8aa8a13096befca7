-- ===== src/Payments/Credit/Tests.antt =====
-- Runs of the models of `credit` and `sendInternal` of lib/payments.ts.
use coinos_server.Base.{
  ℕ, ◌+◌, ◌*◌, ◌^◌, ◌≡◌, ◌≢◌, refl, true, false, none, some, [], ◌==◌, if◌then◌else◌, pos, negsuc,
  ◌+ℤ◌, ◌-ℤ◌, ◌/ℤ◌, arith,
}
use coinos_server.Ledger.Ids.{PaymentType, msats, balance_id, pending_id, credit_id, u128}
use coinos_server.Ledger.Distinct.{IsUuid}
use coinos_server.Ledger.Cluster.{Accounts, cluster, cluster-IsCluster}
use coinos_server.Ledger.Debit.{
  get_account, get_balance, account_balance_micro, covered_micro, debit_plan, debit_transfers,
  debit_commit, tb_debit,
}
use coinos_server.Ledger.Operations.{
  Rate, tb_credit, credit_transfers, credit_amount_micro, round_mul,
}
use coinos_server.Limits.Breaker.{Limits, missing}
use coinos_server.Limits.Allowance.{assert_within_spend_limit, debit_total}
use coinos_server.Payments.Store.{Payment, Invoice, World}
use coinos_server.Payments.Debit.{
  Fees, Facts, gate, reserve, charge, breaker, ledger, debit_args, platform_fee, store, debit,
  is_withdraw_locked,
}
use coinos_server.Payments.Credit.{
  Desk, Receipt, Reads, done, sent, settlement_ref, receipt_payment, credited_amount, keep_payment,
  claim_and_credit, locked_credit, with_invoice, credit, send_internal,
}
use coinos_server.Payments.Credit.Claims.{credit-once}
use coinos_server.Payments.Credit.Kept.{at_once, calls}
use coinos_server.Payments.Credit.Amounts.{holding, credit-record}
use coinos_server.Payments.Credit.Internal.{debited_world, send_internal-moves}

abbrev alice : ℕ
alice = 4 * 2 ^ 76 + 2 ^ 63 + 1

abbrev bob : ℕ
bob = 4 * 2 ^ 76 + 2 ^ 63 + 2

alice-IsUuid : IsUuid alice
alice-IsUuid = record { large = omega arith; fits = omega arith }

bob-IsUuid : IsUuid bob
bob-IsUuid = record { large = omega arith; fits = omega arith }

abbrev accounts : Accounts
accounts i =
    if i == 1
    then some
        (record { ledger = 1; limited = false; debits_posted = 100_000_000; credits_posted = 0 })
    else if i == u128 (balance_id alice)
    then some
        (record { ledger = 1; limited = true; debits_posted = 0; credits_posted = 100_000_000 })
    else if i == u128 (balance_id bob)
    then some (record { ledger = 1; limited = true; debits_posted = 0; credits_posted = 0 })
    else none

abbrev world : World Accounts
world = record {
  tb = record { db = accounts; transfer_id_counter = 0 };
  dir = record { state = missing; locked = false; writable = true };
  type_locked = λ _. false;
  limit = λ _. some (pos 1000);
  payment = λ _. none;
  payment_of_hash = λ _. none;
  payments_of = λ _. [];
  changed = [];
}

-- Bob's invoice over 40 sats with a tip of 2.
abbrev invoice : Invoice
invoice = record {
  id = 4;
  uid = bob;
  type = PaymentType.lightning;
  received = 0;
  pending = 0;
  amount = 40;
  payment_hash = none;
  tip = some (pos 2);
}

abbrev desk : Desk Accounts
desk = record {
  world = world;
  invoice_id = λ _. some 4;
  invoice = λ _. some invoice;
  lock = λ _. false;
  credited = λ _. false;
  missing = [];
}

abbrev receipt : Receipt
receipt = record {
  hash = 9;
  amount = pos 40;
  ref = 55;
  type = PaymentType.lightning;
  aid = none;
  tip = none;
}

abbrev reads : Reads
reads = record {
  offer = none;
  stored_preimage = none;
  user_exists = true;
  fee_rate = none;
  no_free = false;
  new_id = 78;
}

abbrev paid : Payment
paid = record {
  id = 78;
  aid = bob;
  uid = bob;
  hash = 9;
  amount = pos 38;
  fee = 0;
  ourfee = pos 0;
  tip = 2;
  type = PaymentType.lightning;
  confirmed = true;
  ref = some 55;
}

receipt-done : (credit cluster reads receipt desk).0 ≡ done paid
unfolding credit with_invoice locked_credit claim_and_credit keep_payment settlement_ref
    receipt_payment tb_credit credit_transfers credit_amount_micro balance_id pending_id credit_id
    u128
receipt-done = refl

bob-exists : get_account cluster (balance_id bob) accounts ≢ none
unfolding get_account balance_id u128
bob-exists e = cc

alice-exists : get_account cluster (balance_id alice) accounts ≢ none
unfolding get_account balance_id u128
alice-exists e = cc

-- After the call another settlement is credited.
abbrev next_receipt : Receipt
next_receipt = record receipt { ref = receipt.ref + 1 }

credit-once_example :
    let d = (credit cluster reads receipt desk).1 in
    let e = (credit cluster reads next_receipt d).1 in
    (credit cluster reads receipt e).1.world.tb ≡ e.world.tb
credit-once_example =
    credit-once cluster reads reads receipt receipt desk
      (credit cluster reads next_receipt (credit cluster reads receipt desk).1).1 paid refl refl
      refl refl refl receipt-done (calls reads next_receipt at_once)

credit-record_example :
    (holding cluster cluster-IsCluster receipt bob (credit cluster reads receipt desk).1.world.tb
      ≡ holding cluster cluster-IsCluster receipt bob world.tb +ℤ pos ((38 + 2) * msats))
    × (paid ≡ receipt_payment reads receipt invoice)
    × (38 + 2 ≡ credited_amount receipt invoice)
unfolding get_account
credit-record_example =
    credit-record cluster cluster-IsCluster reads receipt invoice desk paid refl refl bob-IsUuid
      bob-exists receipt-done

abbrev limits : Limits
limits = record { cap = 1000; window_ms = 86_400_000 }

abbrev percent : ℕ → Rate
percent n = record { num = n; den = 100 }

abbrev fees : Fees
fees = record {
  bitcoin = percent 1;
  liquid = percent 1;
  lightning = percent 1;
  lightning_high = percent 2;
}

abbrev facts : Facts
facts = record {
  whitelisted = false;
  blacklisted = false;
  blocked = false;
  hard_freeze = false;
  freeze = true;
  user_limit = none;
  invoice = none;
  no_free = false;
  now = 5;
  new_id = 77;
}

abbrev outgoing : Payment
outgoing = record {
  id = 77;
  aid = alice;
  uid = alice;
  hash = 9;
  amount = negsuc 39;
  fee = 0;
  ourfee = pos 0;
  tip = 2;
  type = PaymentType.internal;
  confirmed = true;
  ref = some bob;
}

abbrev incoming : Payment
incoming = record {
  id = 78;
  aid = bob;
  uid = bob;
  hash = 9;
  amount = pos 40;
  fee = 0;
  ourfee = pos 0;
  tip = 2;
  type = PaymentType.internal;
  confirmed = true;
  ref = some alice;
}

internal-sent :
    (send_internal cluster limits fees facts reads alice 9 (pos 40) none desk).0
    ≡ sent outgoing (done incoming)
unfolding send_internal credit with_invoice locked_credit claim_and_credit keep_payment
    settlement_ref receipt_payment tb_credit credit_transfers credit_amount_micro debit gate reserve
    charge breaker ledger debit_args store is_withdraw_locked platform_fee round_mul
    assert_within_spend_limit debit_total tb_debit debit_plan debit_commit covered_micro
    debit_transfers get_account get_balance account_balance_micro credit_id pending_id balance_id
    u128 ◌-ℤ◌ ◌/ℤ◌
internal-sent = refl

bob-still :
    get_account cluster
      (balance_id bob)
      (debited_world cluster cluster-IsCluster limits fees facts reads alice 9
        (pos 40)
        none
        desk).tb.db
    ≢ none
unfolding debit gate reserve charge breaker ledger debit_args store is_withdraw_locked platform_fee
    round_mul assert_within_spend_limit debit_total tb_debit debit_plan debit_commit covered_micro
    debit_transfers get_account get_balance account_balance_micro credit_id pending_id balance_id
    u128 ◌-ℤ◌ ◌/ℤ◌
bob-still e = cc

send_internal-moves_example :
    let w1 =
      debited_world cluster cluster-IsCluster limits fees facts reads alice 9 (pos 40) none desk in
    let d' = (send_internal cluster limits fees facts reads alice 9 (pos 40) none desk).1 in
    (account_balance_micro (get_account cluster (balance_id alice) w1.tb.db)
      ≡ account_balance_micro (get_account cluster (balance_id alice) accounts)
        -ℤ pos ((40 + 2) * msats))
    × (account_balance_micro (get_account cluster (balance_id bob) d'.world.tb.db)
        ≡ account_balance_micro (get_account cluster (balance_id bob) w1.tb.db)
          +ℤ pos ((40 + 2) * msats))
send_internal-moves_example =
    send_internal-moves cluster cluster-IsCluster limits fees facts reads alice 9 (pos 40) none desk
      outgoing incoming invoice internal-sent refl alice-IsUuid bob-IsUuid alice-exists bob-still
