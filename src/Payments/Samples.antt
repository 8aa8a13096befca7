-- ===== src/Payments/Samples.antt =====
-- An account, a request and the payment that lib/payments.ts makes of it, for the tests.
use coinos_server.Base.{
  ℕ, ◌+◌, ◌*◌, ◌^◌, ◌≡◌, ◌≢◌, refl, true, false, none, some, [], ◌==◌, if◌then◌else◌, pos, negsuc,
  ◌-ℤ◌, ◌/ℤ◌, arith,
}
use coinos_server.Ledger.Ids.{PaymentType, balance_id, pending_id, credit_id, u128}
use coinos_server.Ledger.Distinct.{IsUuid}
use coinos_server.Ledger.Cluster.{Accounts, cluster}
use coinos_server.Ledger.Debit.{
  get_account, get_balance, account_balance_micro, covered_micro, debit_plan, debit_transfers,
  debit_commit, tb_debit,
}
use coinos_server.Ledger.Operations.{Rate, round_mul}
use coinos_server.Limits.Breaker.{Limits, missing, assert_withdraw_breaker, record_withdrawal}
use coinos_server.Limits.Allowance.{assert_within_spend_limit, debit_total}
use coinos_server.Payments.Store.{Payment, World, returns}
use coinos_server.Payments.Debit.{
  Request, Fees, Facts, is_withdraw_locked, gate, reserve, charge, breaker, ledger, debit_args,
  platform_fee, store, debit,
}

abbrev pub alice : ℕ
alice = 4 * 2 ^ 76 + 2 ^ 63 + 1

pub alice-IsUuid : IsUuid alice
alice-IsUuid = record { large = omega arith; fits = omega arith }

abbrev pub accounts : Accounts
accounts i =
    if i == 1
    then some
        (record { ledger = 1; limited = false; debits_posted = 100_000_000; credits_posted = 0 })
    else if i == u128 (balance_id alice)
    then some
        (record { ledger = 1; limited = true; debits_posted = 0; credits_posted = 100_000_000 })
    else none

abbrev pub world : World Accounts
world = record {
  tb = record { db = accounts; transfer_id_counter = 0 };
  dir = record { state = missing; locked = false; writable = true };
  type_locked = λ _. false;
  limit = λ _. some (pos 1000);
  payment = λ _. none;
  payment_of_hash = λ _. none;
  payments_of = λ _. [];
  changed = [];
}

abbrev pub limits : Limits
limits = record { cap = 1000; window_ms = 86_400_000 }

abbrev pub percent : ℕ → Rate
percent n = record { num = n; den = 100 }

abbrev pub fees : Fees
fees = record {
  bitcoin = percent 1;
  liquid = percent 1;
  lightning = percent 1;
  lightning_high = percent 2;
}

abbrev pub facts : Facts
facts = record {
  whitelisted = false;
  blacklisted = false;
  blocked = false;
  hard_freeze = false;
  freeze = false;
  user_limit = none;
  invoice = none;
  no_free = false;
  now = 5;
  new_id = 77;
}

abbrev pub request : Request
request = record {
  aid = none;
  uid = alice;
  hash = 9;
  amount = pos 50;
  fee = 3;
  type = PaymentType.lightning;
  ourfee_override = none;
  credit_type_override = none;
  max_total = some 60;
}

abbrev pub sent : Payment
sent = record {
  id = 77;
  aid = alice;
  uid = alice;
  hash = 9;
  amount = negsuc 49;
  fee = 3;
  ourfee = pos 1;
  tip = 0;
  type = PaymentType.lightning;
  confirmed = false;
  ref = none;
}

pub request-sent : (debit cluster limits fees facts request world).0 ≡ returns sent
unfolding debit gate reserve charge breaker ledger debit_args store is_withdraw_locked platform_fee
    round_mul assert_within_spend_limit debit_total assert_withdraw_breaker record_withdrawal
    tb_debit debit_plan debit_commit covered_micro debit_transfers get_account get_balance
    account_balance_micro credit_id pending_id balance_id u128 ◌-ℤ◌ ◌/ℤ◌
request-sent = refl

pub alice-exists : get_account cluster (balance_id alice) accounts ≢ none
unfolding get_account balance_id u128
alice-exists e = cc
