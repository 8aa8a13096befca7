-- ===== src/Ledger/Tests.antt =====
-- Runs of the model of lib/tb.ts on a small cluster.
use coinos_server.Base.{
  ℕ, ◌+◌, ◌*◌, ◌^◌, ◌≡◌, refl, ◌≢◌, Bool, true, false, none, some, ◌==◌, if◌then◌else◌, ◌⊎◌, ℤ, pos,
  ◌+ℤ◌, ◌-ℤ◌, ◌/ℤ◌, ◌≤ℤ◌, arith,
}
use coinos_server.Ledger.Ids.{PaymentType, msats, balance_id, pending_id, credit_id, u128}
use coinos_server.Ledger.Distinct.{IsUuid, Role, account_of, account_ids}
use coinos_server.Ledger.Client.{Account}
use coinos_server.Ledger.Cluster.{Accounts, cluster, cluster-IsCluster}
use coinos_server.Ledger.Debit.{
  Tb, DebitArgs, debited, refused, debit_plan, debit_transfers, covered_micro, debit_commit,
  tb_debit, get_account, account_balance_micro, is_empty,
}
use coinos_server.Ledger.Debit.Balance.{debit_commit-balance, tb_debit-keeps_frozen}
use coinos_server.Ledger.Effects.{micro, AdjustRefused, tb_confirm-moves, tb_set_balance-target}
use coinos_server.Ledger.Operations.{tb_confirm, confirm_transfers, tb_set_balance}

-- The uuid 00000000-0000-4000-8000-000000000001.
abbrev alice : ℕ
alice = 4 * 2 ^ 76 + 2 ^ 63 + 1

abbrev bob : ℕ
bob = 4 * 2 ^ 76 + 2 ^ 63 + 2

alice-IsUuid : IsUuid alice
alice-IsUuid = record { large = omega arith; fits = omega arith }

bob-IsUuid : IsUuid bob
bob-IsUuid = record { large = omega arith; fits = omega arith }

abbrev account : ℕ → Bool → ℕ → ℕ → Account
account l b d p = record { ledger = l; limited = b; debits_posted = d; credits_posted = p }

-- Alice has 100 sats, 20 pending and a credit of 2.5 sats on lightning.
abbrev accounts : Accounts
accounts i =
    if i == 1
    then some (account 1 false 120_000_000 0)
    else if i == 3
    then some (account 3 false 2_500_000 0)
    else if i == u128 (balance_id alice)
    then some (account 1 true 0 100_000_000)
    else if i == u128 (pending_id alice)
    then some (account 1 true 0 20_000_000)
    else if i == u128 (credit_id alice PaymentType.lightning)
    then some (account 3 true 0 2_500_000)
    else none

abbrev start : Tb Accounts
start = record { db = accounts; transfer_id_counter = 0 }

-- 50 sats over lightning with a network fee of 2 and a platform fee of 4; 10 sats are frozen.
abbrev payment : DebitArgs
payment = record {
  aid = alice;
  uid = alice;
  credit_type = PaymentType.lightning;
  amount = 50;
  tip = 0;
  fee = 2;
  ourfee = 4;
  frozen = 10;
}

payment-debited : (tb_debit cluster payment start).0 ≡ debited (pos 1)
unfolding tb_debit debit_plan debit_commit covered_micro debit_transfers get_account
    account_balance_micro credit_id pending_id balance_id u128 ◌-ℤ◌ ◌/ℤ◌
payment-debited = refl

balance-exists : get_account cluster (balance_id alice) start.db ≢ none
unfolding get_account balance_id u128
balance-exists e = cc

pending-exists : cluster.lookup_account (account_of Role.pending alice) start.db ≢ none
unfolding pending_id balance_id u128
pending-exists e = cc

account_ids_example :
    IsUuid (account_of Role.balance alice)
    × (account_of Role.balance alice ≡ account_of Role.pending alice → Role.balance ≡ Role.pending)
    × (account_of Role.balance alice ≡ account_of Role.balance bob → alice ≡ bob)
account_ids_example = account_ids Role.balance Role.pending alice bob alice-IsUuid bob-IsUuid

-- The same with a tip.
abbrev tipped : DebitArgs
tipped = record payment { tip = 3 }

debit_commit-balance_example :
    let (r, s') = debit_commit cluster tipped (debit_plan cluster tipped accounts) start in
    ((f : ℤ)
      → r ≡ debited f
      → (n : ℕ) × (f ≡ pos n)
        × (account_balance_micro (get_account cluster (balance_id alice) s'.db)
            ≡ account_balance_micro (get_account cluster (balance_id alice) accounts)
              -ℤ pos ((50 + 3 + 2 + n) * msats))
        × (covered_micro cluster tipped accounts +ℤ pos (n * msats) ≤ℤ pos (4 * msats))
        × (pos (4 * msats + 1) ≤ℤ covered_micro cluster tipped accounts +ℤ pos ((n + 1) * msats)))
    × ((avail need : ℤ) → r ≡ refused avail need → (i : ℕ) → s'.db i ≡ accounts i)
debit_commit-balance_example =
    debit_commit-balance cluster cluster-IsCluster tipped accounts start alice-IsUuid balance-exists

tb_debit-keeps_frozen_example :
    pos (10 * msats)
    ≤ℤ account_balance_micro
        (get_account cluster (balance_id alice) (tb_debit cluster payment start).1.db)
tb_debit-keeps_frozen_example =
    tb_debit-keeps_frozen cluster cluster-IsCluster payment start (pos 1) alice-IsUuid
      balance-exists payment-debited

balance_of-exists : cluster.lookup_account (account_of Role.balance alice) start.db ≢ none
unfolding balance_id u128
balance_of-exists e = cc

tb_confirm-moves_example :
    ((micro cluster cluster-IsCluster Role.balance alice (tb_confirm cluster alice 20 start)
        ≡ micro cluster cluster-IsCluster Role.balance alice start +ℤ pos (20 * msats))
      × (micro cluster cluster-IsCluster Role.pending alice (tb_confirm cluster alice 20 start)
          ≡ micro cluster cluster-IsCluster Role.pending alice start -ℤ pos (20 * msats)))
    ⊎ ((is_empty (cluster.create_transfers (confirm_transfers cluster alice 20 start) start.db).0
          ≡ false)
        × ((i : ℕ) → (tb_confirm cluster alice 20 start).db i ≡ start.db i))
tb_confirm-moves_example =
    tb_confirm-moves cluster cluster-IsCluster alice 20 start alice-IsUuid balance_of-exists
      pending-exists

tb_set_balance-target_example :
    (micro cluster cluster-IsCluster Role.balance alice (tb_set_balance cluster alice 70 start)
      ≡ pos (70 * msats))
    ⊎ (AdjustRefused cluster cluster-IsCluster alice alice-IsUuid
          (pos (70 * msats) -ℤ micro cluster cluster-IsCluster Role.balance alice start)
          start
        × ((i : ℕ) → (tb_set_balance cluster alice 70 start).db i ≡ start.db i))
tb_set_balance-target_example =
    tb_set_balance-target cluster cluster-IsCluster alice alice-IsUuid 70 start balance_of-exists
