-- ===== src/Payments/Tests.antt =====
-- Runs of the models of lib/payments.ts on the accounts of Ledger.Tests' cluster.
use coinos_server.Base.{
  ℕ, ◌+◌, ◌-◌, ◌*◌, ◌≡◌, ◌⊎◌, refl, true, false, ◌||◌, none, some, pos, negsuc, pos_part, ◌+ℤ◌,
  ◌-ℤ◌, ◌/ℤ◌, ◌≤ℤ◌,
}
use coinos_server.Ledger.Ids.{PaymentType, msats, balance_id, pending_id, credit_id, u128}
use coinos_server.Ledger.Cluster.{Accounts, cluster, cluster-IsCluster}
use coinos_server.Ledger.Debit.{
  get_account, get_balance, account_balance_micro, covered_micro, debit_plan, debit_transfers,
  debit_commit, tb_debit,
}
use coinos_server.Ledger.Operations.{round_mul}
use coinos_server.Limits.Breaker.{assert_withdraw_breaker, record_withdrawal}
use coinos_server.Limits.Allowance.{assert_within_spend_limit, debit_total}
use coinos_server.Payments.Store.{Invoice, returns}
use coinos_server.Payments.Debit.{
  Facts, is_withdraw_locked, gate, reserve, charge, breaker, ledger, debit_args, platform_fee,
  store, debit,
}
use coinos_server.Payments.Debit.Results.{debit-permitted, debit-record}
use coinos_server.Payments.Debit.Refusals.{FailsClean, debit-FailsClean}
use coinos_server.Payments.Controls.{FundFlags}
use coinos_server.Payments.Settle.{
  Book, Receipt, finalize, reverse, reversed, finalized, actual_fee,
}
use coinos_server.Ledger.Operations.{reverse_transfers, refund_transfers}
use coinos_server.Payments.Settle.{total_of, credit_of}
use coinos_server.Payments.Settle.Amounts.{
  Refuses, opened_book, balance_of, debit-reverse, finalize-refunds,
}
use coinos_server.Payments.Samples.{
  alice, alice-IsUuid, accounts, world, limits, fees, facts, request, sent, request-sent,
  alice-exists,
}

debit-permitted_example :
    (false ≡ false)
    × (is_withdraw_locked PaymentType.lightning world ≡ false)
    × (false || false ≡ true → false ≡ true)
    × (pos 1 ≤ℤ pos 50)
    × (pos 50 ≤ℤ pos 1000)
    × ((debit cluster limits fees facts request world).1.limit PaymentType.lightning
        ≡ some (pos 1000 -ℤ pos 50))
debit-permitted_example =
    debit-permitted cluster limits fees facts request world sent request-sent refl

debit-record_example :
    let w' = (debit cluster limits fees facts request world).1 in
    (account_balance_micro (get_account cluster (balance_id alice) w'.tb.db)
      ≡ account_balance_micro (get_account cluster (balance_id alice) accounts)
        -ℤ pos ((50 + 0 + 3 + 1) * msats))
    × (pos_part (negsuc 49) ≡ 0)
    × (alice ≡ alice)
    × (w'.payment 77 ≡ some sent)
debit-record_example =
    debit-record cluster limits fees facts request world cluster-IsCluster sent alice-IsUuid
      alice-exists request-sent

debit-FailsClean_example :
    FailsClean cluster cluster-IsCluster world
      (debit cluster limits fees (record facts { blocked = true }) request world)
debit-FailsClean_example =
    debit-FailsClean cluster cluster-IsCluster limits fees (record facts { blocked = true }) request
      world

debit-reverse_example :
    let b = opened_book (debit cluster limits fees facts request world).1 sent in
    let (how, b') = reverse cluster fees true sent b in
    (how ≡ reversed)
    × ((balance_of cluster cluster-IsCluster alice b'.tb
          ≡ balance_of cluster cluster-IsCluster alice world.tb)
        ⊎ (Refuses cluster cluster-IsCluster
              (reverse_transfers cluster alice (total_of sent) (credit_of fees true sent) b.tb)
              b.tb
            × ((i : ℕ) → b'.tb.db i ≡ b.tb.db i)))
debit-reverse_example =
    debit-reverse cluster cluster-IsCluster limits fees facts request world sent true request-sent
      refl refl refl alice-IsUuid alice-exists

-- An invoice of user 5.
abbrev invoice : Invoice
invoice = record {
  id = 4;
  uid = 5;
  type = PaymentType.lightning;
  received = 0;
  pending = 0;
  amount = 50;
  payment_hash = none;
  tip = none;
}

abbrev matched : Facts
matched = record facts { invoice = some invoice }

matched-sent :
    (debit cluster limits fees matched request world).0 ≡ returns (record sent { ref = some 5 })
unfolding debit gate reserve charge breaker ledger debit_args store is_withdraw_locked platform_fee
    round_mul assert_within_spend_limit debit_total assert_withdraw_breaker record_withdrawal
    tb_debit debit_plan debit_commit covered_micro debit_transfers get_account get_balance
    account_balance_micro credit_id pending_id balance_id u128 ◌-ℤ◌ ◌/ℤ◌
matched-sent = refl

abbrev receipt : Receipt
receipt = record { preimage = some 123; amount_sent_msat = some 50_900; invoice_msat = some 50_000 }

abbrev book : Book Accounts
book = record {
  tb = world.tb;
  record_of = some sent;
  pending = true;
  reversing = false;
  refunded = false;
}

finalize-refunds_example :
    let (how, b') = finalize cluster receipt sent book in
    (how ≡ finalized)
    × ((balance_of cluster cluster-IsCluster alice b'.tb
          ≡ balance_of cluster cluster-IsCluster alice book.tb
            +ℤ pos ((3 - actual_fee receipt sent) * msats))
        ⊎ (Refuses cluster cluster-IsCluster
              (refund_transfers cluster alice (3 - actual_fee receipt sent) book.tb)
              book.tb
            × ((i : ℕ) → b'.tb.db i ≡ book.tb.db i)))
finalize-refunds_example =
    finalize-refunds cluster cluster-IsCluster fees receipt 123 sent sent book refl refl refl
      alice-IsUuid alice-exists

abbrev ended : Book Accounts
ended = record book { record_of = none }

abbrev flags : FundFlags
flags = record { all_disabled = false; this_disabled = false; hard_freeze = false; freeze = false }
