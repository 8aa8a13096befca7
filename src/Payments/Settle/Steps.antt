-- ===== src/Payments/Settle/Steps.antt =====
-- Overlapping calls of `reverse` and `finalize` of lib/payments.ts for one payment.
-- Calls of `reverse` are counted by where they stand: any number may begin, and each goes on if it
-- sets the claim that was not set. A call that does not get it ends at once and changes nothing.
-- `finalize` may run between any two parts, as often as it is called. The claim expires after five
-- minutes, by when the calls that go on are over. No part fails.
use coinos_server.Base.{ℕ, suc, ◌+◌, ◌≤◌, ◌≡◌, ◌⊎◌, Bool, true, false, none, some}
use coinos_server.Ledger.Client.{Client}
use coinos_server.Payments.Store.{Payment}
use coinos_server.Payments.Debit.{Fees}
use coinos_server.Payments.Settle.{
  Book, is_settled, claim, release, pay_back, clean, Receipt, finalize,
}

-- How many calls look at the record, are about to pay, and have paid and not yet cleaned up.
pub record Calls : Type 0 where
  pub inspecting : ℕ
  pub paying : ℕ
  pub cleaning : ℕ

abbrev pub nobody : Calls
nobody = record { inspecting = 0; paying = 0; cleaning = 0 }

abbrev flag : Bool → ℕ
flag true = 1
flag false = 0

module _ {Db : Type 0} (c : Client Db) (fees : Fees) (p : Payment) where
  -- The runs from `start`, with the number of reversals that reached the ledger.
  pub data Runs (start : Book Db) : ℕ → Calls → Book Db → Type 0 where
    begins : Runs start 0 nobody start
    claims :
        {n : ℕ} {s : Calls} {b : Book Db}
        → Runs start n s b
        → b.reversing ≡ false
        → Runs start n (record s { inspecting = suc s.inspecting }) (claim c fees false p b)
    misses :
        {n i : ℕ} {s : Calls} {b : Book Db}
        → Runs start n s b
        → s.inspecting ≡ suc i
        → b.record_of ≡ none
        → Runs start n (record s { inspecting = i }) (release c fees false p b)
    declines :
        {n i : ℕ} {s : Calls} {b : Book Db} (q : Payment)
        → Runs start n s b
        → s.inspecting ≡ suc i
        → b.record_of ≡ some q
        → is_settled q ≡ true
        → Runs start n (record s { inspecting = i }) b
    passes :
        {n i : ℕ} {s : Calls} {b : Book Db} (q : Payment)
        → Runs start n s b
        → s.inspecting ≡ suc i
        → b.record_of ≡ some q
        → is_settled q ≡ false
        → Runs start n (record s { inspecting = i; paying = suc s.paying }) b
    pays :
        {n i : ℕ} {s : Calls} {b : Book Db} (flagged : Bool)
        → Runs start n s b
        → s.paying ≡ suc i
        → Runs start
            (suc n)
            (record s { paying = i; cleaning = suc s.cleaning })
            (pay_back c fees flagged p b)
    cleans :
        {n i : ℕ} {s : Calls} {b : Book Db}
        → Runs start n s b
        → s.cleaning ≡ suc i
        → Runs start n (record s { cleaning = i }) (clean c fees false p b)
    finalizes :
        {n : ℕ} {s : Calls} {b : Book Db} (r : Receipt) (q : Payment)
        → Runs start n s b
        → Runs start n s (finalize c r q b).1
    expires :
        {n : ℕ} {b : Book Db}
        → Runs start n nobody b
        → Runs start n nobody (release c fees false p b)

  -- Nothing has been paid back and nobody cleans up, or it has been once, nobody is about to, and
  -- someone cleans up or the record is gone.
  Paid : ℕ → Calls → Book Db → Type 0
  Paid n s b =
      ((n ≡ 0) × (s.cleaning ≡ 0))
      ⊎ ((n ≡ 1) × (s.paying ≡ 0) × ((s.cleaning ≡ 1) ⊎ (b.record_of ≡ none)))

  -- The calls that go on are as many as the claim lets.
  record Counted (n : ℕ) (s : Calls) (b : Book Db) : Type 0 where
    few : s.inspecting + s.paying + s.cleaning ≤ flag b.reversing
    once : Paid n s b
