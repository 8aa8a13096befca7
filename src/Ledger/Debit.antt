-- ===== src/Ledger/Debit.antt =====
-- lib/tb.ts: balances of accounts, and `tbDebit`.
-- The ledger is read before the batch is submitted, and other requests run in between: `debit_plan`
-- takes the state that the reads saw, `debit_commit` the one that the batch meets.
pub mod Outcome
pub mod Balance
use mathlib.Core.Option
use coinos_server.Base.{
  length, ℕ, ◌+◌, ◌*◌, Bool, true, false, Option, none, some, List, [], ◌∷◌, ltb, ◌==◌,
  if◌then◌else◌, ℤ, pos, pos_part, ◌-ℤ◌, ◌/ℤ◌, ltb_ℤ, sub_ℕ,
}
use coinos_server.Ledger.Ids.{
  PaymentType, credit_ledger, house_credit_account, ledger_sats, house_sats, msats, balance_id,
  pending_id, credit_id, u128,
}
use coinos_server.Ledger.Client.{Account, Transfer, Failure, Client}

-- The state of the module: the cluster, and the counter of transfer ids.
pub record Tb (Db : Type 0) : Type 0 where
  pub db : Db
  pub transfer_id_counter : ℕ

unfoldable pub account_balance_micro : Option Account → ℤ
account_balance_micro none = pos 0
account_balance_micro (some x) = sub_ℕ x.credits_posted x.debits_posted

unfoldable pub account_balance : Option Account → ℤ
unfolding account_balance_micro
account_balance none = pos 0
account_balance (some x) = account_balance_micro (some x) /ℤ msats

-- The id that the next call returns, and the `n`th after it.
abbrev pub next_transfer_id : {Db : Type 0} → ℕ → Tb Db → ℕ
next_transfer_id n s = u128 (s.transfer_id_counter + n)

abbrev pub transfer : ℕ → ℕ → ℕ → ℕ → ℕ → Transfer
transfer id from to amount ledger = record {
  id = id;
  debit_account_id = from;
  credit_account_id = to;
  amount = amount;
  ledger = ledger;
  linked = false;
}

-- `for (let i = 0; i < transfers.length - 1; i++) transfers[i].flags |= linked`
abbrev pub link_all_but_last : List Transfer → List Transfer
link_all_but_last [] = []
link_all_but_last (t ∷ []) = t ∷ []
link_all_but_last (t ∷ u ∷ ts) = record t { linked = true } ∷ link_all_but_last (u ∷ ts)

abbrev pub is_empty : List Failure → Bool
is_empty [] = true
is_empty (f ∷ fs) = false

pub record DebitArgs : Type 0 where
  pub aid : ℕ
  pub uid : ℕ
  pub credit_type : PaymentType
  pub amount : ℕ
  pub tip : ℕ
  pub fee : ℕ
  pub ourfee : ℕ
  pub frozen : ℕ

-- What `tbDebit` returns: the fee that no credit covers, or the two numbers of its message.
pub data DebitResult : Type 0 where
  debited : ℤ → DebitResult
  refused : ℤ → ℤ → DebitResult

-- The account whose credits pay the fee: a sub-account uses the zero uuid.
abbrev pub credit_owner : DebitArgs → ℕ
credit_owner a = if a.uid == a.aid then a.uid else 0

module _ {Db : Type 0} (c : Client Db) where
  open c use {lookup_account, create_transfers}

  unfoldable pub get_account : ℕ → Db → Option Account
  get_account id db = lookup_account (u128 id) db

  unfoldable pub get_balance : ℕ → Db → ℤ
  unfolding get_account
  get_balance aid db = account_balance (get_account (balance_id aid) db)

  unfoldable pub get_pending : ℕ → Db → ℤ
  unfolding get_account
  get_pending aid db = account_balance (get_account (pending_id aid) db)

  unfoldable pub get_credit : ℕ → PaymentType → Db → ℤ
  unfolding get_account
  get_credit uid type db = account_balance (get_account (credit_id uid type) db)

  -- The state after a batch whose transfers took fresh ids.
  abbrev pub submitted : List Transfer → Tb Db → Tb Db
  submitted ts s = record {
    db = (create_transfers ts s.db).1;
    transfer_id_counter = s.transfer_id_counter + length ts;
  }

  -- The part of the fee, in microsatoshis, that the user's credits cover.
  unfoldable pub covered_micro : DebitArgs → Db → ℤ
  unfolding get_account
  covered_micro a db = elim (credit_ledger a.credit_type) [
    | none ↦ pos 0
    | some _ ↦
        let credit_bal =
          account_balance_micro (get_account (credit_id (credit_owner a) a.credit_type) db) in
        let ourfee_micro : ℤ = pos (a.ourfee * msats) in
        if ltb 0 a.ourfee
        then (if ltb_ℤ credit_bal ourfee_micro then credit_bal else ourfee_micro)
        else pos 0
  ]

  pub record Plan : Type 0 where
    pub covered : ℤ
    pub ourfee : ℤ
    pub total_micro : ℕ
    pub available_micro : ℤ

  -- What the reads make of the arguments. The uncovered fee is never negative, since the covered
  -- part is at most the fee.
  unfoldable pub debit_plan : DebitArgs → Db → Plan
  unfolding covered_micro get_account
  debit_plan a db =
      let covered = covered_micro a db in
      let ourfee = (pos (a.ourfee * msats) -ℤ covered) /ℤ msats in
      let bal = account_balance_micro (get_account (balance_id a.aid) db) in
      record {
        covered = covered;
        ourfee = ourfee;
        total_micro = (a.amount + a.tip + a.fee + pos_part ourfee) * msats;
        available_micro = bal -ℤ pos (a.frozen * msats);
      }

  -- The batch: the credits that are used up, if any, and the balance.
  unfoldable pub debit_transfers : DebitArgs → Plan → Tb Db → List Transfer
  debit_transfers a p s =
      if ltb_ℤ (pos 0) p.covered
      then link_all_but_last (
          transfer (next_transfer_id 1 s) (u128 (credit_id (credit_owner a) a.credit_type))
            (u128 (Option.get_or (house_credit_account a.credit_type) 0)) (pos_part p.covered)
            (Option.get_or (credit_ledger a.credit_type) 0)
          ∷ transfer (next_transfer_id 2 s) (u128 (balance_id a.aid)) (u128 house_sats)
              p.total_micro ledger_sats
          ∷ [])
      else link_all_but_last (
          transfer (next_transfer_id 1 s) (u128 (balance_id a.aid)) (u128 house_sats) p.total_micro
            ledger_sats
          ∷ [])

  abbrev pub debit_refused : Plan → DebitResult
  debit_refused p = refused (p.available_micro /ℤ msats) (pos (p.total_micro) /ℤ msats)

  unfoldable pub debit_commit : DebitArgs → Plan → Tb Db → DebitResult × Tb Db
  unfolding debit_transfers
  debit_commit a p s =
      if ltb_ℤ p.available_micro (pos p.total_micro)
      then (debit_refused p, s)
      else (if is_empty results then debited p.ourfee else debit_refused p, submitted transfers s)
    where
      transfers : List Transfer
      transfers = debit_transfers a p s

      results : List Failure
      results = (create_transfers transfers s.db).0

  -- `tbDebit` when nothing happens between its reads and its batch.
  unfoldable pub tb_debit : DebitArgs → Tb Db → DebitResult × Tb Db
  unfolding debit_plan debit_commit
  tb_debit a s = debit_commit a (debit_plan a s.db) s
