-- ===== src/Ledger/Operations.antt =====
-- lib/tb.ts: the operations that submit a batch without a decision on it, and the creation of
-- accounts. Failures of a batch are only logged, but for the first transfer of `tbCredit`.
use mathlib.Core.Option
use coinos_server.Base.{
  ℕ, ◌+◌, ◌*◌, ◌/◌, Bool, true, false, Option, none, some, List, [], ◌∷◌, ltb, if◌then◌else◌, ℤ,
  pos, negsuc, pos_part, ◌-ℤ◌, ltb_ℤ, leb_ℤ,
}
use coinos_server.Ledger.Ids.{
  PaymentType, credit_ledger, house_credit_account, ledger_sats, house_sats, house_ln, msats,
  balance_id, pending_id, credit_id, fund_account_id, u128,
}
use coinos_server.Ledger.Client.{NewAccount, Transfer, Client, reported}
use coinos_server.Ledger.Debit.{
  Tb, account_balance, account_balance_micro, get_account, next_transfer_id, transfer, is_empty,
  submitted,
}

-- A rate of `config.fee`, as the fraction that its decimal text stands for.
pub record Rate : Type 0 where
  pub num : ℕ
  pub den : ℕ

-- `Math.round(n * rate)`: halves are rounded up.
unfoldable pub round_mul : ℕ → Rate → ℕ
round_mul n r = (2 * n * r.num + r.den) / (2 * r.den)

pub data CreditResult : Type 0 where
  credited : CreditResult
  -- `TB credit failed: …`
  credit_failed : CreditResult

pub record CreditArgs : Type 0 where
  pub aid : ℕ
  pub uid : ℕ
  pub credit_type : PaymentType
  pub amount : ℕ
  pub is_pending : Bool
  -- `config.fee[creditType]`, `none` if it is absent or zero
  pub fee_rate : Option Rate
  -- whether `ln:nofree:<uid>` is set
  pub flagged : Bool

new_limited : ℕ → ℕ → NewAccount
new_limited id ledger = record { id = id; ledger = ledger; limited = true }

unfoldable pub new_balance_accounts : ℕ → List NewAccount
unfolding new_limited
new_balance_accounts aid =
    new_limited (u128 (balance_id aid)) ledger_sats
    ∷ new_limited (u128 (pending_id aid)) ledger_sats
    ∷ []

unfoldable pub new_credit_accounts : ℕ → List NewAccount
unfolding new_limited
new_credit_accounts uid =
    new_limited (u128 (credit_id uid PaymentType.bitcoin)) 2
    ∷ new_limited (u128 (credit_id uid PaymentType.lightning)) 3
    ∷ new_limited (u128 (credit_id uid PaymentType.liquid)) 4
    ∷ []

unfoldable pub new_fund_accounts : ℕ → List NewAccount
unfolding new_limited
new_fund_accounts digest = new_limited (u128 (fund_account_id digest)) ledger_sats ∷ []

-- The house accounts have no limit.
house : ℕ → ℕ → NewAccount
house id ledger = record { id = u128 id; ledger = ledger; limited = false }

unfoldable pub new_house_accounts : List NewAccount
unfolding house
new_house_accounts = house 1 1 ∷ house 2 2 ∷ house 3 3 ∷ house 4 4 ∷ []

is_lightning : PaymentType → Bool
is_lightning PaymentType.lightning = true
is_lightning _ = false

-- The microsatoshis of credit that a receipt earns.
unfoldable pub credit_amount_micro : CreditArgs → ℕ
unfolding is_lightning
credit_amount_micro a =
    if is_lightning a.credit_type then (if a.flagged then 0 else earned) else earned
  where
    earned : ℕ
    earned = elim (credit_ledger a.credit_type) [
      | none ↦ 0
      | some _ ↦ elim a.fee_rate [ none ↦ 0 | some r ↦ round_mul (a.amount * msats) r ]
    ]

abbrev pub credit_target : CreditArgs → ℕ
credit_target a = if a.is_pending then u128 (pending_id a.aid) else u128 (balance_id a.aid)

module _ {Db : Type 0} (c : Client Db) where
  open c use {lookup_account, create_accounts, create_transfers}

  unfoldable pub opened : List NewAccount → Tb Db → Tb Db
  opened ns s = record s { db = (create_accounts ns s.db).1 }

  unfoldable pub credit_transfers : CreditArgs → Tb Db → List Transfer
  credit_transfers a s =
      transfer (next_transfer_id 1 s) (u128 house_sats) (credit_target a) (a.amount * msats)
        ledger_sats
      ∷ (if ltb 0 (credit_amount_micro a)
          then transfer (next_transfer_id 2 s)
              (u128 (Option.get_or (house_credit_account a.credit_type) 0))
              (u128 (credit_id a.uid a.credit_type)) (credit_amount_micro a)
              (Option.get_or (credit_ledger a.credit_type) 0)
            ∷ []
          else [])

  unfoldable pub tb_credit : CreditArgs → Tb Db → CreditResult × Tb Db
  tb_credit a s = (
    (if reported 0 (create_transfers (credit_transfers a s) s.db).0
        then credit_failed
        else credited),
    submitted c (credit_transfers a s) s,
  )

  unfoldable pub confirm_transfers : ℕ → ℕ → Tb Db → List Transfer
  confirm_transfers aid amount s =
      record (transfer (next_transfer_id 1 s) (u128 (pending_id aid)) (u128 house_sats)
        (amount * msats) ledger_sats) { linked = true }
      ∷ transfer (next_transfer_id 2 s) (u128 house_sats) (u128 (balance_id aid)) (amount * msats)
          ledger_sats
      ∷ []

  unfoldable pub tb_confirm : ℕ → ℕ → Tb Db → Tb Db
  tb_confirm aid amount s = submitted c (confirm_transfers aid amount s) s

  unfoldable pub reverse_transfers : ℕ → ℕ → ℤ → Tb Db → List Transfer
  reverse_transfers uid total credit_amount s =
      if ltb_ℤ (pos 0) credit_amount
      then record main { linked = true }
        ∷ transfer (next_transfer_id 2 s) (u128 house_ln)
            (u128 (credit_id uid PaymentType.lightning)) (pos_part credit_amount * msats) 3
        ∷ []
      else main ∷ []
    where
      main : Transfer
      main =
          transfer (next_transfer_id 1 s) (u128 house_sats) (u128 (balance_id uid)) (total * msats)
            ledger_sats

  unfoldable pub tb_reverse : ℕ → ℕ → ℤ → Tb Db → Tb Db
  tb_reverse uid total credit_amount s = submitted c (reverse_transfers uid total credit_amount s) s

  unfoldable pub refund_transfers : ℕ → ℕ → Tb Db → List Transfer
  refund_transfers uid amount s =
      transfer (next_transfer_id 1 s) (u128 house_sats) (u128 (balance_id uid)) (amount * msats)
        ledger_sats
      ∷ []

  unfoldable pub tb_refund : ℕ → ℤ → Tb Db → Tb Db
  unfolding refund_transfers
  tb_refund uid amount s =
      if leb_ℤ amount (pos 0) then s else submitted c (refund_transfers uid (pos_part amount) s) s

  -- The transfer that takes an account from one balance to another, against its house account.
  unfoldable pub adjust_transfers : ℕ → ℕ → ℕ → ℤ → Tb Db → List Transfer
  adjust_transfers id house_id ledger (pos n) s =
      transfer (next_transfer_id 1 s) house_id id n ledger ∷ []
  adjust_transfers id house_id ledger (negsuc n) s =
      transfer (next_transfer_id 1 s) id house_id (n + 1) ledger ∷ []

  unfoldable pub adjust : ℕ → ℕ → ℕ → ℤ → Tb Db → Tb Db
  unfolding adjust_transfers
  adjust id house_id ledger (pos ℕ.zero) s = s
  adjust id house_id ledger diff s = submitted c (adjust_transfers id house_id ledger diff s) s

  unfoldable pub tb_set_balance : ℕ → ℕ → Tb Db → Tb Db
  unfolding adjust get_account
  tb_set_balance aid target s =
      adjust (u128 (balance_id aid)) (u128 house_sats) ledger_sats
        (pos (target * msats) -ℤ account_balance_micro (get_account c (balance_id aid) s.db)) s

  unfoldable pub tb_set_pending : ℕ → ℕ → Tb Db → Tb Db
  unfolding adjust get_account
  tb_set_pending aid target s =
      adjust (u128 (pending_id aid)) (u128 house_sats) ledger_sats
        (pos (target * msats) -ℤ account_balance_micro (get_account c (pending_id aid) s.db)) s

  unfoldable pub tb_set_credit : ℕ → PaymentType → ℕ → Tb Db → Tb Db
  unfolding adjust get_account
  tb_set_credit uid type target s = elim (credit_ledger type) [
    | none ↦ s
    | some ledger ↦
        adjust (u128 (credit_id uid type)) (u128 (Option.get_or (house_credit_account type) 0))
          ledger
          (pos (target * msats) -ℤ account_balance_micro (get_account c (credit_id uid type) s.db))
          s
  ]

  unfoldable pub tb_fund_credit : ℕ → ℕ → Tb Db → Tb Db
  tb_fund_credit digest amount s =
      let s' = opened (new_fund_accounts digest) s in
      submitted c
        (transfer (next_transfer_id 1 s') (u128 house_sats) (u128 (fund_account_id digest))
            (amount * msats) ledger_sats
          ∷ [])
        s'

  unfoldable pub fund_debit_transfers : ℕ → ℕ → Tb Db → List Transfer
  fund_debit_transfers digest amount s =
      transfer (next_transfer_id 1 s) (u128 (fund_account_id digest)) (u128 house_sats)
        (amount * msats) ledger_sats
      ∷ []

  -- `some` is the balance that the error message shows.
  unfoldable pub tb_fund_debit : ℕ → ℕ → Tb Db → Option ℤ × Tb Db
  unfolding get_account fund_debit_transfers
  tb_fund_debit digest amount s = (
    (if is_empty (create_transfers (fund_debit_transfers digest amount s) s.db).0
        then none
        else some (
            account_balance (
              get_account c (fund_account_id digest)
                (submitted c (fund_debit_transfers digest amount s) s).db))),
    submitted c (fund_debit_transfers digest amount s) s,
  )

  unfoldable pub get_fund_balance : ℕ → Db → Option ℤ
  unfolding get_account
  get_fund_balance digest db =
      Option.map (λ x. account_balance (some x)) (get_account c (fund_account_id digest) db)

  -- One account of the migration: what it holds in satoshis becomes the same in microsatoshis.
  unfoldable pub multiply_account : ℕ → ℕ → ℕ → ℕ × Tb Db → ℕ × Tb Db
  unfolding get_account
  multiply_account id ledger house_id (count, s) =
      let current = account_balance_micro (get_account c id s.db) in
      let ts =
        transfer (next_transfer_id 1 s) (u128 house_id) (u128 id) (pos_part current * 999_999)
          ledger
        ∷ [] in
      if leb_ℤ current (pos 0)
      then (count, s)
      else (if is_empty (create_transfers ts s.db).0 then (count + 1) else count, submitted c ts s)

  unfoldable pub tb_multiply_for_microsats : ℕ → Tb Db → ℕ × Tb Db
  unfolding multiply_account
  tb_multiply_for_microsats uid s = multiply_account (credit_id uid PaymentType.liquid) 4 4 (
      multiply_account (credit_id uid PaymentType.lightning) 3 3 (
        multiply_account (credit_id uid PaymentType.bitcoin) 2 2 (
          multiply_account (pending_id uid) ledger_sats house_sats
            (multiply_account (balance_id uid) ledger_sats house_sats (0, s)))))
