-- ===== src/Wallet/Handlers.antt =====
-- lib/nwc.ts, the handlers that spend (`pay_invoice`, `pay`, `pay_keysend`) and `get_balance`. What
-- they ask the node, the database and lib/payments.ts is read from a record of answers; the calls
-- that move money or record a spend are listed in order. Amounts are whole numbers and not negative,
-- 0 where they are missing; zap receipts and the texts of replies are left out.
pub mod Guarded
use mathlib.Core.Option
use coinos_server.Base.{
  ℕ, zero, suc, ◌+◌, ◌-◌, ◌*◌, ◌/◌, ◌≡◌, Bool, true, false, not, ◌&&◌, ◌||◌, Option, none, some,
  List, [], ◌∷◌, ltb, leb, ◌==◌, if◌then◌else◌, ℤ, pos,
}
use coinos_server.Wallet.Budget.{App, Entry, Check, BudgetError, check_budget}
use coinos_server.Wallet.Instruction.{Parsed, instruction, no_instruction, unsupported}

pub data Call : Type 0 where
  -- the amount, the fee and the limit
  send_internal : ℕ → Option ℕ → Call
  send_lightning : ℕ → Option ℕ → Option ℕ → Call
  send_keysend : ℕ → Option ℕ → Option ℕ → Call
  -- onto `<pubkey>:payments`
  push : ℕ → Call

pub data Reply : Type 0 where
  preimage : ℕ → Reply
  -- a payment and its state
  settled pending : ℕ → Reply
  over_budget : BudgetError → Reply
  bad_request unsupported_network payment_failed in_flight timed_out internal_error : Reply

pub record Outcome : Type 0 where
  pub reply : Reply
  pub calls : List Call

abbrev pub is_missing : Option Bool → Bool
is_missing none = true
is_missing (some _) = false

abbrev pub replies : Reply → Outcome
replies r = record { reply = r; calls = [] }

-- `Math.round(msat / 1000)`
abbrev pub sats_of : ℕ → ℕ
sats_of msat = (msat + 500) / 1000

-- `a || b` on numbers.
abbrev pub or_number : ℕ → ℕ → ℕ
or_number a b = if a == 0 then b else a

-- `undefined` for the fee lets the send choose.
abbrev pub fee_if_set : ℕ → Option ℕ
fee_if_set max_fee = if ltb 0 max_fee then some max_fee else none

-- What a send that is made answers: the id of its record, or an exception.
pub record Asked : Type 0 where
  pub now : ℕ
  pub entries : List Entry
  pub max_fee : ℕ
  pub request_msat : ℕ
  pub sent : Option ℕ

abbrev or_later : Option ℕ → Option ℕ → Option ℕ
or_later (some r) later = some r
or_later none later = later

-- `for (let i = 0; i < n; i++)`: the first answer that has come.
unfoldable pub poll : ℕ → ℕ → (ℕ → Option ℕ) → Option ℕ
poll zero i answers = none
poll (suc n) i answers = let rest = poll n (i + 1) answers in or_later (answers i) rest

abbrev by_preimage : Option ℕ → Reply → Reply
by_preimage (some r) late = preimage r
by_preimage none late = late

-- A send and what is recorded of it.
abbrev pub sends : Call → Option ℕ → Reply → (ℕ → Reply) → Outcome
sends c none failed then_ = record { reply = failed; calls = c ∷ [] }
sends c (some id) failed then_ = record { reply = then_ id; calls = c ∷ push id ∷ [] }

abbrev pub after_check : Option BudgetError → Option ℕ → (Option ℕ → Outcome) → Outcome
after_check (some e) left k = replies (over_budget e)
after_check none left k = k left

abbrev pub within_budget : Check → (Option ℕ → Outcome) → Outcome
within_budget c k = after_check c.budget_error c.remaining k

-- What `pay` learns of a decoded instruction; `local` is an invoice of ours that is not the mint's.
pub record Decoded : Type 0 where
  pub valid : Bool
  pub same_network : Bool
  pub bolt12 : Bool
  pub amount_msat : ℕ
  pub local : Bool

abbrev pub conflicts : ℕ → ℕ → Bool
conflicts requested given = not (requested == 0) && not (given == 0) && not (requested == given)

abbrev settled_if : ℕ → Option ℕ → Reply
settled_if id none = pending id
settled_if id (some r) = settled id

module _ (app : App) (a : Asked) where
  abbrev pub check : ℕ → Check
  check amount = check_budget app a.now a.entries (pos amount)

  -- The invoice is there or not, its amount, whether this node issued it, whether it is the mint's
  -- (`none` without a record of it, where reading its owner throws), and the preimage that each
  -- round of polling finds.
  unfoldable pub pay_invoice : Bool → ℕ → Bool → Option Bool → (ℕ → Option ℕ) → Outcome
  pay_invoice given amount_msat ours mint answers =
      let msat = or_number amount_msat a.request_msat in
      if not given
      then replies bad_request
      else if msat == 0
      then replies bad_request
      else within_budget (check (sats_of msat)) (λ left.
        if ours && is_missing mint
        then replies internal_error
        else if ours && not (Option.get_or mint true)
        then sends (send_internal (sats_of msat) left) a.sent internal_error preimage
        else sends (send_lightning (sats_of msat) (fee_if_set a.max_fee) left) a.sent payment_failed
            (λ _. by_preimage (poll 100 0 answers) in_flight))

  -- `ref` is the preimage that the record of the payment has when the send returns.
  unfoldable pub pay_decoded : Decoded → Bool → Bool → Option ℕ → Outcome
  pay_decoded d noted invalid_amount ref =
      let msat = or_number d.amount_msat a.request_msat in
      let amount = sats_of msat in
      if not d.valid
      then replies bad_request
      else if not d.same_network
      then replies unsupported_network
      else if noted && not d.bolt12
      then replies bad_request
      else if invalid_amount || conflicts a.request_msat d.amount_msat || msat == 0
      then replies bad_request
      else within_budget (check amount) (λ left.
        if d.local
        then sends (send_internal amount left) a.sent internal_error settled
        else sends (send_lightning amount (some (or_number a.max_fee ((amount + 50) / 100))) left)
            a.sent payment_failed (λ id. settled_if id ref))

  unfoldable pub pay : Parsed → (List ℕ → Decoded) → Bool → Bool → Option ℕ → Outcome
  unfolding pay_decoded
  pay (instruction s) decode noted invalid_amount ref =
      pay_decoded (decode s) noted invalid_amount ref
  pay no_instruction decode noted invalid_amount ref = replies bad_request
  pay (unsupported key) decode noted invalid_amount ref = replies bad_request

  abbrev recorded : Option ℕ → List Call
  recorded none = []
  recorded (some id) = push id ∷ []

  abbrev keysend_sent : Bool → Option ℕ → Option ℕ → Call → Outcome
  keysend_sent false id found c = record { reply = internal_error; calls = c ∷ [] }
  keysend_sent true id found c = record {
    reply = by_preimage found timed_out;
    calls = c ∷ recorded id;
  }

  -- Whether the send returns, the id that the database has for it, and the preimages that polling
  -- finds. What is recorded is looked up, and only if the send returns.
  unfoldable pub pay_keysend : Bool → (ℕ → Option ℕ) → Outcome
  pay_keysend returned answers =
      let amount = sats_of a.request_msat in
      within_budget (check amount) (λ left.
        keysend_sent returned a.sent (poll 10 0 answers)
          (send_keysend amount (fee_if_set a.max_fee) left))

  -- What the connection can spend, in millisatoshis.
  abbrev smaller : ℕ → ℕ → ℕ
  smaller x y = if ltb x y then x else y

  abbrev pub spendable : ℕ → Option BudgetError → Option ℕ → ℕ
  spendable balance (some e) left = 0
  spendable balance none none = balance
  spendable balance none (some left) = smaller balance left

  unfoldable pub get_balance : ℕ → ℕ
  unfolding check_budget
  get_balance balance = spendable balance (check 0).budget_error (check 0).remaining * 1000
