-- ===== src/Payments/Store.antt =====
-- The state that lib/payments.ts works on: the database, the lock files and the ledger, and how its
-- functions fail. A failure keeps what was written before it.
use coinos_server.Base.{ℕ, ◌≡◌, refl, Bool, Option, List, ◌==◌, if◌then◌else◌, ℤ}
use coinos_server.Ledger.Ids.{PaymentType}
use coinos_server.Ledger.Debit.{Tb}
use coinos_server.Limits.Breaker.{Dir}

-- A payment record. The texts and rates that it carries for display are left out; `ref` is the id
-- of the invoice's owner or the preimage.
pub record Payment : Type 0 where
  pub id : ℕ
  pub aid : ℕ
  pub uid : ℕ
  pub hash : ℕ
  pub amount : ℤ
  pub fee : ℕ
  pub ourfee : ℤ
  pub tip : ℕ
  pub type : PaymentType
  pub confirmed : Bool
  pub ref : Option ℕ

pub record Invoice : Type 0 where
  pub id : ℕ
  pub uid : ℕ
  pub type : PaymentType
  pub received : ℕ
  pub pending : ℕ
  pub amount : ℕ
  pub payment_hash : Option ℕ
  -- `Number.parseInt(invoice.tip)`, `none` if it is no number
  pub tip : Option ℤ

pub record World (Db : Type 0) : Type 0 where
  pub tb : Tb Db
  -- `/locks`: the state of the breaker, and ALL.locked
  pub dir : Dir
  -- `/locks/<type>.locked`
  pub type_locked : PaymentType → Bool
  -- `<type>:limit`, `none` if it is missing
  pub limit : PaymentType → Option ℤ
  -- `payment:<id>`
  pub payment : ℕ → Option Payment
  -- `payment:<hash>`
  pub payment_of_hash : ℕ → Option ℕ
  -- `<aid>:payments`, the last first
  pub payments_of : ℕ → List ℕ
  -- the users whose id `changeid` has replaced
  pub changed : List ℕ

abbrev pub set_at {ℓ} : {A : Type ℓ} → ℕ → A → (ℕ → A) → ℕ → A
set_at i a f j = if i == j then a else f j

-- Why a call of `debit` fails, in the order of the code.
pub data Failure : Type 0 where
  address_blocked : Failure
  withdrawals_locked : Failure
  payments_disabled : Failure
  over_limit : Failure
  limit_exhausted : Failure
  already_paid : Failure
  invalid_tip : Failure
  no_amount : Failure
  budget_exceeded : ℕ → ℕ → Failure
  breaker_tripped : Failure
  insufficient_funds : ℤ → ℤ → Failure

pub data Result (A : Type 0) : Type 0 where
  fails : Failure → Result A
  returns : A → Result A

module _ {Db : Type 0} where
  abbrev pub bind :
      {A B : Type 0}
      → Result A × World Db
      → (A → World Db → Result B × World Db)
      → Result B × World Db
  bind (fails f, w) k = (fails f, w)
  bind (returns a, w) k = k a w

  -- A chain that returns has been through every step.
  pub bind-returns :
      {A B : Type 0} (m : Result A × World Db) (k : A → World Db → Result B × World Db) (b : B)
      → (bind m k).0 ≡ returns b
      → (a : A) × (m.0 ≡ returns a) × (bind m k ≡ k a m.1)
  bind-returns (fails f, w) k b e = cc
  bind-returns (returns a, w) k b e = (a, refl, refl)
