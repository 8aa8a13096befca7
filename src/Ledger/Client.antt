-- ===== src/Ledger/Client.antt =====
-- What lib/tb.ts uses of the `tigerbeetle-node` client, which is not part of the repository: its
-- calls are a parameter, and its documented behaviour a record of hypotheses.
-- No transfer of the program is a pending one, so the pending fields, which are always zero, the
-- user data, the code (always 1) and the timeouts are left out.
use mathlib.Core.Option
use coinos_server.Base.{
  ℕ, suc, ◌+◌, ◌≤◌, ◌<◌, ◌≡◌, ◌≢◌, Bool, true, false, ◌||◌, Option, none, some, List, [], ◌∷◌, ◌==◌,
  if◌then◌else◌, length,
}

pub record Account : Type 0 where
  pub ledger : ℕ
  -- the flag `debits_must_not_exceed_credits`
  pub limited : Bool
  pub debits_posted : ℕ
  pub credits_posted : ℕ

pub record NewAccount : Type 0 where
  pub id : ℕ
  pub ledger : ℕ
  pub limited : Bool

pub record Transfer : Type 0 where
  pub id : ℕ
  pub debit_account_id : ℕ
  pub credit_account_id : ℕ
  pub amount : ℕ
  pub ledger : ℕ
  -- the flag `linked`
  pub linked : Bool

-- One entry for each event that was refused: its index in the batch and the reason.
pub record Failure : Type 0 where
  pub index : ℕ
  pub result : ℕ

pub record Client (Db : Type 0) : Type 0 where
  -- `lookupAccounts([id])`, whose answer has at most one account
  pub lookup_account : ℕ → Db → Option Account
  pub create_accounts : List NewAccount → Db → List Failure × Db
  pub create_transfers : List Transfer → Db → List Failure × Db

abbrev pub reported : ℕ → List Failure → Bool
reported i [] = false
reported i (f ∷ fs) = f.index == i || reported i fs

-- The transfers of a batch, numbered from `i`, that no failure reports.
abbrev pub accepted : ℕ → List Failure → List Transfer → List Transfer
accepted i fs [] = []
accepted i fs (t ∷ ts) =
    let rest = accepted (suc i) fs ts in if reported i fs then rest else t ∷ rest

abbrev pub moved_in : ℕ → List Transfer → ℕ
moved_in a [] = 0
moved_in a (t ∷ ts) = (if t.credit_account_id == a then t.amount else 0) + moved_in a ts

abbrev pub moved_out : ℕ → List Transfer → ℕ
moved_out a [] = 0
moved_out a (t ∷ ts) = (if t.debit_account_id == a then t.amount else 0) + moved_out a ts

-- The account of number `a` once the transfers are posted.
abbrev pub post : ℕ → List Transfer → Account → Account
post a ts x = record x {
  debits_posted = x.debits_posted + moved_out a ts;
  credits_posted = x.credits_posted + moved_in a ts;
}

abbrev pub IsWithin : Account → Type 0
IsWithin x = x.limited ≡ true → x.debits_posted ≤ x.credits_posted

abbrev pub Exist : {Db : Type 0} → (ℕ → Db → Option Account) → Db → List Transfer → Type 0
Exist lookup db [] = Unit
Exist lookup db (t ∷ ts) =
    (lookup t.debit_account_id db ≢ none)
    × (lookup t.credit_account_id db ≢ none)
    × Exist lookup db ts

abbrev pub BelowLength : List Failure → ℕ → Type 0
BelowLength [] n = Unit
BelowLength (f ∷ fs) n = (f.index < n) × BelowLength fs n

module _ {Db : Type 0} (c : Client Db) where
  open c use {lookup_account, create_accounts, create_transfers}

  -- The documented behaviour of the cluster.
  pub record IsCluster : Type 0 where
    -- A batch posts exactly the transfers that it does not report.
    pub posts :
        (a : ℕ) (ts : List Transfer) (db : Db)
        → lookup_account a (create_transfers ts db).1
          ≡ Option.map (post a (accepted 0 (create_transfers ts db).0 ts)) (lookup_account a db)
    -- It reports only events of the batch.
    pub in_batch :
        (ts : List Transfer) (db : Db) → BelowLength (create_transfers ts db).0 (length ts)
    -- A linked event succeeds or fails with the next one.
    pub chained :
        (t u : Transfer) (db : Db)
        → t.linked ≡ true
        → reported 0 (create_transfers (t ∷ u ∷ []) db).0
          ≡ reported 1 (create_transfers (t ∷ u ∷ []) db).0
    -- It posts only between accounts that exist.
    pub between :
        (ts : List Transfer) (db : Db)
        → Exist lookup_account db (accepted 0 (create_transfers ts db).0 ts)
    -- It posts nothing by which the debits of a limited account would exceed its credits.
    pub limits :
        (a : ℕ) (x : Account) (ts : List Transfer) (db : Db)
        → lookup_account a db ≡ some x
        → IsWithin x
        → IsWithin (post a (accepted 0 (create_transfers ts db).0 ts) x)
    -- An account that exists stays as it is when accounts are created; a new one is empty.
    pub keeps :
        (a : ℕ) (x : Account) (ns : List NewAccount) (db : Db)
        → lookup_account a db ≡ some x
        → lookup_account a (create_accounts ns db).1 ≡ some x
    pub opens :
        (a : ℕ) (x : Account) (ns : List NewAccount) (db : Db)
        → lookup_account a db ≡ none
        → lookup_account a (create_accounts ns db).1 ≡ some x
        → (x.debits_posted ≡ 0) × (x.credits_posted ≡ 0)
