-- ===== src/Ledger/Credits.antt =====
-- What `tbCredit` of lib/tb.ts adds to an account.
use mathlib.Core.Option
use coinos_server.Base.{
  ℕ, ◌*◌, ◌^◌, ◌<◌, ◌≡◌, ◌≢◌, refl, ap, ◌∙◌, Bool, true, false, none, List, [], ◌∷◌, ltb,
  if◌then◌else◌, pos, ◌+ℤ◌, int_laws, arith, inl, inr, Bool-cases,
}
use coinos_server.Ledger.Ids.{
  PaymentType, msats, credit_id, house_sats, house_credit_account, credit_ledger, u128,
}
use coinos_server.Ledger.Distinct.{IsUuid, Role, account_of, account_ids}
use coinos_server.Ledger.Client.{
  Transfer, Failure, Client, IsCluster, moved_in, moved_out, reported, accepted,
}
use coinos_server.Ledger.Debit.{Tb, account_balance_micro}
use coinos_server.Ledger.Operations.{
  CreditArgs, credited, credit_failed, credit_target, credit_transfers, credit_amount_micro,
  tb_credit,
}
use coinos_server.Ledger.Posting.{micro-map-post}
use coinos_server.Ledger.Effects.{house-lt}

abbrev pub role_of : Bool → Role
role_of true = Role.pending
role_of false = Role.balance

target-role : (a : CreditArgs) → credit_target a ≡ account_of (role_of a.is_pending) a.aid
target-role a = ground arith

credit-ne :
    (t : PaymentType) (b : Bool) (u : ℕ)
    → IsUuid u
    → credit_ledger t ≢ none
    → u128 (credit_id u t) ≢ account_of (role_of b) u
credit-ne PaymentType.bitcoin b u h n =
    λ e. role-ne b ((account_ids Role.credit_bitcoin (role_of b) u u h h).1 e)
  where
    role-ne : (b : Bool) → Role.credit_bitcoin ≢ role_of b
    role-ne true e = cc
    role-ne false e = cc
credit-ne PaymentType.lightning b u h n =
    λ e. role-ne b ((account_ids Role.credit_lightning (role_of b) u u h h).1 e)
  where
    role-ne : (b : Bool) → Role.credit_lightning ≢ role_of b
    role-ne true e = cc
    role-ne false e = cc
credit-ne PaymentType.liquid b u h n =
    λ e. role-ne b ((account_ids Role.credit_liquid (role_of b) u u h h).1 e)
  where
    role-ne : (b : Bool) → Role.credit_liquid ≢ role_of b
    role-ne true e = cc
    role-ne false e = cc
credit-ne _ b u h n = absurd (n refl)

earned-ledger :
    (a : CreditArgs) → ltb 0 (credit_amount_micro a) ≡ true → credit_ledger a.credit_type ≢ none
unfolding credit_amount_micro
earned-ledger a h = ground arith

house_credit-lt : (t : PaymentType) → u128 (Option.get_or (house_credit_account t) 0) < 2 ^ 67
unfolding u128
house_credit-lt t = ground arith

moves-one :
    (i : ℕ) (fs : List Failure) (t : Transfer)
    → reported 0 fs ≡ false
    → t.credit_account_id ≡ i
    → t.debit_account_id ≢ i
    → (moved_in i (accepted 0 fs (t ∷ [])) ≡ t.amount) × (moved_out i (accepted 0 fs (t ∷ [])) ≡ 0)
moves-one i fs t h e n = rw h (ground arith)

moves-two :
    (i : ℕ) (fs : List Failure) (t v : Transfer)
    → reported 0 fs ≡ false
    → t.credit_account_id ≡ i
    → t.debit_account_id ≢ i
    → v.credit_account_id ≢ i
    → v.debit_account_id ≢ i
    → (moved_in i (accepted 0 fs (t ∷ v ∷ [])) ≡ t.amount)
      × (moved_out i (accepted 0 fs (t ∷ v ∷ [])) ≡ 0)
moves-two i fs t v h e n m k = rw h (ground arith)

module _ {Db : Type 0} (c : Client Db) (laws : IsCluster c) where
  open c use {lookup_account, create_transfers}

  -- Whether the fee credit is posted or not, it touches neither the balance nor the pending account
  -- of the receiver.
  credit_moves :
      (a : CreditArgs) (s : Tb Db) (fs : List Failure)
      → IsUuid a.uid
      → a.aid ≡ a.uid
      → reported 0 fs ≡ false
      → (moved_in (account_of (role_of a.is_pending) a.uid) (accepted 0 fs (credit_transfers c a s))
          ≡ a.amount * msats)
        × (moved_out
              (account_of (role_of a.is_pending) a.uid)
              (accepted 0 fs (credit_transfers c a s))
            ≡ 0)
  unfolding credit_transfers
  credit_moves a s fs u own h = elim (Bool-cases (ltb 0 (credit_amount_micro a))) [
    | inl e ↦ rw e (
        moves-two (account_of (role_of a.is_pending) a.uid) fs _ _ h target
          (low _ (house-lt house_sats (omega arith)))
          (credit-ne a.credit_type a.is_pending a.uid u (earned-ledger a e))
          (low _ (house_credit-lt a.credit_type)))
    | inr e ↦ rw e (
        moves-one (account_of (role_of a.is_pending) a.uid) fs _ h target
          (low _ (house-lt house_sats (omega arith))))
  ]
    where
      target : credit_target a ≡ account_of (role_of a.is_pending) a.uid
      target = target-role a ∙ ap (account_of (role_of a.is_pending)) own

      low : (n : ℕ) → n < 2 ^ 67 → n ≢ account_of (role_of a.is_pending) a.uid
      low n k e =
          omega
            (arith, k, e, (account_ids (role_of a.is_pending) Role.balance a.uid a.uid u u).0.large)

  -- A credit that is reported as done adds the amount to the balance of the receiver's own account,
  -- or to its pending account; one that fails adds nothing to it.
  pub tb_credit-adds :
      (a : CreditArgs) (s : Tb Db)
      → IsUuid a.uid
      → a.aid ≡ a.uid
      → lookup_account (account_of (role_of a.is_pending) a.uid) s.db ≢ none
      → (tb_credit c a s).0 ≡ credited
      → account_balance_micro
          (lookup_account (account_of (role_of a.is_pending) a.uid) (tb_credit c a s).1.db)
        ≡ account_balance_micro (lookup_account (account_of (role_of a.is_pending) a.uid) s.db)
          +ℤ pos (a.amount * msats)
  unfolding tb_credit
  tb_credit-adds a s u own ex e =
      let i = account_of (role_of a.is_pending) a.uid in
      let ts = credit_transfers c a s in
      let fs = (create_transfers ts s.db).0 in
      let (into, out) = credit_moves a s fs u own (unreported (reported 0 fs) e) in
      ap account_balance_micro (laws.posts i ts s.db)
      ∙ micro-map-post i (accepted 0 fs ts) (lookup_account i s.db) ex
      ∙ rw (into, out) (omega int_laws)
    where
      unreported : (b : Bool) → (if b then credit_failed else credited) ≡ credited → b ≡ false
      unreported true e = cc
      unreported false e = refl
