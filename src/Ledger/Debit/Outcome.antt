-- ===== src/Ledger/Debit/Outcome.antt =====
-- What `tbDebit` does, whatever ran between its reads and its batch.
use mathlib.Core.Option
use coinos_server.Base.{
  ℕ, ◌+◌, ◌*◌, ◌/◌, ◌≡◌, refl, ap, false, ℤ, pos, pos_part, ◌+ℤ◌, ◌-ℤ◌, ◌≤ℤ◌, ltb_ℤ, int_laws,
  /ℤ-nonneg, neg_part-nonneg, arith, inl, inr, Bool-cases,
}
use coinos_server.Ledger.Ids.{msats}
use coinos_server.Ledger.Client.{Client, IsCluster, post}
use coinos_server.Ledger.Posting.{lookup-submitted_all, lookup-submitted_one, lookup-submitted_pair}
use coinos_server.Ledger.Debit.{
  Tb, DebitArgs, DebitResult, debited, refused, Plan, covered_micro, debit_plan, debit_transfers,
  debit_commit, is_empty, submitted,
}

whole_satoshis :
    (z : ℤ) (n : ℕ)
    → z ≤ℤ pos n
    → let f = pos_part (pos n -ℤ z) / msats in
      (z +ℤ pos (f * msats) ≤ℤ pos n) × (pos (n + 1) ≤ℤ z +ℤ pos ((f + 1) * msats))
whole_satoshis z n h =
    let left : ℤ = pos n -ℤ z in
    let whole = neg_part-nonneg left (omega int_laws) in (omega int_laws, omega int_laws)

module _ {Db : Type 0} (c : Client Db) where
  open c use {lookup_account, create_transfers}

  -- The credits never cover more than the fee.
  covered-le : (a : DebitArgs) (db : Db) → covered_micro c a db ≤ℤ pos (a.ourfee * msats)
  unfolding covered_micro
  covered-le a db = ground arith

  -- The fee is what the credits cover, what the user pays in whole satoshis, and a remainder below
  -- one satoshi that nobody pays.
  pub debit_plan-fee :
      (a : DebitArgs) (db : Db)
      → (f : ℕ) × ((debit_plan c a db).ourfee ≡ pos f)
        × ((debit_plan c a db).covered +ℤ pos (f * msats) ≤ℤ pos (a.ourfee * msats))
        × (pos (a.ourfee * msats + 1) ≤ℤ (debit_plan c a db).covered +ℤ pos ((f + 1) * msats))
        × ((debit_plan c a db).total_micro ≡ (a.amount + a.tip + a.fee + f) * msats)
  unfolding debit_plan
  debit_plan-fee a db =
      let covered = covered_micro c a db in
      let small = covered-le a db in
      (
        pos_part (pos (a.ourfee * msats) -ℤ covered) / msats,
        /ℤ-nonneg (pos (a.ourfee * msats) -ℤ covered) msats (omega int_laws),
        (whole_satoshis covered (a.ourfee * msats) small).0,
        (whole_satoshis covered (a.ourfee * msats) small).1,
        ap (λ z. (a.amount + a.tip + a.fee + pos_part z) * msats)
            (/ℤ-nonneg (pos (a.ourfee * msats) -ℤ covered) msats (omega int_laws)),
      )

  -- A debit is refused and no account changes, or it is carried out and every account has what the
  -- batch moves.
  abbrev pub Settles : DebitArgs → Plan c → Tb Db → DebitResult × Tb Db → Type 0
  Settles a p s (refused _ _, s') = (i : ℕ) → lookup_account i s'.db ≡ lookup_account i s.db
  Settles a p s (debited f, s') =
      (f ≡ p.ourfee)
      × (pos p.total_micro ≤ℤ p.available_micro)
      × ((i : ℕ)
          → lookup_account i s'.db
            ≡ Option.map (post i (debit_transfers c a p s)) (lookup_account i s.db))

  unchanged :
      (laws : IsCluster c) (a : DebitArgs) (p : Plan c) (s : Tb Db)
      → is_empty (create_transfers (debit_transfers c a p s) s.db).0 ≡ false
      → (i : ℕ)
      → lookup_account i (submitted c (debit_transfers c a p s) s).db ≡ lookup_account i s.db
  unfolding debit_transfers
  unchanged laws a p s h i = elim (Bool-cases (ltb_ℤ (pos 0) p.covered)) [
    | inl e ↦ rw e (lookup-submitted_pair c laws i _ _ s refl (rw e at h))
    | inr e ↦ rw e (lookup-submitted_one c laws i _ s (rw e at h))
  ]

  pub debit_commit-Settles :
      (laws : IsCluster c) (a : DebitArgs) (p : Plan c) (s : Tb Db)
      → Settles a p s (debit_commit c a p s)
  unfolding debit_commit
  debit_commit-Settles laws a p s =
      elim (Bool-cases (ltb_ℤ p.available_micro (pos p.total_micro))) [
        | inl e ↦ rw e (λ i. refl)
        | inr e ↦ elim (Bool-cases (is_empty (create_transfers (debit_transfers c a p s) s.db).0)) [
          | inl ok ↦ rw (e, ok) (refl, ground arith, λ i. lookup-submitted_all c laws i _ s ok)
          | inr bad ↦ rw (e, bad) (unchanged laws a p s bad)
        ]
      ]
