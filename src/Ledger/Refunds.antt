-- ===== src/Ledger/Refunds.antt =====
-- What `tbRefund` of lib/tb.ts adds to a balance.
use coinos_server.Base.{
  ℕ, ◌*◌, ◌≡◌, ◌≢◌, ◌⊎◌, ◌∙◌, none, false, ℤ, pos, pos_part, ◌+ℤ◌, leb_ℤ, int_laws, arith, inl, inr,
  Bool-cases,
}
use coinos_server.Ledger.Ids.{msats, balance_id, house_sats}
use coinos_server.Ledger.Distinct.{IsUuid, Role, account_of, account_ids}
use coinos_server.Ledger.Client.{Client, IsCluster, moved_in, moved_out}
use coinos_server.Ledger.Debit.{Tb, account_balance_micro, is_empty, get_account}
use coinos_server.Ledger.Operations.{refund_transfers, tb_refund}
use coinos_server.Ledger.Posting.{lookup-submitted_one, micro-submitted_all}
use coinos_server.Ledger.Effects.{house-lt}

module _ {Db : Type 0} (c : Client Db) (laws : IsCluster c) (uid : ℕ) (u : IsUuid uid) where
  open c use {lookup_account, create_transfers}

  refund_balance :
      (amount : ℕ) (s : Tb Db)
      → (moved_in (account_of Role.balance uid) (refund_transfers c uid amount s) ≡ amount * msats)
        × (moved_out (account_of Role.balance uid) (refund_transfers c uid amount s) ≡ 0)
  unfolding refund_transfers
  refund_balance amount s = ground (
    arith,
    (account_ids Role.balance Role.balance uid uid u u).0,
    house-lt house_sats (omega arith),
  )

  -- A refund of a positive amount adds it to the balance, one that is not positive does nothing, and
  -- one that the cluster refuses changes no account.
  pub tb_refund-adds :
      (amount : ℤ) (s : Tb Db)
      → get_account c (balance_id uid) s.db ≢ none
      → (account_balance_micro (get_account c (balance_id uid) (tb_refund c uid amount s).db)
          ≡ account_balance_micro (get_account c (balance_id uid) s.db)
            +ℤ pos (pos_part amount * msats))
        ⊎ ((is_empty (create_transfers (refund_transfers c uid (pos_part amount) s) s.db).0 ≡ false)
            × ((i : ℕ) → lookup_account i (tb_refund c uid amount s).db ≡ lookup_account i s.db))
  unfolding tb_refund get_account
  tb_refund-adds amount s ex = elim (Bool-cases (leb_ℤ amount (pos 0))) [
    | inl e ↦ simp e (let z : pos_part amount ≡ 0 = ground arith in inl (rw z (omega int_laws)))
    | inr e ↦
        simp e
          (elim (Bool-cases
            (is_empty (create_transfers (refund_transfers c uid (pos_part amount) s) s.db).0)) [
              | inl ok ↦ inl (
                  micro-submitted_all c laws _ (refund_transfers c uid (pos_part amount) s) s ok ex
                  ∙ rw
                      (
                        (refund_balance (pos_part amount) s).0,
                        (refund_balance (pos_part amount) s).1,
                      )
                      (omega int_laws))
              | inr bad ↦
                  inr (bad, λ i. unfold refund_transfers in lookup-submitted_one c laws i _ s bad)
            ])
  ]
