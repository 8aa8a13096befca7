-- ===== src/Ledger/Effects.antt =====
-- What single operations of lib/tb.ts do to the accounts of a user.
use coinos_server.Base.{
  ℕ, suc, ◌*◌, ◌^◌, ◌<◌, ◌≡◌, refl, ◌∙◌, ◌≢◌, false, none, ◌⊎◌, ℤ, pos, negsuc, pos_part, neg_part,
  ◌+ℤ◌, ◌-ℤ◌, ltb_ℤ, int_laws, arith, inl, inr, Bool-cases,
}
use coinos_server.Ledger.Ids.{msats, ledger_sats, u128, house_sats, house_ln}
use coinos_server.Ledger.Distinct.{IsUuid, Role, account_of, account_ids}
use coinos_server.Ledger.Client.{Client, IsCluster, moved_in, moved_out}
use coinos_server.Ledger.Posting.{lookup-submitted_one, lookup-submitted_pair, micro-submitted_all}
use coinos_server.Ledger.Debit.{Tb, account_balance_micro, is_empty, submitted}
use coinos_server.Ledger.Operations.{
  confirm_transfers, tb_confirm, reverse_transfers, tb_reverse, adjust, adjust_transfers,
  tb_set_balance,
}

pub house-lt : (h : ℕ) → h < 2 ^ 67 → u128 h < 2 ^ 67
unfolding u128
house-lt h p = omega arith

module _ {Db : Type 0} (c : Client Db) (laws : IsCluster c) where
  open c use {lookup_account, create_transfers}

  -- The balance of an account of a user, in microsatoshis.
  abbrev pub micro : Role → ℕ → Tb Db → ℤ
  micro r u s = account_balance_micro (lookup_account (account_of r u) s.db)

  module _ (aid amount : ℕ) (s : Tb Db) (u : IsUuid aid) where
    confirm_balance :
        (moved_in (account_of Role.balance aid) (confirm_transfers c aid amount s) ≡ amount * msats)
        × (moved_out (account_of Role.balance aid) (confirm_transfers c aid amount s) ≡ 0)
    unfolding confirm_transfers
    confirm_balance = ground (
      arith,
      (account_ids Role.balance Role.pending aid aid u u).0,
      (account_ids Role.balance Role.pending aid aid u u).1,
      house-lt house_sats (omega arith),
    )

    confirm_pending :
        (moved_in (account_of Role.pending aid) (confirm_transfers c aid amount s) ≡ 0)
        × (moved_out (account_of Role.pending aid) (confirm_transfers c aid amount s)
            ≡ amount * msats)
    unfolding confirm_transfers
    confirm_pending = ground (
      arith,
      (account_ids Role.pending Role.balance aid aid u u).0,
      (account_ids Role.pending Role.balance aid aid u u).1,
      house-lt house_sats (omega arith),
    )

    -- A confirmation moves the amount from the pending account to the balance, unless the cluster
    -- refuses the batch, and then no account changes. The owner is a uuid whose two accounts exist.
    pub tb_confirm-moves :
        lookup_account (account_of Role.balance aid) s.db ≢ none
        → lookup_account (account_of Role.pending aid) s.db ≢ none
        → ((micro Role.balance aid (tb_confirm c aid amount s)
              ≡ micro Role.balance aid s +ℤ pos (amount * msats))
            × (micro Role.pending aid (tb_confirm c aid amount s)
                ≡ micro Role.pending aid s -ℤ pos (amount * msats)))
          ⊎ ((is_empty (create_transfers (confirm_transfers c aid amount s) s.db).0 ≡ false)
              × ((i : ℕ) → lookup_account i (tb_confirm c aid amount s).db ≡ lookup_account i s.db))
    unfolding tb_confirm
    tb_confirm-moves b p =
        elim (Bool-cases (is_empty (create_transfers (confirm_transfers c aid amount s) s.db).0)) [
          | inl ok ↦ inl (
            micro-submitted_all c laws _ (confirm_transfers c aid amount s) s ok b
                ∙ rw (confirm_balance.0, confirm_balance.1) (omega int_laws),
            micro-submitted_all c laws _ (confirm_transfers c aid amount s) s ok p
                ∙ rw (confirm_pending.0, confirm_pending.1) (omega int_laws),
          )
          | inr bad ↦
              inr (
                bad,
                λ i. unfold confirm_transfers in lookup-submitted_pair c laws i _ _ s refl bad,
              )
        ]

  module _ (uid : ℕ) (u : IsUuid uid) where
    reverse_balance :
        (total : ℕ) (credit : ℤ) (s : Tb Db)
        → (moved_in (account_of Role.balance uid) (reverse_transfers c uid total credit s)
            ≡ total * msats)
          × (moved_out (account_of Role.balance uid) (reverse_transfers c uid total credit s) ≡ 0)
    unfolding reverse_transfers
    reverse_balance total credit s = ground (
      arith,
      (account_ids Role.balance Role.credit_lightning uid uid u u).0,
      (account_ids Role.balance Role.credit_lightning uid uid u u).1,
      house-lt house_sats (omega arith),
      house-lt house_ln (omega arith),
    )

    -- A reversal that the cluster accepts gives the total back, whatever credit comes with it.
    pub tb_reverse-restores :
        (total : ℕ) (credit : ℤ) (s : Tb Db)
        → lookup_account (account_of Role.balance uid) s.db ≢ none
        → (micro Role.balance uid (tb_reverse c uid total credit s)
            ≡ micro Role.balance uid s +ℤ pos (total * msats))
          ⊎ ((is_empty (create_transfers (reverse_transfers c uid total credit s) s.db).0 ≡ false)
              × ((i : ℕ)
                  → lookup_account i (tb_reverse c uid total credit s).db ≡ lookup_account i s.db))
    unfolding tb_reverse
    tb_reverse-restores total credit s b =
        elim (Bool-cases
          (is_empty (create_transfers (reverse_transfers c uid total credit s) s.db).0)) [
            | inl ok ↦ inl (
                micro-submitted_all c laws _ (reverse_transfers c uid total credit s) s ok b
                ∙ rw ((reverse_balance total credit s).0, (reverse_balance total credit s).1)
                    (omega int_laws))
            | inr bad ↦ inr (bad, reverse_fails total credit s bad)
          ]
      where
        reverse_fails :
            (total : ℕ) (credit : ℤ) (s : Tb Db)
            → is_empty (create_transfers (reverse_transfers c uid total credit s) s.db).0 ≡ false
            → (i : ℕ)
            → lookup_account i (submitted c (reverse_transfers c uid total credit s) s).db
              ≡ lookup_account i s.db
        reverse_fails total credit s bad i =
            unfold reverse_transfers in
            elim (Bool-cases (ltb_ℤ (pos 0) credit)) [
              | inl e ↦ rw e (lookup-submitted_pair c laws i _ _ s refl (rw e at bad))
              | inr e ↦ rw e (lookup-submitted_one c laws i _ s (rw e at bad))
            ]

    adjust_balance :
        (diff : ℤ) (s : Tb Db)
        → let ts =
            adjust_transfers c (account_of Role.balance uid) (u128 house_sats) ledger_sats diff s in
          (moved_in (account_of Role.balance uid) ts ≡ pos_part diff)
          × (moved_out (account_of Role.balance uid) ts ≡ neg_part diff)
    unfolding adjust_transfers
    adjust_balance (pos n) s = ground (
      arith,
      (account_ids Role.balance Role.balance uid uid u u).0,
      house-lt house_sats (omega arith),
    )
    adjust_balance (negsuc n) s = ground (
      arith,
      (account_ids Role.balance Role.balance uid uid u u).0,
      house-lt house_sats (omega arith),
    )

    adjust_fails :
        (diff : ℤ) (s : Tb Db)
        → is_empty
            (create_transfers
              (adjust_transfers c
                (account_of Role.balance uid)
                (u128 house_sats)
                ledger_sats
                diff
                s)
              s.db).0
          ≡ false
        → (i : ℕ)
        → lookup_account i
            (submitted c
              (adjust_transfers c
                (account_of Role.balance uid)
                (u128 house_sats)
                ledger_sats
                diff
                s)
              s).db
          ≡ lookup_account i s.db
    unfolding adjust_transfers
    adjust_fails (pos n) s bad i = lookup-submitted_one c laws i _ s bad
    adjust_fails (negsuc n) s bad i = lookup-submitted_one c laws i _ s bad

    -- The cluster refuses the transfers that adjust the balance.
    abbrev pub AdjustRefused : ℤ → Tb Db → Type 0
    AdjustRefused diff s =
        is_empty
          (create_transfers
            (adjust_transfers c (account_of Role.balance uid) (u128 house_sats) ledger_sats diff s)
            s.db).0
        ≡ false

    submits :
        (diff : ℤ) (s : Tb Db)
        → lookup_account (account_of Role.balance uid) s.db ≢ none
        → let s' =
            submitted c
              (adjust_transfers c
                (account_of Role.balance uid)
                (u128 house_sats)
                ledger_sats
                diff
                s)
              s in
          (micro Role.balance uid s' ≡ micro Role.balance uid s +ℤ diff)
          ⊎ (AdjustRefused diff s × ((i : ℕ) → lookup_account i s'.db ≡ lookup_account i s.db))
    submits diff s b =
        elim (Bool-cases (
          is_empty
            (create_transfers
              (adjust_transfers c (account_of Role.balance uid) (u128 house_sats) ledger_sats diff
                s)
              s.db).0)) [
                | inl ok ↦ inl (
                    micro-submitted_all c laws _
                      (adjust_transfers c (account_of Role.balance uid) (u128 house_sats)
                        ledger_sats diff s)
                      s ok b
                    ∙ rw ((adjust_balance diff s).0, (adjust_balance diff s).1) (omega int_laws))
                | inr bad ↦ inr (bad, adjust_fails diff s bad)
              ]

    adjust-moves :
        (diff : ℤ) (s : Tb Db)
        → lookup_account (account_of Role.balance uid) s.db ≢ none
        → let s' = adjust c (account_of Role.balance uid) (u128 house_sats) ledger_sats diff s in
          (micro Role.balance uid s' ≡ micro Role.balance uid s +ℤ diff)
          ⊎ (AdjustRefused diff s × ((i : ℕ) → lookup_account i s'.db ≡ lookup_account i s.db))
    unfolding adjust
    adjust-moves (pos ℕ.zero) s b = inl (omega int_laws)
    adjust-moves (pos (suc n)) s b = submits (pos (suc n)) s b
    adjust-moves (negsuc n) s b = submits (negsuc n) s b

    -- Setting a balance reaches exactly the target, unless the cluster refuses the transfer of the
    -- difference, and then no account changes. The owner is a uuid whose balance account exists.
    pub tb_set_balance-target :
        (target : ℕ) (s : Tb Db)
        → lookup_account (account_of Role.balance uid) s.db ≢ none
        → (micro Role.balance uid (tb_set_balance c uid target s) ≡ pos (target * msats))
          ⊎ (AdjustRefused (pos (target * msats) -ℤ micro Role.balance uid s) s
              × ((i : ℕ)
                  → lookup_account i (tb_set_balance c uid target s).db ≡ lookup_account i s.db))
    unfolding tb_set_balance
    tb_set_balance-target target s b =
        elim (adjust-moves (pos (target * msats) -ℤ micro Role.balance uid s) s b) [
          | inl e ↦ inl (e ∙ omega int_laws)
          | inr same ↦ inr same
        ]
