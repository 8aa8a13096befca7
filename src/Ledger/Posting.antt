-- ===== src/Ledger/Posting.antt =====
-- What a batch does to balances, from the laws of the cluster.
use mathlib.Core.Option
use mathlib.Core.Option.{some-injective}
use mathlib.Core.Path.{subst}
use coinos_server.Base.{
  ℕ, suc, ◌≡◌, refl, sym, ap, ◌∙◌, ◌≢◌, true, false, Option, none, some, List, [], ◌∷◌, pos, ◌+ℤ◌,
  ◌-ℤ◌, arith,
}
use coinos_server.Ledger.Client.{
  Account, Transfer, Failure, Client, IsCluster, IsWithin, reported, accepted, moved_in, moved_out,
  post, BelowLength,
}
use coinos_server.Ledger.Debit.{Tb, account_balance_micro, is_empty, submitted}

-- A posted batch raises the balance by what comes in and lowers it by what goes out.
pub micro-post :
    (a : ℕ) (ts : List Transfer) (x : Account)
    → account_balance_micro (some (post a ts x))
      ≡ account_balance_micro (some x) +ℤ pos (moved_in a ts) -ℤ pos (moved_out a ts)
unfolding account_balance_micro ◌+ℤ◌ ◌-ℤ◌
micro-post a ts x = ground arith

pub micro-map-post :
    (a : ℕ) (ts : List Transfer) (o : Option Account)
    → o ≢ none
    → account_balance_micro (Option.map (post a ts) o)
      ≡ account_balance_micro o +ℤ pos (moved_in a ts) -ℤ pos (moved_out a ts)
micro-map-post a ts none h = absurd (h refl)
micro-map-post a ts (some x) h = micro-post a ts x

accepted_all :
    (i : ℕ) (fs : List Failure) (ts : List Transfer) → is_empty fs ≡ true → accepted i fs ts ≡ ts
accepted_all i fs [] h = refl
accepted_all i [] (t ∷ ts) h = ap (◌∷◌ t) (accepted_all (suc i) [] ts h)
accepted_all i (f ∷ fs) (t ∷ ts) h = cc

accepted_none_one :
    (fs : List Failure) (t : Transfer)
    → BelowLength fs 1
    → is_empty fs ≡ false
    → accepted 0 fs (t ∷ []) ≡ []
accepted_none_one [] t b h = cc
accepted_none_one (f ∷ fs) t b h = ground (arith, b.0)

accepted_none_pair :
    (fs : List Failure) (t u : Transfer)
    → BelowLength fs 2
    → reported 0 fs ≡ reported 1 fs
    → is_empty fs ≡ false
    → accepted 0 fs (t ∷ u ∷ []) ≡ []
accepted_none_pair [] t u b e h = cc
accepted_none_pair (f ∷ fs) t u b e h = ground (arith, b.0)

map-post-nil : (a : ℕ) (o : Option Account) → Option.map (post a []) o ≡ o
map-post-nil a none = refl
map-post-nil a (some x) = ground arith

IsWithin-of_map :
    (f : Account → Account) {o : Option Account} {x y : Account}
    → o ≡ some x
    → Option.map f o ≡ some y
    → IsWithin (f x)
    → IsWithin y
IsWithin-of_map f {o} {x} {y} e m h =
    subst IsWithin (some-injective (f x) y (sym (ap (Option.map f) e) ∙ m)) h

module _ {Db : Type 0} (c : Client Db) (laws : IsCluster c) where
  open c use {lookup_account, create_transfers}

  posts-of_accepted :
      (a : ℕ) (ts us : List Transfer) (s : Tb Db)
      → accepted 0 (create_transfers ts s.db).0 ts ≡ us
      → lookup_account a (submitted c ts s).db ≡ Option.map (post a us) (lookup_account a s.db)
  posts-of_accepted a ts us s e =
      laws.posts a ts s.db ∙ ap (λ us. Option.map (post a us) (lookup_account a s.db)) e

  -- A batch with no failure posts all of its transfers.
  pub lookup-submitted_all :
      (a : ℕ) (ts : List Transfer) (s : Tb Db)
      → is_empty (create_transfers ts s.db).0 ≡ true
      → lookup_account a (submitted c ts s).db ≡ Option.map (post a ts) (lookup_account a s.db)
  lookup-submitted_all a ts s h = posts-of_accepted a ts ts s (accepted_all 0 _ ts h)

  -- A single transfer that fails, or a linked pair of which one does, changes nothing.
  pub lookup-submitted_one :
      (a : ℕ) (t : Transfer) (s : Tb Db)
      → is_empty (create_transfers (t ∷ []) s.db).0 ≡ false
      → lookup_account a (submitted c (t ∷ []) s).db ≡ lookup_account a s.db
  lookup-submitted_one a t s h =
      posts-of_accepted a (t ∷ []) [] s (accepted_none_one _ t (laws.in_batch (t ∷ []) s.db) h)
      ∙ map-post-nil a (lookup_account a s.db)

  pub lookup-submitted_pair :
      (a : ℕ) (t u : Transfer) (s : Tb Db)
      → t.linked ≡ true
      → is_empty (create_transfers (t ∷ u ∷ []) s.db).0 ≡ false
      → lookup_account a (submitted c (t ∷ u ∷ []) s).db ≡ lookup_account a s.db
  lookup-submitted_pair a t u s l h =
      posts-of_accepted a (t ∷ u ∷ []) [] s
        (accepted_none_pair _ t u (laws.in_batch (t ∷ u ∷ []) s.db) (laws.chained t u s.db l) h)
      ∙ map-post-nil a (lookup_account a s.db)

  -- No batch takes a limited account below zero.
  pub submitted-IsWithin :
      (a : ℕ) (ts : List Transfer) (s : Tb Db) (x y : Account)
      → lookup_account a s.db ≡ some x
      → IsWithin x
      → lookup_account a (submitted c ts s).db ≡ some y
      → IsWithin y
  submitted-IsWithin a ts s x y ex h ey =
      IsWithin-of_map (post a (accepted 0 (create_transfers ts s.db).0 ts)) ex
        (sym (laws.posts a ts s.db) ∙ ey) (laws.limits a x ts s.db ex h)

  -- A batch with no failure moves the balance of every account that exists.
  pub micro-submitted_all :
      (a : ℕ) (ts : List Transfer) (s : Tb Db)
      → is_empty (create_transfers ts s.db).0 ≡ true
      → lookup_account a s.db ≢ none
      → account_balance_micro (lookup_account a (submitted c ts s).db)
        ≡ account_balance_micro (lookup_account a s.db)
          +ℤ pos (moved_in a ts)
          -ℤ pos (moved_out a ts)
  micro-submitted_all a ts s h e =
      ap account_balance_micro (lookup-submitted_all a ts s h)
      ∙ micro-map-post a ts (lookup_account a s.db) e
