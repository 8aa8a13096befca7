-- ===== src/Ledger/Cluster.antt =====
-- A cluster that keeps the documented laws: accounts in a map, and a batch that is posted whole or
-- refused whole.
use mathlib.Core.Option
use coinos_server.Base.{
  length, ℕ, suc, ◌+◌, ◌≤◌, ◌≡◌, ◌⊎◌, refl, sym, ap, ◌∙◌, Bool, true, false, not, ◌&&◌, ◌||◌,
  Option, none, some, List, [], ◌∷◌, leb, ◌==◌, ==_iff, if◌then◌else◌, arith, inl, inr, Bool-cases,
}
use coinos_server.Ledger.Client.{
  Account, NewAccount, Transfer, Failure, Client, IsCluster, IsWithin, Exist, BelowLength, reported,
  accepted, moved_out, post,
}

abbrev pub Accounts : Type 0
Accounts = ℕ → Option Account

abbrev within : Option Account → Bool
within none = false
within (some x) = not x.limited || leb x.debits_posted x.credits_posted

abbrev exists_in : Option Account → Bool
exists_in none = false
exists_in (some x) = true

-- Whether the transfers `ts` of the batch `all` may be posted.
abbrev fits : List Transfer → List Transfer → Accounts → Bool
fits all [] db = true
fits all (t ∷ ts) db =
    within (Option.map (post t.debit_account_id all) (db t.debit_account_id))
    && exists_in (db t.credit_account_id)
    && fits all ts db

abbrev refuse_all : ℕ → List Transfer → List Failure
refuse_all i [] = []
refuse_all i (t ∷ ts) = record { index = i; result = 54 } ∷ refuse_all (suc i) ts

abbrev opening : List NewAccount → ℕ → Option Account
opening [] i = none
opening (n ∷ ns) i =
    if n.id == i
    then some
        (record { ledger = n.ledger; limited = n.limited; debits_posted = 0; credits_posted = 0 })
    else opening ns i

abbrev kept : Option Account → Option Account → Option Account
kept none o = o
kept (some x) o = some x

abbrev posted : Bool → List Transfer → Accounts → List Failure × Accounts
posted true ts db = ([], λ i. Option.map (post i ts) (db i))
posted false ts db = (refuse_all 0 ts, db)

abbrev pub cluster : Client Accounts
cluster = record {
  lookup_account = λ i db. db i;
  create_accounts = λ ns db. ([], λ i. kept (db i) (opening ns i));
  create_transfers = λ ts db. posted (fits ts ts db) ts db;
}

reported-refuse_all :
    (i j : ℕ) (ts : List Transfer)
    → reported j (refuse_all i ts) ≡ (leb i j && not (leb (i + length ts) j))
reported-refuse_all i j [] = ground arith
reported-refuse_all i j (t ∷ ts) = ground (arith, reported-refuse_all (suc i) j ts)

accepted-refused :
    (i : ℕ) (all ts : List Transfer)
    → i + length ts ≡ length all
    → accepted i (refuse_all 0 all) ts ≡ []
accepted-refused i all [] h = refl
accepted-refused i all (t ∷ ts) h =
    ground (arith, reported-refuse_all 0 i all, accepted-refused (suc i) all ts (omega (arith, h)))

accepted-nil : (i : ℕ) (ts : List Transfer) → accepted i [] ts ≡ ts
accepted-nil i [] = refl
accepted-nil i (t ∷ ts) = rw (accepted-nil (suc i) ts)

refuse_all-BelowLength :
    (i n : ℕ) (ts : List Transfer) → i + length ts ≤ n → BelowLength (refuse_all i ts) n
refuse_all-BelowLength i n [] h = tt
refuse_all-BelowLength i n (t ∷ ts) h =
    (omega arith, refuse_all-BelowLength (suc i) n ts (omega arith))

map-nothing : (a : ℕ) (o : Option Account) → o ≡ Option.map (post a []) o
map-nothing a none = refl
map-nothing a (some x) = ground arith

fits-Exist :
    (all ts : List Transfer) (db : Accounts) → fits all ts db ≡ true → Exist (λ i db. db i) db ts
fits-Exist all [] db h = tt
fits-Exist all (t ∷ ts) db h =
    (λ e. ground (arith, e), λ e. ground (arith, e), fits-Exist all ts db (ground (arith)))

opening-empty :
    (ns : List NewAccount) (a : ℕ) (x : Account)
    → opening ns a ≡ some x
    → (x.debits_posted ≡ 0) × (x.credits_posted ≡ 0)
opening-empty [] a x e = cc
opening-empty (n ∷ ns) a x e = elim (Bool-cases (n.id == a)) [
  | inl h ↦ let e' = rw h at e in (cc, cc)
  | inr h ↦ opening-empty ns a x (rw h at e)
]

within-post :
    (a : ℕ) (ts : List Transfer) (x : Account)
    → within (Option.map (post a ts) (some x)) ≡ true
    → IsWithin (post a ts x)
within-post a ts x h = λ l. ground arith

-- An account that is debited by one of the transfers passes the test of that transfer.
debited-fits :
    (a : ℕ) (x : Account) (all ts : List Transfer) (db : Accounts)
    → db a ≡ some x
    → fits all ts db ≡ true
    → (IsWithin (post a all x)) ⊎ (moved_out a ts ≡ 0)
debited-fits a x all [] db e h = inr refl
debited-fits a x all (t ∷ ts) db e h = elim (Bool-cases (t.debit_account_id == a)) [
  | inl same ↦ inl (
      within-post a all x (
        ap (λ o. within (Option.map (post a all) o)) (sym e)
        ∙ sym (
            ap (λ i. within (Option.map (post i all) (db i)))
              ((==_iff t.debit_account_id a).0 same))
        ∙ ground arith))
  | inr other ↦ elim (debited-fits a x all ts db e (ground arith)) [
    | inl w ↦ inl w
    | inr z ↦ inr (ground arith)
  ]
]

IsWithin-only_in :
    (a : ℕ) (ts : List Transfer) (x : Account)
    → moved_out a ts ≡ 0
    → IsWithin x
    → IsWithin (post a ts x)
IsWithin-only_in a ts x z h = λ l. omega (arith, h l)

cluster-IsCluster_limits :
    (a : ℕ) (x : Account) (ts : List Transfer) (db : Accounts)
    → db a ≡ some x
    → IsWithin x
    → IsWithin (post a (accepted 0 (cluster.create_transfers ts db).0 ts) x)
cluster-IsCluster_limits a x ts db e w = elim (Bool-cases (fits ts ts db)) [
  | inl h ↦
      rw (h, accepted-nil 0 ts)
        (elim (debited-fits a x ts ts db e h) [ inl q ↦ q | inr z ↦ IsWithin-only_in a ts x z w ])
  | inr h ↦ rw (h, accepted-refused 0 ts ts (omega arith)) (IsWithin-only_in a [] x refl w)
]

pub cluster-IsCluster : IsCluster cluster
cluster-IsCluster = record {
  posts = λ a ts db. elim (Bool-cases (fits ts ts db)) [
    | inl h ↦ rw (h, accepted-nil 0 ts)
    | inr h ↦ rw (h, accepted-refused 0 ts ts (omega arith)) (map-nothing a (db a))
  ];
  in_batch = λ ts db. elim (Bool-cases (fits ts ts db)) [
    | inl h ↦ rw h tt
    | inr h ↦ rw h (refuse_all-BelowLength 0 (length ts) ts (omega arith))
  ];
  chained = λ t u db l. elim (Bool-cases (fits (t ∷ u ∷ []) (t ∷ u ∷ []) db)) [
    | inl h ↦ rw h
    | inr h ↦ rw h
  ];
  between = λ ts db. elim (Bool-cases (fits ts ts db)) [
    | inl h ↦ rw (h, accepted-nil 0 ts) (fits-Exist ts ts db h)
    | inr h ↦ rw (h, accepted-refused 0 ts ts (omega arith)) tt
  ];
  limits = cluster-IsCluster_limits;
  keeps = λ a x ns db e. rw e;
  opens = λ a x ns db e e'. opening-empty ns a x (rw e at e');
}
