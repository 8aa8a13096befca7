-- ===== src/Database.antt =====
-- lib/db.ts: reads that fall back from the database to the archive. `decode` is `JSON.parse` with the
-- text itself where that fails; a missing key stays missing. The connections are left out.
pub mod Batch
mod Tests
use mathlib.Core.Option
use coinos_server.Base.{
  ℕ, zero, suc, ◌+◌, Bool, true, false, Option, none, some, List, [], ◌∷◌, ◌==◌, if◌then◌else◌, map,
  get_elem?,
}

-- Two key-value stores over the same keys, with texts as values.
pub record Stores (Key Text : Type 0) : Type 0 where
  pub db : Key → Option Text
  pub archive : Key → Option Text

abbrev pub fall_back {ℓ} : {A : Type ℓ} → Option A → Option A → Option A
fall_back none v = v
fall_back (some a) v = some a

module _ {Key Text Value : Type 0} (decode : Text → Value) (s : Stores Key Text) where
  abbrev pub read : Key → Option Text
  read k = fall_back (s.db k) (s.archive k)

  unfoldable pub gf : Key → Option Value
  gf k = Option.map decode (read k)

-- `values[i] = v`
abbrev pub set {ℓ} : {A : Type ℓ} → List A → ℕ → A → List A
set [] i v = []
set (x ∷ xs) zero v = v ∷ xs
set (x ∷ xs) (suc i) v = x ∷ set xs i v

-- The positions from `i` on whose value is missing.
unfoldable pub missing_from : {Text : Type 0} → ℕ → List (Option Text) → List ℕ
missing_from i [] = []
missing_from i (none ∷ vs) = i ∷ missing_from (suc i) vs
missing_from i (some v ∷ vs) = missing_from (suc i) vs

-- `missing.map((i) => keys[i])`; every position is one of the keys.
abbrev pub or_skip : {Key : Type 0} → Option Key → List Key → List Key
or_skip none ks = ks
or_skip (some k) ks = k ∷ ks

unfoldable pub keys_at : {Key : Type 0} → List Key → List ℕ → List Key
keys_at keys [] = []
keys_at keys (i ∷ is) = or_skip (get_elem? keys i) (keys_at keys is)

-- `values[missing[j]] = archiveValues[j]`
unfoldable pub fill :
    {Text : Type 0} → List ℕ → List (Option Text) → List (Option Text) → List (Option Text)
fill [] archived values = values
fill (i ∷ is) [] values = values
fill (i ∷ is) (v ∷ vs) values = fill is vs (set values i v)

module _ {Key Text Value : Type 0} (decode : Text → Value) (s : Stores Key Text) where
  -- With no key and with none missing, the code's shortcuts give the same.
  unfoldable pub gf_all : List Key → List (Option Value)
  unfolding missing_from keys_at fill
  gf_all keys =
      let values = map s.db keys in
      let missing = missing_from 0 values in
      map (Option.map decode) (fill missing (map s.archive (keys_at keys missing)) values)

-- `getWithArchive`: a value that names another key is followed once.
pub data Json : Type 0 where
  reference : ℕ → Json
  value : ℕ → Json
  -- a text that is no JSON
  plain : ℕ → Json

abbrev followed : Json → Option Json → Option Json
followed first none = none
followed first (some (reference r)) = some (reference r)
followed first (some (value v)) = some (value v)
-- a failure to parse is caught, and the first text returned
followed first (some (plain t)) = some first

abbrev follow : Stores ℕ Json → Option Json → Option Json
follow s none = none
follow s (some (reference r)) = followed (reference r) (fall_back (s.db r) (s.archive r))
follow s (some (value v)) = some (value v)
follow s (some (plain t)) = some (plain t)

unfoldable pub get_with_archive : Stores ℕ Json → ℕ → Option Json
get_with_archive s id = follow s (fall_back (s.db id) (s.archive id))
