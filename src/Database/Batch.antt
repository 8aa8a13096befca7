-- ===== src/Database/Batch.antt =====
-- lib/db.ts, `gfAll`: a batch of reads in two requests.
use mathlib.Core.Option
use coinos_server.Base.{
  ℕ, suc, ◌≡◌, refl, sym, ap, ◌∙◌, Option, none, some, List, [], ◌∷◌, ◌++◌, map, inl, inr,
  Option-cases, length, get_elem?, append_assoc,
}
use coinos_server.Database.{Stores, fall_back, gf, set, missing_from, keys_at, fill, gf_all}

length-one {ℓ} : {A : Type ℓ} (xs : List A) (x : A) → length (xs ++ (x ∷ [])) ≡ suc (length xs)
length-one [] x = refl
length-one (y ∷ xs) x = ap suc (length-one xs x)

module _ {Key Text : Type 0} (s : Stores Key Text) where
  set-append :
      (pre : List (Option Text)) (x y : Option Text) (rest : List (Option Text))
      → set (pre ++ (x ∷ rest)) (length pre) y ≡ pre ++ (y ∷ rest)
  set-append [] x y rest = refl
  set-append (p ∷ pre) x y rest = ap (λ (vs : List (Option Text)). p ∷ vs) (set-append pre x y rest)

  get-append :
      (pre : List Key) (k : Key) (rest : List Key)
      → get_elem? (pre ++ (k ∷ rest)) (length pre) ≡ some k
  get-append [] k rest = refl
  get-append (p ∷ pre) k rest = get-append pre k rest

  abbrev overlay : Key → Option Text
  overlay k = fall_back (s.db k) (s.archive k)

  abbrev filled : List Key → ℕ → List (Option Text) → List (Option Text) → List (Option Text)
  filled keys n vs values =
      fill (missing_from n vs) (map s.archive (keys_at keys (missing_from n vs))) values

  -- With the values before them in place, those that are left are filled in.
  fill-overlay :
      (pk : List Key) (pre : List (Option Text)) (ks : List Key)
      → length pk ≡ length pre
      → filled (pk ++ ks) (length pre) (map s.db ks) (pre ++ map s.db ks) ≡ pre ++ map overlay ks
  unfolding fill missing_from keys_at
  fill-overlay pk pre [] h = refl
  fill-overlay pk pre (k ∷ ks) h =
      let next = λ (x : Option Text).
        rw
          (
            append_assoc pk (k ∷ []) ks,
            append_assoc pre (x ∷ []) (map s.db ks),
            append_assoc pre (x ∷ []) (map overlay ks),
            length-one pre x,
          )
          at
          (fill-overlay (pk ++ (k ∷ [])) (pre ++ (x ∷ [])) ks
            (length-one pk k ∙ ap suc h ∙ sym (length-one pre x))) in
      elim (Option-cases (s.db k)) [
        | inl e ↦
            let found : get_elem? (pk ++ (k ∷ ks)) (length pre) ≡ some k =
              rw (← h) (get-append pk k ks) in
            rw (e, found, set-append pre none (s.archive k) (map s.db ks)) (next (s.archive k))
        | inr (v, e) ↦ rw e (next (some v))
      ]

map-map {ℓ κ μ} :
    {A : Type ℓ} {B : Type κ} {C : Type μ} (f : B → C) (g : A → B) (xs : List A)
    → map f (map g xs) ≡ map (λ x. f (g x)) xs
map-map f g [] = refl
map-map f g (x ∷ xs) = ap (λ ys. f (g x) ∷ ys) (map-map f g xs)

module _ {Key Text Value : Type 0} (decode : Text → Value) (s : Stores Key Text) where
  -- A batch gives what its keys give when they are read one by one, in order, whatever the database
  -- and the archive have.
  pub gf_all-gf : (keys : List Key) → gf_all decode s keys ≡ map (gf decode s) keys
  unfolding gf_all gf
  gf_all-gf keys =
      ap (map (Option.map decode)) (fill-overlay s [] [] keys refl)
      ∙ map-map (Option.map decode) (λ k. fall_back (s.db k) (s.archive k)) keys
