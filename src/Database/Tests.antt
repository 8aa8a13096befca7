-- ===== src/Database/Tests.antt =====
-- Reads that fall back to the archive, at concrete values.
use coinos_server.Base.{ℕ, zero, suc, ◌+◌, ◌≡◌, Option, none, some, [], ◌∷◌, map}
use coinos_server.Database.{Stores, gf, gf_all}
use coinos_server.Database.Batch.{gf_all-gf}

abbrev hot : ℕ → Option ℕ
hot (suc zero) = some 10
hot k = none

abbrev stores : Stores ℕ ℕ
stores = record { db = hot; archive = λ k. some (k + 100) }

gf_all-gf_example :
    gf_all (λ (t : ℕ). t + 1) stores (2 ∷ 1 ∷ 3 ∷ [])
    ≡ map (gf (λ (t : ℕ). t + 1) stores) (2 ∷ 1 ∷ 3 ∷ [])
gf_all-gf_example = gf_all-gf (λ (t : ℕ). t + 1) stores (2 ∷ 1 ∷ 3 ∷ [])
