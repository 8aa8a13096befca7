-- ===== src/Net/Tests.antt =====
-- Requests to addresses that users choose, at concrete values.
use coinos_server.Base.{ℕ, zero, suc, ◌≤◌, ◌+◌, ◌≡◌, true, false, some, [], ◌∷◌, arith}
use coinos_server.Net.Addresses.{blocked_v4, blocked_groups, v4}
use coinos_server.Net.Addresses.Ranges.{hi, groups, blocked_groups-carried}
use coinos_server.Net.Fetch.{Url, Lookup, Answer, Target, literal, resolved, redirect, fetch_once}
use coinos_server.Net.Fetch.Public.{all_public, count, fetch_once-public}

blocked_groups-carried_example :
    (blocked_groups (groups 0 0 0 0 0 65_535 (hi 10 1) (hi 2 3)) ≡ blocked_v4 10 1 2 3)
    × (blocked_groups (groups 0 0 0 0 65_535 0 (hi 10 1) (hi 2 3)) ≡ blocked_v4 10 1 2 3)
    × (blocked_groups (groups 0 0 0 0 0 0 (hi 10 1) (hi 2 3)) ≡ blocked_v4 10 1 2 3)
    × (blocked_groups (groups 100 65_435 0 0 0 7 (hi 10 1) (hi 2 3)) ≡ blocked_v4 10 1 2 3)
    × (blocked_groups (groups 8194 (hi 10 1) (hi 2 3) 0 0 0 7 9) ≡ blocked_v4 10 1 2 3)
blocked_groups-carried_example =
    blocked_groups-carried 10 1 2 3 0 0 0 7 9 (omega arith) (omega arith) (omega arith)
      (omega arith)

abbrev shop : Url
shop = record { http = true; onion = false; host = 1 }

abbrev inside : Url
inside = record { http = true; onion = false; host = 2 }

-- Host 1 has a public address and host 2 one of the local network.
abbrev names : ℕ → ℕ → Lookup
names n (suc zero) = resolved (some (v4 93 184 216 34 ∷ []))
names n _ = literal (v4 192 168 0 1)

abbrev sends_inside : ℕ → Target → Url → Answer
sends_inside n t u = redirect (some inside)

fetch_once-public_example :
    (all_public (fetch_once names sends_inside 4 shop).targets ≡ true)
    × (count (fetch_once names sends_inside 4 shop).targets ≤ 1 + 4)
fetch_once-public_example = fetch_once-public names sends_inside 4 shop
