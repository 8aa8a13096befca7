-- ===== src/Limits/Tests.antt =====
-- Runs of the models of the limits.
use coinos_server.Base.{◌+◌, ◌≤◌, ◌≡◌, refl, true, false, none, some, List, [], ◌∷◌, arith}
use coinos_server.Limits.Breaker.{
  Limits, Dir, missing, unreadable, record_withdrawal, assert_withdraw_breaker,
}
use coinos_server.Limits.Breaker.Ceiling.{Send, sends, send, settled, in_window, sends-in_window}
use coinos_server.Limits.Allowance.{Unknown, finite, not_finite, Left}
use coinos_server.Limits.Meltguard.{Config, Guard, read_cum, decode_sat}
use coinos_server.Limits.Meltguard.Runs.{
  Request, Ledger, handle_all, IsCounted, handle_all-IsCounted, AllForwarded, settle_all, last_of,
  overlapping-counted,
}

abbrev limits : Limits
limits = record { cap = 1000; window_ms = 86_400_000 }

abbrev dir : Dir
dir = record { state = missing; locked = false; writable = true }

-- The third send crosses the cap; the fourth comes a day after the first.
abbrev four_sends : List Send
four_sends =
    record { wait = 1; amount = 600 }
    ∷ record { wait = 1000; amount = 400 }
    ∷ record { wait = 1000; amount = 1 }
    ∷ record { wait = 86_398_000; amount = 500 }
    ∷ []

four_sent :
    (sends limits four_sends (record { clock = 0; dir = dir; history = [] })).history
    ≡ record { t = 86_400_001; amount = 500 }
      ∷ record { t = 1001; amount = 400 }
      ∷ record { t = 1; amount = 600 }
      ∷ []
unfolding sends send settled assert_withdraw_breaker record_withdrawal
four_sent = refl

sends-in_window_example :
    in_window limits 1
      (sends limits four_sends (record { clock = 0; dir = dir; history = [] })).history
    ≤ 1000
sends-in_window_example = sends-in_window limits (omega arith) four_sends 0 1 dir [] refl refl

abbrev corrupt : Dir
corrupt = record { state = unreadable; locked = false; writable = true }

abbrev spends : List (Unknown × Unknown × Unknown × Unknown)
spends =
    (finite 60, finite 5, finite 1, finite 2)
    ∷ (finite 60, finite 0, finite 0, finite 0)
    ∷ (finite 20, not_finite, finite 0, finite 0)
    ∷ []

abbrev allowance : Left
allowance = record { remaining = 100; spent = 0 }

abbrev caps : Config
caps = record { per = 1_000_000; cum = 3_000_000 }

abbrev guard : Guard
guard = record { cum_file = none; frozen = false }

abbrev fresh : Ledger
fresh = record { guard = guard; paid = 0; largest = 0 }

abbrev melts : List Request
melts =
    (some 900_000_001, true)
    ∷ (none, true)
    ∷ (some 500_000, false)
    ∷ (some 1_000_000_001, true)
    ∷ []

handle_all-IsCounted_example : IsCounted caps (handle_all caps melts fresh)
handle_all-IsCounted_example =
    handle_all-IsCounted caps melts fresh
      (record { counted = refl; total = omega arith; each = omega arith })

abbrev nearly : Ledger
nearly = record {
  guard = record { cum_file = some 2_900_000; frozen = false };
  paid = 2_900_000;
  largest = 900_000;
}

decoded : decode_sat (some 900_000_001) ≡ some 900_001
unfolding decode_sat
decoded = refl

overlapping-counted_example :
    AllForwarded caps (900_000 ∷ 1_000_000 ∷ []) guard
    × (read_cum (settle_all 0 (900_000 ∷ 1_000_000 ∷ []) guard)
        ≡ 0 + last_of 900_000 (1_000_000 ∷ []))
overlapping-counted_example =
    overlapping-counted caps 900_000 (1_000_000 ∷ []) guard
      (omega arith, omega arith, (omega arith, omega arith, tt))
