-- ===== src/Limits/Breaker.antt =====
-- lib/withdraw-breaker.ts: the cap on what is withdrawn in a rolling window.
-- The entry's `type` and the user name only appear in messages and are left out.
pub mod Ceiling
pub mod Races
use coinos_server.Base.{
  ℕ, ◌+◌, Bool, true, false, not, List, [], ◌∷◌, ◌++◌, ltb, ◌==◌, if◌then◌else◌,
}

pub record Entry : Type 0 where
  pub t : ℕ
  pub amount : ℕ

-- `withdraw-window.json`: missing, an array, JSON that is no array, or unreadable.
pub data StateFile : Type 0 where
  missing : StateFile
  entries : List Entry → StateFile
  no_array : StateFile
  unreadable : StateFile

-- The environment: the cap, where 0 disables the mechanism, and the window.
pub record Limits : Type 0 where
  pub cap : ℕ
  pub window_ms : ℕ

-- The directory: the state file, whether ALL.locked exists, and whether it can be written.
pub record Dir : Type 0 where
  pub state : StateFile
  pub locked : Bool
  pub writable : Bool

pub data Verdict : Type 0 where
  allowed : Verdict
  -- "External withdrawals temporarily disabled"
  disabled : Verdict

abbrev pub breaker_enabled : Limits → Bool
breaker_enabled c = ltb 0 c.cap

-- What `read` makes of the file, where `none` is the exception that it throws.
pub data Read : Type 0 where
  got : List Entry → Read
  threw : Read

abbrev pub read : StateFile → Read
read missing = got []
read (entries es) = got es
read no_array = got []
read unreadable = threw

-- `now - e.t < WINDOW_MS()` over integers
abbrev pub prune : Limits → List Entry → ℕ → List Entry
prune c [] now = []
prune c (e ∷ es) now =
    let rest = prune c es now in if ltb now (e.t + c.window_ms) then e ∷ rest else rest

abbrev pub sum : List Entry → ℕ
sum [] = 0
sum (e ∷ es) = e.amount + sum es

unfoldable pub withdraw_window_total : Limits → Dir → ℕ → ℕ
withdraw_window_total c d now = elim (read d.state) [ threw ↦ 0 | got es ↦ sum (prune c es now) ]

-- Writing the lock file; a failure is only logged.
abbrev pub trip : Dir → Dir
trip d = if d.writable then record d { locked = true } else d

unfoldable pub assert_withdraw_breaker : Limits → ℕ → ℕ → Dir → Verdict × Dir
assert_withdraw_breaker c now amount d =
    if breaker_enabled c
    then elim (read d.state) [
      | threw ↦ (disabled, d)
      | got es ↦
          if ltb c.cap (sum (prune c es now) + amount) then (disabled, trip d) else (allowed, d)
    ]
    else (allowed, d)

abbrev pub write : List Entry → Dir → Dir
write es d = if d.writable then record d { state = entries es } else d

unfoldable pub record_withdrawal : Limits → ℕ → ℕ → Dir → Dir
record_withdrawal c now amount d =
    if breaker_enabled c
    then elim (read d.state) [
      | threw ↦ d
      | got es ↦ write (prune c es now ++ record { t = now; amount = amount } ∷ []) d
    ]
    else d
