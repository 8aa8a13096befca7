-- ===== src/Wallet/Containment.antt =====
-- lib/nwc.ts, lines 72 to 89 and 335 to 437: which requests come to a handler. The app, its owner
-- and the flags are read from the database anew for each request.
pub mod Barred
use coinos_server.Base.{
  ℕ, ◌+◌, ◌≡◌, Bool, true, false, not, ◌&&◌, ◌||◌, Option, none, some, List, [], ◌∷◌, ltb, leb,
  ◌==◌, if◌then◌else◌,
}
use coinos_server.Wallet.Budget.{App}
use coinos_server.Payments.Store.{set_at}

pub data Method : Type 0 where
  pay_keysend pay_invoice pay receive get_balance get_info make_invoice lookup_invoice : Method
  list_transactions : Method
  other : Method

pub data Reply : Type 0 where
  ignored temporarily_disabled unknown_connection retired quarantined dormant : Reply
  handled : Reply

-- What a request reads besides the quarantine.
pub record Facts : Type 0 where
  pub now : ℕ
  -- `nwc:disabled`
  pub disabled : Bool
  pub app : Option App
  pub user : Bool
  -- `nwc:credential-cutoff`, 0 if it is missing
  pub credential_cutoff : ℕ
  -- `nwc:guard:dormant-keysend`
  pub guards_keysend : Bool
  -- when the newest payments of the app were made, of the first twenty those that can be read
  pub newest : List ℕ

abbrev pub dormancy_window : ℕ
dormancy_window = 2_592_000_000

abbrev larger : ℕ → ℕ → ℕ
larger a b = if ltb a b then b else a

abbrev pub last_activity : ℕ → List ℕ → ℕ
last_activity last [] = last
last_activity last (t ∷ ts) = last_activity (larger last t) ts

unfoldable pub is_dormant : ℕ → App → List ℕ → Bool
is_dormant now app newest = ltb (last_activity app.created newest + dormancy_window) now

abbrev pub is_method : Method → Bool
is_method Method.other = false
is_method _ = true

abbrev pub is_keysend : Method → Bool
is_keysend Method.pay_keysend = true
is_keysend _ = false

-- `!Number(app.created) || Number(app.created) < credentialCutoff`
abbrev pub predates : ℕ → App → Bool
predates cutoff app = ltb 0 cutoff && (app.created == 0 || ltb app.created cutoff)

abbrev pub Quarantine : Type 0
Quarantine = ℕ → Bool

abbrev with_app : Facts → Method → ℕ → Quarantine → App → Reply × Quarantine
with_app f method pubkey q app =
    if predates f.credential_cutoff app
    then (retired, set_at pubkey true q)
    else if q pubkey
    then (quarantined, q)
    else if is_keysend method && f.guards_keysend && is_dormant f.now app f.newest
    then (dormant, set_at pubkey true q)
    else (handled, q)

abbrev find_app : Facts → Method → ℕ → Quarantine → Option App → Reply × Quarantine
find_app f method pubkey q none = (unknown_connection, q)
find_app f method pubkey q (some app) =
    if not f.user then (unknown_connection, q) else with_app f method pubkey q app

unfoldable pub on_request : Facts → Method → ℕ → Quarantine → Reply × Quarantine
on_request f method pubkey q =
    if not (is_method method)
    then (ignored, q)
    else if f.disabled
    then (temporarily_disabled, q)
    else find_app f method pubkey q f.app
