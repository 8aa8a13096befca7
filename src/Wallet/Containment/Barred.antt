-- ===== src/Wallet/Containment/Barred.antt =====
-- lib/nwc.ts: what a request that comes to a handler has passed, and what it can no longer pass.
use coinos_server.Base.{
  ℕ, ◌≡◌, ◌≢◌, refl, Bool, true, false, not, ◌&&◌, Option, none, some, List, [], ◌∷◌, arith, inl,
  inr, Bool-cases,
}
use coinos_server.Wallet.Budget.{App}
use coinos_server.Wallet.Containment.{
  Method, Reply, Facts, Quarantine, retired, quarantined, dormant, handled, is_method, is_keysend,
  is_dormant, predates, with_app, find_app, on_request,
}

-- What holds of an app whose request is handled.
abbrev pub Passes : Facts → Method → App → Type 0
Passes f method app =
    (f.user ≡ true)
    × (predates f.credential_cutoff app ≡ false)
    × ((is_keysend method && f.guards_keysend && is_dormant f.now app f.newest) ≡ false)

with_app-handled :
    (f : Facts) (method : Method) (pubkey : ℕ) (q : Quarantine) (app : App)
    → (with_app f method pubkey q app).0 ≡ handled
    → (q pubkey ≡ false)
      × (predates f.credential_cutoff app ≡ false)
      × ((is_keysend method && f.guards_keysend && is_dormant f.now app f.newest) ≡ false)
with_app-handled f method pubkey q app e = ground arith

find_app-handled :
    (f : Facts) (method : Method) (pubkey : ℕ) (q : Quarantine) (a : Option App)
    → (find_app f method pubkey q a).0 ≡ handled
    → (app : App) × (a ≡ some app) × (q pubkey ≡ false) × Passes f method app
find_app-handled f method pubkey q none e = cc
find_app-handled f method pubkey q (some app) e = elim (Bool-cases f.user) [
  | inl u ↦
      let h = with_app-handled f method pubkey q app (simp u at e) in
      (app, refl, h.0, (u, h.1, h.2))
  | inr u ↦ let e' = simp u at e in cc
]

-- A request is handled only if connections are enabled, the app and its owner exist, the app was
-- created no earlier than the cutoff, it is not in quarantine, and it does not send by keysend after
-- a time without payments while the guard is on.
pub on_request-handled :
    (f : Facts) (method : Method) (pubkey : ℕ) (q : Quarantine)
    → (on_request f method pubkey q).0 ≡ handled
    → (f.disabled ≡ false)
      × ((app : App) × (f.app ≡ some app) × (q pubkey ≡ false) × Passes f method app)
unfolding on_request
on_request-handled f method pubkey q e = elim (Bool-cases (not (is_method method))) [
  | inl m ↦ let e' = simp m at e in cc
  | inr m ↦ elim (Bool-cases f.disabled) [
    | inl d ↦ let e' = simp (m, d) at e in cc
    | inr d ↦ (d, find_app-handled f method pubkey q f.app (simp (m, d) at e))
  ]
]

-- Requests, each with what it reads.
abbrev pub Request : Type 0
Request = Facts × Method × ℕ

unfoldable pub on_requests : List Request → Quarantine → Quarantine
on_requests [] q = q
on_requests ((f, method, pubkey) ∷ rs) q = on_requests rs (on_request f method pubkey q).1

with_app-grows :
    (f : Facts) (method : Method) (pubkey : ℕ) (q : Quarantine) (app : App) (p : ℕ)
    → q p ≡ true
    → (with_app f method pubkey q app).1 p ≡ true
with_app-grows f method pubkey q app p h = ground arith

find_app-grows :
    (f : Facts) (method : Method) (pubkey : ℕ) (q : Quarantine) (a : Option App) (p : ℕ)
    → q p ≡ true
    → (find_app f method pubkey q a).1 p ≡ true
find_app-grows f method pubkey q none p h = h
find_app-grows f method pubkey q (some app) p h = elim (Bool-cases f.user) [
  | inl u ↦ simp u (with_app-grows f method pubkey q app p h)
  | inr u ↦ simp u h
]

-- Whoever is in quarantine stays there.
on_request-grows :
    (f : Facts) (method : Method) (pubkey : ℕ) (q : Quarantine) (p : ℕ)
    → q p ≡ true
    → (on_request f method pubkey q).1 p ≡ true
unfolding on_request
on_request-grows f method pubkey q p h = elim (Bool-cases (not (is_method method))) [
  | inl m ↦ simp m h
  | inr m ↦ elim (Bool-cases f.disabled) [
    | inl d ↦ simp (m, d) h
    | inr d ↦ simp (m, d) (find_app-grows f method pubkey q f.app p h)
  ]
]

on_requests-grows :
    (rs : List Request) (q : Quarantine) (p : ℕ) → q p ≡ true → on_requests rs q p ≡ true
unfolding on_requests
on_requests-grows [] q p h = h
on_requests-grows ((f, method, pubkey) ∷ rs) q p h =
    on_requests-grows rs _ p (on_request-grows f method pubkey q p h)

-- The replies by which a connection is disabled.
abbrev pub bars : Reply → Bool
bars retired = true
bars quarantined = true
bars dormant = true
bars _ = false

with_app-bars :
    (f : Facts) (method : Method) (pubkey : ℕ) (q : Quarantine) (app : App)
    → bars (with_app f method pubkey q app).0 ≡ true
    → (with_app f method pubkey q app).1 pubkey ≡ true
with_app-bars f method pubkey q app e = ground arith

find_app-bars :
    (f : Facts) (method : Method) (pubkey : ℕ) (q : Quarantine) (a : Option App)
    → bars (find_app f method pubkey q a).0 ≡ true
    → (find_app f method pubkey q a).1 pubkey ≡ true
find_app-bars f method pubkey q none e = cc
find_app-bars f method pubkey q (some app) e = elim (Bool-cases f.user) [
  | inl u ↦ simp u (with_app-bars f method pubkey q app (simp u at e))
  | inr u ↦ let e' = simp u at e in cc
]

on_request-bars :
    (f : Facts) (method : Method) (pubkey : ℕ) (q : Quarantine)
    → bars (on_request f method pubkey q).0 ≡ true
    → (on_request f method pubkey q).1 pubkey ≡ true
unfolding on_request
on_request-bars f method pubkey q e = elim (Bool-cases (not (is_method method))) [
  | inl m ↦ let e' = simp m at e in cc
  | inr m ↦ elim (Bool-cases f.disabled) [
    | inl d ↦ let e' = simp (m, d) at e in cc
    | inr d ↦ simp (m, d) (find_app-bars f method pubkey q f.app (simp (m, d) at e))
  ]
]

-- A connection that has once been answered as retired, dormant or disabled is never handled again,
-- whatever requests come in between and whatever they read, although the cutoff or the guard is
-- taken back.
pub on_requests-barred :
    (f : Facts) (method : Method) (pubkey : ℕ) (q : Quarantine) (rs : List Request) (f' : Facts)
    (method' : Method)
    → bars (on_request f method pubkey q).0 ≡ true
    → (on_request f' method' pubkey (on_requests rs (on_request f method pubkey q).1)).0 ≢ handled
on_requests-barred f method pubkey q rs f' method' e = λ h.
    let stays =
      on_requests-grows rs (on_request f method pubkey q).1 pubkey
        (on_request-bars f method pubkey q e) in
    let (_, passed) = on_request-handled f' method' pubkey _ h in let (_, _, free, _) = passed in cc
