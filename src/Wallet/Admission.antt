-- ===== src/Wallet/Admission.antt =====
-- lib/nwc.ts, lines 47 to 63 and 224 to 284: which events are taken up. A request is identified by
-- the id of its event; the database forgets a claim when it expires.
pub mod Once
pub mod Rate
use coinos_server.Base.{
  ℕ, ◌+◌, ◌-◌, ◌*◌, ◌/◌, ◌≡◌, refl, Bool, true, false, not, ◌&&◌, ◌||◌, Option, none, some, List,
  [], ◌∷◌, ◌++◌, ltb, leb, ◌==◌, if◌then◌else◌, length,
}
use coinos_server.Payments.Store.{set_at}

-- Times are in milliseconds and `created_at` in seconds; it is 0 if it is missing.
pub record NostrEvent : Type 0 where
  pub id : ℕ
  pub pubkey : ℕ
  pub created_at : ℕ

abbrev pub max_age_seconds : ℕ
max_age_seconds = 300

abbrev pub clock_skew_seconds : ℕ
clock_skew_seconds = 60

-- `EX: 2 * nwcEventMaxAgeSeconds`
abbrev pub claim_ms : ℕ
claim_ms = 2 * max_age_seconds * 1000

abbrev pub rate_window : ℕ
rate_window = 60_000

pub data Answer : Type 0 where
  too_old too_new duplicate rate_limited admitted : Answer

pub record Relay : Type 0 where
  -- when the claim `handled:nwc:<id>` expires, 0 if there is none
  pub claimed_until : ℕ → ℕ
  pub request_times : ℕ → List ℕ

-- `age > nwcEventMaxAgeSeconds` and `-age > nwcClockSkewSeconds`
abbrev pub is_old : ℕ → NostrEvent → Bool
is_old now e = ltb (e.created_at + max_age_seconds) (now / 1000)

abbrev pub is_new : ℕ → NostrEvent → Bool
is_new now e = ltb (now / 1000 + clock_skew_seconds) e.created_at

-- `times.filter((t) => t > cutoff)`
unfoldable pub recent_times : ℕ → List ℕ → List ℕ
recent_times now [] = []
recent_times now (t ∷ ts) =
    let rest = recent_times now ts in if ltb now (t + rate_window) then t ∷ rest else rest

abbrev pub claim : ℕ → NostrEvent → Relay → Relay
claim now e r = record r { claimed_until = set_at e.id (now + claim_ms) r.claimed_until }

abbrev pub push : ℕ → NostrEvent → Relay → Relay
push now e r = record r {
  request_times =
      set_at e.pubkey (recent_times now (r.request_times e.pubkey) ++ (now ∷ [])) r.request_times;
}

-- After the claim.
abbrev pub limited : ℕ → ℕ → NostrEvent → Relay → Answer × Relay
limited rate_limit now e r =
    if leb rate_limit (length (recent_times now (r.request_times e.pubkey)))
    then (rate_limited, r)
    else (admitted, push now e r)

abbrev pub claimed : ℕ → ℕ → NostrEvent → Relay → Answer × Relay
claimed rate_limit now e r =
    if ltb now (r.claimed_until e.id)
    then (duplicate, r)
    else limited rate_limit now e (claim now e r)

unfoldable pub on_event : ℕ → ℕ → NostrEvent → Relay → Answer × Relay
unfolding recent_times
on_event rate_limit now e r =
    if not (e.created_at == 0) && is_old now e
    then (too_old, r)
    else if not (e.created_at == 0) && is_new now e
    then (too_new, r)
    else claimed rate_limit now e r
