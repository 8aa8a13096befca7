-- ===== src/Limits/Meltguard/Runs.antt =====
-- What meltguard.ts keeps over many requests, one after the other or overlapping.
use coinos_server.Base.{
  ℕ, ◌+◌, ◌≤◌, ◌≡◌, refl, ap, ◌∙◌, Bool, true, false, Option, none, some, List, [], ◌∷◌, ltb,
  if◌then◌else◌, arith, inl, inr, Bool-cases,
}
use coinos_server.Limits.Meltguard.{
  Config, Guard, forwarded, read_cum, decide, decode_sat, settle, finish, handle,
}

-- Requests, with the amount that the node decodes and whether it reports success.
abbrev pub Request : Type 0
Request = Option ℕ × Bool

pub record Ledger : Type 0 where
  pub guard : Guard
  pub paid : ℕ
  pub largest : ℕ

abbrev larger : ℕ → ℕ → ℕ
larger a b = if ltb a b then b else a

abbrev pub handled : Config → Request → Ledger → Ledger
handled c (amount_msat, ok) w =
    let o = handle c amount_msat ok w.guard in
    record { guard = o.guard; paid = w.paid + o.paid; largest = larger w.largest o.paid }

pub handle_all : Config → List Request → Ledger → Ledger
handle_all c [] w = w
handle_all c (r ∷ rs) w = handle_all c rs (handled c r w)

-- The total on file is what was paid, within the cap, and no payment was above its own cap.
pub record IsCounted (c : Config) (w : Ledger) : Type 0 where
  pub counted : read_cum w.guard ≡ w.paid
  pub total : w.paid ≤ c.cum
  pub each : w.largest ≤ c.per

decided :
    (c : Config) (d : Option ℕ) (ok : Bool) (g : Guard)
    → let o = finish ok (decide c d g) in
      (read_cum o.guard ≡ read_cum g + o.paid)
      × (o.paid ≤ c.per)
      × (read_cum g ≤ c.cum → read_cum g + o.paid ≤ c.cum)
unfolding decide settle
decided c none ok g = ground arith
decided c (some amt) ok g = ground arith

handle_counts :
    (c : Config) (amount_msat : Option ℕ) (ok : Bool) (g : Guard)
    → let o = handle c amount_msat ok g in
      (read_cum o.guard ≡ read_cum g + o.paid)
      × (o.paid ≤ c.per)
      × (read_cum g ≤ c.cum → read_cum g + o.paid ≤ c.cum)
unfolding handle
handle_counts c amount_msat ok g = elim (Bool-cases g.frozen) [
  | inl e ↦ simp e (omega arith, omega arith, λ h. omega arith)
  | inr e ↦ simp e (decided c (decode_sat amount_msat) ok g)
]

handled-IsCounted :
    (c : Config) (r : Request) (w : Ledger) → IsCounted c w → IsCounted c (handled c r w)
handled-IsCounted c (amount_msat, ok) w h =
    let (q, p, t) = handle_counts c amount_msat ok w.guard in
    record {
      counted = omega (arith, q, h.counted);
      total = omega (arith, t (omega (arith, h.counted, h.total)), h.counted);
      each = ground (arith, p, h.each);
    }

-- When no request overlaps another, the total on file is what was paid, it stays within the cap,
-- and no payment is above its own cap.
pub handle_all-IsCounted :
    (c : Config) (rs : List Request) (w : Ledger) → IsCounted c w → IsCounted c (handle_all c rs w)
unfolding handle_all
handle_all-IsCounted c [] w h = h
handle_all-IsCounted c (r ∷ rs) w h =
    handle_all-IsCounted c rs (handled c r w) (handled-IsCounted c r w h)

frozen-handled :
    (c : Config) (r : Request) (w : Ledger)
    → w.guard.frozen ≡ true
    → ((handled c r w).guard ≡ w.guard) × ((handled c r w).paid ≡ w.paid)
unfolding handle
frozen-handled c (amount_msat, ok) w e = simp e (refl, omega arith)

frozen-handle_all :
    (c : Config) (rs : List Request) (w : Ledger)
    → w.guard.frozen ≡ true
    → ((handle_all c rs w).guard ≡ w.guard) × ((handle_all c rs w).paid ≡ w.paid)
unfolding handle_all
frozen-handle_all c [] w e = (refl, refl)
frozen-handle_all c (r ∷ rs) w e =
    let (g, p) = frozen-handled c r w e in
    let (g', p') = frozen-handle_all c rs (handled c r w) (ap (λ x. x.frozen) g ∙ e) in
    (g' ∙ g, p' ∙ p)

over_cap-freezes :
    (c : Config) (amount_msat : Option ℕ) (ok : Bool) (g : Guard) (amt : ℕ)
    → decode_sat amount_msat ≡ some amt
    → amt ≤ c.per
    → c.cum + 1 ≤ read_cum g + amt
    → ((handle c amount_msat ok g).guard.frozen ≡ true) × ((handle c amount_msat ok g).paid ≡ 0)
unfolding handle decide
over_cap-freezes c amount_msat ok g amt e small over = elim (Bool-cases g.frozen) [
  | inl f ↦ simp f (refl, refl)
  | inr f ↦ simp (f, e, within_per, over_cum) (refl, refl)
]
  where
    within_per : ltb c.per amt ≡ false
    within_per = ground arith

    over_cum : ltb c.cum (read_cum g + amt) ≡ true
    over_cum = ground arith

-- A request that would exceed the total cap pays nothing, and neither does any request after it.
pub over_cap-stops :
    (c : Config) (amount_msat : Option ℕ) (ok : Bool) (amt : ℕ) (rs : List Request) (w : Ledger)
    → decode_sat amount_msat ≡ some amt
    → amt ≤ c.per
    → c.cum + 1 ≤ read_cum w.guard + amt
    → (handle_all c ((amount_msat, ok) ∷ rs) w).paid ≡ w.paid
unfolding handle_all
over_cap-stops c amount_msat ok amt rs w e small over =
    let (f, z) = over_cap-freezes c amount_msat ok w.guard amt e small over in
    (frozen-handle_all c rs (handled c (amount_msat, ok) w) f).1 ∙ omega (arith, z)

-- Requests that overlap: all are decided before the node answers the first of them.
abbrev pub AllForwarded : Config → List ℕ → Guard → Type 0
AllForwarded c [] g = Unit
AllForwarded c (amt ∷ ns) g =
    (decide c (some amt) g ≡ (forwarded (read_cum g) amt, g)) × AllForwarded c ns g

-- The node reports success for each, in turn; each was forwarded with the total `cum`.
abbrev pub settle_all : ℕ → List ℕ → Guard → Guard
settle_all cum [] g = g
settle_all cum (amt ∷ ns) g = settle_all cum ns (settle true cum amt g)

abbrev pub AllFit : Config → ℕ → List ℕ → Type 0
AllFit c cum [] = Unit
AllFit c cum (amt ∷ ns) = (amt ≤ c.per) × (cum + amt ≤ c.cum) × AllFit c cum ns

abbrev pub last_of : ℕ → List ℕ → ℕ
last_of n [] = n
last_of n (m ∷ ms) = last_of m ms

settle_all-cum :
    (cum amt : ℕ) (ns : List ℕ) (g : Guard)
    → read_cum (settle_all cum (amt ∷ ns) g) ≡ cum + last_of amt ns
unfolding settle
settle_all-cum cum amt [] g = refl
settle_all-cum cum amt (m ∷ ms) g = settle_all-cum cum m ms (settle true cum amt g)

fits-AllForwarded :
    (c : Config) (ns : List ℕ) (g : Guard) → AllFit c (read_cum g) ns → AllForwarded c ns g
unfolding decide
fits-AllForwarded c [] g h = tt
fits-AllForwarded c (amt ∷ ns) g h =
    (simp (within_per, within_cum) refl, fits-AllForwarded c ns g h.2)
  where
    within_per : ltb c.per amt ≡ false
    within_per = ground (arith, h.0)

    within_cum : ltb c.cum (read_cum g + amt) ≡ false
    within_cum = ground (arith, h.1)

-- Requests that each fit alone are all forwarded when they overlap, and the total on file then
-- counts the last of them only.
pub overlapping-counted :
    (c : Config) (amt : ℕ) (ns : List ℕ) (g : Guard)
    → AllFit c (read_cum g) (amt ∷ ns)
    → AllForwarded c (amt ∷ ns) g
      × (read_cum (settle_all (read_cum g) (amt ∷ ns) g) ≡ read_cum g + last_of amt ns)
overlapping-counted c amt ns g h =
    (fits-AllForwarded c (amt ∷ ns) g h, settle_all-cum (read_cum g) amt ns g)
