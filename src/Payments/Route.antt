-- ===== src/Payments/Route.antt =====
-- lib/payments.ts: which way a Lightning payment goes once it has been debited. The answers of the
-- nodes (`xpay`, `listsendpays`, `listpays`) are arguments; `none` is a call that throws.
use coinos_server.Base.{
  ℕ, ◌≡◌, refl, Bool, true, false, not, ◌&&◌, ◌||◌, Option, none, some, List, [], ◌∷◌, ltb,
  if◌then◌else◌, arith,
}
use coinos_server.Payments.Store.{Payment}

pub data Status : Type 0 where
  complete : Status
  pending : Status
  failed : Status

abbrev pub is_failed : Status → Bool
is_failed failed = true
is_failed _ = false

abbrev pub is_complete : Status → Bool
is_complete complete = true
is_complete _ = false

abbrev pub is_pending : Status → Bool
is_pending pending = true
is_pending _ = false

abbrev pub all_failed : List Status → Bool
all_failed [] = true
all_failed (s ∷ ss) = is_failed s && all_failed ss

abbrev pub some_complete : List Status → Bool
some_complete [] = false
some_complete (s ∷ ss) = is_complete s || some_complete ss

abbrev pub some_pending : List Status → Bool
some_pending [] = false
some_pending (s ∷ ss) = is_pending s || some_pending ss

unfoldable pub cln_parts_all_failed : Option (List Status) → Option (List Status) → Bool
cln_parts_all_failed none pays = false
cln_parts_all_failed (some parts) pays =
    if not (all_failed parts) then false else elim pays [ none ↦ false | some ss ↦ all_failed ss ]

-- How an attempt to pay ends: the answer, or an error and whether it says "already underway".
pub data Attempt : Type 0 where
  paid : Attempt
  threw : Bool → Attempt

-- `outLn.xpay`: how it ends, and whether the second node was asked to pay.
unfoldable pub xpay :
    Attempt → Bool → Bool → Option (List Status) → Option (List Status) → Attempt → Attempt × Bool
unfolding cln_parts_all_failed
xpay paid no_fallback has_lnd parts pays second = (paid, false)
xpay (threw underway) no_fallback has_lnd parts pays second =
    if not no_fallback && has_lnd && not underway && cln_parts_all_failed parts pays
    then (second, true)
    else (threw underway, false)

-- What is done with a payment.
pub data Action : Type 0 where
  -- removed from `pending` without more
  drops : Action
  -- stays in `pending`
  waits : Action
  finalizes : Action
  reverses : Action

-- `completeLightningInBackground`: a payment that returned with a preimage or without failed parts
-- is finalized; otherwise `listpays` decides.
unfoldable pub background : Attempt → Bool → Option (List Status) → Action
background paid true pays = finalizes
background _ _ none = waits
background _ _ (some ss) =
    if some_complete ss then finalizes else if some_pending ss then waits else reverses

-- One entry of `pending` in `check`; the entry's record, its age in milliseconds, and whether it
-- is being paid.
unfoldable pub check : Bool → Option Payment → ℕ → Bool → Option (List Status) → Action
check is_lightning none age being_paid pays = drops
check is_lightning (some p) age being_paid pays =
    if not is_lightning then drops else if ltb age 120_000 || being_paid then waits else elim pays [
      | none ↦ waits
      | some ss ↦ if some_complete ss then finalizes else if all_failed ss then reverses else waits
    ]

pub some_complete-all_failed :
    (ss : List Status) → some_complete ss ≡ false → some_pending ss ≡ false → all_failed ss ≡ true
some_complete-all_failed [] h k = refl
some_complete-all_failed (s ∷ ss) h k = ground (arith, some_complete-all_failed ss)

-- A second node is asked to pay an invoice only when the first one threw, both of its views are
-- known, and every part in both has failed.
pub xpay-asks_second :
    (first second : Attempt) (no_fallback has_lnd : Bool) (parts pays : Option (List Status))
    → (xpay first no_fallback has_lnd parts pays second).1 ≡ true
    → (ps : List Status) × (qs : List Status) × (parts ≡ some ps)
      × (pays ≡ some qs)
      × (all_failed ps ≡ true)
      × (all_failed qs ≡ true)
      × (no_fallback ≡ false)
unfolding xpay cln_parts_all_failed
xpay-asks_second paid second n l parts pays h = cc
xpay-asks_second (threw u) second n l none pays h = ground arith
xpay-asks_second (threw u) second n l (some ps) none h = ground arith
xpay-asks_second (threw u) second n l (some ps) (some qs) h =
    (ps, qs, refl, refl, ground arith, ground arith, ground arith)
