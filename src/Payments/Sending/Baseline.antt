-- ===== src/Payments/Sending/Baseline.antt =====
-- lib/payments.ts, lines 1404 to 1493: a keysend that threw, and the sendpays that the node has.
use coinos_server.Base.{
  ℕ, ◌≡◌, ◌↔◌, refl, sym, ◌∙◌, true, false, ◌&&◌, some, List, [], ◌∷◌, ◌==◌, leb, if◌then◌else◌,
  arith, inl, inr, Bool-cases, ap, Bool, Option,
}
use coinos_server.Payments.Route.{Status, is_failed, reverses, all_failed, some_complete}
use coinos_server.Payments.Sending.{Sendpay, labelled, keysend, keysend_outcome}

all_failed-some_complete : (ss : List Status) → all_failed ss ≡ true → some_complete ss ≡ false
all_failed-some_complete [] h = refl
all_failed-some_complete (s ∷ ss) h = ground (arith, all_failed-some_complete ss)

-- The sendpays from an index on, and those before it.
abbrev pub from : ℕ → List Sendpay → List Sendpay
from n [] = []
from n (x ∷ xs) = if leb n x.created then x ∷ from n xs else from n xs

abbrev pub until : ℕ → List Sendpay → List Sendpay
until n [] = []
until n (x ∷ xs) = if leb n x.created then until n xs else x ∷ until n xs

-- The two parts tell of all.
parts-all_failed :
    (hash n : ℕ) (xs : List Sendpay)
    → all_failed (labelled hash (until n xs)) ≡ true
    → all_failed (labelled hash (from n xs)) ≡ all_failed (labelled hash xs)
parts-all_failed hash n [] h = refl
parts-all_failed hash n (x ∷ xs) h = elim (Bool-cases (leb n x.created)) [
  | inl e ↦ elim (Bool-cases (x.label == hash)) [
    | inl k ↦
        simp (e, k) (ap (λ b. is_failed x.status && b) (parts-all_failed hash n xs (rw e at h)))
    | inr k ↦ simp (e, k) (parts-all_failed hash n xs (rw e at h))
  ]
  | inr e ↦ elim (Bool-cases (x.label == hash)) [
    | inl k ↦
        let whole : is_failed x.status && all_failed (labelled hash (until n xs)) ≡ true =
          rw (e, k) at h in
        let first : is_failed x.status ≡ true = ground arith in
        simp (e, k, first) (parts-all_failed hash n xs (ground arith))
    | inr k ↦ simp (e, k) (parts-all_failed hash n xs (rw (e, k) at h))
  ]
]

outcome-reverses :
    (hash start : ℕ) (payments : List Sendpay)
    → (keysend_outcome hash (some start) (some payments) ≡ reverses)
      ↔ (all_failed (labelled hash payments) ≡ true)
unfolding keysend_outcome
outcome-reverses hash start payments =
    (λ h. ground arith, λ h. simp (all_failed-some_complete (labelled hash payments) h, h) refl)

-- Where there is no second node, a keysend that threw is given back exactly if every sendpay with its
-- label, of all that the node has, has failed; none at all counts as that. The index was read at the
-- start, `listsendpays` gives the sendpays from an index on, as it is documented to, and those of the
-- label from before the index have failed.
pub keysend-reverses :
    (hash start : ℕ) (second : Bool) (sendpays : List Sendpay)
    (listsendpays : ℕ → Option (List Sendpay))
    → ((n : ℕ) → listsendpays n ≡ some (from n sendpays))
    → all_failed (labelled hash (until start sendpays)) ≡ true
    → (keysend hash false false second (some start) listsendpays ≡ reverses)
      ↔ (all_failed (labelled hash sendpays) ≡ true)
unfolding keysend
keysend-reverses hash start second sendpays listsendpays documented h =
    let part = parts-all_failed hash start sendpays h in
    let (to, back) = outcome-reverses hash start (from start sendpays) in
    let listed = ap (keysend_outcome hash (some start)) (documented start) in
    (λ k. sym part ∙ to (sym listed ∙ k), λ k. listed ∙ back (part ∙ k))
