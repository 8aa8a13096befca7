-- ===== src/Bump/Parent.antt =====
-- lib/cpfp.ts, `findStuckParent`.
use coinos_server.Base.{
  ℕ, ◌≤◌, ◌<◌, ◌≡◌, ◌⊎◌, refl, Bool, false, not, ◌&&◌, Option, none, some, List, [], ◌∷◌, ltb,
  if◌then◌else◌, arith, inl, inr, Bool-cases,
}
use coinos_server.Bump.{Out}

-- A payment that is not confirmed: whether it is passed over (its record is missing, it is confirmed,
-- it has no anchor or no reserve, or the node does not find it), and its outputs.
pub record Stuck : Type 0 where
  pub id : ℕ
  pub passed_over : Bool
  pub outs : List Out

abbrev mine : Option Bool → Bool
mine none = false
mine (some b) = b

-- The value of the first output that is ours; an exception passes one output over.
unfoldable pub change_of : List Out → ℕ
change_of [] = 0
change_of (o ∷ os) =
    let rest = change_of os in if not o.anchor && mine o.is_mine then o.value else rest

abbrev pub usable : Stuck → ℕ
usable s = if s.passed_over then 0 else change_of s.outs

pub record Best : Type 0 where
  pub payment : Option Stuck
  pub change : ℕ

-- `changeValue === 0` goes on, and a later one is taken only if its change is larger.
abbrev pub better : Stuck → Best → Best
better s b = if ltb b.change (usable s) then record { payment = some s; change = usable s } else b

unfoldable pub find_stuck_parent : List Stuck → Best → Best
unfolding change_of
find_stuck_parent [] b = b
find_stuck_parent (s ∷ ss) b = find_stuck_parent ss (better s b)

abbrev pub nothing : Best
nothing = record { payment = none; change = 0 }

-- No payment has more change.
abbrev pub AtMost : ℕ → List Stuck → Type 0
AtMost n [] = Unit {0}
AtMost n (s ∷ ss) = (usable s ≤ n) × AtMost n ss

-- What has been found is the change of its payment, and nothing if that is 0.
abbrev pub Fits : Best → Type 0
Fits b =
    ((b.payment ≡ none) × (b.change ≡ 0))
    ⊎ ((s : Stuck) × (b.payment ≡ some s) × (b.change ≡ usable s) × (0 < b.change))

better-Fits : (s : Stuck) (b : Best) → Fits b → Fits (better s b)
better-Fits s b h = elim (Bool-cases (ltb b.change (usable s))) [
  | inl e ↦ simp e (inr (s, refl, refl, ground arith))
  | inr e ↦ simp e h
]

better-grows :
    (s : Stuck) (b : Best) → (b.change ≤ (better s b).change) × (usable s ≤ (better s b).change)
better-grows s b = ground arith

find-grows : (ss : List Stuck) (b : Best) → b.change ≤ (find_stuck_parent ss b).change
unfolding find_stuck_parent
find-grows [] b = omega arith
find-grows (s ∷ ss) b = omega (arith, better-grows s b, find-grows ss (better s b))

find-AtMost : (ss : List Stuck) (b : Best) → AtMost (find_stuck_parent ss b).change ss
unfolding find_stuck_parent
find-AtMost [] b = tt
find-AtMost (s ∷ ss) b =
    (omega (arith, better-grows s b, find-grows ss (better s b)), find-AtMost ss (better s b))

find-Fits : (ss : List Stuck) (b : Best) → Fits b → Fits (find_stuck_parent ss b)
unfolding find_stuck_parent
find-Fits [] b h = h
find-Fits (s ∷ ss) b h = find-Fits ss (better s b) (better-Fits s b h)

-- The parent that is found has the largest change of all that are not confirmed, and none is found
-- only if none of them has change.
pub find_stuck_parent-largest :
    (ss : List Stuck)
    → AtMost (find_stuck_parent ss nothing).change ss × Fits (find_stuck_parent ss nothing)
find_stuck_parent-largest ss = (find-AtMost ss nothing, find-Fits ss nothing (inl (refl, refl)))
