-- ===== src/Bump.antt =====
-- lib/cpfp.ts and lib/p2a.ts: children that raise the fee of a transaction that is not confirmed.
-- Amounts are in satoshis, and a fee rate is a fraction, multiplied exactly.
pub mod Child
pub mod Send
pub mod Parent
mod Tests
use coinos_server.Base.{
  ℕ, ◌+◌, ◌-◌, ◌*◌, ◌/◌, ◌≤◌, ◌<◌, ◌≡◌, refl, Bool, true, false, not, ◌&&◌, ◌||◌, Option, none,
  some, List, [], ◌∷◌, ltb, ◌==◌, if◌then◌else◌, arith,
}
use coinos_server.Ledger.Operations.{Rate}

abbrev pub p2a_value : ℕ
p2a_value = 240

abbrev pub child_vsize : ℕ
child_vsize = 152

-- `Math.ceil(rate * n)`
unfoldable pub ceil_mul : Rate → ℕ → ℕ
ceil_mul r n = (n * r.num + (r.den - 1)) / r.den

pub ceil_mul-le : (r : Rate) (n : ℕ) → 0 < r.den → n * r.num ≤ ceil_mul r n * r.den
unfolding ceil_mul
ceil_mul-le r n h = grind arith

-- The least number that is enough.
pub ceil_mul-least : (r : Rate) (n m : ℕ) → 0 < r.den → n * r.num ≤ m * r.den → ceil_mul r n ≤ m
unfolding ceil_mul
ceil_mul-least r n m h k = grind arith

-- An output of a transaction that the node decodes: whether it is the anchor, its value, and what
-- `getAddressInfo` says of its address: whether it is ours, or an exception.
pub record Out : Type 0 where
  pub anchor : Bool
  pub value : ℕ
  pub is_mine : Option Bool

abbrev pub keep : ℕ → Option Bool → List ℕ → List ℕ
keep v none rest = []
keep v (some true) rest = rest
keep v (some false) rest = v ∷ rest

-- The outputs of a child that is replaced which pay others. An exception ends the loop and keeps
-- what was found before it.
unfoldable pub preserved : List Out → List ℕ
preserved [] = []
preserved (o ∷ os) =
    let rest = preserved os in if o.anchor then rest else keep o.value o.is_mine rest

abbrev pub sum : List ℕ → ℕ
sum [] = 0
sum (x ∷ xs) = x + sum xs
