-- ===== src/Bump/Child.antt =====
-- lib/cpfp.ts, `estimateBumpCost` and `createCpfpChild`.
use mathlib.Core.Option
use coinos_server.Base.{
  ℕ, ◌+◌, ◌-◌, ◌*◌, true, false, ◌≤◌, ◌<◌, ◌≡◌, Bool, not, Option, none, some, List, [], ◌∷◌, ◌++◌,
  ltb, leb, ◌==◌, if◌then◌else◌, arith, inl, inr, Bool-cases,
}
use coinos_server.Ledger.Operations.{Rate}
use coinos_server.Bump.{p2a_value, child_vsize, ceil_mul, Out, preserved, sum}

pub data Failure : Type 0 where
  no_anchor meets_rate above_reserve no_utxo too_small too_large not_accepted : Failure

-- What the payment's record says, and the outputs of the child that it has, if the node finds it.
pub record Bumped : Type 0 where
  pub has_anchor : Bool
  pub parent_vsize : ℕ
  pub fee : ℕ
  pub bump_reserve : ℕ
  pub old_child : List Out

-- A transaction with the value of its inputs and that of each output, and the fee on record.
pub record Child : Type 0 where
  pub inputs : ℕ
  pub outputs : List ℕ
  pub fee : ℕ
  pub txid : ℕ

-- The `tx-results` of a package, of each its transaction id.
abbrev pub Package : Type 0
Package = Option (List (Option ℕ))

-- The child as signed, and the node's answers to it, `none` where the call throws: to
-- `testMempoolAccept`, `sendRawTransaction`, and to `submitPackage` before and after an exception.
pub record Signed : Type 0 where
  pub vsize : ℕ
  pub txid : ℕ
  pub allowed : Option Bool
  pub sent : Option ℕ
  pub submission : Option Package
  pub resubmission : Option Package

pub data Made (A : Type 0) : Type 0 where
  fails : Failure → Made A
  made : A → Made A

abbrev pub dust : ℕ
dust = 547

unfoldable pub estimate_bump_cost : ℕ → ℕ → Rate → ℕ
estimate_bump_cost parent_fee parent_vsize target =
    ceil_mul target (parent_vsize + child_vsize) - parent_fee

abbrev last_txid : List (Option ℕ) → Option ℕ
last_txid [] = none
last_txid (r ∷ []) = r
last_txid (r ∷ q ∷ rs) = last_txid (q ∷ rs)

-- The child's own id stands in for one that the last result does not have.
abbrev package_txid : ℕ → Option Package → Option ℕ
package_txid own none = none
package_txid own (some none) = none
package_txid own (some (some results)) = some (Option.get_or (last_txid results) own)

abbrev tried : Signed → Option Bool → Option ℕ
tried s none = none
tried s (some true) = s.sent
tried s (some false) = package_txid s.txid s.submission

abbrev or_again : Signed → Option ℕ → Option ℕ
or_again s none = package_txid s.txid s.resubmission
or_again s (some id) = some id

-- The id of the child once the node has it: by itself or in a package with its parent.
unfoldable pub submitted : Signed → Option ℕ
submitted s = or_again s (tried s s.allowed)

abbrev broadcast : Child → Option ℕ → Made Child
broadcast c none = fails not_accepted
broadcast c (some id) = made (record c { txid = id })

abbrev pub with_change : List ℕ → ℕ → List ℕ
with_change outputs change = if leb dust change then outputs ++ (change ∷ []) else outputs

abbrev child_of : List ℕ → ℕ → ℕ → ℕ → Child
child_of kept fee input own = record {
  inputs = input + p2a_value;
  outputs = with_change kept (input + p2a_value - fee - sum kept);
  fee = fee;
  txid = own;
}

abbrev funded : List ℕ → ℕ → ℕ → Signed → Made Child
funded kept fee input s =
    if ltb (input + p2a_value) (fee + sum kept)
    then fails too_small
    else if ltb 1000 s.vsize
    then fails too_large
    else broadcast (child_of kept fee input s.txid) (submitted s)

abbrev by_utxo : List ℕ → ℕ → Option ℕ → Signed → Made Child
by_utxo kept fee none s = fails no_utxo
by_utxo kept fee (some input) s = funded kept fee input s

-- The arguments are the payment, the rate, the wallet's first confirmed output, and the signed child.
unfoldable pub create_cpfp_child : Bumped → Rate → Option ℕ → Signed → Made Child
unfolding estimate_bump_cost submitted
create_cpfp_child p target utxo s =
    let fee = estimate_bump_cost p.fee p.parent_vsize target in
    if not p.has_anchor
    then fails no_anchor
    else if fee == 0
    then fails meets_rate
    else if ltb p.bump_reserve fee
    then fails above_reserve
    else by_utxo (preserved p.old_child) fee utxo s

pub sum-append : (xs ys : List ℕ) → sum (xs ++ ys) ≡ sum xs + sum ys
sum-append [] ys = omega arith
sum-append (x ∷ xs) ys = omega (arith, sum-append xs ys)

-- What a transaction leaves to the miners.
abbrev pub paid : Child → ℕ
paid c = c.inputs - sum c.outputs

pub with_change-sum :
    (kept : List ℕ) (fee change : ℕ)
    → (sum kept ≤ sum (with_change kept change))
      × (sum (with_change kept change) ≤ sum kept + change)
      × (sum kept + change < sum (with_change kept change) + dust)
with_change-sum kept fee change = elim (Bool-cases (leb dust change)) [
  | inl e ↦ rw e (let s = sum-append kept (change ∷ []) in (omega arith, omega arith, omega arith))
  | inr e ↦ rw e (omega arith, omega arith, ground arith)
]

-- A child pays its estimated fee, and less than the dust limit on top of it, within the reserve, and
-- is one that the node has.
record Pays (kept : List ℕ) (fee : ℕ) (s : Signed) (c : Child) : Type 0 where
  covered : sum kept ≤ sum c.outputs
  balanced : sum c.outputs ≤ c.inputs
  least : fee ≤ paid c
  most : paid c < fee + dust
  recorded : c.fee ≡ fee
  small : s.vsize ≤ 1000
  taken : submitted s ≡ some c.txid

pub mul_mono : (a b d : ℕ) → a ≤ b → a * d ≤ b * d
mul_mono a b d h = grind arith
