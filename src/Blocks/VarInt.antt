-- ===== src/Blocks/VarInt.antt =====
-- lib/zmq.ts, `readVarInt`. A `Uint8Array` is a list of bytes, and `none` is the RangeError of a
-- read that goes past its end.
use mathlib.Core.Option
use native.Mathlib.Omega.{pow_step}
use coinos_server.Base.{
  ℕ, zero, suc, ◌+◌, ◌*◌, ◌/◌, ◌%◌, ◌^◌, ◌<◌, ◌≡◌, refl, ap, ◌∙◌, Option, none, some, List, [], ◌∷◌,
  ◌++◌, ltb, ◌==◌, if◌then◌else◌, arith, inl, inr, Bool-cases, length, drop, get_elem?,
  get_elem?-drop, drop-add,
}

pub record VarInt : Type 0 where
  pub value : ℕ
  pub size : ℕ

-- `getUint16`, `getUint32` and `getBigUint64` with the lower byte first, at the start of a list.
-- `Number` rounds what is above 2 ^ 53, which no buffer is long enough for.
unfoldable pub little_endian : ℕ → List ℕ → Option ℕ
little_endian zero bs = some 0
little_endian (suc n) [] = none
little_endian (suc n) (b ∷ bs) = Option.map (λ v. b + 256 * v) (little_endian n bs)

abbrev sized : ℕ → Option ℕ → Option VarInt
sized n v = Option.map (λ w. record { value = w; size = n }) v

-- `undefined`, which is read past the end, is none of the numbers that it is compared with.
abbrev by_first : Option ℕ → List ℕ → Option VarInt
by_first none rest = sized 9 (little_endian 8 rest)
by_first (some first) rest =
    if ltb first 0xfd
    then some (record { value = first; size = 1 })
    else if first == 0xfd
    then sized 3 (little_endian 2 rest)
    else if first == 0xfe
    then sized 5 (little_endian 4 rest)
    else sized 9 (little_endian 8 rest)

unfoldable pub read_var_int : List ℕ → ℕ → Option VarInt
read_var_int bytes offset = by_first (get_elem? bytes offset) (drop (offset + 1) bytes)

-- A number as bytes, the lower byte first.
unfoldable pub bytes_of : ℕ → ℕ → List ℕ
bytes_of zero v = []
bytes_of (suc n) v = v % 256 ∷ bytes_of n (v / 256)

-- Bitcoin's compact size, in its shortest form.
unfoldable pub compact_size : ℕ → List ℕ
compact_size n =
    if ltb n 0xfd
    then n ∷ []
    else if ltb n (2 ^ 16)
    then 0xfd ∷ bytes_of 2 n
    else if ltb n (2 ^ 32)
    then 0xfe ∷ bytes_of 4 n
    else 0xff ∷ bytes_of 8 n

pub length-bytes_of : (n v : ℕ) → length (bytes_of n v) ≡ n
unfolding bytes_of
length-bytes_of zero v = refl
length-bytes_of (suc n) v = ap suc (length-bytes_of n (v / 256))

little_endian-bytes_of :
    (n v : ℕ) (rest : List ℕ) → v < 256 ^ n → little_endian n (bytes_of n v ++ rest) ≡ some v
unfolding little_endian bytes_of
little_endian-bytes_of zero v rest h = ap some (omega arith)
little_endian-bytes_of (suc n) v rest h =
    let p = pow_step 256 n in
    rw (little_endian-bytes_of n (v / 256) rest (omega arith)) (ap some (omega arith))

reads_suffix :
    (b : List ℕ) (o : ℕ) → read_var_int b o ≡ by_first (get_elem? (drop o b) 0) (drop 1 (drop o b))
unfolding read_var_int
reads_suffix b o = rw (get_elem?-drop b o, drop-add o 1 b) refl

by_first-compact_size :
    (n : ℕ) (rest : List ℕ)
    → n < 2 ^ 64
    → by_first (get_elem? (compact_size n ++ rest) 0) (drop 1 (compact_size n ++ rest))
      ≡ some (record { value = n; size = length (compact_size n) })
unfolding compact_size
by_first-compact_size n rest h = elim (Bool-cases (ltb n 0xfd)) [
  | inl e ↦ rw (e, e) refl
  | inr e ↦ rw e (elim (Bool-cases (ltb n (2 ^ 16))) [
    | inl f ↦ rw (f, little_endian-bytes_of 2 n rest (ground arith), length-bytes_of 2 n) refl
    | inr f ↦ rw f (elim (Bool-cases (ltb n (2 ^ 32))) [
      | inl g ↦ rw (g, little_endian-bytes_of 4 n rest (ground arith), length-bytes_of 4 n) refl
      | inr g ↦ rw (g, little_endian-bytes_of 8 n rest h, length-bytes_of 8 n) refl
    ])
  ])
]

-- Whatever stands before and after it, a compact size is read as its number and its length.
pub read-compact_size :
    (b : List ℕ) (o n : ℕ) (rest : List ℕ)
    → n < 2 ^ 64
    → drop o b ≡ compact_size n ++ rest
    → read_var_int b o ≡ some (record { value = n; size = length (compact_size n) })
read-compact_size b o n rest h e = reads_suffix b o ∙ rw e (by_first-compact_size n rest h)
