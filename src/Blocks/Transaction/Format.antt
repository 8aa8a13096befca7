-- ===== src/Blocks/Transaction/Format.antt =====
-- The format of Bitcoin transactions, which `rawTxSize` in lib/zmq.ts reads.
use coinos_server.Base.{ℕ, Option, none, some, List, [], ◌∷◌, ◌++◌, length}
use coinos_server.Blocks.VarInt.{compact_size}

pub record Input : Type 0 where
  pub outpoint : List ℕ
  pub script : List ℕ
  pub sequence : List ℕ

pub record Output : Type 0 where
  pub value : List ℕ
  pub script : List ℕ

-- The witness has a stack of items for each input.
pub record Tx : Type 0 where
  pub version : List ℕ
  pub inputs : List Input
  pub outputs : List Output
  pub witness : Option (List (List (List ℕ)))
  pub locktime : List ℕ

-- Bytes with their length in front.
unfoldable pub encode_bytes : List ℕ → List ℕ
encode_bytes bs = compact_size (length bs) ++ bs

unfoldable pub encode_all {ℓ} : {A : Type ℓ} → (A → List ℕ) → List A → List ℕ
encode_all encode [] = []
encode_all encode (x ∷ xs) = encode x ++ encode_all encode xs

unfoldable pub encode_input : Input → List ℕ
encode_input i = i.outpoint ++ (encode_bytes i.script ++ i.sequence)

unfoldable pub encode_output : Output → List ℕ
encode_output o = o.value ++ encode_bytes o.script

unfoldable pub encode_stack : List (List ℕ) → List ℕ
encode_stack items = compact_size (length items) ++ encode_all encode_bytes items

abbrev pub marker : Option (List (List (List ℕ))) → List ℕ
marker none = []
marker (some _) = 0 ∷ 1 ∷ []

abbrev pub encode_witness : Option (List (List (List ℕ))) → List ℕ
encode_witness none = []
encode_witness (some stacks) = encode_all encode_stack stacks

unfoldable pub encode_body : Tx → List ℕ
encode_body t =
    compact_size (length t.inputs)
    ++ (encode_all encode_input t.inputs
        ++ (compact_size (length t.outputs)
            ++ (encode_all encode_output t.outputs ++ (encode_witness t.witness ++ t.locktime))))

unfoldable pub encode_tx : Tx → List ℕ
encode_tx t = t.version ++ (marker t.witness ++ encode_body t)
