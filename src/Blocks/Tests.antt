-- ===== src/Blocks/Tests.antt =====
-- Blocks, transactions and frames at concrete bytes.
use coinos_server.Base.{
  ℕ, zero, suc, ◌≡◌, refl, none, some, List, [], ◌∷◌, ◌++◌, arith, length, ap, append-nil,
}
use coinos_server.Blocks.VarInt.{compact_size}
use coinos_server.Blocks.Transaction.{raw_tx_size}
use coinos_server.Blocks.Transaction.Format.{Input, Output, Tx, encode_tx, encode_all}
use coinos_server.Blocks.Transaction.Size.{IsTx, raw_tx_size-encode}
use coinos_server.Blocks.Announced.{handle_raw_block, handle_raw_block-decodes, all_of}
use coinos_server.Blocks.Frames.{Bytes, codes, receive, receive_all}
use coinos_server.Blocks.Frames.Chunks.{receive_all-joined}
use coinos_server.Blocks.Frames.Delivery.{
  Message, encode_messages, bodies, idle, fresh, receive_all-delivers,
}

abbrev zeros : ℕ → List ℕ
zeros zero = []
zeros (suc n) = 0 ∷ zeros n

abbrev spend : Input
spend = record { outpoint = zeros 36; script = 7 ∷ 8 ∷ []; sequence = zeros 4 }

abbrev pays : Output
pays = record { value = zeros 8; script = 1 ∷ 2 ∷ 3 ∷ [] }

abbrev plain_tx : Tx
plain_tx = record {
  version = 2 ∷ zeros 3;
  inputs = spend ∷ [];
  outputs = pays ∷ pays ∷ [];
  witness = none;
  locktime = zeros 4;
}

abbrev witness_tx : Tx
witness_tx = record plain_tx { witness = some (((5 ∷ 6 ∷ []) ∷ [] ∷ []) ∷ []) }

plain_tx-IsTx : IsTx plain_tx
plain_tx-IsTx = record {
  version = refl;
  locktime = refl;
  some_input = omega arith;
  inputs_fit = omega arith;
  inputs = ((refl, omega arith, refl), tt);
  outputs_fit = omega arith;
  outputs = ((refl, omega arith), ((refl, omega arith), tt));
  witness = tt;
}

witness_tx-IsTx : IsTx witness_tx
witness_tx-IsTx = record {
  version = refl;
  locktime = refl;
  some_input = omega arith;
  inputs_fit = omega arith;
  inputs = plain_tx-IsTx.inputs;
  outputs_fit = omega arith;
  outputs = plain_tx-IsTx.outputs;
  witness = (refl, ((omega arith, (omega arith, (omega arith, tt))), tt));
}

raw_tx_size-encode_example :
    raw_tx_size (9 ∷ (encode_tx witness_tx ++ (4 ∷ []))) 1 ≡ some (length (encode_tx witness_tx))
raw_tx_size-encode_example =
    raw_tx_size-encode (9 ∷ (encode_tx witness_tx ++ (4 ∷ []))) witness_tx 1 (4 ∷ [])
      witness_tx-IsTx refl

abbrev two_txs : Bytes
two_txs = zeros 80 ++ (compact_size 2 ++ (encode_all encode_tx (plain_tx ∷ witness_tx ∷ []) ++ []))

handle_raw_block-decodes_example : handle_raw_block two_txs ≡ all_of (witness_tx ∷ [])
handle_raw_block-decodes_example =
    handle_raw_block-decodes (zeros 80) plain_tx (witness_tx ∷ []) [] refl (omega arith)
      plain_tx-IsTx (witness_tx-IsTx, tt)

abbrev announced : List Message
announced =
    record { name = codes "rawtx"; body = 1 ∷ 2 ∷ []; others = (0 ∷ []) ∷ [] }
    ∷ record { name = codes "other"; body = 3 ∷ []; others = [] }
    ∷ []

receive_all-joined_example :
    receive_all (codes "rawtx") (zeros 60 ∷ zeros 4 ∷ (1 ∷ []) ∷ []) (fresh (codes "rawtx"))
    ≡ receive (codes "rawtx") (zeros 60 ++ (zeros 4 ++ (1 ∷ []))) (fresh (codes "rawtx"))
receive_all-joined_example =
    receive_all-joined (codes "rawtx") (zeros 60) (zeros 4 ∷ (1 ∷ []) ∷ []) (fresh (codes "rawtx"))

receive_all-delivers_example :
    (receive_all
      (codes "rawtx")
      (zeros 64 ∷ encode_messages announced ∷ [])
      (fresh (codes "rawtx"))).inbox
    ≡ idle (codes "rawtx") (bodies (codes "rawtx") announced)
receive_all-delivers_example =
    receive_all-delivers (codes "rawtx") (zeros 64) announced (zeros 64)
      (encode_messages announced ∷ []) refl
      (omega arith, (omega arith, omega arith), (omega arith, omega arith, tt))
      (ap (λ b. zeros 64 ++ b) (append-nil (encode_messages announced)))
