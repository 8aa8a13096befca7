-- ===== src/Blocks/Announced.antt =====
-- lib/zmq.ts, `handleRawBlock`: the transactions of a block that are decoded and looked at.
use coinos_server.Base.{
  ℕ, zero, suc, ◌+◌, ◌≡◌, refl, ap, ◌∙◌, Bool, true, false, none, some, List, [], ◌∷◌, ◌++◌, map,
  ◌==◌, if◌then◌else◌, arith, length, append_assoc, drop, drop-part, take, take-append,
}
use coinos_server.Blocks.VarInt.{read_var_int, compact_size, read-compact_size}
use coinos_server.Blocks.Transaction.{raw_tx_size}
use coinos_server.Blocks.Transaction.Format.{Tx, encode_tx, encode_all}
use coinos_server.Blocks.Transaction.Size.{All, Fits, IsTx, raw_tx_size-encode}

-- The bytes that `decodeTx` is given, in order, and whether the handler comes to
-- `checkOutgoingConfirmations`: it does not if a read fails.
pub record Seen : Type 0 where
  pub decoded : List (List ℕ)
  pub checks : Bool

abbrev failed : Seen
failed = record { decoded = []; checks = false }

-- The first transaction is the coinbase.
abbrev see : ℕ → List ℕ → Seen → Seen
see i raw s = if i == 0 then s else record s { decoded = raw ∷ s.decoded }

unfoldable pub walk : List ℕ → ℕ → ℕ → ℕ → Seen
walk buf zero i offset = record { decoded = []; checks = true }
walk buf (suc n) i offset = elim (raw_tx_size buf offset) [
  | none ↦ failed
  | some size ↦ see i (take size (drop offset buf)) (walk buf n (i + 1) (offset + size))
]

unfoldable pub handle_raw_block : List ℕ → Seen
handle_raw_block raw = elim (read_var_int raw 80) [
  | none ↦ failed
  | some tx_count ↦ walk raw tx_count.value 0 (80 + tx_count.size)
]

walk-sized :
    (buf : List ℕ) (n i offset size : ℕ)
    → raw_tx_size buf offset ≡ some size
    → walk buf (suc n) i offset
      ≡ see i (take size (drop offset buf)) (walk buf n (i + 1) (offset + size))
unfolding walk
walk-sized buf n i offset size e = rw (e, walk) refl

abbrev pub all_of : List Tx → Seen
all_of txs = record { decoded = map encode_tx txs; checks = true }

walk-step :
    (buf : List ℕ) (n i o : ℕ) (t : Tx) (rest : List ℕ)
    → IsTx t
    → drop o buf ≡ encode_tx t ++ rest
    → walk buf (suc n) i o ≡ see i (encode_tx t) (walk buf n (i + 1) (o + length (encode_tx t)))
walk-step buf n i o t rest h e =
    walk-sized buf n i o (length (encode_tx t)) (raw_tx_size-encode buf t o rest h e)
    ∙ ap (λ raw. see i raw (walk buf n (i + 1) (o + length (encode_tx t))))
        (rw e (take-append (encode_tx t) rest))

see-suc :
    (i : ℕ) (raw : List ℕ) (s : Seen) → see (suc i) raw s ≡ record s { decoded = raw ∷ s.decoded }
see-suc i raw s = ground arith

walk-decodes :
    (buf : List ℕ) (txs : List Tx) (i o : ℕ) (rest : List ℕ)
    → All IsTx txs
    → drop o buf ≡ encode_all encode_tx txs ++ rest
    → walk buf (length txs) (suc i) o ≡ all_of txs
unfolding encode_all
walk-decodes buf [] i o rest h e = unfold walk in refl
walk-decodes buf (t ∷ txs) i o rest h e =
    let e' = e ∙ append_assoc (encode_tx t) (encode_all encode_tx txs) rest in
    let s : suc i + 1 ≡ suc (suc i) = omega arith in
    walk-step buf (length txs) (suc i) o t _ h.0 e'
    ∙ see-suc i (encode_tx t) _
    ∙ rw s (
        ap (λ (r : Seen). record r { decoded = encode_tx t ∷ r.decoded })
          (walk-decodes buf txs (suc i) (o + length (encode_tx t)) rest h.1
            (drop-part o (length (encode_tx t)) buf (encode_tx t) _ e' refl)))

-- Of a block, whatever transactions it has, each one but the coinbase is decoded, in order and with
-- exactly its bytes, and then the confirmations are checked. Its header has 80 bytes and its
-- transactions are in Bitcoin's format.
pub handle_raw_block-decodes :
    (header : List ℕ) (coinbase : Tx) (txs : List Tx) (rest : List ℕ)
    → length header ≡ 80
    → Fits (coinbase ∷ txs)
    → IsTx coinbase
    → All IsTx txs
    → handle_raw_block (
        header
        ++ (compact_size (length (coinbase ∷ txs))
            ++ (encode_all encode_tx (coinbase ∷ txs) ++ rest)))
      ≡ all_of txs
unfolding handle_raw_block encode_all
handle_raw_block-decodes header coinbase txs rest eighty fits c h =
    let count = compact_size (length (coinbase ∷ txs)) in
    let others = encode_all encode_tx txs in
    let buf = header ++ (count ++ (encode_all encode_tx (coinbase ∷ txs) ++ rest)) in
    let e0 = drop-part 0 80 buf header _ refl eighty in
    let e1 = drop-part 80 (length count) buf count _ e0 refl in
    let e2 = e1 ∙ append_assoc (encode_tx coinbase) others rest in
    let start = 80 + length count in
    rw (read-compact_size buf 80 (length (coinbase ∷ txs)) _ fits e0, handle_raw_block)
      (walk-step buf (length txs) 0 start coinbase _ c e2
        ∙ walk-decodes buf txs 0 (start + length (encode_tx coinbase)) rest h
            (drop-part start (length (encode_tx coinbase)) buf (encode_tx coinbase) _ e2 refl))
