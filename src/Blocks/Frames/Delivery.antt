-- ===== src/Blocks/Frames/Delivery.antt =====
-- lib/zmq.ts, `processBuffer`: what a publisher sends is delivered.
use native.Mathlib.Omega.{pow_step}
use coinos_server.Base.{
  ℕ, zero, suc, ◌+◌, ◌*◌, ◌/◌, ◌%◌, ◌^◌, ◌<◌, ◌≡◌, refl, sym, ap, ◌∙◌, true, false, some, List, [],
  ◌∷◌, ◌++◌, ltb, leb, if◌then◌else◌, arith, inl, inr, Bool-cases, length, length-append,
  take-append, drop-append, take-part, drop-part_self, append_assoc, append-nil,
}
use coinos_server.Blocks.Frames.{
  Bytes, Inbox, Link, is_long, big_endian, frame, decodes_to, cut, cut_long, parse_frame,
  from_big_endian, deliver, on_frame, loop, greeted, process_frames, receive, receive_all,
}
use coinos_server.Blocks.Frames.Chunks.{
  joined, drain, drain-step, receive_all-joined, greeting_buffer,
}

length-big_endian : (n v : ℕ) → length (big_endian n v) ≡ n
unfolding big_endian
length-big_endian zero v = refl
length-big_endian (suc n) v =
    omega
      (arith, length-append (big_endian n (v / 256)) (v % 256 ∷ []), length-big_endian n (v / 256))

from-append :
    (acc : ℕ) (xs : Bytes) (b : ℕ)
    → from_big_endian acc (xs ++ (b ∷ [])) ≡ from_big_endian acc xs * 256 + b
unfolding from_big_endian
from-append acc [] b = refl
from-append acc (x ∷ xs) b = from-append (acc * 256 + x) xs b

from-big_endian : (n v : ℕ) → v < 256 ^ n → from_big_endian 0 (big_endian n v) ≡ v
unfolding big_endian from_big_endian
from-big_endian zero v h = omega arith
from-big_endian (suc n) v h =
    let p = pow_step 256 n in
    from-append 0 (big_endian n (v / 256)) (v % 256)
    ∙ rw (from-big_endian n (v / 256) (omega arith)) (omega arith)

cut-whole :
    (flags : ℕ) (body rest : Bytes)
    → cut flags (length body) (body ++ rest)
      ≡ some (record { flags = flags; body = body; rest = rest })
cut-whole flags body rest =
    let enough : ltb (length (body ++ rest)) (length body) ≡ false =
      ground (arith, length-append body rest) in
    rw (enough, take-append body rest, drop-append body rest) refl

cut_long-whole :
    (flags : ℕ) (body rest : Bytes)
    → length body < 2 ^ 64
    → cut_long flags (big_endian 8 (length body) ++ (body ++ rest))
      ≡ some (record { flags = flags; body = body; rest = rest })
cut_long-whole flags body rest h =
    let size = big_endian 8 (length body) in
    let eight = length-big_endian 8 (length body) in
    let enough : ltb (length (size ++ (body ++ rest))) 8 ≡ false =
      ground (arith, length-append size (body ++ rest)) in
    rw
      (
        enough,
        take-part 8 size (body ++ rest) eight,
        drop-part_self 8 size (body ++ rest) eight,
        from-big_endian 8 (length body) h,
      )
      (cut-whole flags body rest)

parse-long :
    (flags : ℕ) (bs : Bytes)
    → is_long flags ≡ true
    → 0 < length bs
    → parse_frame (flags ∷ bs) ≡ cut_long flags bs
unfolding parse_frame
parse-long flags [] e h = absurd (omega arith)
parse-long flags (b ∷ bs) e h = rw e refl

-- The flags of a frame, long or not.
abbrev flags_of : ℕ → Bytes → ℕ
flags_of flags body = if leb (length body) 0xff then flags else flags + 2

-- A frame that is written is read back, whatever follows it.
parse-frame :
    (flags : ℕ) (body rest : Bytes)
    → is_long flags ≡ false
    → is_long (flags + 2) ≡ true
    → length body < 2 ^ 64
    → parse_frame (frame flags body ++ rest)
      ≡ some (record { flags = flags_of flags body; body = body; rest = rest })
unfolding parse_frame frame
parse-frame flags body rest short long h = elim (Bool-cases (leb (length body) 0xff)) [
  | inl e ↦ rw (e, short) (cut-whole flags body rest)
  | inr e ↦
      let size = big_endian 8 (length body) in
      let some_bytes : 0 < length ((size ++ body) ++ rest) = omega (
        arith,
        length-append (size ++ body) rest,
        length-append size body,
        length-big_endian 8 (length body),
      ) in
      rw (e, short)
        (parse-long (flags + 2) ((size ++ body) ++ rest) long some_bytes
          ∙ ap (cut_long (flags + 2)) (append_assoc size body rest)
          ∙ cut_long-whole (flags + 2) body rest h)
]

-- A message is two parts, its name and its body, and perhaps others; the last one is not flagged.
pub record Message : Type 0 where
  pub name : Bytes
  pub body : Bytes
  pub others : List Bytes

abbrev pub encode_parts : Bytes → List Bytes → Bytes
encode_parts p [] = frame 0x00 p
encode_parts p (q ∷ qs) = frame 0x01 p ++ encode_parts q qs

abbrev pub encode_message : Message → Bytes
encode_message m = frame 0x01 m.name ++ encode_parts m.body m.others

abbrev pub encode_messages : List Message → Bytes
encode_messages [] = []
encode_messages (m ∷ ms) = encode_message m ++ encode_messages ms

abbrev pub Sizes : Bytes → List Bytes → Type 0
Sizes p [] = length p < 2 ^ 64
Sizes p (q ∷ qs) = (length p < 2 ^ 64) × Sizes q qs

abbrev pub AllSized : List Message → Type 0
AllSized [] = Unit {0}
AllSized (m ∷ ms) = (length m.name < 2 ^ 64) × Sizes m.body m.others × AllSized ms

-- The bodies of the messages on the topic.
abbrev pub bodies : Bytes → List Message → List Bytes
bodies topic [] = []
bodies topic (m ∷ ms) =
    let rest = bodies topic ms in if decodes_to m.name topic then m.body ∷ rest else rest

module _ (topic : Bytes) where
  drain-more :
      (p : Bytes) (rest : Bytes) (i : Inbox)
      → length p < 2 ^ 64
      → drain topic (frame 0x01 p ++ rest) i
        ≡ drain topic rest (record i { frames = i.frames ++ (p ∷ []) })
  unfolding on_frame
  drain-more p rest i h =
      drain-step topic _ i _ (parse-frame 0x01 p rest refl refl h)
      ∙ elim (Bool-cases (leb (length p) 0xff)) [ inl e ↦ rw e refl | inr e ↦ rw e refl ]

  drain-last :
      (p : Bytes) (rest : Bytes) (i : Inbox)
      → length p < 2 ^ 64
      → drain topic (frame 0x00 p ++ rest) i
        ≡ drain topic rest
            (record { frames = []; delivered = deliver topic (i.frames ++ (p ∷ [])) i.delivered })
  unfolding on_frame
  drain-last p rest i h =
      drain-step topic _ i _ (parse-frame 0x00 p rest refl refl h)
      ∙ elim (Bool-cases (leb (length p) 0xff)) [ inl e ↦ rw e refl | inr e ↦ rw e refl ]

  drain-parts :
      (p : Bytes) (qs : List Bytes) (rest : Bytes) (fs done : List Bytes)
      → Sizes p qs
      → drain topic (encode_parts p qs ++ rest) (record { frames = fs; delivered = done })
        ≡ drain topic rest (record { frames = []; delivered = deliver topic (fs ++ (p ∷ qs)) done })
  drain-parts p [] rest fs done h = drain-last p rest _ h
  drain-parts p (q ∷ qs) rest fs done h =
      ap (λ b. drain topic b (record { frames = fs; delivered = done }))
        (append_assoc (frame 0x01 p) (encode_parts q qs) rest)
      ∙ drain-more p _ _ h.0
      ∙ drain-parts q qs rest (fs ++ (p ∷ [])) done h.1
      ∙ ap
          (λ (gs : List Bytes).
            drain topic rest (record { frames = []; delivered = deliver topic gs done }))
          (append_assoc fs (p ∷ []) (q ∷ qs))

  abbrev pub idle : List Bytes → Inbox
  idle done = record { frames = []; delivered = done }

  drain-message :
      (m : Message) (rest : Bytes) (done : List Bytes)
      → length m.name < 2 ^ 64
      → Sizes m.body m.others
      → drain topic (encode_message m ++ rest) (idle done)
        ≡ drain topic rest (idle (deliver topic (m.name ∷ (m.body ∷ m.others)) done))
  drain-message m rest done h k =
      ap (λ b. drain topic b (idle done))
        (append_assoc (frame 0x01 m.name) (encode_parts m.body m.others) rest)
      ∙ drain-more m.name _ _ h
      ∙ drain-parts m.body m.others rest (m.name ∷ []) done k

  delivered-bodies :
      (m : Message) (ms : List Message) (done : List Bytes)
      → deliver topic (m.name ∷ (m.body ∷ m.others)) done ++ bodies topic ms
        ≡ done ++ bodies topic (m ∷ ms)
  delivered-bodies m ms done = elim (Bool-cases (decodes_to m.name topic)) [
    | inl e ↦ rw e (append_assoc done (m.body ∷ []) (bodies topic ms))
    | inr e ↦ rw e refl
  ]

  drain-messages :
      (ms : List Message) (done : List Bytes)
      → AllSized ms
      → drain topic (encode_messages ms) (idle done) ≡ ([], idle (done ++ bodies topic ms))
  drain-messages [] done h = unfold loop in ap (λ d. ([], idle d)) (sym (append-nil done))
  drain-messages (m ∷ ms) done h =
      drain-message m (encode_messages ms) done h.0 h.1
      ∙ drain-messages ms _ h.2
      ∙ ap (λ d. ([], idle d)) (delivered-bodies m ms done)

  abbrev pub fresh : Link
  fresh = record { buffer = []; handshake_done = false; inbox = idle []; written = [] }

  greeted_link :
      (greeting : Bytes) (ms : List Message)
      → length greeting ≡ 64
      → AllSized ms
      → (receive topic (greeting ++ encode_messages ms) fresh).inbox ≡ idle (bodies topic ms)
  unfolding receive process_frames
  greeted_link greeting ms g h =
      let b = greeting ++ encode_messages ms in
      let s = record fresh { buffer = b } in
      let enough : ltb (length b) 64 ≡ false =
        ground (arith, length-append greeting (encode_messages ms)) in
      ap (λ (r : Link). r.inbox) (greeting_buffer topic s refl enough)
      ∙ ap (λ (x : Bytes). (process_frames topic (record (greeted topic s) { buffer = x })).inbox)
          (drop-part_self 64 greeting (encode_messages ms) g)
      ∙ ap (λ (r : Bytes × Inbox). r.1) (drain-messages ms [] h)

  -- After the greeting, every message on the topic that was sent is delivered, once and in order,
  -- and no other, wherever the stream is cut into chunks. A message has two parts or more, each
  -- shorter than 2 ^ 64 bytes.
  pub receive_all-delivers :
      (greeting : Bytes) (ms : List Message) (c : Bytes) (cs : List Bytes)
      → length greeting ≡ 64
      → AllSized ms
      → c ++ joined topic cs ≡ greeting ++ encode_messages ms
      → (receive_all topic (c ∷ cs) fresh).inbox ≡ idle (bodies topic ms)
  receive_all-delivers greeting ms c cs g h e =
      ap (λ (s : Link). s.inbox) (receive_all-joined topic c cs fresh)
      ∙ ap (λ (b : Bytes). (receive topic b fresh).inbox) e
      ∙ greeted_link greeting ms g h
