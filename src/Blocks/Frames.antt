-- ===== src/Blocks/Frames.antt =====
-- lib/zmq.ts, the ZMTP connection: how frames are written (`frame`, `command`, `subscribeCommand`,
-- `legacySubscribe`, `greeting`), and how what arrives is taken apart (`processBuffer`).
pub mod Chunks
pub mod Delivery
use Prim.Native.Char.{code}
use Prim.Native.String.{String}
use coinos_server.Base.{
  ℕ, zero, suc, ◌+◌, ◌-◌, ◌*◌, ◌/◌, ◌%◌, ◌≡◌, refl, Bool, true, false, not, ◌&&◌, ◌||◌, Option,
  none, some, List, [], ◌∷◌, ◌++◌, leb, ltb, ◌==◌, if◌then◌else◌, length, drop, take,
}

abbrev pub Bytes : Type 0
Bytes = List ℕ

abbrev pub codes : String → Bytes
codes String.[] = []
codes (String.◌∷◌ c s) = code c ∷ codes s

-- The bits 0, 1 and 2 of a frame's flags.
abbrev pub is_more : ℕ → Bool
is_more flags = flags % 2 == 1

abbrev pub is_long : ℕ → Bool
is_long flags = flags / 2 % 2 == 1

abbrev pub is_command : ℕ → Bool
is_command flags = flags / 4 % 2 == 1

-- `setBigUint64` and `setUint32`: the number in so many bytes, the highest first.
unfoldable pub big_endian : ℕ → ℕ → Bytes
big_endian zero v = []
big_endian (suc n) v = big_endian n (v / 256) ++ (v % 256 ∷ [])

abbrev pub long : ℕ → ℕ
long flags = if is_long flags then flags else flags + 2

unfoldable pub frame : ℕ → Bytes → Bytes
frame flags body =
    if leb (length body) 0xff
    then flags ∷ length body ∷ body
    else long flags ∷ (big_endian 8 (length body) ++ body)

unfoldable pub props_bytes : List (Bytes × Bytes) → Bytes
props_bytes [] = []
props_bytes ((k, v) ∷ rest) = length k ∷ (k ++ (big_endian 4 (length v) ++ (v ++ props_bytes rest)))

unfoldable pub command : Bytes → List (Bytes × Bytes) → Bytes
unfolding frame props_bytes big_endian
command name props = frame 0x04 (length name ∷ (name ++ props_bytes props))

unfoldable pub subscribe_command : Bytes → Bytes
unfolding frame
subscribe_command topic = frame 0x04 (9 ∷ (codes "SUBSCRIBE" ++ (length topic ∷ topic)))

unfoldable pub legacy_subscribe : Bytes → Bytes
unfolding frame
legacy_subscribe topic = frame 0x00 (1 ∷ topic)

-- `getBigUint64`. `Number` rounds what is above 2 ^ 53, which no buffer is long enough for.
unfoldable pub from_big_endian : ℕ → Bytes → ℕ
from_big_endian acc [] = acc
from_big_endian acc (b ∷ bs) = from_big_endian (acc * 256 + b) bs

pub record Frame : Type 0 where
  pub flags : ℕ
  pub body : Bytes
  pub rest : Bytes

-- `none` is a frame that has not arrived in full.
abbrev pub cut : ℕ → ℕ → Bytes → Option Frame
cut flags size bytes =
    if ltb (length bytes) size
    then none
    else some (record { flags = flags; body = take size bytes; rest = drop size bytes })

abbrev pub cut_long : ℕ → Bytes → Option Frame
cut_long flags bytes =
    if ltb (length bytes) 8
    then none
    else cut flags (from_big_endian 0 (take 8 bytes)) (drop 8 bytes)

unfoldable pub parse_frame : Bytes → Option Frame
parse_frame [] = none
parse_frame (flags ∷ []) = none
parse_frame (flags ∷ (size ∷ more)) =
    if is_long flags then cut_long flags (size ∷ more) else cut flags size more

abbrev pub same : Bytes → Bytes → Bool
same [] [] = true
same [] (b ∷ bs) = false
same (a ∷ as') [] = false
same (a ∷ as') (b ∷ bs) = a == b && same as' bs

-- A `TextDecoder` leaves a byte order mark out.
unfoldable pub decodes_to : Bytes → Bytes → Bool
decodes_to bs text = same bs text || same bs (0xef ∷ 0xbb ∷ 0xbf ∷ text)

-- The parts of the message that is arriving, and the messages that `onMessage` was called with.
pub record Inbox : Type 0 where
  pub frames : List Bytes
  pub delivered : List Bytes

abbrev pub deliver : Bytes → List Bytes → List Bytes → List Bytes
deliver topic (name ∷ (body ∷ others)) done =
    if decodes_to name topic then done ++ (body ∷ []) else done
deliver topic (name ∷ []) done = done
deliver topic [] done = done

unfoldable pub on_frame : Bytes → Frame → Inbox → Inbox
on_frame topic f i =
    if is_command f.flags
    then i
    else if is_more f.flags
    then record i { frames = i.frames ++ (f.body ∷ []) }
    else record { frames = []; delivered = deliver topic (i.frames ++ (f.body ∷ [])) i.delivered }

-- `while (buffer.length >= 2)`, with the rounds that are left.
unfoldable pub loop : Bytes → ℕ → Bytes → Inbox → Bytes × Inbox
loop topic zero buffer i = (buffer, i)
loop topic (suc n) buffer i = elim (parse_frame buffer) [
  | none ↦ (buffer, i)
  | some f ↦ loop topic n f.rest (on_frame topic f i)
]

pub record Link : Type 0 where
  pub buffer : Bytes
  pub handshake_done : Bool
  pub inbox : Inbox
  pub written : List Bytes

abbrev pub looped : Link → Bytes × Inbox → Link
looped s (b, i) = record s { buffer = b; inbox = i }

-- Each round takes two bytes at least, so that its length is enough for a buffer.
unfoldable pub process_frames : Bytes → Link → Link
process_frames topic s = looped s (loop topic (length s.buffer) s.buffer s.inbox)

abbrev pub greeted : Bytes → Link → Link
greeted topic s = record s {
  buffer = drop 64 s.buffer;
  handshake_done = true;
  written =
      s.written
      ++ (command (codes "READY") ((codes "Socket-Type", codes "SUB") ∷ [])
          ∷ subscribe_command topic
          ∷ legacy_subscribe topic
          ∷ []);
}

unfoldable pub process_buffer : Bytes → Link → Link
process_buffer topic s =
    if s.handshake_done
    then process_frames topic s
    else if ltb (length s.buffer) 64
    then s
    else process_frames topic (greeted topic s)

-- `socket.on("data", …)`
unfoldable pub receive : Bytes → Bytes → Link → Link
receive topic chunk s = process_buffer topic (record s { buffer = s.buffer ++ chunk })

unfoldable pub receive_all : Bytes → List Bytes → Link → Link
receive_all topic [] s = s
receive_all topic (c ∷ cs) s = receive_all topic cs (receive topic c s)
