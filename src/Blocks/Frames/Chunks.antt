-- ===== src/Blocks/Frames/Chunks.antt =====
-- lib/zmq.ts, `processBuffer`: what arrives may be cut anywhere.
use mathlib.Core.Option
use coinos_server.Base.{
  ℕ, zero, suc, ◌+◌, ◌≤◌, ◌≡◌, refl, sym, ap, ◌∙◌, true, false, none, some, List, [], ◌∷◌, ◌++◌,
  ltb, arith, inl, inr, Bool-cases, Option-cases, length, drop, take, length-append,
  take_all-append, drop_some-append, length-drop, append_assoc, append-nil,
}
use coinos_server.Blocks.Frames.{
  Bytes, Frame, Inbox, Link, is_long, cut, cut_long, parse_frame, from_big_endian, on_frame, loop,
  looped, greeted, process_frames, process_buffer, receive, receive_all,
}

-- A frame that is there is the same when more has arrived.
abbrev more : Bytes → Frame → Frame
more d f = record f { rest = f.rest ++ d }

not_short : (b d : Bytes) (n : ℕ) → ltb (length b) n ≡ false → ltb (length (b ++ d)) n ≡ false
not_short b d n h = ground (arith, length-append b d)

cut-append :
    (flags size : ℕ) (b d : Bytes) (f : Frame)
    → cut flags size b ≡ some f
    → cut flags size (b ++ d) ≡ some (more d f)
cut-append flags size b d f e = elim (Bool-cases (ltb (length b) size)) [
  | inl h ↦ let e' = rw h at e in cc
  | inr h ↦
      let e' = rw h at e in
      rw
        (
          not_short b d size h,
          take_all-append size b d (ground arith),
          drop_some-append size b d (ground arith),
        )
        (ap (Option.map (more d)) e')
]

cut_long-append :
    (flags : ℕ) (b d : Bytes) (f : Frame)
    → cut_long flags b ≡ some f
    → cut_long flags (b ++ d) ≡ some (more d f)
cut_long-append flags b d f e = elim (Bool-cases (ltb (length b) 8)) [
  | inl h ↦ let e' = rw h at e in cc
  | inr h ↦
      let e' = rw h at e in
      rw
        (
          not_short b d 8 h,
          take_all-append 8 b d (ground arith),
          drop_some-append 8 b d (ground arith),
        )
        (cut-append flags (from_big_endian 0 (take 8 b)) (drop 8 b) d f e')
]

parse-append :
    (b d : Bytes) (f : Frame) → parse_frame b ≡ some f → parse_frame (b ++ d) ≡ some (more d f)
unfolding parse_frame
parse-append [] d f e = cc
parse-append (x ∷ []) d f e = cc
parse-append (x ∷ (s ∷ m)) d f e = elim (Bool-cases (is_long x)) [
  | inl h ↦ rw h (cut_long-append x (s ∷ m) d f (rw h at e))
  | inr h ↦ rw h (cut-append x s m d f (rw h at e))
]

cut-rest :
    (flags size : ℕ) (b : Bytes) (f : Frame) → cut flags size b ≡ some f → length f.rest ≤ length b
cut-rest flags size b f e = ground (arith, length-drop size b)

cut_long-rest :
    (flags : ℕ) (b : Bytes) (f : Frame) → cut_long flags b ≡ some f → 1 + length f.rest ≤ length b
cut_long-rest flags b f e = elim (Bool-cases (ltb (length b) 8)) [
  | inl h ↦ let e' = rw h at e in cc
  | inr h ↦
      let short = cut-rest flags (from_big_endian 0 (take 8 b)) (drop 8 b) f (rw h at e) in
      let long : 8 ≤ length b = ground arith in omega (arith, length-drop 8 b)
]

-- A frame takes two bytes at least.
parse-shrinks : (b : Bytes) (f : Frame) → parse_frame b ≡ some f → 2 + length f.rest ≤ length b
unfolding parse_frame
parse-shrinks [] f e = cc
parse-shrinks (x ∷ []) f e = cc
parse-shrinks (x ∷ (s ∷ m)) f e = elim (Bool-cases (is_long x)) [
  | inl h ↦ let r = cut_long-rest x (s ∷ m) f (rw h at e) in omega arith
  | inr h ↦ let r = cut-rest x s m f (rw h at e) in omega arith
]

parse-empty : (b : Bytes) → length b ≤ 0 → parse_frame b ≡ none
unfolding parse_frame
parse-empty [] h = refl
parse-empty (x ∷ b) h = absurd (omega arith)

module _ (topic : Bytes) where
  loop-some :
      (n : ℕ) (b : Bytes) (i : Inbox) (f : Frame)
      → parse_frame b ≡ some f
      → loop topic (suc n) b i ≡ loop topic n f.rest (on_frame topic f i)
  unfolding loop
  loop-some n b i f e = rw (e, loop) refl

  loop-none : (n : ℕ) (b : Bytes) (i : Inbox) → parse_frame b ≡ none → loop topic n b i ≡ (b, i)
  unfolding loop
  loop-none zero b i e = refl
  loop-none (suc n) b i e = rw (e, loop) refl

  -- As many rounds as the buffer has bytes are enough: more change nothing.
  loop-fuel :
      (n m : ℕ) (b : Bytes) (i : Inbox)
      → length b ≤ n
      → length b ≤ m
      → loop topic n b i ≡ loop topic m b i
  loop-fuel zero m b i h k =
      let e = parse-empty b h in loop-none zero b i e ∙ sym (loop-none m b i e)
  loop-fuel (suc n) zero b i h k =
      let e = parse-empty b k in loop-none (suc n) b i e ∙ sym (loop-none zero b i e)
  loop-fuel (suc n) (suc m) b i h k = elim (Option-cases (parse_frame b)) [
    | inl e ↦ loop-none (suc n) b i e ∙ sym (loop-none (suc m) b i e)
    | inr (f, e) ↦
        let s = parse-shrinks b f e in
        loop-some n b i f e
        ∙ loop-fuel n m f.rest (on_frame topic f i) (omega arith) (omega arith)
        ∙ sym (loop-some m b i f e)
  ]

  -- The loop over all that a buffer has.
  abbrev pub drain : Bytes → Inbox → Bytes × Inbox
  drain b i = loop topic (length b) b i

  pub drain-step :
      (b : Bytes) (i : Inbox) (f : Frame)
      → parse_frame b ≡ some f
      → drain b i ≡ drain f.rest (on_frame topic f i)
  drain-step b i f e =
      let s = parse-shrinks b f e in
      loop-fuel (length b) (suc (length b)) b i (omega arith) (omega arith)
      ∙ loop-some (length b) b i f e
      ∙ loop-fuel (length b) (length f.rest) f.rest (on_frame topic f i) (omega arith) (omega arith)

  abbrev continue : Bytes → Bytes × Inbox → Bytes × Inbox
  continue d (b, i) = drain (b ++ d) i

  loop-append :
      (n m : ℕ) (b d : Bytes) (i : Inbox)
      → length b ≤ n
      → length (b ++ d) ≤ m
      → loop topic m (b ++ d) i ≡ continue d (loop topic n b i)
  unfolding on_frame
  loop-append zero m b d i h k =
      rw (loop-none zero b i (parse-empty b h))
        (loop-fuel m (length (b ++ d)) (b ++ d) i k (omega arith))
  loop-append (suc n) zero b d i h k =
      rw (loop-none (suc n) b i (parse-empty b (omega (arith, length-append b d))))
        (loop-fuel zero (length (b ++ d)) (b ++ d) i k (omega arith))
  loop-append (suc n) (suc m) b d i h k = elim (Option-cases (parse_frame b)) [
    | inl e ↦
        rw (loop-none (suc n) b i e)
          (loop-fuel (suc m) (length (b ++ d)) (b ++ d) i k (omega arith))
    | inr (f, e) ↦
        let s = parse-shrinks b f e in
        loop-some m (b ++ d) i (more d f) (parse-append b d f e)
        ∙ loop-append n m f.rest d (on_frame topic f i) (omega arith)
            (omega (arith, length-append b d, length-append f.rest d))
        ∙ ap (continue d) (sym (loop-some n b i f e))
  ]

  abbrev arrives : Bytes → Link → Link
  arrives d s = record s { buffer = s.buffer ++ d }

  frames-append :
      (d : Bytes) (s : Link)
      → process_frames topic (arrives d s)
        ≡ process_frames topic (arrives d (process_frames topic s))
  unfolding process_frames
  frames-append d s = ap (looped s) (
      loop-append (length s.buffer) (length (s.buffer ++ d)) s.buffer d s.inbox (omega arith)
        (omega arith))

  open_buffer :
      (s : Link) → s.handshake_done ≡ true → process_buffer topic s ≡ process_frames topic s
  unfolding process_buffer
  open_buffer s e = simp e refl

  waiting_buffer :
      (s : Link)
      → s.handshake_done ≡ false
      → ltb (length s.buffer) 64 ≡ true
      → process_buffer topic s ≡ s
  unfolding process_buffer
  waiting_buffer s e h = simp (e, h) refl

  pub greeting_buffer :
      (s : Link)
      → s.handshake_done ≡ false
      → ltb (length s.buffer) 64 ≡ false
      → process_buffer topic s ≡ process_frames topic (greeted topic s)
  unfolding process_buffer
  greeting_buffer s e h = simp (e, h) refl

  -- Frames that are taken apart from an open link, with what arrives after them.
  open-append :
      (d : Bytes) (s : Link)
      → s.handshake_done ≡ true
      → process_frames topic (arrives d s)
        ≡ process_buffer topic (arrives d (process_frames topic s))
  open-append d s e =
      let kept : (process_frames topic s).handshake_done ≡ true = unfold process_frames in e in
      frames-append d s ∙ sym (open_buffer (arrives d (process_frames topic s)) kept)

  greeted-arrives :
      (d : Bytes) (s : Link)
      → ltb (length s.buffer) 64 ≡ false
      → greeted topic (arrives d s) ≡ arrives d (greeted topic s)
  greeted-arrives d s h =
      ap (λ (b : Bytes). record (greeted topic s) { buffer = b })
        (drop_some-append 64 s.buffer d (ground arith))

  process-append :
      (d : Bytes) (s : Link)
      → process_buffer topic (arrives d s)
        ≡ process_buffer topic (arrives d (process_buffer topic s))
  process-append d s = elim (Bool-cases s.handshake_done) [
    | inl e ↦
        open_buffer (arrives d s) e
        ∙ open-append d s e
        ∙ ap (λ (r : Link). process_buffer topic (arrives d r)) (sym (open_buffer s e))
    | inr e ↦ elim (Bool-cases (ltb (length s.buffer) 64)) [
      | inl h ↦ ap (λ (r : Link). process_buffer topic (arrives d r)) (sym (waiting_buffer s e h))
      | inr h ↦
          greeting_buffer (arrives d s) e (not_short s.buffer d 64 h)
          ∙ ap (process_frames topic) (greeted-arrives d s h)
          ∙ open-append d (greeted topic s) refl
          ∙ ap (λ (r : Link). process_buffer topic (arrives d r)) (sym (greeting_buffer s e h))
    ]
  ]

  receive-append :
      (a b : Bytes) (s : Link) → receive topic (a ++ b) s ≡ receive topic b (receive topic a s)
  unfolding receive
  receive-append a b s =
      ap (λ (c : Bytes). process_buffer topic (record s { buffer = c }))
        (sym (append_assoc s.buffer a b))
      ∙ process-append b (arrives a s)

  abbrev pub joined : List Bytes → Bytes
  joined [] = []
  joined (c ∷ cs) = c ++ joined cs

  -- Wherever a stream is cut into chunks, within the greeting, a header or a body, a connection that
  -- has received them is in the same state: the same messages delivered, the same frames kept, the
  -- same commands written and the same bytes left.
  pub receive_all-joined :
      (c : Bytes) (cs : List Bytes) (s : Link)
      → receive_all topic (c ∷ cs) s ≡ receive topic (c ++ joined cs) s
  unfolding receive_all
  receive_all-joined c [] s = ap (λ (b : Bytes). receive topic b s) (sym (append-nil c))
  receive_all-joined c (d ∷ cs) s =
      receive_all-joined d cs (receive topic c s) ∙ sym (receive-append c (d ++ joined cs) s)
