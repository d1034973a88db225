-- ===== src/Uuencode/Stream/Step.antt =====
-- `read_base64` of src/uuencode.c: one round of the loop that fills `in_buf`, by its case.
use gst_playd.Base.{ℕ, ◌≤◌, ◌<◌, ◌≡◌, arith, true, false, [], ◌∷◌, ◌++◌, Bytes, length, leb}
use gst_playd.Base.{
  All, append-nil, append_assoc, length-append, ◌+◌, ◌∙◌, ap, Bool, ◌&&◌, str_equal, codes, some,
  ◌>>=◌, suc,
}
use gst_playd.Base.{Bool-cases, inl, inr, ◌==◌}
use gst_playd.Uuencode.Decode.{decode_base64}
use gst_playd.Base.Int.{ℤ}
use gst_playd.Uuencode.Stream.{
  buffer_size, finished, filled, fill, at_exit, is_char, is_eof, read_loop,
}

full_test : (n : ℕ) → buffer_size ≤ n → leb buffer_size n ≡ true
full_test n h = ground arith

room_test : (n : ℕ) → n < buffer_size → leb buffer_size n ≡ false
room_test n h = ground arith

module _ (exit : ℤ) where
  pub fill_full :
      (stream in_buf : Bytes)
      → buffer_size ≤ length in_buf
      → fill exit stream in_buf ≡ filled in_buf false stream
  unfolding fill
  fill_full [] in_buf h = rw (full_test (length in_buf) h)
  fill_full (ch ∷ stream) in_buf h = rw (fill, full_test (length in_buf) h)

  module _ (in_buf : Bytes) (room : length in_buf < buffer_size) where
    pub fill_eof_exit : is_eof exit ≡ true → fill exit [] in_buf ≡ at_exit in_buf []
    unfolding fill
    fill_eof_exit e = rw (room_test (length in_buf) room, e)

    pub fill_eof : is_eof exit ≡ false → fill exit [] in_buf ≡ filled in_buf true []
    unfolding fill
    fill_eof e = rw (room_test (length in_buf) room, e)

  module _ (ch : ℕ) (stream in_buf : Bytes) (room : length in_buf < buffer_size) where
    pub fill_exit : is_char exit ch ≡ true → fill exit (ch ∷ stream) in_buf ≡ at_exit in_buf stream
    unfolding fill
    fill_exit e = rw (fill, room_test (length in_buf) room, e)

    pub fill_stop :
        is_char exit ch ≡ false
        → ch ≤ b' '
        → fill exit (ch ∷ stream) in_buf ≡ filled in_buf false stream
    unfolding fill
    fill_stop e low =
        let low' : leb ch b' ' ≡ true = ground arith in
        rw (fill, room_test (length in_buf) room, e, low')

    pub fill_more :
        is_char exit ch ≡ false
        → b' ' < ch
        → fill exit (ch ∷ stream) in_buf ≡ fill exit stream (in_buf ++ ch ∷ [])
    unfolding fill
    fill_more e high =
        let high' : leb ch b' ' ≡ false = ground arith in
        rw (fill, room_test (length in_buf) room, e, high')

-- A character that is stored: no control character, no space and not the exit character.
abbrev pub IsStored : ℤ → ℕ → Type 0
IsStored exit c = (b' ' < c) × (is_char exit c ≡ false)

-- What fits the buffer is stored before anything else happens.
pub fill-append :
    (exit : ℤ) (s rest in_buf : Bytes)
    → length in_buf + length s ≤ buffer_size
    → All (IsStored exit) s
    → fill exit (s ++ rest) in_buf ≡ fill exit rest (in_buf ++ s)
fill-append exit [] rest in_buf fits h = rw append-nil
fill-append exit (c ∷ s) rest in_buf fits h =
    fill_more exit c (s ++ rest) in_buf (omega arith) h.0.1 h.0.0
    ∙ fill-append exit s rest (in_buf ++ c ∷ []) (omega (arith, length-append in_buf (c ∷ []))) h.1
    ∙ ap (fill exit rest) (append_assoc in_buf (c ∷ []) s)

-- One round of the outer loop, before the terminator and at it.
module _ (fuel : ℕ) (exit : ℤ) (uu_style_end : Bool) (in_buf written stream line rest : Bytes) where
  pub read_loop_more :
      {out in_tail : Bytes}
      → fill exit stream in_buf ≡ filled line false rest
      → (uu_style_end && str_equal line (codes "====")) ≡ false
      → decode_base64 line ≡ some (out, in_tail)
      → read_loop (suc fuel) exit uu_style_end in_buf written stream
        ≡ read_loop fuel exit uu_style_end in_tail (written ++ out) rest
  unfolding read_loop
  read_loop_more e t d = rw (read_loop, e, t, d, ◌>>=◌)

  pub read_loop_last :
      {out : Bytes}
      → fill exit stream in_buf ≡ filled line true rest
      → (uu_style_end && str_equal line (codes "====")) ≡ false
      → decode_base64 line ≡ some (out, [])
      → read_loop (suc fuel) exit uu_style_end in_buf written stream
        ≡ some (record { result = 1; written = written ++ out; stream = rest })
  unfolding read_loop
  read_loop_last e t d = rw (read_loop, e, t, d, ◌>>=◌)

  pub read_loop_finished :
      fill exit stream in_buf ≡ finished rest
      → read_loop (suc fuel) exit uu_style_end in_buf written stream
        ≡ some (record { result = 1; written = written; stream = rest })
  unfolding read_loop
  read_loop_finished e = rw (read_loop, e)

module _ (exit : ℤ) (in_buf : Bytes) (room : length in_buf < buffer_size) where
  -- The end of the stream behind a line, and behind nothing.
  pub fill-nil : 0 < length in_buf → fill exit [] in_buf ≡ filled in_buf true []
  unfolding at_exit
  fill-nil some_in = elim (Bool-cases (is_eof exit)) [
    | inl e ↦
        let some_in' : (length in_buf == 0) ≡ false = ground arith in
        fill_eof_exit exit in_buf room e ∙ rw (at_exit, some_in')
    | inr e ↦ fill_eof exit in_buf room e
  ]
