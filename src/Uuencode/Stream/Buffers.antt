-- ===== src/Uuencode/Stream/Buffers.antt =====
-- `read_base64` of src/uuencode.c stays within `in_buf[BUFFER_SIZE + 2]` and
-- `out_buf[BUFFER_SIZE / 4 * 3 + 2]`.
use gst_playd.Base.{ℕ, suc, ◌+◌, ◌*◌, ◌/◌, ◌≤◌, ◌≡◌, arith, Bool, some}
use gst_playd.Base.{[], ◌∷◌, ◌++◌, Bytes, length, length-append, Bool-cases, inl, inr, ◌==◌}
use gst_playd.Base.Int.{ℤ}
use gst_playd.Uuencode.Decode.{decode_base64}
use gst_playd.Uuencode.Decode.Bounds.{decode_base64-room}
use gst_playd.Uuencode.Stream.Step.{
  fill_full, fill_eof, fill_eof_exit, fill_exit, fill_stop, fill_more,
}
use native.Mathlib.Decide.{dec_lt}
use gst_playd.Uuencode.Stream.{
  buffer_size, Filled, finished, filled, fill, at_exit, is_char, is_eof,
}

-- The buffer and its NUL fit, and the stream has not grown.
abbrev InBuffer : ℕ → Filled → Type 0
InBuffer n (finished rest) = length rest ≤ n
InBuffer n (filled line term_seen rest) = (length line ≤ buffer_size) × (length rest ≤ n)

InBuffer-suc : (n : ℕ) (f : Filled) → InBuffer n f → InBuffer (suc n) f
InBuffer-suc n (finished rest) h = omega arith
InBuffer-suc n (filled line term_seen rest) h = omega arith

at_exit-InBuffer :
    (in_buf stream : Bytes)
    → length in_buf ≤ buffer_size
    → InBuffer (length stream) (at_exit in_buf stream)
unfolding at_exit
at_exit-InBuffer in_buf stream h = elim (Bool-cases (length in_buf == 0)) [
  | inl e ↦ rw e (omega arith)
  | inr e ↦ rw e (omega arith)
]

fill-InBuffer :
    (exit : ℤ) (stream in_buf : Bytes)
    → length in_buf ≤ buffer_size
    → InBuffer (length stream) (fill exit stream in_buf)
fill-InBuffer exit [] in_buf h = elim (dec_lt (length in_buf) buffer_size) [
  | no p ↦ rw (fill_full exit [] in_buf (omega arith)) (omega arith)
  | yes p ↦ elim (Bool-cases (is_eof exit)) [
    | inl e ↦ rw (fill_eof_exit exit in_buf p e) (at_exit-InBuffer in_buf [] h)
    | inr e ↦ rw (fill_eof exit in_buf p e) (omega arith)
  ]
]
fill-InBuffer exit (ch ∷ stream) in_buf h = elim (dec_lt (length in_buf) buffer_size) [
  | no p ↦ rw (fill_full exit (ch ∷ stream) in_buf (omega arith)) (omega arith)
  | yes p ↦ elim (Bool-cases (is_char exit ch)) [
    | inl e ↦
        rw (fill_exit exit ch stream in_buf p e)
          (InBuffer-suc (length stream) _ (at_exit-InBuffer in_buf stream h))
    | inr e ↦ elim (dec_lt b' ' ch) [
      | no q ↦ rw (fill_stop exit ch stream in_buf p e (omega arith)) (omega arith)
      | yes q ↦ rw (fill_more exit ch stream in_buf p e q) (
          InBuffer-suc (length stream) _ (
            fill-InBuffer exit stream (in_buf ++ ch ∷ [])
              (omega (arith, length-append in_buf (ch ∷ [])))))
    ]
  ]
]

-- From at most 64 characters in `in_buf`, a line with its NUL fits the 66 bytes of `in_buf`, the
-- bytes that `decode_base64` stores for it fit the 50 bytes of `out_buf`, and the undecoded part
-- that is moved to the front of `in_buf` leaves it with at most 64 characters again.
pub read_base64-InBounds :
    (exit : ℤ) (stream in_buf line rest : Bytes) (term_seen : Bool)
    → length in_buf ≤ buffer_size
    → fill exit stream in_buf ≡ filled line term_seen rest
    → (length line + 1 ≤ buffer_size + 2)
      × (out in_tail : Bytes) × (decode_base64 line ≡ some (out, in_tail))
      × (length out ≤ buffer_size / 4 * 3 + 2)
      × (length in_tail ≤ buffer_size)
read_base64-InBounds exit stream in_buf line rest term_seen h e =
    let fits : InBuffer (length stream) (filled line term_seen rest) =
      rw e at (fill-InBuffer exit stream in_buf h) in
    let (out, in_tail, decoded, room, left) = decode_base64-room line in
    (omega arith, out, in_tail, decoded, omega arith, omega arith)
