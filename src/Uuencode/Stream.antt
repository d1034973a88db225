-- ===== src/Uuencode/Stream.antt =====
-- `read_base64` of src/uuencode.c. A stream is the list of its bytes that are still to be read;
-- at its end `fgetc` gives EOF, which is -1. `in_buf` is the list of the characters stored in it,
-- and its NUL is the list's end: the loop stores no character below '!'.
pub mod Step
pub mod Buffers
pub mod Stuck
pub mod RoundTrip
use gst_playd.Base.{ℕ, zero, suc, ◌+◌, ◌-◌, ◌%◌, ◌^◌, bit_and, Bool, true, false, not, ◌&&◌, Option}
use gst_playd.Base.{none, some, [], ◌∷◌, ◌++◌, Bytes, codes, length, leb, ltb, ◌==◌, str_equal}
use gst_playd.Base.{if◌then◌else◌, ◌>>=◌}
use gst_playd.Base.Int.{ℤ, pos, negsuc}
use gst_playd.Uuencode.Decode.{decode_base64}

abbrev pub buffer_size : ℕ
buffer_size = 64

-- `(int)(signed char)flags`
unfoldable pub exit_char : ℕ → ℤ
exit_char flags =
    if ltb (flags % 2 ^ 8) 128 then pos (flags % 2 ^ 8) else negsuc (255 - flags % 2 ^ 8)

abbrev pub is_char : ℤ → ℕ → Bool
is_char (pos e) c = e == c
is_char (negsuc e) c = false

abbrev pub is_eof : ℤ → Bool
is_eof (pos e) = false
is_eof (negsuc e) = e == 0

-- The outcome of the loop that fills `in_buf`: the return of 1, or the buffer, `term_seen` and
-- the stream behind it.
pub data Filled : Type 0 where
  finished : Bytes → Filled
  filled : Bytes → Bool → Bytes → Filled

-- The exit character was read.
unfoldable pub at_exit : Bytes → Bytes → Filled
at_exit in_buf stream = if length in_buf == 0 then finished stream else filled in_buf true stream

unfoldable pub fill : ℤ → Bytes → Bytes → Filled
unfolding at_exit
fill exit [] in_buf =
    if leb buffer_size (length in_buf)
    then filled in_buf false []
    else if is_eof exit
    then at_exit in_buf []
    else filled in_buf true []
fill exit (ch ∷ stream) in_buf = elim (leb buffer_size (length in_buf)) [
  | true ↦ filled in_buf false (ch ∷ stream)
  | false ↦ elim (is_char exit ch) [
    | true ↦ at_exit in_buf stream
    | false ↦ elim (leb ch b' ') [
      | true ↦ filled in_buf false stream
      | false ↦ fill exit stream (in_buf ++ ch ∷ [])
    ]
  ]
]

-- What the loop returns, the bytes written to the destination and the stream that it leaves.
pub record Read : Type 0 where
  pub result : ℕ
  pub written : Bytes
  pub stream : Bytes

abbrev pub is_empty : Bytes → Bool
is_empty [] = true
is_empty (c ∷ s) = false

-- `while (1)` on fuel; `uu_style_end` is the flag's test.
unfoldable pub read_loop : ℕ → ℤ → Bool → Bytes → Bytes → Bytes → Option Read
read_loop zero exit uu_style_end in_buf written stream = none
read_loop (suc fuel) exit uu_style_end in_buf written stream = elim (fill exit stream in_buf) [
  | finished rest ↦ some (record { result = 1; written = written; stream = rest })
  | filled line term_seen rest ↦ elim (uu_style_end && str_equal line (codes "====")) [
    | true ↦ some (record { result = 1; written = written; stream = rest })
    | false ↦ decode_base64 line >>= λ (out, in_tail). elim term_seen [
      | true ↦ some (record {
        result = if is_empty in_tail then 1 else 0;
        written = written ++ out;
        stream = rest;
      })
      | false ↦ read_loop fuel exit uu_style_end in_tail (written ++ out) rest
    ]
  ]
]

-- `uu_stop` is BASE64_FLAG_UU_STOP, which src/uuencode.h makes 0x100.
unfoldable pub read_base64 : ℕ → ℕ → Bytes → ℕ → Option Read
read_base64 uu_stop fuel stream flags =
    read_loop fuel (exit_char flags) (not (bit_and flags uu_stop == 0)) [] [] stream
