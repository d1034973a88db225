-- ===== src/Uuencode/Encode.antt =====
-- `uuencode` of src/uuencode.c. The destination is the list of the bytes of the buffer behind
-- `p`; a write or a read out of the range of its array has no result.
pub mod Spec
pub mod Write
use gst_playd.Base.{ℕ, zero, suc, ◌+◌, ◌-◌, ◌*◌, ◌/◌, ◌^◌, bit_and, Option, none, some}
use gst_playd.Base.{Bytes, get_elem?, set?, drop, ◌>>=◌, if◌then◌else◌}
use gst_playd.Base.Int.{ℤ, pos, negsuc, ◌-ℤ◌, leb_ℤ}

-- `s1` and `s2`: the second and third byte of a group, or 0 where the source has ended.
unfoldable pub next_bytes : Bytes → ℤ → Option (ℕ × ℕ)
next_bytes s length =
    if leb_ℤ (negsuc 0) length
    then (do
      s1 ← get_elem? s 1
      s2 ← if leb_ℤ (pos 0) length then get_elem? s 2 else some 0
      some (s1, s2))
    else some (0, 0)

-- `*p = tbl[i]`
unfoldable pub put_char : Bytes → ℕ → Bytes → ℕ → Option Bytes
put_char tbl i buf p = do c ← get_elem? tbl i; set? buf p c

-- One round of the first loop: four characters are written at `p`.
unfoldable pub encode_group : Bytes → ℕ → ℕ → ℕ → Bytes → ℕ → Option Bytes
encode_group tbl s0 s1 s2 buf p = do
  buf ← put_char tbl (s0 / 2 ^ 2) buf p
  buf ← put_char tbl (bit_and s0 3 * 2 ^ 4 + s1 / 2 ^ 4) buf (p + 1)
  buf ← put_char tbl (bit_and s1 0xf * 2 ^ 2 + s2 / 2 ^ 6) buf (p + 2)
  put_char tbl (bit_and s2 0x3f) buf (p + 3)

-- The first loop, on fuel; the buffer, the end of what was written and the final `length`.
unfoldable pub encode_loop : ℕ → Bytes → Bytes → ℕ → Bytes → ℤ → Option (Bytes × ℕ × ℤ)
encode_loop zero tbl buf p s length = none
encode_loop (suc fuel) tbl buf p s length =
    let round = do
      s0 ← get_elem? s 0
      (s1, s2) ← next_bytes s (length -ℤ pos 3)
      buf ← encode_group tbl s0 s1 s2 buf p
      encode_loop fuel tbl buf (p + 4) (drop 3 s) (length -ℤ pos 3)
    in if leb_ℤ (pos 1) length then round else some (buf, p, length)

-- `while (length) { *--p = tbl[64]; length++; }`. A positive `length` would count up past INT_MAX.
unfoldable pub pad_loop : Bytes → Bytes → ℕ → ℤ → Option Bytes
pad_loop tbl buf p (pos zero) = some buf
pad_loop tbl buf p (pos (suc n)) = none
pad_loop tbl buf p (negsuc zero) = put_char tbl 64 buf (p - 1)
pad_loop tbl buf p (negsuc (suc n)) = do
  buf ← put_char tbl 64 buf (p - 1)
  pad_loop tbl buf (p - 1) (negsuc n)

-- What follows the first loop: the terminating NUL and the padding.
unfoldable pub finish : Bytes → Bytes → ℕ → ℤ → Option Bytes
finish tbl buf p length = do buf ← set? buf p 0; pad_loop tbl buf p length

-- Each round consumes at least one byte, so that `length` rounds and the final test are enough.
unfoldable pub uuencode : Bytes → Bytes → ℕ → Bytes → Option Bytes
unfolding encode_loop finish
uuencode buf src length tbl = do
  (buf, p, left) ← encode_loop (suc length) tbl buf 0 src (pos length)
  finish tbl buf p left
