-- ===== src/Examples/Stream.antt =====
-- `read_base64` of src/uuencode.c on small streams.
use gst_playd.Base.{
  ◌+◌, ◌*◌, ◌/◌, ◌≤◌, ◌≡◌, refl, arith, some, none, false, [], ◌∷◌, ◌++◌, codes, Bytes,
}
use gst_playd.Base.{All-replicate, replicate, length, str_equal}
use gst_playd.Uuencode.{uuenc_tbl_base64}
use gst_playd.Uuencode.Decode.{decode_base64, fetch, strchr, join_sextets, undecoded}
use gst_playd.Uuencode.Stream.{buffer_size, fill, filled, read_loop, read_base64, exit_char}
use gst_playd.Uuencode.Stream.Buffers.{read_base64-InBounds}
use gst_playd.Uuencode.Stream.Stuck.{IsJunk, read_base64-never-returns}
use gst_playd.Uuencode.Stream.RoundTrip.{read_base64-encoding}

abbrev light : Bytes
light = codes "light"

-- BASE64_FLAG_UU_STOP as BusyBox has it, and EOF as the exit character.
read_lines :
    read_base64 0x100 9 (codes "bGln\naHQ=\n") 0xff
    ≡ some (record { result = 1; written = light; stream = [] })
unfolding read_base64 read_loop fill decode_base64 fetch strchr join_sextets undecoded exit_char
    str_equal
read_lines = refl

read_uu_stop :
    read_base64 0x100 9 (codes "bGln\n====\nQ") 0x1ff
    ≡ some (record { result = 1; written = codes "lig"; stream = codes "Q" })
unfolding read_base64 read_loop fill decode_base64 fetch strchr join_sextets undecoded exit_char
    str_equal
read_uu_stop = refl

read_partial :
    read_base64 0x100 9 (codes "bGlnaH") 0xff
    ≡ some (record { result = 0; written = codes "lig"; stream = [] })
unfolding read_base64 read_loop fill decode_base64 fetch strchr join_sextets undecoded exit_char
    str_equal
read_partial = refl

fill_word : fill (exit_char 0xff) (codes "bGln x") [] ≡ filled (codes "bGln") false (codes "x")
unfolding fill exit_char
fill_word = refl

read_base64-InBounds_example :
    (length (codes "bGln") + 1 ≤ buffer_size + 2)
    × (out in_tail : Bytes) × (decode_base64 (codes "bGln") ≡ some (out, in_tail))
    × (length out ≤ buffer_size / 4 * 3 + 2)
    × (length in_tail ≤ buffer_size)
read_base64-InBounds_example =
    read_base64-InBounds (exit_char 0xff) (codes "bGln x") [] (codes "bGln") (codes "x") false
      (omega arith) fill_word

abbrev junk : Bytes
junk = replicate 63 b'!'

letter_a : strchr uuenc_tbl_base64 b'A' ≡ some 0
unfolding strchr
letter_a = refl

bang_is_junk : strchr uuenc_tbl_base64 b'!' ≡ none
unfolding strchr
bang_is_junk = refl

read_base64-never-returns_example : read_base64 0x100 1000 (b'A' ∷ junk ++ codes "bGln") 0xff ≡ none
unfolding exit_char
read_base64-never-returns_example =
    read_base64-never-returns 0x100 1000 0xff b'A' 0 junk (codes "bGln") letter_a (omega arith)
      (All-replicate IsJunk 63 b'!' bang_is_junk) refl (ground arith)

read_base64-encoding_example :
    read_base64 0x100 9 (codes "bGlnaHQ=") 0xff
    ≡ some (record { result = 1; written = light; stream = [] })
unfolding exit_char
read_base64-encoding_example =
    read_base64-encoding 0x100 9 0xff light (omega arith) refl (ground arith) (omega arith)
