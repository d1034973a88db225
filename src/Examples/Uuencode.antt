-- ===== src/Examples/Uuencode.antt =====
-- The encoders and decoders of src/uuencode.c on small inputs.
use gst_playd.Base.{◌*◌, ◌≤◌, ◌≡◌, refl, arith, some, none, [], ◌∷◌, ◌++◌, codes, Bytes}
use gst_playd.Base.{replicate, length, c_string, AreBytes}
use gst_playd.Uuencode.{uuenc_tbl_base64, uuenc_tbl_std}
use gst_playd.Uuencode.Encode.{uuencode, encode_group, put_char, next_bytes, pad_loop}
use gst_playd.Uuencode.Encode.Spec.{encoding}
use gst_playd.Uuencode.Encode.Write.{uuencode-encoding}
use gst_playd.Uuencode.Decode.{decode_base64, fetch, strchr, join_sextets, undecoded}
use gst_playd.Uuencode.Decode.Bounds.{decode_base64-room}
use gst_playd.Uuencode.Decode.Reference.{table_values, decoded, unfinished, decode_base64-decoded}
use gst_playd.Uuencode.Decode.RoundTrip.{decode_base64-uuencode}

abbrev light : Bytes
light = codes "light"

encode_light :
    uuencode (replicate 10 7) light 5 uuenc_tbl_base64 ≡ some (codes "bGlnaHQ=" ++ 0 ∷ 7 ∷ [])
unfolding uuencode encode_group put_char next_bytes pad_loop
encode_light = refl

encode_light_std :
    uuencode (replicate 9 0) light 5 uuenc_tbl_std ≡ some (codes ";&EG:'0`" ++ 0 ∷ [])
unfolding uuencode encode_group put_char next_bytes pad_loop
encode_light_std = refl

-- One byte short of the terminating NUL.
encode_overrun : uuencode (replicate 8 0) light 5 uuenc_tbl_base64 ≡ none
unfolding uuencode encode_group put_char next_bytes pad_loop
encode_overrun = refl

decode_one : decode_base64 (codes "eQ==") ≡ some (codes "y", [])
unfolding decode_base64 fetch strchr join_sextets undecoded
decode_one = refl

decode_partial : decode_base64 (codes "QU JDQ?") ≡ some (codes "ABC", codes "Q?")
unfolding decode_base64 fetch strchr join_sextets undecoded
decode_partial = refl

light-bytes : AreBytes light
light-bytes = omega arith

uuencode-encoding_example :
    uuencode (replicate 10 7) light 5 uuenc_tbl_base64
    ≡ some (encoding uuenc_tbl_base64 light ++ 0 ∷ 7 ∷ [])
uuencode-encoding_example =
    uuencode-encoding uuenc_tbl_base64 light (replicate 10 7) (omega arith) light-bytes
      (omega arith)

decode_base64-room_example :
    (out rest : Bytes) × (decode_base64 (codes "eQ==") ≡ some (out, rest))
    × (4 * length out ≤ 3 * length (codes "eQ=="))
    × (length rest ≤ length (codes "eQ=="))
decode_base64-room_example = decode_base64-room (codes "eQ==")

decode_base64-uuencode_example :
    (buf : Bytes) × (uuencode (replicate 10 7) light 5 uuenc_tbl_base64 ≡ some buf)
    × (decode_base64 (c_string buf) ≡ some (light, []))
decode_base64-uuencode_example =
    decode_base64-uuencode light (replicate 10 7) light-bytes (omega arith)

decode_base64-decoded_example :
    decode_base64 (codes "QU JDQ?")
    ≡ some (
      decoded [] (table_values (codes "QU JDQ?")),
      unfinished [] (codes "QU JDQ?") (codes "QU JDQ?"),
    )
decode_base64-decoded_example = decode_base64-decoded (codes "QU JDQ?") (omega arith)
