-- ===== src/Uuencode.antt =====
-- src/uuencode.c: the conversion tables, and the two encoders and decoders in the modules below.
pub mod Encode
pub mod Decode
pub mod Stream
use gst_playd.Base.{ℕ, ◌+◌, ◌*◌, ◌/◌, ◌-◌, ◌^◌, Option, none, some, [], ◌∷◌}
use gst_playd.Base.{◌++◌, Bytes, codes, ltb, if◌then◌else◌}

-- 'A'..'Z', 'a'..'z', '0'..'9', '+', '/', the termination character '=' and a NUL.
abbrev pub uuenc_tbl_base64 : Bytes
uuenc_tbl_base64 =
    codes "ABCDEFGHIJKLMNOPQRSTUVWXYZabcdefghijklmnopqrstuvwxyz0123456789+/=" ++ 0 ∷ []

-- The 64 characters of uuencode and the termination character '`'.
abbrev pub uuenc_tbl_std : Bytes
uuenc_tbl_std = codes "`!\"#$%&'()*+,-./0123456789:;<=>?@ABCDEFGHIJKLMNOPQRSTUVWXYZ[\\]^_`"

abbrev pub int_max : ℕ
int_max = 2 ^ 31 - 1

-- The result for a size that is not negative; `none` is a signed overflow.
unfoldable pub uuencode_get_length : ℕ → Option ℕ
uuencode_get_length source_size =
    if ltb int_max (source_size + 2)
    then none
    else if ltb int_max (4 * ((source_size + 2) / 3))
    then none
    else some (4 * ((source_size + 2) / 3))
