-- ===== src/GstUtil/Values.antt =====
-- The texts of tag values in src/gst-util.c.
use gst_playd.Base.{ℕ, suc, ◌+◌, ◌*◌, ◌/◌, ◌≤◌, ◌≡◌, ◌≢◌, ap, arith, some}
use gst_playd.Base.{
  [], ◌∷◌, ◌++◌, Bytes, AreBytes, codes, length, length-append, length-replicate, replicate, ltb,
}
use gst_playd.Base.{c_string-append, ◌>>=◌, false, drop}
use gst_playd.Base.Decimal.{format_unsigned}
use gst_playd.Uuencode.{uuenc_tbl_base64, uuencode_get_length, int_max}
use gst_playd.Uuencode.Encode.Spec.{encoding}
use gst_playd.Uuencode.Encode.Write.{uuencode-encoding}
use gst_playd.Uuencode.Decode.{decode_base64}
use gst_playd.Uuencode.Decode.RoundTrip.{decode_base64-encoding, encoding-IsText}
use gst_playd.GstUtil.{uint64, buffer, buffer_text, value_text}

uuencode_get_length_lem :
    (n : ℕ) → n ≤ 1610612733 → uuencode_get_length n ≡ some (4 * ((n + 2) / 3))
unfolding uuencode_get_length
uuencode_get_length_lem n h =
    let low : ltb int_max (n + 2) ≡ false = ground arith in
    let low' : ltb int_max (4 * ((n + 2) / 3)) ≡ false = ground arith in rw (low, low')

buffer_text-encoding :
    (buf : Bytes)
    → AreBytes buf
    → length buf ≤ 1610612733
    → buffer_text buf
      ≡ some (
          encoding uuenc_tbl_base64 buf
          ++ 0
            ∷ drop
                (suc (4 * ((length buf + 2) / 3)))
                (replicate (4 * ((length buf + 2) / 3) + 1) 0))
unfolding buffer_text
buffer_text-encoding buf bytes fits =
    let size = 4 * ((length buf + 2) / 3) in
    rw (uuencode_get_length_lem (length buf) fits, ◌>>=◌)
      (uuencode-encoding uuenc_tbl_base64 buf (replicate (size + 1) 0) (omega arith) bytes
        (omega (arith, length-replicate {A = ℕ} (size + 1) 0)))

module _ {Double Date : Type 0} (format_double : Double → Bytes) (format_date : Date → Bytes) where
  -- A buffer of at most 1610612733 bytes, the largest whose text has a length that fits an `int`,
  -- is encoded within the memory that is allocated for it, and its text decodes to the buffer.
  pub value_text-buffer :
      (buf : Bytes)
      → AreBytes buf
      → length buf ≤ 1610612733
      → (text : Bytes) × (value_text {Date = Date} format_double format_date (buffer buf)
          ≡ some text)
        × (decode_base64 text ≡ some (buf, []))
  unfolding value_text
  value_text-buffer buf bytes fits = (
    encoding uuenc_tbl_base64 buf,
    rw (buffer_text-encoding buf bytes fits, ◌>>=◌)
        (ap some (c_string-append (encoding uuenc_tbl_base64 buf) _ (encoding-IsText buf bytes))),
    decode_base64-encoding buf bytes,
  )

  -- A 64-bit value is never printed as the number it is.
  pub value_text-uint64-ne :
      (n : ℕ)
      → value_text {Date = Date} format_double format_date (uint64 n) ≢ some (format_unsigned n)
  unfolding value_text
  value_text-uint64-ne n e =
      let same : format_unsigned n ++ codes "64" ≡ format_unsigned n = cc in
      omega (arith, ap length same, length-append (format_unsigned n) (codes "64"))
