-- ===== src/Uuencode/Decode/Step.antt =====
-- `decode_base64` of src/uuencode.c: one character of the loop over `count`, by its case.
use gst_playd.Base.{ℕ, ◌+◌, ◌<◌, ◌≡◌, arith, true, false, none, some}
use gst_playd.Base.{List, ◌∷◌, ◌++◌, [], Bytes, length, ltb, ◌==◌}
use gst_playd.Base.{◌≢◌}
use gst_playd.Uuencode.{uuenc_tbl_base64}
use gst_playd.Uuencode.Decode.{strchr, group, fetch}

module _ (six_bit : List ℕ) (ch : ℕ) (src : Bytes) where
  pub fetch_skip : strchr uuenc_tbl_base64 ch ≡ none → fetch six_bit (ch ∷ src) ≡ fetch six_bit src
  unfolding fetch
  fetch_skip e = rw (fetch, e)

  pub fetch_pad :
      strchr uuenc_tbl_base64 ch ≡ some 64 → fetch six_bit (ch ∷ src) ≡ group six_bit src
  unfolding fetch
  fetch_pad e = rw (fetch, e)

  pub fetch_more :
      (i : ℕ)
      → strchr uuenc_tbl_base64 ch ≡ some i
      → i ≢ 64
      → length six_bit < 3
      → fetch six_bit (ch ∷ src) ≡ fetch (six_bit ++ i ∷ []) src
  unfolding fetch
  fetch_more i e value room =
      let value' : (i == 64) ≡ false = ground arith in
      let room' : ltb (length six_bit + 1) 4 ≡ true = ground arith in rw (fetch, e, value', room')

  pub fetch_full :
      (i : ℕ)
      → strchr uuenc_tbl_base64 ch ≡ some i
      → i ≢ 64
      → length six_bit ≡ 3
      → fetch six_bit (ch ∷ src) ≡ group (six_bit ++ i ∷ []) src
  unfolding fetch
  fetch_full i e value room =
      let value' : (i == 64) ≡ false = ground arith in
      let room' : ltb (length six_bit + 1) 4 ≡ false = ground arith in rw (fetch, e, value', room')
