-- ===== src/Uuencode/Stream/Stuck.antt =====
-- `read_base64` of src/uuencode.c on a line that fills `in_buf` and holds a single character of
-- the base64 table: the undecoded part is the whole line, and the loop never reads again.
use gst_playd.Base.{ℕ, zero, suc, ◌≡◌, refl, ap, ◌∙◌, arith, Bool, true, false, none, some}
use gst_playd.Base.{[], ◌∷◌, ◌++◌, Bytes, codes, length, All, str_equal, str_equal_iff, ◌&&◌}
use gst_playd.Base.{Bool-cases, inl, inr, ◌≢◌}
use gst_playd.Base.Int.{ℤ}
use gst_playd.Uuencode.{uuenc_tbl_base64}
use gst_playd.Uuencode.Decode.{strchr, fetch, ended, decode_base64, decode_loop, undecoded}
use gst_playd.Uuencode.Decode.Step.{fetch_skip, fetch_more}
use gst_playd.Uuencode.Stream.{buffer_size, read_loop, read_base64, exit_char}
use gst_playd.Uuencode.Stream.Step.{fill_full, fill-append, read_loop_more, IsStored}

abbrev pub IsJunk : ℕ → Type 0
IsJunk c = strchr uuenc_tbl_base64 c ≡ none

fetch_junk : (six_bit junk : Bytes) → All IsJunk junk → fetch six_bit junk ≡ ended six_bit
fetch_junk six_bit [] h = unfold fetch in refl
fetch_junk six_bit (c ∷ junk) h = fetch_skip six_bit c junk h.0 ∙ fetch_junk six_bit junk h.1

-- A group of one value is not decoded.
decode_one :
    (c i : ℕ) (junk : Bytes)
    → strchr uuenc_tbl_base64 c ≡ some i
    → i ≢ 64
    → All IsJunk junk
    → decode_base64 (c ∷ junk) ≡ some ([], c ∷ junk)
unfolding decode_base64 decode_loop undecoded
decode_one c i junk e ne h =
    let step : fetch [] (c ∷ junk) ≡ ended (i ∷ []) =
      fetch_more [] c junk i e ne (omega arith) ∙ fetch_junk (i ∷ []) junk h in
    rw (decode_loop, step)

not_end_line : (line : Bytes) → length line ≡ buffer_size → str_equal line (codes "====") ≡ false
not_end_line line h = elim (Bool-cases (str_equal line (codes "===="))) [
  | inl e ↦ let same = ap length ((str_equal_iff line (codes "====")).0 e) in absurd (omega arith)
  | inr e ↦ e
]

and-false : (a b : Bool) → b ≡ false → (a && b) ≡ false
and-false true b h = h
and-false false b h = refl

read_loop_stuck :
    (fuel : ℕ) (exit : ℤ) (uu_style_end : Bool) (line written stream : Bytes)
    → length line ≡ buffer_size
    → decode_base64 line ≡ some ([], line)
    → read_loop fuel exit uu_style_end line written stream ≡ none
read_loop_stuck zero exit uu line written stream full e = unfold read_loop in refl
read_loop_stuck (suc fuel) exit uu line written stream full e =
    read_loop_more fuel exit uu line written stream line stream
      (fill_full exit stream line (omega arith)) (and-false uu _ (not_end_line line full)) e
    ∙ read_loop_stuck fuel exit uu line (written ++ []) stream full e

-- A stream that begins with a character of the table and 63 characters outside it, none of them
-- a control character, a space or the exit character, is never read to its end: with no amount
-- of fuel does the loop return.
pub read_base64-never-returns :
    (uu_stop fuel flags c i : ℕ) (junk rest : Bytes)
    → strchr uuenc_tbl_base64 c ≡ some i
    → i ≢ 64
    → All IsJunk junk
    → length junk ≡ 63
    → All (IsStored (exit_char flags)) (c ∷ junk)
    → read_base64 uu_stop fuel (c ∷ junk ++ rest) flags ≡ none
unfolding read_base64
read_base64-never-returns uu_stop zero flags c i junk rest e ne outside size stored =
    unfold read_loop in refl
read_base64-never-returns uu_stop (suc fuel) flags c i junk rest e ne outside size stored =
    let line = c ∷ junk in
    let filling =
      fill-append (exit_char flags) line rest [] (omega arith) stored
      ∙ fill_full (exit_char flags) rest line (omega arith) in
    read_loop_more fuel (exit_char flags) _ [] [] (line ++ rest) line rest filling
      (and-false _ _ (not_end_line line (omega arith))) (decode_one c i junk e ne outside)
    ∙ read_loop_stuck fuel (exit_char flags) _ line [] rest (omega arith)
        (decode_one c i junk e ne outside)
