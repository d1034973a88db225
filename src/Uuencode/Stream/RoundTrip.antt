-- ===== src/Uuencode/Stream/RoundTrip.antt =====
-- `read_base64` of src/uuencode.c on a base64 text without line ends: the text is decoded line
-- buffer by line buffer.
use gst_playd.Base.{ℕ, zero, suc, ◌*◌, ◌≤◌, ◌<◌, ◌≡◌, refl, ap, ◌∙◌, arith, true, false}
use gst_playd.Base.{
  Option, some, List, [], ◌∷◌, ◌++◌, Bytes, AreBytes, length, All, append_assoc, append-nil,
}
use gst_playd.Base.{
  All-append_left, All-append_right, take, drop, take-append-drop, length-take, length-drop,
  bit_and, ◌==◌, map,
}
use gst_playd.Base.{Bool-cases, inl, inr, sym, subst, ◌⊎◌, IsByte, ltb, ltb→lt}
use gst_playd.Base.Bits.{covers, covers_at}
use gst_playd.Base.Int.{ℤ}
use native.Mathlib.Decide.{dec_lt}
use gst_playd.Uuencode.{uuenc_tbl_base64}
use gst_playd.Uuencode.Encode.Spec.{encoding, sextets, length-encoding, symbol}
use gst_playd.Uuencode.Decode.RoundTrip.{decode_base64-encoding, sextets-lt}
use gst_playd.Uuencode.Stream.{
  buffer_size, Read, fill, filled, at_exit, is_char, is_eof, read_loop, read_base64, exit_char,
}
use gst_playd.Uuencode.Stream.Step.{
  fill_full, fill_eof, fill_eof_exit, fill-append, IsStored, read_loop_more, read_loop_last,
  read_loop_finished, fill-nil,
}

abbrev text : Bytes → Bytes
text = encoding uuenc_tbl_base64

-- Whole groups of three are encoded by themselves.
encoding-append : (k : ℕ) (xs ys : Bytes) → length xs ≡ 3 * k → text (xs ++ ys) ≡ text xs ++ text ys
encoding-append zero [] ys h = refl
encoding-append (suc k) (a ∷ b ∷ c ∷ xs) ys h =
    let ih = encoding-append k xs ys (omega arith) in rw ih
encoding-append (suc k) [] ys h = absurd (omega arith)
encoding-append (suc k) (a ∷ []) ys h = absurd (omega arith)
encoding-append (suc k) (a ∷ b ∷ []) ys h = absurd (omega arith)
encoding-append zero (a ∷ xs) ys h = absurd (omega arith)

graphic_table : covers (λ i. ltb b' ' (symbol uuenc_tbl_base64 i)) 65 ≡ true
unfolding covers
graphic_table = refl

abbrev AvoidsExit : ℤ → Bytes → Type 0
AvoidsExit exit s = All (λ c. is_char exit c ≡ false) s

-- The characters of the table are stored, if none is the exit character.
map-symbol-IsStored :
    (exit : ℤ) (is : List ℕ)
    → All (λ i. i < 65) is
    → AvoidsExit exit (map (symbol uuenc_tbl_base64) is)
    → All (IsStored exit) (map (symbol uuenc_tbl_base64) is)
map-symbol-IsStored exit [] h avoids = tt
map-symbol-IsStored exit (i ∷ is) h avoids = (
  (
    ltb→lt _ _ (covers_at (λ i. ltb b' ' (symbol uuenc_tbl_base64 i)) i 65 graphic_table h.0),
    avoids.0,
  ),
  map-symbol-IsStored exit is h.1 avoids.1,
)

encoding-IsStored :
    (exit : ℤ) (s : Bytes) → AreBytes s → AvoidsExit exit (text s) → All (IsStored exit) (text s)
encoding-IsStored exit s bytes avoids =
    map-symbol-IsStored exit (sextets s) (sextets-lt s bytes) avoids

nil_of_length : (xs : Bytes) → length xs ≡ 0 → xs ≡ []
nil_of_length [] h = refl
nil_of_length (x ∷ xs) h = absurd (omega arith)

split_48 : (s : Bytes) → (length (take 48 s) ≡ 48) ⊎ ((length (take 48 s) ≤ 48) × (drop 48 s ≡ []))
split_48 s = elim (dec_lt (length s) 48) [
  | yes p ↦
      inr (
        omega (arith, length-take 48 s),
        nil_of_length (drop 48 s) (omega (arith, length-drop 48 s)),
      )
  | no p ↦ inl (omega (arith, length-take 48 s))
]

text_split :
    (xs ys : Bytes)
    → (length xs ≡ 48) ⊎ ((length xs ≤ 48) × (ys ≡ []))
    → text (xs ++ ys) ≡ text xs ++ text ys
text_split xs ys (inl h) = encoding-append 16 xs ys h
text_split xs ys (inr (h, e)) = rw e (ap text (append-nil xs) ∙ sym (append-nil (text xs)))

abbrev done : Bytes → Option Read
done out = some (record { result = 1; written = out; stream = [] })

module _ (exit : ℤ) where
  -- An empty line buffer at the end of the stream.
  read_loop-nil :
      (fuel : ℕ) (written : Bytes) → read_loop (suc fuel) exit false [] written [] ≡ done written
  unfolding at_exit
  read_loop-nil fuel written = elim (Bool-cases (is_eof exit)) [
    | inl e ↦
        read_loop_finished fuel exit false [] written [] [] []
          (fill_eof_exit exit [] (omega arith) e ∙ refl)
    | inr e ↦
        read_loop_last fuel exit false [] written [] [] [] (fill_eof exit [] (omega arith) e) refl
          (decode_base64-encoding [] tt)
        ∙ rw append-nil
  ]

  fill-text :
      (s rest : Bytes)
      → AreBytes s
      → AvoidsExit exit (text s)
      → length (text s) ≤ buffer_size
      → fill exit (text s ++ rest) [] ≡ fill exit rest (text s)
  fill-text s rest bytes avoids small =
      fill-append exit (text s) rest [] (omega arith) (encoding-IsStored exit s bytes avoids)

  -- The last line buffer, which the end of the stream ends.
  read_loop-last :
      (fuel : ℕ) (written s : Bytes)
      → AreBytes s
      → AvoidsExit exit (text s)
      → 0 < length s
      → length s < 46
      → read_loop (suc fuel) exit false [] written (text s) ≡ done (written ++ s)
  read_loop-last fuel written s bytes avoids nonempty small =
      let size = length-encoding uuenc_tbl_base64 s in
      let filling : fill exit (text s) [] ≡ filled (text s) true [] =
        ap (λ t. fill exit t []) (sym (append-nil (text s)))
        ∙ fill-text s [] bytes avoids (omega arith)
        ∙ fill-nil exit (text s) (omega arith) (omega arith) in
      read_loop_last fuel exit false [] written (text s) (text s) [] filling refl
        (decode_base64-encoding s bytes)

  -- A line buffer full of whole groups, and what follows.
  read_loop_full :
      (fuel : ℕ) (written xs ys : Bytes)
      → AreBytes xs
      → AvoidsExit exit (text xs)
      → length (text xs) ≡ buffer_size
      → read_loop (suc fuel) exit false [] written (text xs ++ text ys)
        ≡ read_loop fuel exit false [] (written ++ xs) (text ys)
  read_loop_full fuel written xs ys bytes avoids full =
      read_loop_more fuel exit false [] written (text xs ++ text ys) (text xs) (text ys)
        (fill-text xs (text ys) bytes avoids (omega arith)
          ∙ fill_full exit (text ys) (text xs) (omega arith))
        refl (decode_base64-encoding xs bytes)

  abbrev ReadsText : ℕ → Bytes → Bytes → Type 0
  ReadsText fuel written s =
      AreBytes s
      → AvoidsExit exit (text s)
      → read_loop fuel exit false [] written (text s) ≡ done (written ++ s)

  read_loop-append :
      (fuel : ℕ) (written xs ys : Bytes)
      → 46 ≤ length xs
      → (length xs ≡ 48) ⊎ ((length xs ≤ 48) × (ys ≡ []))
      → ((w : Bytes) → ReadsText fuel w ys)
      → ReadsText (suc fuel) written (xs ++ ys)
  read_loop-append fuel written xs ys low split ih bytes avoids =
      let apart = text_split xs ys split in
      let avoids' = subst (AvoidsExit exit) apart avoids in
      let full : length (text xs) ≡ buffer_size =
        length-encoding uuenc_tbl_base64 xs ∙ omega arith in
      rw apart (
        read_loop_full fuel written xs ys (All-append_left IsByte xs ys bytes)
          (All-append_left _ (text xs) (text ys) avoids') full
        ∙ ih (written ++ xs) (All-append_right IsByte xs ys bytes)
            (All-append_right _ (text xs) (text ys) avoids')
        ∙ ap done (append_assoc written xs ys))

  read_loop-text : (fuel : ℕ) (written s : Bytes) → length s < fuel → ReadsText fuel written s
  read_loop-text zero written s enough = absurd (omega arith)
  read_loop-text (suc fuel) written [] enough =
      λ bytes avoids. read_loop-nil fuel written ∙ ap done (sym (append-nil written))
  read_loop-text (suc fuel) written (c ∷ s) enough = elim (dec_lt (length (c ∷ s)) 46) [
    | yes p ↦ λ bytes avoids. read_loop-last fuel written (c ∷ s) bytes avoids (omega arith) p
    | no p ↦ subst (ReadsText (suc fuel) written) (take-append-drop 48 (c ∷ s)) (
        read_loop-append fuel written (take 48 (c ∷ s)) (drop 48 (c ∷ s))
          (omega (arith, length-take 48 (c ∷ s))) (split_48 (c ∷ s))
          λ w. read_loop-text fuel w (drop 48 (c ∷ s)) (omega (arith, length-drop 48 (c ∷ s))))
  ]

-- With fuel above the length, an exit character that is EOF or does not occur in the text, and no
-- uuencode-style end, `read_base64` of the encoding of a source writes the source, reads the
-- stream to its end and returns 1.
pub read_base64-encoding :
    (uu_stop fuel flags : ℕ) (src : Bytes)
    → AreBytes src
    → (bit_and flags uu_stop == 0) ≡ true
    → AvoidsExit (exit_char flags) (encoding uuenc_tbl_base64 src)
    → length src < fuel
    → read_base64 uu_stop fuel (encoding uuenc_tbl_base64 src) flags
      ≡ some (record { result = 1; written = src; stream = [] })
unfolding read_base64
read_base64-encoding uu_stop fuel flags src bytes no_stop avoids enough =
    rw no_stop (read_loop-text (exit_char flags) fuel [] src enough bytes avoids)
