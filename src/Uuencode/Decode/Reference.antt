-- ===== src/Uuencode/Decode/Reference.antt =====
-- `decode_base64` of src/uuencode.c against a decoder without nested loops: the characters outside
-- the table are dropped first, and the values that remain are cut into groups.
use gst_playd.Base.{ℕ, zero, suc, ◌+◌, ◌<◌, ◌≡◌, ◌≢◌, refl, ap, ◌∙◌, sym, arith, true, false}
use gst_playd.Base.{All-append, IsText}
use gst_playd.Base.{none, some, List, [], ◌∷◌, ◌++◌, Bytes, length, ltb, ◌==◌, append_assoc}
use gst_playd.Base.{Option-cases, inl, inr, length-append, append-nil, if◌then◌else◌}
use native.Mathlib.Decide.{ℕ_discrete, dec_lt}
use gst_playd.Uuencode.{uuenc_tbl_base64}
use gst_playd.Uuencode.Decode.{
  strchr, Fetched, group, ended, fetch, join_sextets, undecoded, decode_loop, decode_base64,
}
use gst_playd.Uuencode.Decode.Bounds.{Costs, fetch-Costs}
use gst_playd.Uuencode.Decode.Sextets.{
  joined, left_over, AreSextets, join_sextets-joined, undecoded-left_over, strchr-value,
}
use gst_playd.Uuencode.Decode.Step.{fetch_skip, fetch_pad, fetch_more, fetch_full}

-- The values of the characters that are in the table.
abbrev pub table_values : Bytes → List ℕ
table_values [] = []
table_values (ch ∷ src) = elim (strchr uuenc_tbl_base64 ch) [
  | none ↦ table_values src
  | some i ↦ i ∷ table_values src
]

-- The bytes of the groups, of which the first has begun with `six_bit`: four values are a group, and
-- the termination character ends one. A group that does not end has no bytes.
abbrev pub decoded : List ℕ → List ℕ → Bytes
decoded six_bit [] = []
decoded six_bit (i ∷ values) =
    let whole = decoded [] values in
    let more = decoded (six_bit ++ i ∷ []) values in
    if i == 64
    then joined six_bit ++ whole
    else if ltb (length six_bit + 1) 4
    then more
    else joined (six_bit ++ i ∷ []) ++ whole

-- The text behind the last group that has ended, where another has begun, and else the NUL;
-- `six_bit` has begun in `tail`.
abbrev pub unfinished : List ℕ → Bytes → Bytes → Bytes
unfinished six_bit tail [] = left_over six_bit tail
unfinished six_bit tail (ch ∷ src) =
    let whole = unfinished [] src src in
    elim (strchr uuenc_tbl_base64 ch) [
      | none ↦ unfinished six_bit tail src
      | some i ↦
          if i == 64
          then whole
          else if ltb (length six_bit + 1) 4
          then unfinished (six_bit ++ i ∷ []) tail src
          else whole
    ]

-- What a fetch has found agrees with the reference.
Agrees : List ℕ → Bytes → Bytes → Fetched → Type 0
Agrees six_bit tail src (group s rest) =
    (decoded six_bit (table_values src) ≡ join_sextets s ++ decoded [] (table_values rest))
    × (unfinished six_bit tail src ≡ unfinished [] rest rest)
    × IsText rest
Agrees six_bit tail src (ended s) =
    (decoded six_bit (table_values src) ≡ []) × (unfinished six_bit tail src ≡ undecoded s tail)

Agrees-along :
    (six six' : List ℕ) (tail src src' : Bytes) (f : Fetched)
    → decoded six (table_values src) ≡ decoded six' (table_values src')
    → unfinished six tail src ≡ unfinished six' tail src'
    → Agrees six' tail src' f
    → Agrees six tail src f
unfolding Agrees
Agrees-along six six' tail src src' (group s rest) d u (e, e', text) = (d ∙ e, u ∙ e', text)
Agrees-along six six' tail src src' (ended s) d u (e, e') = (d ∙ e, u ∙ e')

fetch-Agrees_value :
    (six_bit : List ℕ) (ch : ℕ) (tail src : Bytes) (i : ℕ)
    → length six_bit < 4
    → AreSextets six_bit
    → ch ≢ 0
    → IsText src
    → strchr uuenc_tbl_base64 ch ≡ some i
    → ((six : List ℕ) → length six < 4 → AreSextets six → Agrees six tail src (fetch six src))
    → Agrees six_bit tail (ch ∷ src) (fetch six_bit (ch ∷ src))
unfolding Agrees
fetch-Agrees_value six_bit ch tail src i h small nonzero text e ih = elim (ℕ_discrete i 64) [
  | yes p ↦
      let pad : (i == 64) ≡ true = ground arith in
      rw (fetch_pad six_bit ch src (e ∙ ap some p)) (
        rw (table_values, e, decoded, pad, join_sextets-joined six_bit small) refl,
        rw (unfinished, e, pad) refl,
        text,
      )
  | no p ↦
      let value : (i == 64) ≡ false = ground arith in
      elim (dec_lt (length six_bit) 3) [
        | yes q ↦
            let room : ltb (length six_bit + 1) 4 ≡ true = ground arith in
            rw (fetch_more six_bit ch src i e p q) (
              Agrees-along six_bit (six_bit ++ i ∷ []) tail (ch ∷ src) src _
                (rw (table_values, e, decoded, value, room) refl)
                (rw (unfinished, e, value, room) refl)
                (ih (six_bit ++ i ∷ []) (omega (arith, longer)) (still p)))
        | no q ↦
            let full : ltb (length six_bit + 1) 4 ≡ false = ground arith in
            rw (fetch_full six_bit ch src i e p (omega arith)) (
              rw
                  (
                    table_values,
                    e,
                    decoded,
                    value,
                    full,
                    join_sextets-joined (six_bit ++ i ∷ []) (still p),
                  )
                  refl,
              rw (unfinished, e, value, full) refl,
              text,
            )
      ]
]
  where
    longer : length (six_bit ++ i ∷ []) ≡ suc (length six_bit)
    longer = omega (arith, length-append six_bit (i ∷ []))

    still : i ≢ 64 → AreSextets (six_bit ++ i ∷ [])
    still ne = All-append (λ j. j < 64) six_bit (i ∷ []) small (strchr-value ch i nonzero e ne, tt)

fetch-Agrees :
    (six_bit : List ℕ) (tail src : Bytes)
    → length six_bit < 4
    → AreSextets six_bit
    → IsText src
    → Agrees six_bit tail src (fetch six_bit src)
unfolding Agrees
fetch-Agrees six_bit tail [] h small text =
    unfold fetch in (refl, sym (undecoded-left_over six_bit tail))
fetch-Agrees six_bit tail (ch ∷ src) h small (nonzero, text) =
    elim (Option-cases (strchr uuenc_tbl_base64 ch)) [
      | inl e ↦ rw (fetch_skip six_bit ch src e) (
          Agrees-along six_bit six_bit tail (ch ∷ src) src _ (rw (table_values, e) refl)
            (rw (unfinished, e) refl) (fetch-Agrees six_bit tail src h small text))
      | inr (i, e) ↦
          fetch-Agrees_value six_bit ch tail src i h small nonzero text e
            (λ six below are. fetch-Agrees six tail src below are text)
    ]

decode_loop-decoded :
    (fuel : ℕ) (dst src : Bytes)
    → length src < fuel
    → IsText src
    → decode_loop fuel dst src ≡ some (dst ++ decoded [] (table_values src), unfinished [] src src)
unfolding decode_loop Agrees
decode_loop-decoded zero dst src h is_text = absurd (omega arith)
decode_loop-decoded (suc fuel) dst src h is_text =
    go (fetch [] src) refl (fetch-Costs [] src (omega arith))
      (fetch-Agrees [] src src (omega arith) tt is_text) (decode_loop-decoded fuel)
  where
    go :
        (f : Fetched)
        → fetch [] src ≡ f
        → Costs 0 (length src) f
        → Agrees [] src src f
        → ((d s : Bytes)
            → length s < fuel
            → IsText s
            → decode_loop fuel d s ≡ some (d ++ decoded [] (table_values s), unfinished [] s s))
        → decode_loop (suc fuel) dst src
          ≡ some (dst ++ decoded [] (table_values src), unfinished [] src src)
    go (ended six_bit) e costs (bytes, rest) ih = rw (decode_loop, e, bytes, rest, append-nil) refl
    go (group six_bit r) e costs (bytes, rest, text) ih =
        rw (decode_loop, e, bytes, rest)
          (ih (dst ++ join_sextets six_bit) r (omega arith) text
            ∙ rw (append_assoc dst (join_sextets six_bit) (decoded [] (table_values r))))

-- On any C string, `decode_base64` stores the bytes of the groups into which the values of the
-- characters in the table are cut, the bits of the values of a group side by side, and returns the
-- text behind the last group that has ended, where another has begun, and else the NUL.
pub decode_base64-decoded :
    (src : Bytes)
    → IsText src
    → decode_base64 src ≡ some (decoded [] (table_values src), unfinished [] src src)
unfolding decode_base64
decode_base64-decoded src text = decode_loop-decoded (suc (length src)) [] src (omega arith) text
