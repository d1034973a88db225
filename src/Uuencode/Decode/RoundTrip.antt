-- ===== src/Uuencode/Decode/RoundTrip.antt =====
-- `decode_base64` of src/uuencode.c gives back what `uuencode` encoded with the base64 table.
use gst_playd.Base.{ℕ, zero, suc, ◌+◌, ◌*◌, ◌/◌, ◌%◌, ◌≤◌, ◌<◌, ◌≡◌, refl, ap, ap₂, ◌∙◌, arith}
use gst_playd.Base.{Bool, true, false, Option, none, some, List, [], ◌∷◌, ◌++◌, append_assoc}
use gst_playd.Base.{Bytes, AreBytes, IsByte, length, ◌==◌, append-nil, not, ◌≢◌, IsText, c_string}
use gst_playd.Base.{c_string-append, drop, All, map}
use gst_playd.Base.Bits.{covers, covers_at, bit_or_4, bit_or_16, bit_or_64}
use gst_playd.Uuencode.{uuenc_tbl_base64}
use gst_playd.Uuencode.Encode.Spec.{symbol, sextets, encoding}
use gst_playd.Uuencode.Encode.{uuencode}
use gst_playd.Uuencode.Encode.Write.{uuencode-encoding}
use gst_playd.Uuencode.Decode.{
  strchr, group, fetch, join_sextets, undecoded, decode_loop, decode_base64,
}
use gst_playd.Uuencode.Decode.Step.{fetch_pad, fetch_more, fetch_full}

abbrev base64 : ℕ → ℕ
base64 = symbol uuenc_tbl_base64

is_some_at : Option ℕ → ℕ → Bool
is_some_at none i = false
is_some_at (some j) i = j == i

is_some_at_lem : (o : Option ℕ) (i : ℕ) → is_some_at o i ≡ true → o ≡ some i
unfolding is_some_at
is_some_at_lem none i h = cc
is_some_at_lem (some j) i h = ground arith

strchr_table : covers (λ i. is_some_at (strchr uuenc_tbl_base64 (base64 i)) i) 65 ≡ true
unfolding covers is_some_at strchr
strchr_table = refl

-- Each character of the table is found at its own index.
pub strchr-symbol : (i : ℕ) → i < 65 → strchr uuenc_tbl_base64 (base64 i) ≡ some i
strchr-symbol i h = is_some_at_lem _ i (covers_at _ i 65 strchr_table h)

fetch-four :
    (a b c d : ℕ) (src : Bytes)
    → a < 64
    → b < 64
    → c < 64
    → d < 64
    → fetch [] (base64 a ∷ base64 b ∷ base64 c ∷ base64 d ∷ src) ≡ group (a ∷ b ∷ c ∷ d ∷ []) src
fetch-four a b c d src ha hb hc hd =
    fetch_more [] _ _ a (strchr-symbol a (omega arith)) (omega arith) (omega arith)
    ∙ fetch_more (a ∷ []) _ _ b (strchr-symbol b (omega arith)) (omega arith) (omega arith)
    ∙ fetch_more (a ∷ b ∷ []) _ _ c (strchr-symbol c (omega arith)) (omega arith) (omega arith)
    ∙ fetch_full (a ∷ b ∷ c ∷ []) _ _ d (strchr-symbol d (omega arith)) (omega arith) refl

-- A group of three or of two values, before the termination character.
fetch-three :
    (a b c : ℕ) (src : Bytes)
    → a < 64
    → b < 64
    → c < 64
    → fetch [] (base64 a ∷ base64 b ∷ base64 c ∷ base64 64 ∷ src) ≡ group (a ∷ b ∷ c ∷ []) src
fetch-three a b c src ha hb hc =
    fetch_more [] _ _ a (strchr-symbol a (omega arith)) (omega arith) (omega arith)
    ∙ fetch_more (a ∷ []) _ _ b (strchr-symbol b (omega arith)) (omega arith) (omega arith)
    ∙ fetch_more (a ∷ b ∷ []) _ _ c (strchr-symbol c (omega arith)) (omega arith) (omega arith)
    ∙ fetch_pad (a ∷ b ∷ c ∷ []) _ _ (strchr-symbol 64 (omega arith))

fetch-two :
    (a b : ℕ) (src : Bytes)
    → a < 64
    → b < 64
    → fetch [] (base64 a ∷ base64 b ∷ base64 64 ∷ src) ≡ group (a ∷ b ∷ []) src
fetch-two a b src ha hb =
    fetch_more [] _ _ a (strchr-symbol a (omega arith)) (omega arith) (omega arith)
    ∙ fetch_more (a ∷ []) _ _ b (strchr-symbol b (omega arith)) (omega arith) (omega arith)
    ∙ fetch_pad (a ∷ b ∷ []) _ _ (strchr-symbol 64 (omega arith))

-- The bytes of a group come back.
join-one : (a : ℕ) → IsByte a → join_sextets (a / 4 ∷ a % 4 * 16 ∷ []) ≡ a ∷ []
unfolding join_sextets
join-one a ha =
    rw (bit_or_4 (a / 4) (a % 4 * 16) (omega arith) (omega arith)) (ap (λ x. x ∷ []) (omega arith))

join-two :
    (a b : ℕ)
    → IsByte a
    → IsByte b
    → join_sextets (a / 4 ∷ (a % 4 * 16 + b / 16) ∷ b % 16 * 4 ∷ []) ≡ a ∷ b ∷ []
unfolding join_sextets
join-two a b ha hb =
    rw
      (
        bit_or_4 (a / 4) (a % 4 * 16 + b / 16) (omega arith) (omega arith),
        bit_or_16 (a % 4 * 16 + b / 16) (b % 16 * 4) (omega arith) (omega arith),
      )
      (ap₂ (λ x y. x ∷ y ∷ []) (omega arith) (omega arith))

join-three :
    (a b c : ℕ)
    → IsByte a
    → IsByte b
    → IsByte c
    → join_sextets (a / 4 ∷ (a % 4 * 16 + b / 16) ∷ (b % 16 * 4 + c / 64) ∷ c % 64 ∷ [])
      ≡ a ∷ b ∷ c ∷ []
unfolding join_sextets
join-three a b c ha hb hc =
    rw
      (
        bit_or_4 (a / 4) (a % 4 * 16 + b / 16) (omega arith) (omega arith),
        bit_or_16 (a % 4 * 16 + b / 16) (b % 16 * 4 + c / 64) (omega arith) (omega arith),
        bit_or_64 (b % 16 * 4 + c / 64) (c % 64) (omega arith) (omega arith),
      )
      (ap₂ ◌∷◌ (omega arith) (ap₂ (λ x y. x ∷ y ∷ []) (omega arith) (omega arith)))

decode_loop-group :
    (fuel : ℕ) (dst src : Bytes) {s : List ℕ} {rest : Bytes}
    → fetch [] src ≡ group s rest
    → decode_loop (suc fuel) dst src ≡ decode_loop fuel (dst ++ join_sextets s) rest
unfolding decode_loop
decode_loop-group fuel dst src e = rw (decode_loop, e)

decode_loop-nil : (fuel : ℕ) (dst : Bytes) → decode_loop (suc fuel) dst [] ≡ some (dst, [])
unfolding decode_loop fetch undecoded
decode_loop-nil fuel dst = refl

-- A second termination character is a group of no values.
decode_loop_pad :
    (fuel : ℕ) (dst : Bytes) → decode_loop (suc (suc fuel)) dst (base64 64 ∷ []) ≡ some (dst, [])
unfolding join_sextets
decode_loop_pad fuel dst =
    decode_loop-group (suc fuel) dst _ (fetch_pad [] _ [] (strchr-symbol 64 (omega arith)))
    ∙ rw append-nil (decode_loop-nil fuel dst)

decode_loop-encoding :
    (fuel : ℕ) (dst s : Bytes)
    → suc (length (encoding uuenc_tbl_base64 s)) ≤ fuel
    → AreBytes s
    → decode_loop fuel dst (encoding uuenc_tbl_base64 s) ≡ some (dst ++ s, [])
decode_loop-encoding zero dst s h bytes = absurd (omega arith)
decode_loop-encoding (suc fuel) dst [] h bytes = rw append-nil (decode_loop-nil fuel dst)
decode_loop-encoding (suc (suc (suc fuel))) dst (a ∷ []) h bytes =
    decode_loop-group (suc (suc fuel)) dst _
      (fetch-two (a / 4) (a % 4 * 16) (base64 64 ∷ []) (omega arith) (omega arith))
    ∙ rw (join-one a bytes.0) (decode_loop_pad fuel (dst ++ a ∷ []))
decode_loop-encoding (suc fuel) dst (a ∷ []) h bytes = absurd (omega arith)
decode_loop-encoding (suc (suc fuel)) dst (a ∷ b ∷ []) h bytes =
    decode_loop-group (suc fuel) dst _ (
      fetch-three (a / 4) (a % 4 * 16 + b / 16) (b % 16 * 4) [] (omega arith) (omega arith)
        (omega arith))
    ∙ rw (join-two a b bytes.0 bytes.1.0) (decode_loop-nil fuel (dst ++ a ∷ b ∷ []))
decode_loop-encoding (suc fuel) dst (a ∷ b ∷ []) h bytes = absurd (omega arith)
decode_loop-encoding (suc fuel) dst (a ∷ b ∷ c ∷ s) h bytes =
    decode_loop-group fuel dst _ (
      fetch-four (a / 4) (a % 4 * 16 + b / 16) (b % 16 * 4 + c / 64) (c % 64) _ (omega arith)
        (omega arith) (omega arith) (omega arith))
    ∙ rw (join-three a b c bytes.0 bytes.1.0 bytes.1.1.0) (
        decode_loop-encoding fuel (dst ++ a ∷ b ∷ c ∷ []) s (omega arith) bytes.1.1.1
        ∙ rw (append_assoc dst (a ∷ b ∷ c ∷ []) s))

pub decode_base64-encoding :
    (s : Bytes) → AreBytes s → decode_base64 (encoding uuenc_tbl_base64 s) ≡ some (s, [])
unfolding decode_base64
decode_base64-encoding s bytes =
    decode_loop-encoding (suc (length (encoding uuenc_tbl_base64 s))) [] s (omega arith) bytes

symbol_table : covers (λ i. not (base64 i == 0)) 65 ≡ true
unfolding covers
symbol_table = refl

symbol-ne-zero : (i : ℕ) → i < 65 → base64 i ≢ 0
symbol-ne-zero i h = ground (arith, covers_at (λ k. not (base64 k == 0)) i 65 symbol_table h)

pub sextets-lt : (s : Bytes) → AreBytes s → All (λ i. i < 65) (sextets s)
sextets-lt [] bytes = tt
sextets-lt (a ∷ []) bytes = omega arith
sextets-lt (a ∷ b ∷ []) bytes = omega arith
sextets-lt (a ∷ b ∷ c ∷ s) bytes =
    (omega arith, (omega arith, (omega arith, (omega arith, sextets-lt s bytes.1.1.1))))

map-symbol-IsText : (is : List ℕ) → All (λ i. i < 65) is → IsText (map base64 is)
map-symbol-IsText [] h = tt
map-symbol-IsText (i ∷ is) h = (symbol-ne-zero i h.0, map-symbol-IsText is h.1)

pub encoding-IsText : (s : Bytes) → AreBytes s → IsText (encoding uuenc_tbl_base64 s)
encoding-IsText s bytes = map-symbol-IsText (sextets s) (sextets-lt s bytes)

-- The text that `uuencode` leaves in a large enough buffer, with the base64 table, decodes to
-- the source bytes, and the decoder consumes all of it.
pub decode_base64-uuencode :
    (src room : Bytes)
    → AreBytes src
    → suc (4 * ((length src + 2) / 3)) ≤ length room
    → (buf : Bytes) × (uuencode room src (length src) uuenc_tbl_base64 ≡ some buf)
      × (decode_base64 (c_string buf) ≡ some (src, []))
decode_base64-uuencode src room bytes fits =
    let text = encoding uuenc_tbl_base64 src in
    (
      text ++ 0 ∷ drop (suc (4 * ((length src + 2) / 3))) room,
      uuencode-encoding uuenc_tbl_base64 src room (omega arith) bytes fits,
      rw (c_string-append text _ (encoding-IsText src bytes)) (decode_base64-encoding src bytes),
    )
