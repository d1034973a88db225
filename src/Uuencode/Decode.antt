-- ===== src/Uuencode/Decode.antt =====
-- `decode_base64` of src/uuencode.c. The source is the text before its NUL; the bytes stored
-- through `*pp_dst` are the output, oldest first.
pub mod Step
pub mod Bounds
pub mod RoundTrip
pub mod Sextets
pub mod Reference
use gst_playd.Base.{ℕ, zero, suc, ◌+◌, ◌*◌, ◌/◌, ◌%◌, ◌^◌, bit_or, Option, none, some}
use gst_playd.Base.{List, [], ◌∷◌, ◌++◌, Bytes, true, false, length, ltb, ◌==◌, if◌then◌else◌}
use gst_playd.Uuencode.{uuenc_tbl_base64}

-- `strchr(text, c) - text` for a text in memory, that ends at its first NUL.
unfoldable pub strchr : Bytes → ℕ → Option ℕ
strchr [] c = none
strchr (d ∷ text) c =
    let rest = strchr text c in
    if d == c
    then some 0
    else if d == 0
    then none
    else elim rest [ none ↦ none | some i ↦ some (suc i) ]

-- What the loop over `count` fetches: a group, or the NUL after `count` values.
pub data Fetched : Type 0 where
  group : List ℕ → Bytes → Fetched
  ended : List ℕ → Fetched

-- `six_bit` holds the values so far. A character outside the table is skipped.
unfoldable pub fetch : List ℕ → Bytes → Fetched
fetch six_bit [] = ended six_bit
fetch six_bit (ch ∷ src) = elim (strchr uuenc_tbl_base64 ch) [
  | none ↦ fetch six_bit src
  | some i ↦ elim (i == 64) [
    | true ↦ group six_bit src
    | false ↦ elim (ltb (length six_bit + 1) 4) [
      | true ↦ fetch (six_bit ++ i ∷ []) src
      | false ↦ group (six_bit ++ i ∷ []) src
    ]
  ]
]

-- The bytes of a group; each store truncates to a char.
unfoldable pub join_sextets : List ℕ → Bytes
join_sextets [] = []
join_sextets (a ∷ []) = []
join_sextets (a ∷ b ∷ []) = bit_or (a * 2 ^ 2) (b / 2 ^ 4) % 2 ^ 8 ∷ []
join_sextets (a ∷ b ∷ c ∷ []) =
    bit_or (a * 2 ^ 2) (b / 2 ^ 4) % 2 ^ 8 ∷ bit_or (b * 2 ^ 4) (c / 2 ^ 2) % 2 ^ 8 ∷ []
join_sextets (a ∷ b ∷ c ∷ d ∷ _) =
    bit_or (a * 2 ^ 2) (b / 2 ^ 4) % 2 ^ 8
    ∷ bit_or (b * 2 ^ 4) (c / 2 ^ 2) % 2 ^ 8
    ∷ bit_or (c * 2 ^ 6) d % 2 ^ 8
    ∷ []

-- `src_tail` at the NUL: the NUL itself, unless a group has begun, which is then not decoded.
unfoldable pub undecoded : List ℕ → Bytes → Bytes
undecoded [] src = []
undecoded (i ∷ six_bit) src = src

-- `while (1)` on fuel: the output and the undecoded part of the source.
unfoldable pub decode_loop : ℕ → Bytes → Bytes → Option (Bytes × Bytes)
decode_loop zero dst src = none
decode_loop (suc fuel) dst src = elim (fetch [] src) [
  | group six_bit rest ↦ decode_loop fuel (dst ++ join_sextets six_bit) rest
  | ended six_bit ↦ some (dst, undecoded six_bit src)
]

-- Each group takes a character at least.
unfoldable pub decode_base64 : Bytes → Option (Bytes × Bytes)
unfolding decode_loop
decode_base64 src = decode_loop (suc (length src)) [] src
