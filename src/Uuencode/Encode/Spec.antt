-- ===== src/Uuencode/Encode/Spec.antt =====
-- What `uuencode` of src/uuencode.c writes: the 6-bit values of the source, three bytes to four
-- values, as characters of the table; index 64 is the termination character.
use gst_playd.Base.{ℕ, zero, suc, ◌+◌, ◌*◌, ◌/◌, ◌%◌, ◌≤◌, ◌<◌, ◌≡◌, refl, arith}
use gst_playd.Base.{none, some, List, [], ◌∷◌, ◌++◌, map}
use gst_playd.Base.{Bytes, IsByte, get_elem?, set?, length}
use gst_playd.Base.{set?-append, ◌>>=◌}
use gst_playd.Base.Bits.{bit_and_3, bit_and_15, bit_and_63}
use gst_playd.Uuencode.Encode.{put_char, encode_group}

-- The character of the table at an index.
abbrev pub symbol : Bytes → ℕ → ℕ
symbol tbl i = elim (get_elem? tbl i) [ none ↦ 0 | some c ↦ c ]

-- Three bytes as four 6-bit values; a missing byte counts as 0 and its values as 64.
abbrev pub sextets : Bytes → List ℕ
sextets [] = []
sextets (a ∷ []) = a / 4 ∷ a % 4 * 16 ∷ 64 ∷ 64 ∷ []
sextets (a ∷ b ∷ []) = a / 4 ∷ (a % 4 * 16 + b / 16) ∷ b % 16 * 4 ∷ 64 ∷ []
sextets (a ∷ b ∷ c ∷ s) = a / 4 ∷ (a % 4 * 16 + b / 16) ∷ (b % 16 * 4 + c / 64) ∷ c % 64 ∷ sextets s

abbrev pub encoding : Bytes → Bytes → Bytes
encoding tbl s = map (symbol tbl) (sextets s)

-- The code computes the length that it allocates from the length of the source.
pub length-sextets : (s : Bytes) → length (sextets s) ≡ 4 * ((length s + 2) / 3)
length-sextets [] = omega arith
length-sextets (a ∷ []) = omega arith
length-sextets (a ∷ b ∷ []) = omega arith
length-sextets (a ∷ b ∷ c ∷ s) = omega (arith, length-sextets s)

pub length-encoding : (tbl s : Bytes) → length (encoding tbl s) ≡ 4 * ((length s + 2) / 3)
length-encoding tbl [] = omega arith
length-encoding tbl (a ∷ []) = omega arith
length-encoding tbl (a ∷ b ∷ []) = omega arith
length-encoding tbl (a ∷ b ∷ c ∷ s) = omega (arith, length-encoding tbl s)

pub get_elem?-symbol :
    (tbl : Bytes) (i : ℕ) → i < length tbl → get_elem? tbl i ≡ some (symbol tbl i)
get_elem?-symbol [] i h = absurd (omega arith)
get_elem?-symbol (c ∷ tbl) zero h = refl
get_elem?-symbol (c ∷ tbl) (suc i) h = get_elem?-symbol tbl i (omega arith)

module _ (tbl : Bytes) (full : 65 ≤ length tbl) where
  -- One character, written `k` bytes behind `pre`.
  pub put_char-append :
      (pre ys : Bytes) {zs : Bytes} (i k p : ℕ)
      → i ≤ 64
      → p ≡ length pre + k
      → set? ys k (symbol tbl i) ≡ some zs
      → put_char tbl i (pre ++ ys) p ≡ some (pre ++ zs)
  unfolding put_char
  put_char-append pre ys i k p small at e =
      rw (get_elem?-symbol tbl i (omega arith), ◌>>=◌) (set?-append pre ys k p _ at e)

  pub encode_group_lem :
      (a b c : ℕ) (pre : Bytes) (p : ℕ) (r0 r1 r2 r3 : ℕ) (room : Bytes)
      → IsByte a
      → IsByte b
      → IsByte c
      → p ≡ length pre
      → encode_group tbl a b c (pre ++ r0 ∷ r1 ∷ r2 ∷ r3 ∷ room) p
        ≡ some (
            pre
            ++ symbol tbl (a / 4)
              ∷ symbol tbl (a % 4 * 16 + b / 16)
              ∷ symbol tbl (b % 16 * 4 + c / 64)
              ∷ symbol tbl (c % 64)
              ∷ room)
  unfolding encode_group
  encode_group_lem a b c pre p r0 r1 r2 r3 room ha hb hc at =
      let c0 = symbol tbl (a / 4) in
      let c1 = symbol tbl (a % 4 * 16 + b / 16) in
      let c2 = symbol tbl (b % 16 * 4 + c / 64) in
      rw (
        bit_and_3 a ha,
        bit_and_15 b hb,
        bit_and_63 c hc,
        put_char-append pre (r0 ∷ r1 ∷ r2 ∷ r3 ∷ room) (a / 4) 0 p (omega arith) (omega arith) refl,
        ◌>>=◌,
        put_char-append pre (c0 ∷ r1 ∷ r2 ∷ r3 ∷ room) (a % 4 * 16 + b / 16) 1 (p + 1) (omega arith)
            (omega arith) refl,
        put_char-append pre (c0 ∷ c1 ∷ r2 ∷ r3 ∷ room) (b % 16 * 4 + c / 64) 2 (p + 2) (omega arith)
            (omega arith) refl,
        put_char-append pre (c0 ∷ c1 ∷ c2 ∷ r3 ∷ room) (c % 64) 3 (p + 3) (omega arith)
            (omega arith) refl,
      )
