-- ===== src/Uuencode/Encode/Write.antt =====
-- `uuencode` of src/uuencode.c against its encoding: the rounds of the first loop, the
-- terminating NUL and the padding that overwrites the last characters.
use gst_playd.Base.{ℕ, zero, suc, ◌+◌, ◌-◌, ◌*◌, ◌/◌, ◌%◌, ◌≤◌, ◌<◌, ◌≡◌, refl, ap, ◌∙◌, arith}
use gst_playd.Base.{Option, some, [], ◌∷◌, ◌++◌, append_assoc}
use gst_playd.Base.{Bytes, AreBytes, IsByte, length, drop, set?-append, length-append, true, ◌>>=◌}
use native.Mathlib.Nat.{add-zero}
use gst_playd.Base.Int.{ℤ, pos, negsuc, ◌-ℤ◌, leb_ℤ}
use gst_playd.Uuencode.Encode.{next_bytes, encode_loop, pad_loop, finish}
use gst_playd.Uuencode.Encode.{uuencode}
use gst_playd.Uuencode.Encode.Spec.{
  symbol, encoding, length-encoding, put_char-append, encode_group_lem,
}

-- The first loop and what follows it.
encode_rest : ℕ → Bytes → Bytes → ℕ → Bytes → ℤ → Option Bytes
encode_rest fuel tbl buf p s n = do
  (buf, p, left) ← encode_loop fuel tbl buf p s n
  finish tbl buf p left

-- A list with five places is five elements and a rest.
with_five :
    (P : Bytes → Type 0) (xs : Bytes)
    → 5 ≤ length xs
    → ((a b c d e : ℕ) (ys : Bytes) → P (a ∷ b ∷ c ∷ d ∷ e ∷ ys))
    → P xs
with_five P [] h f = absurd (omega arith)
with_five P (a ∷ []) h f = absurd (omega arith)
with_five P (a ∷ b ∷ []) h f = absurd (omega arith)
with_five P (a ∷ b ∷ c ∷ []) h f = absurd (omega arith)
with_five P (a ∷ b ∷ c ∷ d ∷ []) h f = absurd (omega arith)
with_five P (a ∷ b ∷ c ∷ d ∷ e ∷ ys) h f = f a b c d e ys

-- The counter of the first loop over a whole group.
three_less : (n : ℕ) → pos (suc (suc (suc n))) -ℤ pos 3 ≡ pos n
three_less n = ground arith

one_or_more : (n : ℕ) → leb_ℤ (pos 1) (pos (suc n)) ≡ true
one_or_more n = ground arith

next_bytes-cons : (a b c n : ℕ) (s : Bytes) → next_bytes (a ∷ b ∷ c ∷ s) (pos n) ≡ some (b, c)
unfolding next_bytes
next_bytes-cons a b c n s = ground arith

module _ (tbl : Bytes) (full : 65 ≤ length tbl) where
  -- The end of the source: the NUL alone.
  finish_none :
      (pre : Bytes) (p r : ℕ) (room : Bytes)
      → p ≡ length pre
      → finish tbl (pre ++ r ∷ room) p (pos 0) ≡ some (pre ++ 0 ∷ room)
  unfolding finish pad_loop
  finish_none pre p r room at = rw (set?-append pre (r ∷ room) 0 p 0 (omega arith) refl, ◌>>=◌)

  finish_one :
      (pre : Bytes) (p c0 c1 c2 c3 r : ℕ) (room : Bytes)
      → p ≡ length pre
      → finish tbl (pre ++ c0 ∷ c1 ∷ c2 ∷ c3 ∷ r ∷ room) (p + 4) (negsuc 0)
        ≡ some (pre ++ c0 ∷ c1 ∷ c2 ∷ symbol tbl 64 ∷ 0 ∷ room)
  unfolding finish pad_loop
  finish_one pre p c0 c1 c2 c3 r room at = rw (
    set?-append pre (c0 ∷ c1 ∷ c2 ∷ c3 ∷ r ∷ room) 4 (p + 4) 0 (omega arith) refl,
    ◌>>=◌,
    put_char-append tbl full pre (c0 ∷ c1 ∷ c2 ∷ c3 ∷ 0 ∷ room) 64 3 (p + 4 - 1) (omega arith)
        (omega arith) refl,
  )

  finish_two :
      (pre : Bytes) (p c0 c1 c2 c3 r : ℕ) (room : Bytes)
      → p ≡ length pre
      → finish tbl (pre ++ c0 ∷ c1 ∷ c2 ∷ c3 ∷ r ∷ room) (p + 4) (negsuc 1)
        ≡ some (pre ++ c0 ∷ c1 ∷ symbol tbl 64 ∷ symbol tbl 64 ∷ 0 ∷ room)
  unfolding finish pad_loop
  finish_two pre p c0 c1 c2 c3 r room at =
      let pad = symbol tbl 64 in
      rw (
        set?-append pre (c0 ∷ c1 ∷ c2 ∷ c3 ∷ r ∷ room) 4 (p + 4) 0 (omega arith) refl,
        ◌>>=◌,
        put_char-append tbl full pre (c0 ∷ c1 ∷ c2 ∷ c3 ∷ 0 ∷ room) 64 3 (p + 4 - 1) (omega arith)
            (omega arith) refl,
        put_char-append tbl full pre (c0 ∷ c1 ∷ c2 ∷ pad ∷ 0 ∷ room) 64 2 (p + 4 - 1 - 1)
            (omega arith) (omega arith) refl,
      )

  -- From `p`, with the rest of the source in `s`, the encoding and a NUL are written into `room`.
  abbrev Encodes : ℕ → Bytes → ℕ → Bytes → Bytes → Type 0
  Encodes fuel pre p s room =
      encode_rest fuel tbl (pre ++ room) p s (pos (length s))
      ≡ some (pre ++ (encoding tbl s ++ 0 ∷ drop (suc (length (encoding tbl s))) room))

  Encodes-one :
      (fuel : ℕ) (pre : Bytes) (p a r0 r1 r2 r3 r : ℕ) (room : Bytes)
      → IsByte a
      → p ≡ length pre
      → Encodes (suc (suc fuel)) pre p (a ∷ []) (r0 ∷ r1 ∷ r2 ∷ r3 ∷ r ∷ room)
  unfolding encode_rest encode_loop next_bytes
  Encodes-one fuel pre p a r0 r1 r2 r3 r room ha at =
      rw
        (
          encode_group_lem tbl full a 0 0 pre p r0 r1 r2 r3 (r ∷ room) ha (omega arith)
              (omega arith) at,
          ◌>>=◌,
          add-zero (a % 4 * 16),
        )
        (finish_two pre p _ _ _ _ r room at)

  Encodes-two :
      (fuel : ℕ) (pre : Bytes) (p a b r0 r1 r2 r3 r : ℕ) (room : Bytes)
      → IsByte a
      → IsByte b
      → p ≡ length pre
      → Encodes (suc (suc fuel)) pre p (a ∷ b ∷ []) (r0 ∷ r1 ∷ r2 ∷ r3 ∷ r ∷ room)
  unfolding encode_rest encode_loop next_bytes
  Encodes-two fuel pre p a b r0 r1 r2 r3 r room ha hb at =
      rw
        (
          encode_group_lem tbl full a b 0 pre p r0 r1 r2 r3 (r ∷ room) ha hb (omega arith) at,
          ◌>>=◌,
          add-zero,
        )
        (finish_one pre p _ _ _ _ r room at)

  -- A round that reads a whole group.
  encode_rest-cons :
      (fuel : ℕ) (pre : Bytes) (p a b c : ℕ) (s : Bytes) (r0 r1 r2 r3 : ℕ) (room : Bytes)
      → IsByte a
      → IsByte b
      → IsByte c
      → p ≡ length pre
      → encode_rest
          (suc fuel)
          tbl
          (pre ++ r0 ∷ r1 ∷ r2 ∷ r3 ∷ room)
          p
          (a ∷ b ∷ c ∷ s)
          (pos (suc (suc (suc (length s)))))
        ≡ encode_rest fuel tbl
            ((pre ++ encoding tbl (a ∷ b ∷ c ∷ [])) ++ room)
            (p + 4)
            s
            (pos (length s))
  unfolding encode_rest encode_loop
  encode_rest-cons fuel pre p a b c s r0 r1 r2 r3 room ha hb hc at = rw (
    one_or_more (suc (suc (length s))),
    three_less (length s),
    next_bytes-cons a b c (length s) s,
    ◌>>=◌,
    encode_group_lem tbl full a b c pre p r0 r1 r2 r3 room ha hb hc at,
    append_assoc pre (encoding tbl (a ∷ b ∷ c ∷ [])) room,
  )

  encode_rest_lem :
      (fuel : ℕ) (pre : Bytes) (p : ℕ) (s room : Bytes)
      → length s < fuel
      → AreBytes s
      → p ≡ length pre
      → suc (length (encoding tbl s)) ≤ length room
      → Encodes fuel pre p s room
  encode_rest_lem zero pre p s room enough bytes at fits = absurd (omega arith)
  encode_rest_lem (suc fuel) pre p [] [] enough bytes at fits = absurd (omega arith)
  encode_rest_lem (suc fuel) pre p [] (r ∷ room) enough bytes at fits =
      unfold encode_rest encode_loop in finish_none pre p r room at
  encode_rest_lem (suc zero) pre p (a ∷ []) room enough bytes at fits = absurd (omega arith)
  encode_rest_lem (suc (suc fuel)) pre p (a ∷ []) room enough bytes at fits =
      with_five (Encodes (suc (suc fuel)) pre p (a ∷ [])) room fits
        λ r0 r1 r2 r3 r rest. Encodes-one fuel pre p a r0 r1 r2 r3 r rest bytes.0 at
  encode_rest_lem (suc zero) pre p (a ∷ b ∷ []) room enough bytes at fits = absurd (omega arith)
  encode_rest_lem (suc (suc fuel)) pre p (a ∷ b ∷ []) room enough bytes at fits =
      with_five (Encodes (suc (suc fuel)) pre p (a ∷ b ∷ [])) room fits
        λ r0 r1 r2 r3 r rest. Encodes-two fuel pre p a b r0 r1 r2 r3 r rest bytes.0 bytes.1.0 at
  encode_rest_lem (suc fuel) pre p (a ∷ b ∷ c ∷ s) (r0 ∷ r1 ∷ r2 ∷ r3 ∷ room) enough bytes at fits =
      let quad = encoding tbl (a ∷ b ∷ c ∷ []) in
      rw (encode_rest-cons fuel pre p a b c s r0 r1 r2 r3 room bytes.0 bytes.1.0 bytes.1.1.0 at) (
        encode_rest_lem fuel (pre ++ quad) (p + 4) s room (omega arith) bytes.1.1.1
          (omega (arith, length-append pre quad)) (omega arith)
        ∙ ap some (append_assoc pre quad _))
  encode_rest_lem (suc fuel) pre p (a ∷ b ∷ c ∷ s) room enough bytes at fits = absurd (omega arith)

-- With a table of 65 characters, into a buffer of at least 4 * ((length + 2) / 3) + 1 bytes,
-- `uuencode` writes the encoding of the source and a terminating NUL, reads and writes nothing
-- out of range, and leaves the buffer behind the NUL as it was.
pub uuencode-encoding :
    (tbl src room : Bytes)
    → 65 ≤ length tbl
    → AreBytes src
    → suc (4 * ((length src + 2) / 3)) ≤ length room
    → uuencode room src (length src) tbl
      ≡ some (encoding tbl src ++ 0 ∷ drop (suc (4 * ((length src + 2) / 3))) room)
unfolding uuencode
uuencode-encoding tbl src room full bytes fits = rw (← length-encoding tbl src) (
    unfold encode_rest in
    encode_rest_lem tbl full (suc (length src)) [] 0 src room (omega arith) bytes refl
      (omega (arith, length-encoding tbl src)))
