-- ===== src/Uuencode/Decode/Bounds.antt =====
-- `decode_base64` of src/uuencode.c: its loops end, and the room that its output needs.
use gst_playd.Base.{ℕ, zero, suc, ◌+◌, ◌*◌, ◌≤◌, ◌<◌, min, ◌≡◌, refl, arith}
use gst_playd.Base.{Option, some, List, [], ◌∷◌, ◌++◌, Bytes, length, length-append}
use gst_playd.Base.{Option-cases, inl, inr, ap, ◌∙◌}
use native.Mathlib.Decide.{ℕ_discrete, dec_lt}
use gst_playd.Uuencode.Decode.Step.{fetch_skip, fetch_pad, fetch_more, fetch_full}
use gst_playd.Uuencode.{uuenc_tbl_base64}
use gst_playd.Uuencode.Decode.{
  strchr, Fetched, group, ended, fetch, join_sextets, undecoded, decode_loop, decode_base64,
}

-- A fetch that starts with `count` values and `n` characters leaves fewer characters; a full
-- group has taken four, and a shorter one the termination character beside its values.
abbrev pub Costs : ℕ → ℕ → Fetched → Type 0
Costs count n (group s r) =
    (length s ≤ 4) × (length r + min 4 (length s + 1) ≤ n + count) × (length r < n)
Costs count n (ended s) = Unit

Costs-suc : (count n : ℕ) (f : Fetched) → Costs count n f → Costs count (suc n) f
Costs-suc count n (group s r) h = omega arith
Costs-suc count n (ended s) h = tt

Costs-append : (count n : ℕ) (f : Fetched) → Costs (suc count) n f → Costs count (suc n) f
Costs-append count n (group s r) h = omega arith
Costs-append count n (ended s) h = tt

-- The character is one of the table: the three ways to go on.
fetch-Costs_value :
    (six_bit : List ℕ) (ch : ℕ) (src : Bytes) (i : ℕ)
    → length six_bit < 4
    → strchr uuenc_tbl_base64 ch ≡ some i
    → ((six : List ℕ) → length six < 4 → Costs (length six) (length src) (fetch six src))
    → Costs (length six_bit) (suc (length src)) (fetch six_bit (ch ∷ src))
fetch-Costs_value six_bit ch src i h e ih = elim (ℕ_discrete i 64) [
  | yes p ↦ rw (fetch_pad six_bit ch src (e ∙ ap some p)) (omega arith)
  | no p ↦ elim (dec_lt (length six_bit) 3) [
    | yes q ↦ rw (fetch_more six_bit ch src i e p q) (
        Costs-append (length six_bit) (length src) _
          (rw longer at (ih (six_bit ++ i ∷ []) (rw longer (omega arith)))))
    | no q ↦ rw (fetch_full six_bit ch src i e p (omega arith)) (omega (arith, longer))
  ]
]
  where
    longer : length (six_bit ++ i ∷ []) ≡ suc (length six_bit)
    longer = omega (arith, length-append six_bit (i ∷ []))

pub fetch-Costs :
    (six_bit : List ℕ) (src : Bytes)
    → length six_bit < 4
    → Costs (length six_bit) (length src) (fetch six_bit src)
fetch-Costs six_bit [] h = unfold fetch in tt
fetch-Costs six_bit (ch ∷ src) h = elim (Option-cases (strchr uuenc_tbl_base64 ch)) [
  | inl e ↦
      rw (fetch_skip six_bit ch src e)
        (Costs-suc (length six_bit) (length src) (fetch six_bit src) (fetch-Costs six_bit src h))
  | inr (i, e) ↦ fetch-Costs_value six_bit ch src i h e (λ six. fetch-Costs six src)
]

length-join_sextets : (s : List ℕ) → 4 * length (join_sextets s) ≤ 3 * min 4 (length s + 1)
unfolding join_sextets
length-join_sextets [] = omega arith
length-join_sextets (a ∷ []) = omega arith
length-join_sextets (a ∷ b ∷ []) = omega arith
length-join_sextets (a ∷ b ∷ c ∷ []) = omega arith
length-join_sextets (a ∷ b ∷ c ∷ d ∷ s) = omega arith

length-undecoded : (six_bit : List ℕ) (src : Bytes) → length (undecoded six_bit src) ≤ length src
unfolding undecoded
length-undecoded [] src = omega arith
length-undecoded (i ∷ six_bit) src = omega arith

-- The outcome of the outer loop: it ended, and what it stored fits three quarters of the text.
record Stored (dst src : Bytes) (result : Option (Bytes × Bytes)) : Type 0 where
  out : Bytes
  rest : Bytes
  returns : result ≡ some (out, rest)
  room : 4 * length out ≤ 4 * length dst + 3 * length src
  left : length rest ≤ length src

decode_loop-Stored :
    (fuel : ℕ) (dst src : Bytes) → length src < fuel → Stored dst src (decode_loop fuel dst src)
decode_loop-Stored zero dst src h = absurd (omega arith)
decode_loop-Stored (suc fuel) dst src h =
    go (fetch [] src) refl (fetch-Costs [] src (omega arith)) (decode_loop-Stored fuel)
  where
    go :
        (f : Fetched)
        → fetch [] src ≡ f
        → Costs 0 (length src) f
        → ((d s : Bytes) → length s < fuel → Stored d s (decode_loop fuel d s))
        → Stored dst src (decode_loop (suc fuel) dst src)
    go (ended six_bit) e costs ih = record {
      out = dst;
      rest = undecoded six_bit src;
      returns = unfold decode_loop in rw (decode_loop, e);
      room = omega arith;
      left = length-undecoded six_bit src;
    }
    go (group six_bit r) e costs ih =
        let next = ih (dst ++ join_sextets six_bit) r (omega arith) in
        record {
          out = next.out;
          rest = next.rest;
          returns = unfold decode_loop in rw (decode_loop, e) next.returns;
          room = omega (
            arith,
            next.room,
            length-append dst (join_sextets six_bit),
            length-join_sextets six_bit,
          );
          left = omega (arith, next.left);
        }

-- Whatever the text, both loops end, and the bytes stored number at most three quarters of the
-- characters; what is left undecoded is no longer than the text.
pub decode_base64-room :
    (src : Bytes)
    → (out rest : Bytes) × (decode_base64 src ≡ some (out, rest))
      × (4 * length out ≤ 3 * length src)
      × (length rest ≤ length src)
decode_base64-room src =
    let stored = decode_loop-Stored (suc (length src)) [] src (omega arith) in
    (
      stored.out,
      stored.rest,
      unfold decode_base64 in stored.returns,
      omega (arith, stored.room),
      stored.left,
    )
