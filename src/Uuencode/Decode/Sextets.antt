-- ===== src/Uuencode/Decode/Sextets.antt =====
-- The values and the bytes of a group of src/uuencode.c, by arithmetic.
use gst_playd.Base.{
  ℕ, suc, ◌+◌, ◌<◌, ◌≡◌, ◌≢◌, ◌*◌, ◌/◌, ◌%◌, refl, ap, ap₂, ◌∙◌, sym, arith, Bool, true, false,
  Option,
}
use gst_playd.Base.{All, get_elem?, ==_iff, subst}
use gst_playd.Base.Bits.{bit_or_4, bit_or_16, bit_or_64}
use gst_playd.Base.{none, some, List, [], ◌∷◌, Bytes, length, ◌==◌}
use gst_playd.Base.{if◌then◌else◌}
use native.Mathlib.Decide.{ℕ_discrete}
use gst_playd.Uuencode.{uuenc_tbl_base64}
use gst_playd.Uuencode.Decode.{strchr, join_sextets, undecoded}

-- The bytes of a group: the bits of its values side by side, in eights, without those that are left
-- over.
abbrev pub joined : List ℕ → Bytes
joined [] = []
joined (a ∷ []) = []
joined (a ∷ b ∷ []) = (a * 4 + b / 16) ∷ []
joined (a ∷ b ∷ c ∷ []) = (a * 4 + b / 16) ∷ (b % 16 * 16 + c / 4) ∷ []
joined (a ∷ b ∷ c ∷ d ∷ _) = (a * 4 + b / 16) ∷ (b % 16 * 16 + c / 4) ∷ (c % 4 * 64 + d) ∷ []

-- What is left at the NUL: the text `tail` of a group that has begun, and else the NUL itself.
abbrev pub left_over : List ℕ → Bytes → Bytes
left_over [] tail = []
left_over (i ∷ six_bit) tail = tail

abbrev pub AreSextets : List ℕ → Type 0
AreSextets six_bit = All (λ i. i < 64) six_bit

pub join_sextets-joined : (s : List ℕ) → AreSextets s → join_sextets s ≡ joined s
unfolding join_sextets
join_sextets-joined [] small = refl
join_sextets-joined (a ∷ []) small = refl
join_sextets-joined (a ∷ b ∷ []) (ha, (hb, rest)) =
    rw (bit_or_4 a b ha hb) (ap (λ x. x ∷ []) (omega arith))
join_sextets-joined (a ∷ b ∷ c ∷ []) (ha, (hb, (hc, rest))) =
    rw (bit_or_4 a b ha hb, bit_or_16 b c hb hc)
      (ap₂ (λ x y. x ∷ y ∷ []) (omega arith) (omega arith))
join_sextets-joined (a ∷ b ∷ c ∷ d ∷ _) (ha, (hb, (hc, (hd, rest)))) =
    rw (bit_or_4 a b ha hb, bit_or_16 b c hb hc, bit_or_64 c d hc hd)
      (ap₂ ◌∷◌ (omega arith) (ap₂ (λ x y. x ∷ y ∷ []) (omega arith) (omega arith)))

pub undecoded-left_over : (s : List ℕ) (tail : Bytes) → undecoded s tail ≡ left_over s tail
unfolding undecoded
undecoded-left_over [] tail = refl
undecoded-left_over (i ∷ s) tail = refl

-- What is found is in the text.
strchr-at :
    (text : Bytes) (c i : ℕ)
    → strchr text c ≡ some i
    → (i < length text) × (get_elem? text i ≡ some c)
unfolding strchr
strchr-at [] c i e = absurd (cc)
strchr-at (d ∷ text) c i e =
    go (d == c) (d == 0) (strchr text c) ((==_iff d c).0) (strchr-at text c) e
  where
    go :
        (here stop : Bool) (rest : Option ℕ)
        → (here ≡ true → d ≡ c)
        → ((j : ℕ) → rest ≡ some j → (j < length text) × (get_elem? text j ≡ some c))
        → (if here
            then some 0
            else if stop
            then none
            else elim rest [ none ↦ none | some j ↦ some (suc j) ])
          ≡ some i
        → (i < suc (length text)) × (get_elem? (d ∷ text) i ≡ some c)
    go true stop rest is ih e =
        let same : 0 ≡ i = cc in
        subst (λ n. (n < suc (length text)) × (get_elem? (d ∷ text) n ≡ some c)) same
          (omega arith, ap (λ x. some x) (is refl))
    go false true rest is ih e = absurd (cc)
    go false false none is ih e = absurd (cc)
    go false false (some j) is ih e =
        let same : suc j ≡ i = cc in
        let (below, at) = ih j refl in
        subst (λ n. (n < suc (length text)) × (get_elem? (d ∷ text) n ≡ some c)) same
          (omega (arith, below), at)

-- The NUL of the table is found only for a NUL.
pub strchr-value : (ch i : ℕ) → ch ≢ 0 → strchr uuenc_tbl_base64 ch ≡ some i → i ≢ 64 → i < 64
strchr-value ch i some_ch e ne =
    let (below, at) = strchr-at uuenc_tbl_base64 ch i e in
    elim (ℕ_discrete i 65) [
      | yes last ↦
          let nul : some 0 ≡ some ch = ap (get_elem? uuenc_tbl_base64) (sym last) ∙ at in
          let zero_ch : ch ≡ 0 = cc in absurd (some_ch zero_ch)
      | no other ↦ omega (arith, below)
    ]
