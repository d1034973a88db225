-- ===== src/Base/Decimal.antt =====
-- The decimal conversions of the C library that the code uses: `%u`, `%d` and `atoll`, with the
-- conversions of its result to an unsigned 32-bit value.
use Prim.Native.Nat.{ℕ, zero, suc, ◌+◌, ◌-◌, ◌*◌, ◌/◌, ◌%◌, ◌^◌, ◌≤◌, ◌<◌, min}
use mathlib.Core.Path.{◌≡◌, refl, ◌∙◌, ap, sym, subst}
use mathlib.Core.Bool.{Bool, ◌&&◌, ◌||◌}
use mathlib.Core.List.{[], ◌∷◌}
use mathlib.Core.Logic.{inl, inr}
use native.Mathlib.Omega.{arith}
use gst_playd.Base.Tests.{ltb, leb, ◌==◌, if◌then◌else◌, Bool-cases, ltb→lt}
use gst_playd.Base.Lists.{All, All-imp, length}
use gst_playd.Base.Text.{Bytes, IsText}
use gst_playd.Base.Int.{ℤ, pos, negsuc}

-- The digits of `n` before `out`; a number has fewer digits than `n + 1`.
write_digits : ℕ → ℕ → Bytes → Bytes
write_digits zero n out = out
write_digits (suc fuel) n out =
    let higher = write_digits fuel (n / 10) ((b'0' + n % 10) ∷ out) in
    if ltb n 10 then (b'0' + n) ∷ out else higher

unfoldable pub format_unsigned : ℕ → Bytes
unfolding write_digits
format_unsigned n = write_digits (suc n) n []

is_digit : ℕ → Bool
is_digit c = leb b'0' c && leb c b'9'

-- `isspace` in the C locale.
is_space : ℕ → Bool
is_space c = c == b' ' || (leb 9 c && leb c 13)

scan_digits : Bytes → ℕ → ℕ
scan_digits [] n = n
scan_digits (c ∷ s) n =
    let rest = scan_digits s (n * 10 + (c - b'0')) in if is_digit c then rest else n

abbrev llong_max : ℕ
llong_max = 2 ^ 63 - 1

-- Out of range, the nearest value of a long long.
scan_signed : Bytes → ℤ
scan_signed [] = pos 0
scan_signed (c ∷ s) =
    if c == b'-'
    then (if scan_digits s 0 == 0 then pos 0 else negsuc (min (scan_digits s 0 - 1) llong_max))
    else if c == b'+'
    then pos (min (scan_digits s 0) llong_max)
    else pos (min (scan_digits (c ∷ s) 0) llong_max)

unfoldable pub atoll : Bytes → ℤ
unfolding is_space scan_signed scan_digits is_digit
atoll [] = pos 0
atoll (c ∷ s) = let rest = atoll s in if is_space c then rest else scan_signed (c ∷ s)

-- The conversion to `guint`, modulo 2 ^ 32.
unfoldable pub to_guint : ℤ → ℕ
to_guint (pos n) = n % 2 ^ 32
to_guint (negsuc n) = 2 ^ 32 - 1 - n % 2 ^ 32

abbrev IsDigit : ℕ → Type 0
IsDigit c = (b'0' ≤ c) × (c ≤ b'9')

write_digits-IsDigit :
    (fuel n : ℕ) (out : Bytes) → All IsDigit out → All IsDigit (write_digits fuel n out)
unfolding write_digits
write_digits-IsDigit zero n out h = h
write_digits-IsDigit (suc fuel) n out h = elim (Bool-cases (ltb n 10)) [
  | inl small ↦ rw small (ground (arith, ltb→lt n 10 small), h)
  | inr large ↦ rw large (write_digits-IsDigit fuel (n / 10) _ (omega arith, h))
]

scan_digit :
    (c n : ℕ) (s : Bytes) → IsDigit c → scan_digits (c ∷ s) n ≡ scan_digits s (n * 10 + (c - b'0'))
unfolding scan_digits is_digit
scan_digit c n s h = ground arith

scan_digits-write_digits :
    (fuel n : ℕ) (out : Bytes)
    → n < fuel
    → scan_digits (write_digits fuel n out) 0 ≡ scan_digits out n
unfolding write_digits
scan_digits-write_digits zero n out h = absurd (omega arith)
scan_digits-write_digits (suc fuel) n out h = elim (Bool-cases (ltb n 10)) [
  | inl small ↦
      let below = ltb→lt n 10 small in
      rw small (scan_digit (b'0' + n) 0 out (omega arith) ∙ ap (scan_digits out) (omega arith))
  | inr large ↦
      let above : 10 ≤ n = ground arith in
      rw large (
        scan_digits-write_digits fuel (n / 10) _ (omega arith)
        ∙ scan_digit (b'0' + n % 10) (n / 10) out (omega arith)
        ∙ ap (scan_digits out) (omega arith))
]

-- A text of digits has no sign and no space before it.
atoll-digits :
    (s : Bytes) → All IsDigit s → scan_digits s 0 ≤ llong_max → atoll s ≡ pos (scan_digits s 0)
unfolding atoll
atoll-digits [] h fits = refl
atoll-digits (c ∷ s) h fits = ground arith

digit-IsText : (s : Bytes) → All IsDigit s → IsText s
digit-IsText [] h = tt
digit-IsText (c ∷ s) h = ((λ e. omega arith), digit-IsText s h.1)

pub format_unsigned-IsText : (n : ℕ) → IsText (format_unsigned n)
unfolding format_unsigned
format_unsigned-IsText n = digit-IsText _ (write_digits-IsDigit (suc n) n [] tt)

-- A printed number is made of digits, one at least.
pub format_unsigned-All :
    (P : ℕ → Type 0) (n : ℕ) → ((c : ℕ) → (b'0' ≤ c) × (c ≤ b'9') → P c) → All P (format_unsigned n)
unfolding format_unsigned
format_unsigned-All P n digits =
    All-imp (write_digits (suc n) n []) digits (write_digits-IsDigit (suc n) n [] tt)

length-write_digits : (fuel n : ℕ) (out : Bytes) → length out ≤ length (write_digits fuel n out)
unfolding write_digits
length-write_digits zero n out = omega arith
length-write_digits (suc fuel) n out = elim (Bool-cases (ltb n 10)) [
  | inl small ↦ rw small (omega arith)
  | inr large ↦ rw large (omega (arith, length-write_digits fuel (n / 10) ((b'0' + n % 10) ∷ out)))
]

pub format_unsigned_some : (n : ℕ) → 0 < length (format_unsigned n)
unfolding format_unsigned write_digits
format_unsigned_some n = elim (Bool-cases (ltb n 10)) [
  | inl small ↦ rw small (omega arith)
  | inr large ↦ rw large (omega (arith, length-write_digits n (n / 10) ((b'0' + n % 10) ∷ [])))
]

-- `(guint) atoll` of a printed `guint` is that value.
pub to_guint-format_unsigned : (n : ℕ) → n < 2 ^ 32 → to_guint (atoll (format_unsigned n)) ≡ n
unfolding to_guint format_unsigned scan_digits
to_guint-format_unsigned n h =
    let value : scan_digits (write_digits (suc n) n []) 0 ≡ n =
      scan_digits-write_digits (suc n) n [] (omega arith) in
    ap to_guint (
      atoll-digits (write_digits (suc n) n []) (write_digits-IsDigit (suc n) n [] tt) (omega arith)
      ∙ ap pos value)
    ∙ omega arith

-- No two numbers are printed alike.
pub format_unsigned-injective : (m n : ℕ) → format_unsigned m ≡ format_unsigned n → m ≡ n
unfolding format_unsigned scan_digits
format_unsigned-injective m n e = omega (
  arith,
  ap (λ s. scan_digits s 0) e,
  scan_digits-write_digits (suc m) m [] (omega arith),
  scan_digits-write_digits (suc n) n [] (omega arith),
)

-- `%d` of an `int`, which is given by its bit pattern.
unfoldable pub format_int : ℕ → Bytes
unfolding format_unsigned
format_int n = if ltb n (2 ^ 31) then format_unsigned n else b'-' ∷ format_unsigned (2 ^ 32 - n)

minus-IsDigit : (n : ℕ) (s : Bytes) → format_unsigned n ≡ b'-' ∷ s → ⊥
unfolding format_unsigned
minus-IsDigit n s e =
    let (digit, rest) = subst (All IsDigit) e (write_digits-IsDigit (suc n) n [] tt) in omega arith

pub format_int-IsText : (n : ℕ) → IsText (format_int n)
unfolding format_int
format_int-IsText n = elim (Bool-cases (ltb n (2 ^ 31))) [
  | inl low ↦ rw low (format_unsigned-IsText n)
  | inr high ↦ rw high ((λ e. omega arith), format_unsigned-IsText (2 ^ 32 - n))
]

-- No two values of an `int` are printed alike.
pub format_int-injective : (m n : ℕ) → m < 2 ^ 32 → n < 2 ^ 32 → format_int m ≡ format_int n → m ≡ n
unfolding format_int
format_int-injective m n hm hn e = elim (Bool-cases (ltb m (2 ^ 31))) [
  | inl low ↦ elim (Bool-cases (ltb n (2 ^ 31))) [
    | inl low' ↦ format_unsigned-injective m n (rw (low, low') at e)
    | inr high' ↦ absurd (minus-IsDigit m _ (rw (low, high') at e))
  ]
  | inr high ↦ elim (Bool-cases (ltb n (2 ^ 31))) [
    | inl low' ↦ absurd (minus-IsDigit n _ (sym (rw (high, low') at e)))
    | inr high' ↦
        let printed : b'-' ∷ format_unsigned (2 ^ 32 - m) ≡ b'-' ∷ format_unsigned (2 ^ 32 - n) =
          rw (high, high') at e in
        let same = format_unsigned-injective (2 ^ 32 - m) (2 ^ 32 - n) (cc printed) in omega arith
  ]
]
