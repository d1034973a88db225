-- ===== src/Base/Bits.antt =====
-- The bit operations that the base64 code makes on bytes, as arithmetic: by evaluation at every
-- value of the range.
use Prim.Native.Nat.{ℕ, zero, suc, ◌+◌, ◌*◌, ◌/◌, ◌%◌, ◌<◌, bit_and, bit_or}
use mathlib.Core.Path.{◌≡◌, refl}
use mathlib.Core.Bool.{Bool, true, ◌&&◌}
use native.Mathlib.Omega.{arith}
use native.Mathlib.Nat.{div-one}
use native.Mathlib.Decide.{dec_lt}
use gst_playd.Base.Tests.{◌==◌, ==_iff}

-- The test `p` passes at every number under `k`.
unfoldable pub covers : (ℕ → Bool) → ℕ → Bool
covers p zero = true
covers p (suc k) = covers p k && p k

pub covers_at : (p : ℕ → Bool) (x k : ℕ) → covers p k ≡ true → x < k → p x ≡ true
unfolding covers
covers_at p x zero h below = elim below [ ]
covers_at p x (suc k) h below = elim (dec_lt x k) [
  | yes inside ↦ covers_at p x k (ground arith) inside
  | no outside ↦ let last : x ≡ k = omega arith in rw last (ground arith)
]

and_3_table : covers (λ x. bit_and x 3 == x % 4) 256 ≡ true
unfolding covers
and_3_table = refl

and_15_table : covers (λ x. bit_and x 0xf == x % 16) 256 ≡ true
unfolding covers
and_15_table = refl

and_63_table : covers (λ x. bit_and x 0x3f == x % 64) 256 ≡ true
unfolding covers
and_63_table = refl

pub bit_and_3 : (x : ℕ) → x < 256 → bit_and x 3 ≡ x % 4
bit_and_3 x h = (==_iff _ _).0 (covers_at _ x 256 and_3_table h)

pub bit_and_15 : (x : ℕ) → x < 256 → bit_and x 0xf ≡ x % 16
bit_and_15 x h = (==_iff _ _).0 (covers_at _ x 256 and_15_table h)

pub bit_and_63 : (x : ℕ) → x < 256 → bit_and x 0x3f ≡ x % 64
bit_and_63 x h = (==_iff _ _).0 (covers_at _ x 256 and_63_table h)

or_table : ℕ → ℕ → ℕ → Bool
or_table m d x = covers (λ y. bit_or (x * m) (y / d) == x * m + y / d) 64

or_4_table : covers (or_table 4 16) 64 ≡ true
unfolding covers or_table
or_4_table = refl

or_16_table : covers (or_table 16 4) 64 ≡ true
unfolding covers or_table
or_16_table = refl

or_64_table : covers (or_table 64 1) 64 ≡ true
unfolding covers or_table
or_64_table = refl

or_from_table :
    (m d x y : ℕ)
    → covers (or_table m d) 64 ≡ true
    → x < 64
    → y < 64
    → bit_or (x * m) (y / d) ≡ x * m + y / d
unfolding or_table
or_from_table m d x y t hx hy =
    (==_iff _ _).0 (covers_at _ y 64 (covers_at (or_table m d) x 64 t hx) hy)

-- The `|` of two neighbouring 6-bit values puts their bits side by side.
pub bit_or_4 : (x y : ℕ) → x < 64 → y < 64 → bit_or (x * 4) (y / 16) ≡ x * 4 + y / 16
bit_or_4 x y hx hy = or_from_table 4 16 x y or_4_table hx hy

pub bit_or_16 : (x y : ℕ) → x < 64 → y < 64 → bit_or (x * 16) (y / 4) ≡ x * 16 + y / 4
bit_or_16 x y hx hy = or_from_table 16 4 x y or_16_table hx hy

pub bit_or_64 : (x y : ℕ) → x < 64 → y < 64 → bit_or (x * 64) y ≡ x * 64 + y
bit_or_64 x y hx hy = rw div-one at (or_from_table 64 1 x y or_64_table hx hy)
