-- ===== src/Base/Text.antt =====
-- Byte strings: a C string is the list of its bytes before the terminating NUL. Equality of
-- byte strings, the bytes of a literal, and the functions of the C library that the code calls.
use Prim.Native.Nat.{ℕ, ◌<◌}
use Prim.Native.Char.{code}
use Prim.Native.String.{String}
use mathlib.Core.Path.{◌≡◌, refl}
use mathlib.Core.Logic.{◌↔◌, ◌≢◌}
use mathlib.Core.Bool.{Bool, true, false, ◌&&◌}
use mathlib.Core.List.{List, [], ◌∷◌, ◌++◌}
use native.Mathlib.Omega.{arith}
use mathlib.Core.Logic.{inl, inr}
use gst_playd.Base.Tests.{Bool-cases, ◌==◌, ==_iff, if◌then◌else◌}
use gst_playd.Base.Lists.{All}

abbrev pub Bytes : Type 0
Bytes = List ℕ

-- The code points of a literal: its bytes, where it is ASCII.
abbrev pub codes : String → Bytes
codes String.[] = []
codes (String.◌∷◌ c s) = code c ∷ codes s

abbrev pub IsByte : ℕ → Type 0
IsByte c = c < 256

abbrev pub AreBytes : Bytes → Type 0
AreBytes s = All IsByte s

-- `strcmp(a, b) == 0`, which is `g_str_equal`.
unfoldable pub str_equal : Bytes → Bytes → Bool
str_equal [] [] = true
str_equal [] (c ∷ t) = false
str_equal (c ∷ s) [] = false
str_equal (c ∷ s) (d ∷ t) = c == d && str_equal s t

pub str_equal_iff : (s t : Bytes) → (str_equal s t ≡ true) ↔ (s ≡ t)
unfolding str_equal
str_equal_iff [] [] = (λ _. refl, λ _. refl)
str_equal_iff [] (d ∷ t) = (λ e. cc, λ e. cc)
str_equal_iff (c ∷ s) [] = (λ e. cc, λ e. cc)
str_equal_iff (c ∷ s) (d ∷ t) = ground (arith, ==_iff c d, str_equal_iff s t)

pub str_equal_refl : (s : Bytes) → str_equal s s ≡ true
str_equal_refl s = (str_equal_iff s s).1 refl

-- The C string that begins a buffer: the bytes before the first NUL.
unfoldable pub c_string : Bytes → Bytes
c_string [] = []
c_string (c ∷ s) = let rest = c_string s in if c == 0 then [] else c ∷ rest

-- No NUL: what a list needs to stand for a C string.
abbrev pub IsText : Bytes → Type 0
IsText s = All (λ c. c ≢ 0) s

pub c_string-IsText : (s : Bytes) → IsText s → c_string s ≡ s
unfolding c_string
c_string-IsText [] h = refl
c_string-IsText (c ∷ s) h = ground (arith, h.0, c_string-IsText s h.1)

pub c_string-append : (s rest : Bytes) → IsText s → c_string (s ++ 0 ∷ rest) ≡ s
unfolding c_string
c_string-append [] rest h = refl
c_string-append (c ∷ s) rest h = ground (arith, h.0, c_string-append s rest h.1)

pub IsText-c_string : (s : Bytes) → IsText (c_string s)
unfolding c_string
IsText-c_string [] = tt
IsText-c_string (c ∷ s) = elim (Bool-cases (c == 0)) [
  | inl end ↦ rw (end) tt
  | inr goes_on ↦ let ne : c ≢ 0 = ground (arith) in rw (goes_on) (ne, IsText-c_string s)
]

pub append-IsText : (s t : Bytes) → IsText s → IsText t → IsText (s ++ t)
append-IsText [] t hs ht = ht
append-IsText (c ∷ s) t (h, hs) ht = (h, append-IsText s t hs ht)
