-- ===== src/Glib/Regex/Engine/Search.antt =====
-- The backtracking engine finds the greedy match of the message pattern, or there is none.
use gst_playd.Base.{
  ℕ, zero, suc, ◌≤◌, ◌<◌, ◌≡◌, refl, sym, ap, ◌∙◌, arith, ◌⊎◌, inl, inr, Bool, true, false,
}
use gst_playd.Base.{Option, none, some, [], ◌∷◌, Bytes, length, Bool-cases, str_equal}
use gst_playd.Base.{if◌then◌else◌, str_equal_refl}
use gst_playd.Glib.Regex.{Regex, IsUpper, IsPlain, Split, Greedy, message_pattern}
use gst_playd.Glib.Regex.Engine.{
  is_upper, Parts, stop_group, try_group, Cut, Best, nothing, best, NoLetter, Any, Cut-nil,
  stop_group-Best,
}

is_upper-true : (c : ℕ) → is_upper c ≡ true → IsUpper c
unfolding is_upper
is_upper-true c h = ground arith

is_upper-false : (c : ℕ) → is_upper c ≡ false → IsUpper c → ⊥
unfolding is_upper
is_upper-false c h u = ground arith

Cut-cons :
    (begun : Bool) (c : ℕ) (s : Bytes) (c' : ℕ) (m sp q : Bytes)
    → Cut begun (c ∷ s) (c' ∷ m) sp q
    → IsUpper c × Cut true s m sp q
Cut-cons begun c s c' m sp q cut =
    let same : c ≡ c' = cc (cut.whole) in
    (
      rw same cut.upper.0,
      record {
        whole = cc (cut.whole);
        upper = cut.upper.1;
        some_letter = inl refl;
        space_opt = cut.space_opt;
        param_some = cut.param_some;
      },
    )

add_letter :
    (begun : Bool) (c : ℕ) (s m sp q : Bytes)
    → IsUpper c
    → Cut true s m sp q
    → Cut begun (c ∷ s) (c ∷ m) sp q
add_letter begun c s m sp q u cut = record {
  whole = ap (λ t. c ∷ t) cut.whole;
  upper = (u, cut.upper);
  some_letter = inr (omega arith);
  space_opt = cut.space_opt;
  param_some = cut.param_some;
}

-- A way with no letter, and no way with a letter.
stop-Best :
    (begun : Bool) (c : ℕ) (s : Bytes) (o : Option Parts)
    → Best begun (c ∷ s) NoLetter o
    → ((m sp q : Bytes) → IsUpper c → Cut true s m sp q → ⊥)
    → Best begun (c ∷ s) Any o
stop-Best begun c s none (nothing f) no_more = nothing go
  where
    go : (m sp q : Bytes) → Any m → Cut begun (c ∷ s) m sp q → ⊥
    go [] sp q a cut = f [] sp q refl cut
    go (c' ∷ m) sp q a cut =
        let (u, rest) = Cut-cons begun c s c' m sp q cut in no_more m sp q u rest
stop-Best begun c s (some parts) (best _ cut f) no_more = best parts cut go
  where
    go :
        (m sp q : Bytes)
        → Any m
        → Cut begun (c ∷ s) m sp q
        → (length m < length parts.more)
          ⊎ ((length m ≡ length parts.more) × (length sp ≤ length parts.space))
    go [] sp q a cut' = f [] sp q refl cut'
    go (c' ∷ m) sp q a cut' =
        let (u, rest) = Cut-cons begun c s c' m sp q cut' in absurd (no_more m sp q u rest)

longer-Best :
    (begun : Bool) (c : ℕ) (s : Bytes) (o : Option Parts)
    → IsUpper c
    → Best true s Any o
    → Best begun (c ∷ s) Any (elim o [
      | none ↦ stop_group begun (c ∷ s)
      | some parts ↦ some (record parts { more = c ∷ parts.more })
    ])
longer-Best begun c s none u (nothing f) =
    stop-Best begun c s (stop_group begun (c ∷ s)) (stop_group-Best begun (c ∷ s))
      (λ m sp q u' cut. f m sp q tt cut)
longer-Best begun c s (some parts) u (best _ cut f) =
    best (record parts { more = c ∷ parts.more })
      (add_letter begun c s parts.more parts.space parts.param u cut) go
  where
    go :
        (m sp q : Bytes)
        → Any m
        → Cut begun (c ∷ s) m sp q
        → (length m < suc (length parts.more))
          ⊎ ((length m ≡ suc (length parts.more)) × (length sp ≤ length parts.space))
    go [] sp q a cut' = inl (omega arith)
    go (c' ∷ m) sp q a cut' =
        let rest = (Cut-cons begun c s c' m sp q cut').1 in
        let shorter = f m sp q tt rest in ground arith

try_group-Best : (begun : Bool) (s : Bytes) → Best begun s Any (try_group begun s)
unfolding try_group
try_group-Best begun [] = nothing (λ m sp q a. Cut-nil begun m sp q)
try_group-Best begun (c ∷ s) = elim (Bool-cases (is_upper c)) [
  | inl h ↦
      rw h (longer-Best begun c s (try_group true s) (is_upper-true c h) (try_group-Best true s))
  | inr h ↦ rw h (
      stop-Best begun c s (stop_group begun (c ∷ s)) (stop_group-Best begun (c ∷ s))
        λ m sp q u cut. is_upper-false c h u)
]

groups : Parts → ℕ → Option Bytes
groups parts (suc zero) = some parts.more
groups parts (suc (suc zero)) = some parts.param
groups parts i = none

unfoldable pub run : Bytes → Option (ℕ → Option Bytes)
unfolding try_group stop_group is_upper groups
run s = elim (try_group false s) [ none ↦ none | some parts ↦ some (groups parts) ]

Split-Cut : {s p sp q : Bytes} → Split s p sp q → Cut false s p sp q
Split-Cut split = record {
  whole = split.whole;
  upper = split.upper;
  some_letter = inr split.prefix_some;
  space_opt = split.space_opt;
  param_some = split.param_some;
}

pub run-none : (s p sp q : Bytes) → IsPlain s → run s ≡ none → Split s p sp q → ⊥
unfolding run
run-none s p sp q plain e split = go (try_group false s) (try_group-Best false s) e
  where
    go :
        (o : Option Parts)
        → Best false s Any o
        → ◌≡◌ {A = Option (ℕ → Option Bytes)}
            (elim o [ none ↦ none | some parts ↦ some (groups parts) ])
            none
        → ⊥
    go none (nothing f) e = f p sp q tt (Split-Cut split)
    go (some parts) b e = cc

pub run-some :
    (s : Bytes) (group : ℕ → Option Bytes) → IsPlain s → run s ≡ some group → Greedy s group
unfolding run
run-some s group plain e = go (try_group false s) (try_group-Best false s) e
  where
    go :
        (o : Option Parts)
        → Best false s Any o
        → ◌≡◌ {A = Option (ℕ → Option Bytes)}
            (elim o [ none ↦ none | some parts ↦ some (groups parts) ])
            (some group)
        → Greedy s group
    go none b e = cc
    go (some parts) (best _ cut f) e =
        let same : groups parts ≡ group = cc in
        record {
          prefix = parts.more;
          space = parts.space;
          param = parts.param;
          split = record {
            whole = cut.whole;
            upper = cut.upper;
            prefix_some = ground (arith, cut.some_letter);
            space_opt = cut.space_opt;
            param_some = cut.param_some;
          };
          first = ap (λ (g : ℕ → Option Bytes). g 1) (sym same) ∙ unfold groups in refl;
          second = ap (λ (g : ℕ → Option Bytes). g 2) (sym same) ∙ unfold groups in refl;
          longest = λ p sp q split. f p sp q tt (Split-Cut split);
        }

-- The engine knows this one pattern.
abbrev pub backtracking : Regex
backtracking = record {
  match = λ pattern s. if str_equal pattern message_pattern then run s else none;
  match-none = λ s p sp q plain e. run-none s p sp q plain (rw str_equal_refl at e);
  match-some = λ s group plain e. run-some s group plain (rw str_equal_refl at e);
}
