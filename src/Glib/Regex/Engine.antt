-- ===== src/Glib/Regex/Engine.antt =====
-- An engine that meets what is asked of a `GRegex`: backtracking over the message pattern.
pub mod Search
use gst_playd.Base.{ℕ, ◌+◌, ◌≤◌, ◌<◌, ◌≡◌, refl, ap, ◌∙◌, arith, ◌⊎◌, inl, inr, Bool, true, false}
use gst_playd.Base.{
  Option, none, some, [], ◌∷◌, ◌++◌, Bytes, length, All, leb, ◌==◌, ◌&&◌, Bool-cases, ==_iff,
  length-append, if◌then◌else◌,
}
use gst_playd.Glib.Regex.{IsUpper}

is_upper : ℕ → Bool
is_upper c = leb b'A' c && leb c b'Z'

-- What the rest of the pattern takes of a subject: more of the first group, the space, the
-- second group.
record Parts : Type 0 where
  more : Bytes
  space : Bytes
  param : Bytes

-- The end of the first group, if it has a letter.
stop_group : Bool → Bytes → Option Parts
stop_group false s = none
stop_group true [] = none
stop_group true (c ∷ []) = some (record { more = []; space = []; param = c ∷ [] })
stop_group true (c ∷ d ∷ s) =
    if c == b' '
    then some (record { more = []; space = c ∷ []; param = d ∷ s })
    else some (record { more = []; space = []; param = c ∷ d ∷ s })

-- A longer first group is tried first; `begun` says that it has a letter.
try_group : Bool → Bytes → Option Parts
try_group begun [] = none
try_group begun (c ∷ s) =
    let longer = try_group true s in
    if is_upper c
    then (elim longer [
      | none ↦ stop_group begun (c ∷ s)
      | some parts ↦ some (record parts { more = c ∷ parts.more })
    ])
    else stop_group begun (c ∷ s)

-- A way to go on from here.
record Cut (begun : Bool) (s more space param : Bytes) : Type 0 where
  whole : s ≡ more ++ (space ++ param)
  upper : All IsUpper more
  some_letter : (begun ≡ true) ⊎ (0 < length more)
  space_opt : (space ≡ []) ⊎ (space ≡ b' ' ∷ [])
  param_some : 0 < length param

-- The outcome of a try among the ways whose letters satisfy `only`: none, or the preferred one.
data Best (begun : Bool) (s : Bytes) (only : Bytes → Type 0) : Option Parts → Type 0 where
  nothing : ((m sp q : Bytes) → only m → Cut begun s m sp q → ⊥) → Best begun s only none
  best :
      (parts : Parts)
      → Cut begun s parts.more parts.space parts.param
      → ((m sp q : Bytes)
          → only m
          → Cut begun s m sp q
          → (length m < length parts.more)
            ⊎ ((length m ≡ length parts.more) × (length sp ≤ length parts.space)))
      → Best begun s only (some parts)

abbrev NoLetter : Bytes → Type 0
NoLetter m = m ≡ []

abbrev Any : Bytes → Type 0
Any m = Unit

length-Cut :
    (begun : Bool) (s m sp q : Bytes)
    → Cut begun s m sp q
    → length s ≡ length m + (length sp + length q)
length-Cut begun s m sp q cut =
    ap length cut.whole ∙ length-append m (sp ++ q) ∙ ap (λ n. length m + n) (length-append sp q)

Cut-nil : (begun : Bool) (m sp q : Bytes) → Cut begun [] m sp q → ⊥
Cut-nil begun m sp q cut =
    let size = length-Cut begun [] m sp q cut in let full = cut.param_some in absurd (omega arith)

no_letter_false : (s m sp q : Bytes) → m ≡ [] → Cut false s m sp q → ⊥
no_letter_false s m sp q e cut = ground (arith, cut.some_letter, ap length e)

-- With no letter, the space is taken only where it stands.
no_letter_space :
    (c : ℕ) (s m sp q : Bytes)
    → m ≡ []
    → Cut true (c ∷ s) m sp q
    → (sp ≡ []) ⊎ ((sp ≡ b' ' ∷ []) × (c ≡ b' '))
no_letter_space c s m sp q e cut = go cut.space_opt
  where
    go : (sp ≡ []) ⊎ (sp ≡ b' ' ∷ []) → (sp ≡ []) ⊎ ((sp ≡ b' ' ∷ []) × (c ≡ b' '))
    go (inl h) = inl h
    go (inr h) =
        let same : c ∷ s ≡ b' ' ∷ q =
          cut.whole ∙ ap (λ m. m ++ (sp ++ q)) e ∙ ap (λ sp. sp ++ q) h in
        inr (h, cc)

stop_group-Best : (begun : Bool) (s : Bytes) → Best begun s NoLetter (stop_group begun s)
unfolding stop_group
stop_group-Best false s = nothing (no_letter_false s)
stop_group-Best true [] = nothing (λ m sp q e. Cut-nil true m sp q)
stop_group-Best true (c ∷ []) =
    best _
      (record {
        whole = refl;
        upper = tt;
        some_letter = inl refl;
        space_opt = inl refl;
        param_some = omega arith;
      })
      λ m sp q e cut.
        let size = length-Cut true (c ∷ []) m sp q cut in
        let full = cut.param_some in let none_taken = ap length e in inr (omega arith, omega arith)
stop_group-Best true (c ∷ d ∷ s) = elim (Bool-cases (c == b' ')) [
  | inl h ↦ rw h (
      best _
        (record {
          whole = refl;
          upper = tt;
          some_letter = inl refl;
          space_opt = inr (ap (λ x. x ∷ []) ((==_iff c b' ').0 h));
          param_some = omega arith;
        })
        λ m sp q e cut. inr (ap length e, at_most_one (no_letter_space c (d ∷ s) m sp q e cut)))
  | inr h ↦ rw h (
      best _
        (record {
          whole = refl;
          upper = tt;
          some_letter = inl refl;
          space_opt = inl refl;
          param_some = omega arith;
        })
        λ m sp q e cut. inr (ap length e, no_space (no_letter_space c (d ∷ s) m sp q e cut) h))
]
  where
    at_most_one : {sp : Bytes} → (sp ≡ []) ⊎ ((sp ≡ b' ' ∷ []) × (c ≡ b' ')) → length sp ≤ 1
    at_most_one (inl e) = let size = ap length e in omega arith
    at_most_one (inr e) = let size = ap length e.0 in omega arith

    no_space :
        {sp : Bytes}
        → (sp ≡ []) ⊎ ((sp ≡ b' ' ∷ []) × (c ≡ b' '))
        → (c == b' ') ≡ false
        → length sp ≤ 0
    no_space (inl e) h = let size = ap length e in omega arith
    no_space (inr e) h = ground arith
