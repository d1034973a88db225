-- ===== src/Glib/Regex/Facts.antt =====
-- What the match of the message pattern is, for the forms that a message takes.
use gst_playd.Base.{ℕ, ◌+◌, ◌≤◌, ◌<◌, ◌≡◌, refl, ap, ◌∙◌, arith, ◌⊎◌, inl, inr, Option, none, some}
use gst_playd.Base.{
  [], ◌∷◌, ◌++◌, Bytes, length, length-append, All, All-append_left, IsText, sym, Option-cases,
}
use gst_playd.Glib.Regex.{Regex, IsUpper, IsPlain, Split, Greedy, message_pattern}

-- Two splittings of one list into parts of the same lengths.
append_same :
    (xs ys xs' ys' : Bytes)
    → length xs ≡ length xs'
    → xs ++ ys ≡ xs' ++ ys'
    → (xs ≡ xs') × (ys ≡ ys')
append_same [] ys [] ys' h e = (refl, e)
append_same [] ys (x ∷ xs') ys' h e = absurd (omega arith)
append_same (x ∷ xs) ys [] ys' h e = absurd (omega arith)
append_same (x ∷ xs) ys (x' ∷ xs') ys' h e = ground (arith, append_same xs ys xs' ys' (omega arith))

-- Capital letters do not go on over a space.
upper_stops : (p r p' q : Bytes) → All IsUpper p → p ++ r ≡ p' ++ b' ' ∷ q → length p ≤ length p'
upper_stops [] r p' q h e = omega arith
upper_stops (c ∷ p) r [] q h e = let same : c ≡ b' ' = cc in absurd (omega arith)
upper_stops (c ∷ p) r (c' ∷ p') q h e = omega (arith, upper_stops p r p' q h.1 (cc))

-- The rest behind a prefix of known length, with the space taken or not.
rest_parts :
    (space param : Bytes) {rest : Bytes}
    → (space ≡ []) ⊎ (space ≡ b' ' ∷ [])
    → space ++ param ≡ rest
    → ((space ≡ []) × (param ≡ rest)) ⊎ ((space ≡ b' ' ∷ []) × (b' ' ∷ param ≡ rest))
rest_parts space param (inl h) e = inl (h, ap (λ s. s ++ param) (sym h) ∙ e)
rest_parts space param (inr h) e = inr (h, ap (λ s. s ++ param) (sym h) ∙ e)

spaced_parts :
    (prefix param : Bytes) (group : ℕ → Option Bytes)
    → Split (prefix ++ b' ' ∷ param) prefix (b' ' ∷ []) param
    → (g : Greedy (prefix ++ b' ' ∷ param) group) → (g.prefix ≡ prefix) × (g.param ≡ param)
spaced_parts prefix param group split g =
    let bound =
      upper_stops g.prefix (g.space ++ g.param) prefix param g.split.upper (sym g.split.whole) in
    let longest = g.longest prefix (b' ' ∷ []) param split in
    let same =
      append_same g.prefix (g.space ++ g.param) prefix (b' ' ∷ param) (omega arith)
        (sym g.split.whole) in
    (same.0, param_same (rest_parts g.space g.param g.split.space_opt same.1) (omega arith))
  where
    param_same :
        ((g.space ≡ []) × (g.param ≡ b' ' ∷ param))
          ⊎ ((g.space ≡ b' ' ∷ []) × (b' ' ∷ g.param ≡ b' ' ∷ param))
        → 1 ≤ length g.space
        → g.param ≡ param
    param_same (inl h) some_space = let none_space = ap length h.0 in absurd (omega arith)
    param_same (inr h) some_space = cc (h.1)

bare_parts :
    (prefix : Bytes) (c : ℕ) (group : ℕ → Option Bytes)
    → Split (prefix ++ c ∷ []) prefix [] (c ∷ [])
    → (g : Greedy (prefix ++ c ∷ []) group) → (g.prefix ≡ prefix) × (g.param ≡ c ∷ [])
bare_parts prefix c group split g =
    let total : length prefix + 1 ≡ length g.prefix + (length g.space + length g.param) =
      sym (length-append prefix (c ∷ []))
      ∙ ap length g.split.whole
      ∙ length-append g.prefix (g.space ++ g.param)
      ∙ ap (λ n. length g.prefix + n) (length-append g.space g.param) in
    let longest = g.longest prefix [] (c ∷ []) split in
    let some_param = g.split.param_some in
    let same =
      append_same g.prefix (g.space ++ g.param) prefix (c ∷ []) (omega arith) (sym g.split.whole) in
    (same.0, param_same (rest_parts g.space g.param g.split.space_opt same.1) (omega arith))
  where
    param_same :
        ((g.space ≡ []) × (g.param ≡ c ∷ [])) ⊎ ((g.space ≡ b' ' ∷ []) × (b' ' ∷ g.param ≡ c ∷ []))
        → length g.space ≡ 0
        → g.param ≡ c ∷ []
    param_same (inl h) no_space = h.1
    param_same (inr h) no_space = let one_space = ap length h.0 in absurd (omega arith)

module _ (regex : Regex) where
  -- The two groups that a subject is matched with.
  pub record Matched (s prefix param : Bytes) : Type 0 where
    pub group : ℕ → Option Bytes
    pub matched : regex.match message_pattern s ≡ some group
    pub first : group 1 ≡ some prefix
    pub second : group 2 ≡ some param

  Matched-Split :
      (s prefix space param : Bytes)
      → IsPlain s
      → Split s prefix space param
      → ((group : ℕ → Option Bytes) (g : Greedy s group) → (g.prefix ≡ prefix) × (g.param ≡ param))
      → Matched s prefix param
  Matched-Split s prefix space param plain split same =
      go (Option-cases (regex.match message_pattern s))
    where
      go :
          (regex.match message_pattern s ≡ none)
            ⊎ ((group : ℕ → Option Bytes) × (regex.match message_pattern s ≡ some group))
          → Matched s prefix param
      go (inl e) = absurd (regex.match-none s prefix space param plain e split)
      go (inr (group, e)) =
          let g = regex.match-some s group plain e in
          record {
            group = group;
            matched = e;
            first = g.first ∙ ap some (same group g).0;
            second = g.second ∙ ap some (same group g).1;
          }

  -- A command word, a space and an argument.
  pub match-spaced :
      (prefix param : Bytes)
      → All IsUpper prefix
      → 0 < length prefix
      → 0 < length param
      → IsPlain (prefix ++ b' ' ∷ param)
      → Matched (prefix ++ b' ' ∷ param) prefix param
  match-spaced prefix param upper some_prefix some_param plain =
      let split : Split (prefix ++ b' ' ∷ param) prefix (b' ' ∷ []) param = record {
        whole = refl;
        upper = upper;
        prefix_some = some_prefix;
        space_opt = inr refl;
        param_some = some_param;
      } in
      Matched-Split (prefix ++ b' ' ∷ param) prefix (b' ' ∷ []) param plain split
        λ group g. spaced_parts prefix param group split g

  -- A command word alone: its last letter is the argument.
  pub match_bare :
      (prefix : Bytes) (c : ℕ)
      → All IsUpper (prefix ++ c ∷ [])
      → 0 < length prefix
      → IsPlain (prefix ++ c ∷ [])
      → Matched (prefix ++ c ∷ []) prefix (c ∷ [])
  match_bare prefix c upper some_prefix plain =
      let split : Split (prefix ++ c ∷ []) prefix [] (c ∷ []) = record {
        whole = refl;
        upper = All-append_left IsUpper prefix (c ∷ []) upper;
        prefix_some = some_prefix;
        space_opt = inl refl;
        param_some = omega arith;
      } in
      Matched-Split (prefix ++ c ∷ []) prefix [] (c ∷ []) plain split
        λ group g. bare_parts prefix c group split g

-- Printable ASCII holds no NUL.
pub IsPlain-IsText : (s : Bytes) → IsPlain s → IsText s
IsPlain-IsText [] h = tt
IsPlain-IsText (c ∷ s) ((low, high), rest) = (omega arith, IsPlain-IsText s rest)
