-- ===== src/Glib/Regex.antt =====
-- A `GRegex`: what GLib documents of the match of "^([A-Z]+)[ ]?(.+)$", the pattern of
-- src/parser.c, against a subject of printable ASCII characters.
pub mod Engine
pub mod Facts
use gst_playd.Base.{ℕ, ◌≤◌, ◌<◌, ◌≡◌, ◌⊎◌, Option, none, some, [], ◌∷◌, ◌++◌, Bytes, codes}
use gst_playd.Base.{length, All}

abbrev pub message_pattern : Bytes
message_pattern = codes "^([A-Z]+)[ ]?(.+)$"

abbrev pub IsUpper : ℕ → Type 0
IsUpper c = (b'A' ≤ c) × (c ≤ b'Z')

-- Printable ASCII: valid UTF-8 with no character that ends a line.
abbrev pub IsPlain : Bytes → Type 0
IsPlain s = All (λ c. (b' ' ≤ c) × (c < 127)) s

-- A way to match: what the two groups take, and what the optional space takes between them.
pub record Split (s prefix space param : Bytes) : Type 0 where
  pub whole : s ≡ prefix ++ (space ++ param)
  pub upper : All IsUpper prefix
  pub prefix_some : 0 < length prefix
  pub space_opt : (space ≡ []) ⊎ (space ≡ b' ' ∷ [])
  pub param_some : 0 < length param

-- The match that is found is the one that the greedy quantifiers prefer: the longest first group,
-- then the space if it can be taken.
pub record Greedy (s : Bytes) (group : ℕ → Option Bytes) : Type 0 where
  pub prefix : Bytes
  pub space : Bytes
  pub param : Bytes
  pub split : Split s prefix space param
  pub first : group 1 ≡ some prefix
  pub second : group 2 ≡ some param
  pub longest :
      (p sp q : Bytes)
      → Split s p sp q
      → (length p < length prefix) ⊎ ((length p ≡ length prefix) × (length sp ≤ length space))

-- `g_regex_match` of a pattern and a subject: no match, or what `g_match_info_fetch` gives.
pub record Regex : Type 0 where
  pub match : Bytes → Bytes → Option (ℕ → Option Bytes)
  pub match-none :
      (s p sp q : Bytes) → IsPlain s → match message_pattern s ≡ none → Split s p sp q → ⊥
  pub match-some :
      (s : Bytes) (group : ℕ → Option Bytes)
      → IsPlain s
      → match message_pattern s ≡ some group
      → Greedy s group
