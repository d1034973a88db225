-- ===== src/Parser/Dispatch.antt =====
-- `parse_message` of src/parser.c, for the forms that a message takes.
use gst_playd.Base.{
  ℕ, ◌<◌, ◌≤◌, ◌≡◌, refl, ◌∙◌, arith, Option, none, some, [], ◌∷◌, ◌++◌, Bytes, length, All,
  Option-cases, ◌⊎◌, inl, inr,
}
use gst_playd.Glib.HashTable.{HashTable}
use gst_playd.Glib.Regex.{Regex, Split, IsUpper, IsPlain, message_pattern}
use gst_playd.Glib.Regex.Facts.{Matched, match-spaced, match_bare}
use gst_playd.Parser.{
  RegEntryWithCtx, ParseCtx, invalid_message, call_handler, dispatch, parse_message,
}

-- The first group of the match of a message, where there is one.
abbrev pub command_word : Regex → Bytes → Option Bytes
command_word regex message = elim (regex.match message_pattern message) [
  | none ↦ none
  | some group ↦ group 1
]

-- The second group.
abbrev pub command_param : Regex → Bytes → Option Bytes
command_param regex message = elim (regex.match message_pattern message) [
  | none ↦ none
  | some group ↦ group 2
]

module _ {World Ctx : Type 0} (table : HashTable (RegEntryWithCtx World Ctx)) (regex : Regex)
    (parser : ParseCtx table) where
  -- What a command word with an argument comes to: the handler that is registered for the word is
  -- called with the argument; with none the reply says that the message is invalid and the world
  -- is left alone.
  unfoldable pub call_registered : Bytes → Bytes → World → Bytes × World
  call_registered prefix param w = elim (table.lookup prefix parser.message_table) [
    | none ↦ (invalid_message, w)
    | some e ↦ e.parser (some param) e.plugin_context w
  ]

  call_handler-lookup :
      (prefix param : Bytes) (w : World)
      → call_handler table (table.lookup prefix parser.message_table) (some param) w
        ≡ call_registered prefix param w
  unfolding call_handler call_registered
  call_handler-lookup prefix param w = go (table.lookup prefix parser.message_table)
    where
      go :
          (o : Option (RegEntryWithCtx World Ctx))
          → call_handler table o (some param) w ≡ elim o [
            | none ↦ (invalid_message, w)
            | some e ↦ e.parser (some param) e.plugin_context w
          ]
      go none = refl
      go (some e) = refl

  parse_message-Matched :
      (s prefix param : Bytes) (w : World)
      → Matched regex s prefix param
      → parse_message table regex parser s w ≡ call_registered prefix param w
  unfolding parse_message
  parse_message-Matched s prefix param w m =
      rw (parse_message, m.matched, dispatch, m.first, m.second)
        (call_handler-lookup prefix param w)

  -- A message of printable ASCII, "WORD argument" with a word of capital letters, a space and an
  -- argument, neither of them empty, runs what is registered for the word, on the argument as it stands.
  pub parse_message-spaced :
      (prefix param : Bytes) (w : World)
      → All IsUpper prefix
      → 0 < length prefix
      → 0 < length param
      → IsPlain (prefix ++ b' ' ∷ param)
      → parse_message table regex parser (prefix ++ b' ' ∷ param) w ≡ call_registered prefix param w
  parse_message-spaced prefix param w upper some_prefix some_param plain =
      parse_message-Matched _ prefix param w
        (match-spaced regex prefix param upper some_prefix some_param plain)

  -- A bare word of two or more capital letters is never run as itself: its last letter is taken for the
  -- argument of the word without it.
  pub parse_message_bare :
      (prefix : Bytes) (c : ℕ) (w : World)
      → All IsUpper (prefix ++ c ∷ [])
      → 0 < length prefix
      → IsPlain (prefix ++ c ∷ [])
      → parse_message table regex parser (prefix ++ c ∷ []) w ≡ call_registered prefix (c ∷ []) w
  parse_message_bare prefix c w upper some_prefix plain =
      parse_message-Matched _ prefix (c ∷ []) w (match_bare regex prefix c upper some_prefix plain)

  -- A message of printable ASCII that begins with anything but a capital letter is invalid, and changes
  -- nothing.
  pub parse_message_invalid :
      (c : ℕ) (s : Bytes) (w : World)
      → (IsUpper c → ⊥)
      → IsPlain (c ∷ s)
      → parse_message table regex parser (c ∷ s) w ≡ (invalid_message, w)
  unfolding parse_message
  parse_message_invalid c s w lower plain =
      elim (Option-cases (regex.match message_pattern (c ∷ s))) [
        | inl e ↦ rw (parse_message, e)
        | inr (group, e) ↦ absurd (no_split (regex.match-some (c ∷ s) group plain e).split)
      ]
    where
      no_split : {p sp q : Bytes} → Split (c ∷ s) p sp q → ⊥
      no_split {p} {sp} {q} split = go p split.whole split.upper split.prefix_some
        where
          go : (p : Bytes) → c ∷ s ≡ p ++ (sp ++ q) → All IsUpper p → 0 < length p → ⊥
          go [] whole upper nonempty = absurd (omega arith)
          go (d ∷ p) whole upper nonempty = let same : c ≡ d = cc in lower (rw same upper.0)

  -- A message with a command word runs the handler that is registered for the word, on the second group.
  pub parse_message_word :
      (message prefix : Bytes) (e : RegEntryWithCtx World Ctx)
      → command_word regex message ≡ some prefix
      → table.lookup prefix parser.message_table ≡ some e
      → (w : World)
      → parse_message table regex parser message w
        ≡ e.parser (command_param regex message) e.plugin_context w
  unfolding parse_message
  parse_message_word message prefix e word found w =
      elim (Option-cases (regex.match message_pattern message)) [
        | inl none_found ↦
            let missing : command_word regex message ≡ none = rw (command_word, none_found) refl in
            absurd (cc)
        | inr (group, matched) ↦
            let first : group 1 ≡ some prefix = rw (command_word, matched) at word in
            rw (parse_message, command_param, matched, dispatch, first, found, call_handler) refl
      ]

  -- Whatever the message, the reply is that it is invalid and the world is left alone, or the
  -- handler of the message that is registered for its command word has run and its reply is passed on.
  pub parse_message_cases :
      (message : Bytes) (w : World)
      → (parse_message table regex parser message w ≡ (invalid_message, w))
        ⊎ ((prefix : Bytes) × (param : Option Bytes) × (e : RegEntryWithCtx World Ctx)
            × (command_word regex message ≡ some prefix)
            × (table.lookup prefix parser.message_table ≡ some e)
            × (parse_message table regex parser message w ≡ e.parser param e.plugin_context w))
  unfolding parse_message
  parse_message_cases message w = elim (Option-cases (regex.match message_pattern message)) [
    | inl e ↦ inl (rw (parse_message, e))
    | inr (group, e) ↦ elim (Option-cases (group 1)) [
      | inl e1 ↦ inl (rw (parse_message, e, dispatch, e1))
      | inr (prefix, e1) ↦
          let word : command_word regex message ≡ some prefix = rw (command_word, e) e1 in
          elim (Option-cases (table.lookup prefix parser.message_table)) [
            | inl e2 ↦ inl (rw (parse_message, e, dispatch, e1, e2, call_handler))
            | inr (entry, e2) ↦ inr (
              prefix,
              command_param regex message,
              entry,
              word,
              e2,
              parse_message_word message prefix entry word e2 w,
            )
          ]
    ]
  ]

  -- A message of printable ASCII that no word of capital letters begins, with something behind it, is
  -- invalid and changes nothing. Every other is a word, at most one space, and an argument that is not
  -- empty, with the longest word that there is and then the space if there is one: what is registered
  -- for this word runs on this argument; with nothing registered for it, the message is invalid and
  -- changes nothing.
  pub parse_message-Split :
      (message : Bytes) (w : World)
      → IsPlain message
      → (((p sp q : Bytes) → Split message p sp q → ⊥)
          × (parse_message table regex parser message w ≡ (invalid_message, w)))
        ⊎ ((prefix : Bytes) × (space : Bytes) × (param : Bytes) × Split message prefix space param
            × ((p sp q : Bytes)
                → Split message p sp q
                → (length p < length prefix)
                  ⊎ ((length p ≡ length prefix) × (length sp ≤ length space)))
            × (parse_message table regex parser message w ≡ call_registered prefix param w))
  unfolding parse_message
  parse_message-Split message w plain = elim (Option-cases (regex.match message_pattern message)) [
    | inl e ↦
        inl (λ p sp q split. regex.match-none message p sp q plain e split, rw (parse_message, e))
    | inr (group, e) ↦
        let m = regex.match-some message group plain e in
        inr (
          m.prefix,
          m.space,
          m.param,
          m.split,
          m.longest,
          parse_message-Matched message m.prefix m.param w
              (record { group = group; matched = e; first = m.first; second = m.second }),
        )
  ]

  -- For a message of printable ASCII the handler has run on a piece of the message, behind a word of
  -- capital letters and at most one space.
  pub parse_message_plain :
      (message : Bytes) (w : World)
      → IsPlain message
      → (parse_message table regex parser message w ≡ (invalid_message, w))
        ⊎ ((prefix : Bytes) × (space : Bytes) × (param : Bytes) × (e : RegEntryWithCtx World Ctx)
            × Split message prefix space param
            × (table.lookup prefix parser.message_table ≡ some e)
            × (parse_message table regex parser message w
                ≡ e.parser (some param) e.plugin_context w))
  unfolding call_registered
  parse_message_plain message w plain = elim (parse_message-Split message w plain) [
    | inl (no_split, invalid) ↦ inl invalid
    | inr (prefix, space, param, split, longest, ran) ↦
        elim (Option-cases (table.lookup prefix parser.message_table)) [
          | inl missing ↦ inl (ran ∙ rw (call_registered, missing) refl)
          | inr (e, found) ↦
              inr (prefix, space, param, e, split, found, ran ∙ rw (call_registered, found) refl)
        ]
  ]
