-- ===== src/Examples/Parser.antt =====
-- src/parser.c with two plugins that count their calls.
use gst_playd.Base.{ℕ, ◌+◌, ◌≡◌, refl, arith, some, none, List, [], ◌∷◌, ◌++◌, codes, Bytes}
use gst_playd.Base.{◌⊎◌, str_equal, length, ◌<◌, ◌≤◌}
use gst_playd.Glib.Regex.{Split}
use gst_playd.Glib.HashTable.{HashTable, assoc_table}
use gst_playd.Glib.Regex.Engine.Search.{backtracking, run}
use gst_playd.Parser.{
  MessageDispatchEntry, ParserPluginEntry, RegEntryWithCtx, ParseCtx, parse_new, parse_free,
  parse_register_plugin, register_messages, parse_message, invalid_message,
}
use gst_playd.Parser.Register.{register_all, parse_free-register_all}
use gst_playd.Parser.Dispatch.{
  call_registered, parse_message-spaced, parse_message_bare, parse_message-Split,
}

-- The world is the list of what was done, newest first; a context is a number.
abbrev World : Type 0
World = List ℕ

abbrev table : HashTable (RegEntryWithCtx World ℕ)
table = assoc_table (RegEntryWithCtx World ℕ)

-- A line that is printed.
abbrev print : Bytes → World → World
print text w = length text ∷ w

abbrev echo : MessageDispatchEntry World ℕ
echo = record {
  prefix = codes "ECHO";
  op_parse = λ param ctx w. (elim param [ none ↦ [] | some p ↦ p ], ctx ∷ w);
}

abbrev plugin : ℕ → List (MessageDispatchEntry World ℕ) → ParserPluginEntry World ℕ
plugin n msgs = record {
  friendly_name = codes "Plugin";
  context = n;
  plugin_new = λ c w. (c, w);
  plugin_register = λ c. some msgs;
  plugin_free = λ c w. (c + 100) ∷ w;
}

abbrev refusing : ParserPluginEntry World ℕ
refusing = record {
  friendly_name = codes "Refusing";
  context = 9;
  plugin_new = λ c w. (c, w);
  plugin_register = λ c. none;
  plugin_free = λ c w. (c + 100) ∷ w;
}

abbrev parser : ParseCtx table
parser = (register_all table print (parse_new table) (plugin 1 (echo ∷ []) ∷ refusing ∷ []) []).0

echo_runs :
    parse_message table backtracking parser (codes "ECHO hello") [] ≡ (codes "hello", 1 ∷ [])
unfolding parse_message run register_all parse_register_plugin register_messages str_equal
echo_runs = refl

echo_alone : parse_message table backtracking parser (codes "ECHO") [] ≡ (invalid_message, [])
unfolding parse_message run register_all parse_register_plugin register_messages str_equal
echo_alone = refl

parse_message-spaced_example :
    parse_message table backtracking parser (codes "ECHO" ++ b' ' ∷ codes "hi") []
    ≡ call_registered table backtracking parser (codes "ECHO") (codes "hi") []
parse_message-spaced_example =
    parse_message-spaced table backtracking parser (codes "ECHO") (codes "hi") [] (omega arith)
      (omega arith) (omega arith) (omega arith)

parse_message_bare_example :
    parse_message table backtracking parser (codes "ECH" ++ b'O' ∷ []) []
    ≡ call_registered table backtracking parser (codes "ECH") (b'O' ∷ []) []
parse_message_bare_example =
    parse_message_bare table backtracking parser (codes "ECH") b'O' [] (omega arith) (omega arith)
      (omega arith)

parse_message-Split_example :
    (((p sp q : Bytes) → Split (codes "ECHO hello") p sp q → ⊥)
      × (parse_message table backtracking parser (codes "ECHO hello") [] ≡ (invalid_message, [])))
    ⊎ ((prefix : Bytes) × (space : Bytes) × (param : Bytes) × Split
          (codes "ECHO hello")
          prefix
          space
          param
        × ((p sp q : Bytes)
            → Split (codes "ECHO hello") p sp q
            → (length p < length prefix)
              ⊎ ((length p ≡ length prefix) × (length sp ≤ length space)))
        × (parse_message table backtracking parser (codes "ECHO hello") []
            ≡ call_registered table backtracking parser prefix param []))
parse_message-Split_example =
    parse_message-Split table backtracking parser (codes "ECHO hello") [] (omega arith)

parse_free-register_all_example :
    parse_free table
      (register_all table print (parse_new table) (plugin 1 [] ∷ refusing ∷ plugin 2 [] ∷ []) []).0
      []
    ≡ 101 ∷ 102 ∷ []
parse_free-register_all_example =
    parse_free-register_all table print (plugin 1 [] ∷ refusing ∷ plugin 2 [] ∷ []) [] []
