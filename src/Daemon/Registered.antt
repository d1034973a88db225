-- ===== src/Daemon/Registered.antt =====
-- What each of the commands of src/gst_playd.c runs.
use gst_playd.Base.{◌≡◌, refl, ap, ◌∙◌, false, Option, none, some, List, [], ◌∷◌, Bytes, codes}
use gst_playd.Base.{All, str_equal}
use gst_playd.Daemon.Main.{register_operations}
use gst_playd.Daemon.Commands.{entry, all_messages, message_table-register_operations}
use gst_playd.Glib.HashTable.{HashTable}
use gst_playd.Host.{Host, World}
use gst_playd.Host.Actions.{Action}
use gst_playd.Operations.{OpContext, services, playback, Process}
use gst_playd.Operations.Control.{op_pubsub_parse, op_quit_parse, control_messages}
use gst_playd.Operations.Ping.{op_ping_parse, ping_messages}
use gst_playd.Operations.Play.TagsPipeline.{op_tags_parse}
use gst_playd.Operations.Play.Handlers.{
  op_play_parse, op_stop_parse, op_dumpgraph_parse, playback_messages,
}
use gst_playd.Operations.Play.TagsPipeline.{TagReader}
use gst_playd.Parser.{RegEntryWithCtx, ParseCtx}
use gst_playd.Parser.Register.{lookup-register_messages, entry_of, entry_of-none, or_else}

abbrev pub commands : List Bytes
commands =
    codes "PING"
    ∷ codes "PUBSUB"
    ∷ codes "QUIT"
    ∷ codes "TAGS"
    ∷ codes "PLAY"
    ∷ codes "STOP"
    ∷ codes "DUMPGRAPH"
    ∷ []

module _ (host : Host) (tag_reader : TagReader)
    (table : HashTable (RegEntryWithCtx Process OpContext)) where
  pub lookup-all_messages :
      (k : Bytes)
      → table.lookup k (all_messages host tag_reader table)
        ≡ or_else table (entry_of table playback k (playback_messages host tag_reader)) (
            or_else table
              (entry_of table services k control_messages)
              (or_else table (entry_of table services k ping_messages) none))
  lookup-all_messages k =
      lookup-register_messages table playback k (playback_messages host tag_reader) _
      ∙ ap (or_else table (entry_of table playback k (playback_messages host tag_reader))) (
          lookup-register_messages table services k control_messages _
          ∙ ap (or_else table (entry_of table services k control_messages)) (
              lookup-register_messages table services k ping_messages table.new
              ∙ ap (or_else table (entry_of table services k ping_messages)) (table.lookup-new k)))

  -- What the three tables give for a word, the newest first.
  abbrev lookup_tables : Bytes → Option (RegEntryWithCtx Process OpContext)
  lookup_tables k = or_else table (entry_of table playback k (playback_messages host tag_reader)) (
      or_else table (entry_of table services k control_messages)
        (or_else table (entry_of table services k ping_messages) none))

  lookup_tables-none :
      (k : Bytes) → All (λ c. str_equal c k ≡ false) commands → lookup_tables k ≡ none
  lookup_tables-none k (ping, (pubsub, (quit, played))) =
      rw
        (
          entry_of-none table playback k (playback_messages host tag_reader) played,
          entry_of-none table services k control_messages (pubsub, (quit, tt)),
          entry_of-none table services k ping_messages (ping, tt),
        )
        refl

  -- The command runs `op` with the context `ctx`.
  abbrev pub Runs :
      ParseCtx table → Bytes → OpContext → (Option Bytes → OpContext → Action Bytes) → Type 0
  Runs parser k ctx op =
      table.lookup k parser.message_table ≡ some (entry host tag_reader table k ctx op)

  -- Once the plugins are registered, each of the seven commands runs its own handler with the context
  -- of its plugin, and nothing is registered for any other word.
  pub register_operations-commands :
      (parser : ParseCtx table) (w w' : World)
      → register_operations host tag_reader table w ≡ some (parser, w')
      → Runs parser (codes "PING") services op_ping_parse
        × Runs parser (codes "PUBSUB") services op_pubsub_parse
        × Runs parser (codes "QUIT") services op_quit_parse
        × Runs parser (codes "TAGS") playback (op_tags_parse host tag_reader)
        × Runs parser (codes "PLAY") playback (op_play_parse host)
        × Runs parser (codes "STOP") playback (op_stop_parse host)
        × Runs parser (codes "DUMPGRAPH") playback (op_dumpgraph_parse host)
        × ((k : Bytes)
            → All (λ c. str_equal c k ≡ false) commands
            → table.lookup k parser.message_table ≡ none)
  unfolding str_equal
  register_operations-commands parser w w' e =
      let found : (k : Bytes) → table.lookup k parser.message_table ≡ lookup_tables k = λ k.
        ap (table.lookup k) (message_table-register_operations host tag_reader table parser w w' e)
        ∙ lookup-all_messages k in
      (
        found (codes "PING"),
        found (codes "PUBSUB"),
        found (codes "QUIT"),
        found (codes "TAGS"),
        found (codes "PLAY"),
        found (codes "STOP"),
        found (codes "DUMPGRAPH"),
        λ k others. found k ∙ lookup_tables-none k others,
      )
