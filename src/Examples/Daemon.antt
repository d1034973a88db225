-- ===== src/Examples/Daemon.antt =====
-- The messages and the main loop of src/gst_playd.c on the host on which every call succeeds.
use gst_playd.Base.{
  ◌≡◌, refl, arith, true, false, some, none, List, [], ◌∷◌, codes, Bytes, All, str_equal,
}
use gst_playd.Daemon.Events.{parse_message-ping}
use gst_playd.Parser.{parse_message}
use gst_playd.Host.{PubsubCtx, zmq_send}
use gst_playd.Daemon.Main.{register_operations, g_main_loop_run, timer}
use gst_playd.Daemon.Messages.{handle_queued}
use gst_playd.Daemon.Quit.{g_main_loop_run-quit, after_quit, server_closure}
use gst_playd.Daemon.Registered.{register_operations-commands, Runs, commands}
use gst_playd.Daemon.Received.{attend, left_on, handle_queued-attend}
use gst_playd.Daemon.Replies.{queue}
use gst_playd.Examples.TestHost.{host, blank, titled}
use gst_playd.Glib.HashTable.{HashTable, assoc_table}
use gst_playd.Glib.Regex.Engine.Search.{backtracking}
use gst_playd.Host.{World, Received, message, failed, eintr, other, g_main_loop_quit}
use gst_playd.Operations.{OpContext, Process, services, playback}
use gst_playd.Operations.Control.{op_pubsub_parse, op_quit_parse}
use gst_playd.Operations.Ping.{op_ping_parse}
use gst_playd.Operations.Play.Handlers.{
  op_playback_new, op_play_parse, op_stop_parse, op_dumpgraph_parse, op_playback_register,
}
use gst_playd.Operations.Play.TagsPipeline.{op_tags_parse}
use gst_playd.Parser.{RegEntryWithCtx, ParseCtx, parse_new, parse_register_plugin, register_with}
use gst_playd.Parser.Register.{register_all}

abbrev table : HashTable (RegEntryWithCtx Process OpContext)
table = assoc_table (RegEntryWithCtx Process OpContext)

abbrev registered : ParseCtx table × World
registered = elim (register_operations host titled table blank) [
  | none ↦ (parse_new table, blank)
  | some r ↦ r
]

operations_registered :
    register_operations host titled table blank ≡ some (registered.0, registered.1)
unfolding register_all parse_register_plugin register_with op_playback_new op_playback_register
operations_registered = refl

register_operations-commands_example :
    Runs host titled table registered.0 (codes "PING") services op_ping_parse
    × Runs host titled table registered.0 (codes "PUBSUB") services op_pubsub_parse
    × Runs host titled table registered.0 (codes "QUIT") services op_quit_parse
    × Runs host titled table registered.0 (codes "TAGS") playback (op_tags_parse host titled)
    × Runs host titled table registered.0 (codes "PLAY") playback (op_play_parse host)
    × Runs host titled table registered.0 (codes "STOP") playback (op_stop_parse host)
    × Runs host titled table registered.0 (codes "DUMPGRAPH") playback (op_dumpgraph_parse host)
    × ((k : Bytes)
        → All (λ c. str_equal c k ≡ false) commands
        → table.lookup k registered.0.message_table ≡ none)
register_operations-commands_example =
    register_operations-commands host titled table registered.0 blank registered.1
      operations_registered

g_main_loop_run-quit_example :
    g_main_loop_run host titled table backtracking
      (server_closure host titled table backtracking 0 registered.0)
      (timer (queue (codes "QUIT now" ∷ [])) ∷ timer (message (codes "PING x") ∷ []) ∷ [])
      blank
    ≡ some (
      true,
      record (after_quit host titled table backtracking 0 (codes "now") blank) {
        calls =
            g_main_loop_quit
            ∷ (after_quit host titled table backtracking 0 (codes "now") blank).calls;
      },
    )
g_main_loop_run-quit_example =
    g_main_loop_run-quit host titled table backtracking registered.0 0 (codes "now")
      (message (codes "PING x") ∷ []) [] blank blank registered.1 operations_registered
      (omega arith) (omega arith) refl

-- An interrupted call, two texts, a failure, and a text behind it.
abbrev incoming : List Received
incoming =
    failed eintr
    ∷ message (codes "STOP 5")
    ∷ message (codes "what")
    ∷ failed (other 9)
    ∷ message (codes "PING x")
    ∷ []

handle_queued-attend_example :
    handle_queued table backtracking
      (record { zmq_socket = some 0; parse_ctx = some registered.0; pubsub_mode = false })
      incoming
      blank
    ≡ left_on table backtracking (attend table backtracking 0 registered.0 incoming blank)
handle_queued-attend_example = handle_queued-attend table backtracking 0 registered.0 incoming blank

abbrev events : PubsubCtx
events = record { sock = some 0; addr = codes "tcp://127.0.0.1:18001" }

abbrev publishing : World
publishing = record blank { pub_sub = some events }

parse_message-ping_example :
    parse_message table backtracking registered.0 (codes "PING hi") (some publishing) ≡ (
      codes "OK Message was hi",
      some (record publishing { calls = zmq_send (some 0) (codes "OK Message was hi") ∷ [] }),
    )
parse_message-ping_example =
    parse_message-ping host titled table backtracking registered.0 (codes "hi") events publishing
      blank registered.1 operations_registered (omega arith) (omega arith) refl
