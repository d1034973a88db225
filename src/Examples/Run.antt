-- ===== src/Examples/Run.antt =====
-- A server of src/gst_playd.c from start to end, on the host on which every call succeeds.
use gst_playd.Base.{◌≡◌, refl, arith, false, some, none, [], ◌∷◌, codes}
use gst_playd.Daemon.Main.{
  register_operations, main, timer, Started, exit, running, start_server, shut_down, serve_events,
}
use gst_playd.Daemon.Messages.{TimerClosure}
use gst_playd.Daemon.Process.{prologue, context_of, destroyed}
use gst_playd.Daemon.Release.{server_freed, shut_down-server}
use gst_playd.Daemon.Replies.{queue}
use gst_playd.Daemon.Run.{server_options, quitting, main-quit}
use gst_playd.Daemon.Sockets.{create_server_socket, bind_server}
use gst_playd.Daemon.Started.{server}
use gst_playd.Examples.TestHost.{host, blank, titled}
use gst_playd.Glib.HashTable.{HashTable, assoc_table}
use gst_playd.Glib.Regex.Engine.Search.{backtracking}
use gst_playd.Host.{World, PubsubCtx, SourceItem, message}
use gst_playd.Operations.{OpContext, Process}
use gst_playd.Operations.Play.Handlers.{op_playback_new, op_playback_register}
use gst_playd.Parser.{RegEntryWithCtx, ParseCtx, parse_new, parse_register_plugin, register_with}
use gst_playd.Parser.Register.{register_all}
use gst_playd.Pubsub.{pubsub_new, bind_or_free}

abbrev pub table : HashTable (RegEntryWithCtx Process OpContext)
table = assoc_table (RegEntryWithCtx Process OpContext)

abbrev pub registered : ParseCtx table × World
registered = elim (register_operations host titled table blank) [
  | none ↦ (parse_new table, blank)
  | some r ↦ r
]

pub operations_registered :
    register_operations host titled table blank ≡ some (registered.0, registered.1)
unfolding register_all parse_register_plugin register_with op_playback_new op_playback_register
operations_registered = refl

-- Two sources play.
abbrev first_source : SourceItem
first_source = record {
  address = 4096;
  uri = codes "a";
  created_at = 1000;
  element = some 5;
  ac = some 6;
}

abbrev second_source : SourceItem
second_source = record first_source { address = 8192; element = some 7; ac = some 8 }

abbrev pub events_socket : PubsubCtx
events_socket = record { sock = some 0; addr = codes "tcp://127.0.0.1:18001" }

abbrev two_playing : World
two_playing = record blank {
  pub_sub = some events_socket;
  playback = record blank.playback { sources = second_source ∷ first_source ∷ [] };
}

shut_down-server_example :
    shut_down host titled table backtracking
      (record { zmq_socket = some 9; parse_ctx = some registered.0; pubsub_mode = false })
      two_playing
    ≡ some (
      0,
      record two_playing {
        calls =
            server_freed host titled table backtracking
              (some 9)
              events_socket
              two_playing.playback
              [];
      },
    )
shut_down-server_example =
    shut_down-server host titled table backtracking registered.0 (some 9) events_socket blank
      registered.1 two_playing operations_registered refl (refl, (refl, tt))

-- The server as it enters its main loop.
abbrev begun : World
begun = record blank { calls = prologue host [] (codes "/") (server_options 8000) [] }

abbrev pub entered : Started host titled table backtracking × World
entered = elim (start_server host titled table backtracking 8000 begun) [
  | none ↦ (running (server host titled table backtracking none (parse_new table)), blank)
  | some r ↦ r
]

abbrev pub closure : TimerClosure table backtracking
closure = elim entered.0 [
  | exit code ↦ server host titled table backtracking none (parse_new table)
  | running c ↦ c
]

pub server_starts :
    start_server host titled table backtracking 8000 begun ≡ some (running closure, entered.1)
unfolding start_server serve_events pubsub_new bind_or_free register_all parse_register_plugin
    register_with op_playback_new op_playback_register create_server_socket bind_server
server_starts = refl

main-quit_example :
    (pub_sub : PubsubCtx) × (entered.1.pub_sub ≡ some pub_sub)
    × (entered.1.playback.sources ≡ [])
    × (main host titled table backtracking []
          (timer (queue (codes "QUIT now" ∷ [])) ∷ timer (message (codes "PING x") ∷ []) ∷ [])
          blank
        ≡ some (
          some 0,
          record (quitting host titled table backtracking 19 (codes "now") entered.1) {
            calls = destroyed host (context_of host [] (codes "/") (server_options 8000) []) (
                server_freed host titled table backtracking
                  (some 19)
                  pub_sub
                  entered.1.playback
                  (quitting host titled table backtracking 19 (codes "now") entered.1).calls);
          },
        ))
unfolding start_server serve_events pubsub_new bind_or_free register_all parse_register_plugin
    register_with op_playback_new op_playback_register create_server_socket bind_server
main-quit_example =
    main-quit host titled table backtracking [] (codes "/") 8000 19 (codes "now")
      (message (codes "PING x") ∷ []) [] closure blank entered.1
      (record { finds = refl; parses = refl }) server_starts refl (omega arith) (omega arith)
