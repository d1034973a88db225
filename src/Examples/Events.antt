-- ===== src/Examples/Events.antt =====
-- The events of src/gst_playd.c that a running server reacts to, and the signal that ends it.
use gst_playd.Base.{
  List, ◌≡◌, refl, false, some, none, [], ◌∷◌, codes, ◌++◌, str_equal, c_string, length,
}
use gst_playd.Base.Decimal.{format_unsigned}
use gst_playd.Base.{true}
use gst_playd.Daemon.Asked.{ends}
use gst_playd.Daemon.Asked.Loop.{g_main_loop_run-ends}
use gst_playd.Operations.Control.{op_quit_parse}
use gst_playd.Daemon.Kept.Loop.{g_main_loop_run-Kept}
use gst_playd.Daemon.Main.{
  Event, main, timer, signal, bus, g_main_loop_run, start_server, serve_events,
}
use gst_playd.Daemon.Process.{context_of, destroyed}
use gst_playd.Daemon.Release.{server_freed}
use gst_playd.Daemon.Run.{server_options}
use gst_playd.Daemon.Signal.{signalled, main-signal}
use gst_playd.Daemon.Sockets.{create_server_socket, bind_server}
use gst_playd.Daemon.Started.{server}
use gst_playd.Examples.Run.{
  table, registered, operations_registered, events_socket, entered, closure, server_starts,
}
use gst_playd.Examples.TestHost.{host, blank, titled}
use gst_playd.Glib.Regex.Engine.Search.{run, backtracking}
use gst_playd.Host.{World, PubsubCtx, message}
use gst_playd.Host.Frame.{Kept}
use gst_playd.Operations.Play.Handlers.{
  op_play_parse, warning_message, op_playback_new, op_playback_register,
}
use gst_playd.Parser.{parse_message, register_messages, parse_register_plugin, register_with}
use gst_playd.Parser.Register.{register_all}
use gst_playd.Pubsub.{pubsub_new, bind_or_free}

-- A source is played, and the pipeline warns, before the signal.
abbrev before_signal : List Event
before_signal =
    timer (message (codes "PLAY file:///a") ∷ []) ∷ bus (warning_message (codes "slow")) ∷ []

abbrev still_running : World
still_running =
    elim (g_main_loop_run host titled table backtracking closure before_signal entered.1) [
      | none ↦ blank
      | some r ↦ r.1
    ]

loop_runs :
    g_main_loop_run host titled table backtracking closure before_signal entered.1
    ≡ some (false, still_running)
unfolding start_server serve_events pubsub_new bind_or_free register_all parse_register_plugin
    register_with op_playback_new op_playback_register create_server_socket bind_server
    g_main_loop_run parse_message str_equal run c_string register_messages op_play_parse
    format_unsigned
loop_runs = refl

main-signal_example :
    (pub_sub : PubsubCtx) × (entered.1.pub_sub ≡ some pub_sub)
    × (still_running.playback.pipeline ≡ entered.1.playback.pipeline)
    × (main host titled table backtracking []
          (before_signal ++ signal ∷ timer (message (codes "PING x") ∷ []) ∷ [])
          blank
        ≡ some (
          some 0,
          record (signalled host titled table backtracking still_running) {
            calls = destroyed host (context_of host [] (codes "/") (server_options 8000) []) (
                server_freed host titled table backtracking closure.zmq_socket pub_sub
                  still_running.playback
                  (signalled host titled table backtracking still_running).calls);
          },
        ))
main-signal_example =
    main-signal host titled table backtracking [] (codes "/") 8000 (message (codes "PING x") ∷ [])
      before_signal [] closure blank entered.1 still_running
      (record { finds = refl; parses = refl }) server_starts loop_runs (λ calls. refl)

-- The source is playing when the signal comes.
one_source : length still_running.playback.sources ≡ 1
unfolding start_server serve_events pubsub_new bind_or_free register_all parse_register_plugin
    register_with op_playback_new op_playback_register create_server_socket bind_server
    g_main_loop_run parse_message str_equal run c_string register_messages op_play_parse
    format_unsigned
one_source = refl

-- The same events with the parser and the world of the registration.
abbrev pub publishing : World
publishing = record registered.1 { pub_sub = some events_socket }

abbrev reacted : World
reacted =
    elim (g_main_loop_run host titled table backtracking
      (server host titled table backtracking (some 9) registered.0) before_signal publishing) [
        | none ↦ blank
        | some r ↦ r.1
      ]

events_run :
    g_main_loop_run host titled table backtracking
      (server host titled table backtracking (some 9) registered.0)
      before_signal
      publishing
    ≡ some (false, reacted)
unfolding register_all parse_register_plugin register_with op_playback_new op_playback_register
    g_main_loop_run parse_message str_equal run c_string register_messages op_play_parse
    format_unsigned
events_run = refl

g_main_loop_run-Kept_example : Kept publishing reacted
g_main_loop_run-Kept_example =
    g_main_loop_run-Kept host titled table backtracking registered.0 blank registered.1
      operations_registered (some 9) before_signal publishing reacted false events_run

-- A source is played, and the daemon is asked to quit; the next tick ends the loop.
abbrev pub until_quit : List Event
until_quit =
    timer (message (codes "PLAY file:///a") ∷ message (codes "QUIT now") ∷ [])
    ∷ bus (warning_message (codes "slow"))
    ∷ timer (message (codes "PING x") ∷ [])
    ∷ []

abbrev quit_world : World
quit_world =
    elim (g_main_loop_run host titled table backtracking
      (server host titled table backtracking (some 9) registered.0) until_quit publishing) [
        | none ↦ blank
        | some r ↦ r.1
      ]

quit_runs :
    g_main_loop_run host titled table backtracking
      (server host titled table backtracking (some 9) registered.0)
      until_quit
      publishing
    ≡ some (true, quit_world)
unfolding register_all parse_register_plugin register_with op_playback_new op_playback_register
    g_main_loop_run parse_message str_equal run c_string register_messages op_play_parse
    op_quit_parse format_unsigned
quit_runs = refl

g_main_loop_run-ends_example : true ≡ ends backtracking publishing.should_quit until_quit
g_main_loop_run-ends_example =
    g_main_loop_run-ends host titled table backtracking registered.0 blank registered.1
      operations_registered 9 until_quit publishing quit_world true quit_runs
