-- ===== src/Daemon/Run.antt =====
-- A whole run of the server of src/gst_playd.c, from `main` to its return.
use gst_playd.Base.{ℕ, ◌<◌, ◌≡◌, ap, ◌∙◌, sym, true, false, none, some, List, [], ◌∷◌, Bytes}
use gst_playd.Base.{length}
use gst_playd.Daemon.Main.{
  Event, timer, running, start_server, g_main_loop_run, shut_down, run_and_end, start, run_options,
  main,
}
use gst_playd.Daemon.Messages.{TimerClosure}
use gst_playd.Daemon.Process.{StartsWith, prologue, context_of, destroyed, main-run_options}
use gst_playd.Daemon.Quit.{quit_message, after_quit, g_main_loop_run-quit}
use gst_playd.Daemon.Release.{server_freed, shut_down-server}
use gst_playd.Daemon.Replies.{queue}
use gst_playd.Daemon.Started.{server, start_server-running}
use gst_playd.Glib.HashTable.{HashTable}
use gst_playd.Glib.Regex.{Regex, IsPlain}
use gst_playd.Host.{Host, Options, World, Received, PubsubCtx, g_main_loop_quit}
use gst_playd.Host.Actions.{>>=-some}
use gst_playd.Operations.{OpContext, Process}
use gst_playd.Operations.Play.Release.{Accepts}
use gst_playd.Operations.Play.TagsPipeline.{TagReader}
use gst_playd.Parser.{RegEntryWithCtx}

abbrev pub server_options : ℕ → Options
server_options port = record { pubsub_listen = false; client_message = none; icecast_port = port }

module _ (host : Host) (tag_reader : TagReader)
    (table : HashTable (RegEntryWithCtx Process OpContext)) (regex : Regex) where
  -- A main loop that ends, and what follows it.
  pub run_and_end-code :
      (closure : TimerClosure table regex) (events : List Event) (v quit end : World) (code : ℕ)
      → g_main_loop_run host tag_reader table regex closure events v ≡ some (true, quit)
      → shut_down host tag_reader table regex closure quit ≡ some (code, end)
      → run_and_end host tag_reader table regex events (running closure) v ≡ some (some code, end)
  unfolding run_and_end
  run_and_end-code closure events v quit end code ran freed =
      >>=-some (g_main_loop_run host tag_reader table regex closure events) _ ran
      ∙ >>=-some (shut_down host tag_reader table regex closure) _ freed

  pub run_options-running :
      (port : ℕ) (closure : TimerClosure table regex) (events : List Event) (w v : World)
      → start_server host tag_reader table regex port (record w { should_quit = false })
        ≡ some (running closure, v)
      → run_options host tag_reader table regex (server_options port) events w
        ≡ run_and_end host tag_reader table regex events (running closure) v
  unfolding run_options start
  run_options-running port closure events w v started =
      >>=-some (start host tag_reader table regex (server_options port))
        (run_and_end host tag_reader table regex events) started

  -- The world of a server that has answered QUIT and left its main loop.
  abbrev pub quitting : ℕ → Bytes → World → World
  quitting s param v =
      let quit = after_quit host tag_reader table regex s param v in
      record quit { calls = g_main_loop_quit ∷ quit.calls }

  -- A server that a process has started, with a server socket, and that finds QUIT with an argument
  -- of printable ASCII as the only message of its first tick, exits with 0 in its second tick,
  -- whatever comes in: QUIT has been answered with "OK"; the pipeline, the socket of the events, the
  -- server socket and the ZeroMQ context, where they are not NULL, have been released, in this order
  -- and with no other call.
  pub main-quit :
      (argv : List Bytes) (dir : Bytes) (port s : ℕ) (param : Bytes) (rs : List Received)
      (es : List Event) (closure : TimerClosure table regex) (w v : World)
      → StartsWith host argv dir (server_options port) w
      → let begun = prologue host argv dir (server_options port) w.calls in
        start_server host tag_reader table regex port
            (record w { calls = begun; should_quit = false })
          ≡ some (running closure, v)
        → closure.zmq_socket ≡ some s
        → 0 < length param
        → IsPlain (quit_message host tag_reader table regex param)
        → (pub_sub : PubsubCtx) × (v.pub_sub ≡ some pub_sub)
          × (v.playback.sources ≡ [])
          × (main host tag_reader table regex argv
                (timer (queue (quit_message host tag_reader table regex param ∷ []))
                  ∷ timer rs
                  ∷ es)
                w
              ≡ some (
                some 0,
                record (quitting s param v) {
                  calls = destroyed host (context_of host argv dir (server_options port) w.calls) (
                      server_freed host tag_reader table regex
                        (some s)
                        pub_sub
                        v.playback
                        (quitting s param v).calls);
                },
              ))
  main-quit argv dir port s param rs es closure w v starts started has_socket some_param plain =
      let (pub_sub, parser, sock, u, u', registers, is, publishes, quits, empty) =
        start_server-running host tag_reader table regex port closure _ v started in
      let same_sock : sock ≡ some s = sym (ap (λ c. c.zmq_socket) is) ∙ has_socket in
      let same : closure ≡ server host tag_reader table regex (some s) parser =
        is ∙ ap (λ x. server host tag_reader table regex x parser) same_sock in
      let events =
        timer (queue (quit_message host tag_reader table regex param ∷ [])) ∷ timer rs ∷ es in
      let begun = record w { calls = prologue host argv dir (server_options port) w.calls } in
      let accepts : Accepts host v.playback.sources v.playback (quitting s param v).calls =
        rw (empty) tt in
      (
        pub_sub,
        publishes,
        empty,
        main-run_options host tag_reader table regex argv dir (server_options port) events w _ 0
            starts
            (run_options-running port closure events begun v started
              ∙ ap (λ c. run_and_end host tag_reader table regex events (running c) v) same
              ∙ run_and_end-code _ events v (quitting s param v) _ 0
                  (g_main_loop_run-quit host tag_reader table regex parser s param rs es v u u'
                    registers some_param plain quits)
                  (shut_down-server host tag_reader table regex parser (some s) pub_sub u u'
                    (quitting s param v) registers publishes accepts)),
      )
