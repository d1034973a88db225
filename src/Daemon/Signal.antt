-- ===== src/Daemon/Signal.antt =====
-- How SIGINT and SIGTERM end the server of src/gst_playd.c.
use gst_playd.Base.{
  ℕ, ◌≡◌, refl, ap, ◌∙◌, sym, subst, Bool, true, false, some, List, [], ◌∷◌, ◌++◌, Bytes,
}
use gst_playd.Base.{if◌then◌else◌}
use gst_playd.Daemon.Kept.Loop.{g_main_loop_run-Keeps}
use gst_playd.Daemon.Main.{
  Event, timer, signal, running, start_server, dispatch_event, g_main_loop_run, shut_down, main,
}
use gst_playd.Daemon.Messages.{TimerClosure, handle_sigint}
use gst_playd.Daemon.Process.{StartsWith, prologue, context_of, destroyed, main-run_options}
use gst_playd.Daemon.Quit.{g_main_loop_run_stops}
use gst_playd.Daemon.Release.{server_freed, shut_down-server}
use gst_playd.Daemon.Run.{server_options, run_and_end-code, run_options-running}
use gst_playd.Daemon.Started.{server, start_server-running}
use gst_playd.Glib.HashTable.{HashTable}
use gst_playd.Glib.Regex.{Regex}
use gst_playd.Host.{Host, Call, World, Received, PubsubCtx, g_main_loop_quit}
use gst_playd.Host.Actions.{some->>=, >>=-some, pure}
use gst_playd.Operations.{OpContext, Process}
use gst_playd.Operations.Play.Release.{always-Accepts}
use gst_playd.Operations.Play.TagsPipeline.{TagReader}
use gst_playd.Parser.{RegEntryWithCtx}

module _ (host : Host) (tag_reader : TagReader)
    (table : HashTable (RegEntryWithCtx Process OpContext)) (regex : Regex) where
  -- A main loop that still runs after some events goes on with the next.
  g_main_loop_run-append :
      (closure : TimerClosure table regex) (es more : List Event) (w v : World)
      → g_main_loop_run host tag_reader table regex closure es w ≡ some (false, v)
      → g_main_loop_run host tag_reader table regex closure (es ++ more) w
        ≡ g_main_loop_run host tag_reader table regex closure more v
  unfolding g_main_loop_run
  g_main_loop_run-append closure [] more w v e =
      let same : w ≡ v = cc in ap (g_main_loop_run host tag_reader table regex closure more) same
  g_main_loop_run-append closure (event ∷ es) more w v e =
      let (goes_on, w1, ran, rest) =
        some->>= (dispatch_event host tag_reader table regex closure event) _ e in
      >>=-some (dispatch_event host tag_reader table regex closure event) _ ran
      ∙ go (λ w1 rest. g_main_loop_run-append closure es more w1 v rest) goes_on w1 rest
    where
      go :
          ((w1 : World)
            → g_main_loop_run host tag_reader table regex closure es w1 ≡ some (false, v)
            → g_main_loop_run host tag_reader table regex closure (es ++ more) w1
              ≡ g_main_loop_run host tag_reader table regex closure more v)
          → (goes_on : Bool) (w1 : World)
          → (if goes_on then g_main_loop_run host tag_reader table regex closure es else pure true)
              w1
            ≡ some (false, v)
          → (if goes_on
                then g_main_loop_run host tag_reader table regex closure (es ++ more)
                else pure true)
              w1
            ≡ g_main_loop_run host tag_reader table regex closure more v
      go again true w1 rest = again w1 rest
      go again false w1 rest = absurd (cc)

  -- The world in which a signal and the next tick have ended the main loop.
  abbrev pub signalled : World → World
  signalled v = record v { should_quit = true; calls = g_main_loop_quit ∷ v.calls }

  g_main_loop_run-signal :
      (closure : TimerClosure table regex) (rs : List Received) (es : List Event) (v : World)
      → g_main_loop_run host tag_reader table regex closure (signal ∷ timer rs ∷ es) v
        ≡ some (true, signalled v)
  unfolding g_main_loop_run dispatch_event handle_sigint
  g_main_loop_run-signal closure rs es v =
      g_main_loop_run_stops host tag_reader table regex closure rs es
        (record v { should_quit = true }) refl

  -- A server that a process has started can always be ended by a signal, when GStreamer never
  -- refuses to start an element: whatever has happened before, as long as the main loop still runs,
  -- the process exits with 0 in the first tick behind the signal, whatever comes in. The sources,
  -- newest first, the pipeline that it was started with, the socket of the events, the server socket
  -- and the ZeroMQ context, where these three are not NULL, have been released, in this order and
  -- with no other call.
  pub main-signal :
      (argv : List Bytes) (dir : Bytes) (port : ℕ) (rs : List Received) (es more : List Event)
      (closure : TimerClosure table regex) (w v u : World)
      → StartsWith host argv dir (server_options port) w
      → let begun = prologue host argv dir (server_options port) w.calls in
        start_server host tag_reader table regex port
            (record w { calls = begun; should_quit = false })
          ≡ some (running closure, v)
        → g_main_loop_run host tag_reader table regex closure es v ≡ some (false, u)
        → ((calls : List Call) → host.state_ok calls ≡ true)
        → (pub_sub : PubsubCtx) × (v.pub_sub ≡ some pub_sub)
          × (u.playback.pipeline ≡ v.playback.pipeline)
          × (main host tag_reader table regex argv (es ++ signal ∷ timer rs ∷ more) w
              ≡ some (
                some 0,
                record (signalled u) {
                  calls = destroyed host (context_of host argv dir (server_options port) w.calls) (
                      server_freed host tag_reader table regex closure.zmq_socket pub_sub u.playback
                        (signalled u).calls);
                },
              ))
  main-signal argv dir port rs es more closure w v u starts started ran ok =
      let (pub_sub, parser, sock, x, x', registers, is, publishes, quits, empty) =
        start_server-running host tag_reader table regex port closure _ v started in
      let events = es ++ signal ∷ timer rs ∷ more in
      let begun = record w { calls = prologue host argv dir (server_options port) w.calls } in
      let opened = server host tag_reader table regex sock parser in
      let stays : g_main_loop_run host tag_reader table regex opened es v ≡ some (false, u) =
        ap (λ c. g_main_loop_run host tag_reader table regex c es v) (sym is) ∙ ran in
      let (same_socket, same_pipeline, same_mux) =
        g_main_loop_run-Keeps host tag_reader table regex parser x x' registers sock es v u false
          stays in
      (
        pub_sub,
        publishes,
        same_pipeline,
        main-run_options host tag_reader table regex argv dir (server_options port) events w _ 0
            starts
            (run_options-running host tag_reader table regex port closure events begun v started
              ∙ run_and_end-code host tag_reader table regex closure events v (signalled u) _ 0
                  (g_main_loop_run-append closure es _ v u ran
                    ∙ g_main_loop_run-signal closure rs more u)
                  (subst
                    (λ c.
                      shut_down host tag_reader table regex c (signalled u)
                      ≡ some (
                        0,
                        record (signalled u) {
                          calls =
                              server_freed host tag_reader table regex c.zmq_socket pub_sub
                                u.playback (signalled u).calls;
                        },
                      ))
                    (sym is)
                    (shut_down-server host tag_reader table regex parser sock pub_sub x x'
                      (signalled u) registers (same_socket ∙ publishes)
                      (always-Accepts host u.playback.sources u.playback (signalled u).calls ok)))),
      )
