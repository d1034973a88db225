-- ===== src/Daemon/Exits.antt =====
-- When the process of a server of src/gst_playd.c exits, and with what.
use gst_playd.Base.{ℕ, ◌≡◌, ap, ◌∙◌, sym, Bool, true, false, Option, some, List, Bytes}
use gst_playd.Base.{All}
use gst_playd.Daemon.Asked.{ends}
use gst_playd.Daemon.Main.{
  Event, running, register_operations, start_server, g_main_loop_run, run_and_end, main,
}
use gst_playd.Daemon.Messages.{TimerClosure}
use gst_playd.Daemon.Process.{StartsWith, prologue, exit_code, main-exits}
use gst_playd.Daemon.Release.{shut_down-server}
use gst_playd.Daemon.Run.{server_options, run_and_end-code, run_options-running}
use gst_playd.Daemon.Serves.Loop.{IsModestEvent, g_main_loop_run-returns}
use gst_playd.Daemon.Started.{server, start_server-running}
use gst_playd.Glib.HashTable.{HashTable}
use gst_playd.Glib.Regex.{Regex}
use gst_playd.Host.{Host, World}
use gst_playd.Host.Actions.{>>=-some}
use gst_playd.Operations.{OpContext, Process}
use gst_playd.Operations.Play.Release.{always-Accepts}
use gst_playd.Operations.Play.TagsPipeline.{TagReader}
use gst_playd.Operations.Returns.{IsReady, RefusesNothing}
use gst_playd.Parser.{RegEntryWithCtx, ParseCtx}

module _ (host : Host) (tag_reader : TagReader) (bound : ℕ)
    (refuses : RefusesNothing host tag_reader bound)
    (table : HashTable (RegEntryWithCtx Process OpContext)) (regex : Regex) where
  run_and_end-exits :
      (parser : ParseCtx table) (x x' : World) (s : ℕ) (events : List Event) (quit : Bool)
      (v u : World)
      → register_operations host tag_reader table x ≡ some (parser, x')
      → g_main_loop_run host tag_reader table regex
          (server host tag_reader table regex (some s) parser)
          events
          v
        ≡ some (quit, u)
      → IsReady host u
      → (end : World) × (run_and_end host tag_reader table regex events
            (running (server host tag_reader table regex (some s) parser))
            v
          ≡ some (exit_code quit, end))
  unfolding run_and_end
  run_and_end-exits parser x x' s events true v u registers ran ready =
      let ((pub_sub, publishes), has) = ready in
      (
        _,
        run_and_end-code host tag_reader table regex
            (server host tag_reader table regex (some s) parser) events v u _ 0 ran
            (shut_down-server host tag_reader table regex parser (some s) pub_sub x x' u registers
              publishes
              (always-Accepts host u.playback.sources u.playback u.calls refuses.accepts)),
      )
  run_and_end-exits parser x x' s events false v u registers ran ready = (
    u,
    >>=-some
        (g_main_loop_run host tag_reader table regex
          (server host tag_reader table regex (some s) parser) events)
        _ ran,
  )

  -- A process that has started a server with a server socket never aborts, the handlers of new pads
  -- aside, and says when it exits: where GStreamer never refuses to start an element; a message leaves
  -- room for the printed address and time in `to_hash`; and each pipeline that TAGS pauses has on its
  -- bus, behind any TAG messages, the end of the preroll or an error, so that the pop ends, while the
  -- buffers among the tags have at most 1610612733 bytes and the lines of their table hold no NUL and
  -- come to less than 2 ^ 31 - 4 bytes. Whatever comes in as texts of printable ASCII of at most this
  -- length and as failed receives, whatever the signals and the messages of the pipeline, it exits with
  -- 0 when the machine says that its main loop ends, by a tick behind a signal or behind a message
  -- whose command word is QUIT, and else it waits for more events.
  pub main-ends :
      (argv : List Bytes) (dir : Bytes) (port s : ℕ) (events : List Event)
      (closure : TimerClosure table regex) (w v : World)
      → StartsWith host argv dir (server_options port) w
      → let begun = prologue host argv dir (server_options port) w.calls in
        start_server host tag_reader table regex port
            (record w { calls = begun; should_quit = false })
          ≡ some (running closure, v)
        → closure.zmq_socket ≡ some s
        → All (IsModestEvent bound) events
        → (end : World) × (main host tag_reader table regex argv events w
            ≡ some (exit_code (ends regex false events), end))
  main-ends argv dir port s events closure w v starts started has_socket modest =
      let (pub_sub, parser, sock, x, x', registers, is, publishes, quits, empty) =
        start_server-running host tag_reader table regex port closure _ v started in
      let begun = record w { calls = prologue host argv dir (server_options port) w.calls } in
      let opened = server host tag_reader table regex (some s) parser in
      let same : closure ≡ opened =
        is
        ∙ ap (λ y. server host tag_reader table regex y parser)
            (sym (ap (λ c. c.zmq_socket) is) ∙ has_socket) in
      let ready : IsReady host v = ((pub_sub, publishes), rw empty tt) in
      let (u, ran, still) =
        g_main_loop_run-returns host tag_reader bound refuses table regex parser x x' registers s
          events v modest ready in
      let (end, ended) = run_and_end-exits parser x x' s events _ v u registers ran still in
      let whole =
        run_options-running host tag_reader table regex port closure events begun v started
        ∙ ap (λ c. run_and_end host tag_reader table regex events (running c) v) same
        ∙ ended
        ∙ ap {B = Option (Option ℕ × World)} (λ f. some (exit_code (ends regex f events), end))
            quits in
      (
        _,
        main-exits host tag_reader table regex argv dir (server_options port) events w end
            (ends regex false events) starts whole,
      )
