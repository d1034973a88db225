-- ===== src/Daemon/Listens/Exit.antt =====
-- A whole run of a listener of src/gst_playd.c, from `main` to its return.
use gst_playd.Base.{
  ℕ, ◌≡◌, refl, ap, ◌∙◌, sym, Bool, true, false, none, some, List, ◌∷◌, ◌++◌, Bytes,
}
use gst_playd.Base.{All}
use gst_playd.Daemon.Kept.Sockets.{create_pubsub_socket-Keeps}
use gst_playd.Daemon.Listens.{output, heard, stops, IsHeard, listener, g_main_loop_run-heard}
use gst_playd.Daemon.Main.{
  Event, Started, exit, running, start, start_listener, g_main_loop_run, free_server, shut_down,
  run_and_end, run_options, main,
}
use gst_playd.Daemon.Messages.{TimerClosure}
use gst_playd.Daemon.Process.{StartsWith, prologue, context_of, exit_code, ended, main-exits}
use gst_playd.Daemon.Sockets.{create_pubsub_socket}
use gst_playd.Glib.HashTable.{HashTable}
use gst_playd.Glib.Regex.{Regex}
use gst_playd.Host.{Host, World, Options, Pointer, zmq_close}
use gst_playd.Host.Actions.{Action, pure, some->>=, >>=-some}
use gst_playd.Host.Frame.{SameFlag, SameFlag-frame}
use gst_playd.Operations.{OpContext, Process}
use gst_playd.Operations.Play.TagsPipeline.{TagReader}
use gst_playd.Parser.{RegEntryWithCtx}
use gst_playd.Utility.Sockets.{util_close_socket}

abbrev pub listener_options : ℕ → Options
listener_options port = record { pubsub_listen = true; client_message = none; icecast_port = port }

module _ (host : Host) (tag_reader : TagReader)
    (table : HashTable (RegEntryWithCtx Process OpContext)) (regex : Regex) where
  start_listener-running :
      (port : ℕ) (closure : TimerClosure table regex) (w v : World)
      → start_listener host tag_reader table regex port w ≡ some (running closure, v)
      → (s : ℕ) × (closure ≡ listener host tag_reader table regex s)
        × (v.should_quit ≡ w.should_quit)
  unfolding start_listener
  start_listener-running port closure w v e =
      let (sock, w1, ran, rest) = some->>= (create_pubsub_socket host port) _ e in
      let kept = create_pubsub_socket-Keeps SameFlag-frame host port w w1 sock ran in
      go sock w1 kept rest
    where
      go :
          (sock : Pointer) (w1 : World)
          → SameFlag w w1
          → (elim sock as (λ x. Action (Started host tag_reader table regex)) [
            | none ↦ pure (exit 0)
            | some s ↦ pure (running (listener host tag_reader table regex s))
          ])
              w1
            ≡ some (running closure, v)
          → (s : ℕ) × (closure ≡ listener host tag_reader table regex s)
            × (v.should_quit ≡ w.should_quit)
      go none w1 kept rest = absurd (cc)
      go (some s) w1 kept rest =
          let is : listener host tag_reader table regex s ≡ closure = cc in
          let last : w1 ≡ v = cc in (s, sym is, ap (λ x. x.should_quit) (sym last) ∙ kept)

  -- The calls that a listener ends with.
  abbrev closes : Bool → ℕ → World → World
  closes true s u = record u { calls = zmq_close (some s) (host.close_ok u.calls) ∷ u.calls }
  closes false s u = u

  run_and_end-listener :
      (s : ℕ) (events : List Event) (quit : Bool) (v u : World)
      → g_main_loop_run host tag_reader table regex
          (listener host tag_reader table regex s)
          events
          v
        ≡ some (quit, u)
      → run_and_end host tag_reader table regex events
          (running (listener host tag_reader table regex s))
          v
        ≡ some (exit_code quit, closes quit s u)
  unfolding run_and_end shut_down free_server util_close_socket
  run_and_end-listener s events true v u ran =
      >>=-some
        (g_main_loop_run host tag_reader table regex (listener host tag_reader table regex s)
          events)
        _ ran
  run_and_end-listener s events false v u ran =
      >>=-some
        (g_main_loop_run host tag_reader table regex (listener host tag_reader table regex s)
          events)
        _ ran

  -- The end of a process writes nothing.
  output-ended :
      (quit : Bool) (zmq_ctx : Pointer) (s : ℕ) (u : World)
      → output (ended host quit zmq_ctx (closes quit s u)).calls ≡ output u.calls
  output-ended true none s u = refl
  output-ended true (some c) s u = refl
  output-ended false zmq_ctx s u = refl

  -- A process that has started a listener never aborts, whatever comes in and whatever fails: it exits
  -- with 0 by the first tick behind a signal, and else it waits for more; and what it has written since
  -- its start is a line for each text that has come in in the ticks before the signal, in their order.
  pub main-listener :
      (argv : List Bytes) (dir : Bytes) (port : ℕ) (events : List Event)
      (closure : TimerClosure table regex) (w v : World)
      → StartsWith host argv dir (listener_options port) w
      → start_listener host tag_reader table regex port (record w {
        calls = prologue host argv dir (listener_options port) w.calls;
        should_quit = false;
      })
        ≡ some (running closure, v)
      → All IsHeard events
      → (end : World) × (main host tag_reader table regex argv events w
          ≡ some (exit_code (stops false events), end))
        × (output end.calls ≡ output v.calls ++ heard false events)
  unfolding run_options start
  main-listener argv dir port events closure w v starts started hears =
      let begun = record w { calls = prologue host argv dir (listener_options port) w.calls } in
      let zmq_ctx = context_of host argv dir (listener_options port) w.calls in
      let (s, is, quits) = start_listener-running port closure _ v started in
      let (u, ran, wrote) =
        g_main_loop_run-heard host tag_reader table regex s events false v hears quits in
      let whole =
        >>=-some (start host tag_reader table regex (listener_options port))
          (run_and_end host tag_reader table regex events)
          {w = record begun { should_quit = false }} started
        ∙ ap (λ c. run_and_end host tag_reader table regex events (running c) v) is
        ∙ run_and_end-listener s events (stops false events) v u ran in
      (
        ended host (stops false events) zmq_ctx (closes (stops false events) s u),
        main-exits host tag_reader table regex argv dir (listener_options port) events w _
            (stops false events) starts whole,
        output-ended (stops false events) zmq_ctx s u ∙ wrote,
      )
