-- ===== src/Daemon/Quit.antt =====
-- How the server of src/gst_playd.c ends: the QUIT command, the signals and the next tick.
use gst_playd.Base.{
  ℕ, ◌<◌, ◌≡◌, refl, ap, ◌∙◌, arith, Bool, true, false, Option, some, List, [], ◌∷◌, ◌++◌, Bytes,
  codes,
}
use gst_playd.Base.{length, c_string-IsText}
use gst_playd.Daemon.Main.{Event, timer, register_operations, dispatch_event, g_main_loop_run}
use gst_playd.Daemon.Messages.{TimerClosure, handle_incoming_messages, handle_tick, handle_queued}
use gst_playd.Daemon.Registered.{register_operations-commands}
use gst_playd.Daemon.Received.{replied}
use gst_playd.Daemon.Replies.{queue, serve, serve-one, emptied, handle_queued-serve}
use gst_playd.Glib.HashTable.{HashTable}
use gst_playd.Glib.Regex.{Regex, IsPlain}
use gst_playd.Glib.Regex.Facts.{IsPlain-IsText}
use gst_playd.Host.{
  Host, World, Received, message, failed, eagain, zmq_recv, zmq_send, g_main_loop_quit,
}
use gst_playd.Host.Actions.{>>=-some}
use gst_playd.Operations.{OpContext, Process}
use gst_playd.Operations.Control.{op_quit_parse}
use gst_playd.Operations.Play.TagsPipeline.{TagReader}
use gst_playd.Parser.{RegEntryWithCtx, ParseCtx, parse_message}
use gst_playd.Parser.Dispatch.{call_registered, parse_message-spaced}

module _ (host : Host) (tag_reader : TagReader)
    (table : HashTable (RegEntryWithCtx Process OpContext)) (regex : Regex) where
  abbrev pub quit_message : Bytes → Bytes
  quit_message param = codes "QUIT" ++ b' ' ∷ param

  parse_message-quit :
      (parser : ParseCtx table) (param : Bytes) (v w w' : World)
      → register_operations host tag_reader table w ≡ some (parser, w')
      → 0 < length param
      → IsPlain (quit_message param)
      → parse_message table regex parser (quit_message param) (some v)
        ≡ (codes "OK", some (record v { should_quit = true }))
  unfolding call_registered op_quit_parse
  parse_message-quit parser param v w w' e some_param plain =
      let (ping, pubsub, quit, tags, play, stop, dumpgraph, rest) =
        register_operations-commands host tag_reader table parser w w' e in
      parse_message-spaced table regex parser (codes "QUIT") param (some v) (omega arith)
        (omega arith) some_param plain
      ∙ rw (call_registered, quit) refl

  -- Once a tick has seen `should_quit`, the main loop ends; what has come in is not read.
  pub g_main_loop_run_stops :
      (closure : TimerClosure table regex) (rs : List Received) (es : List Event) (w : World)
      → w.should_quit ≡ true
      → g_main_loop_run host tag_reader table regex closure (timer rs ∷ es) w
        ≡ some (true, record w { calls = g_main_loop_quit ∷ w.calls })
  unfolding g_main_loop_run dispatch_event handle_incoming_messages handle_tick
  g_main_loop_run_stops closure rs es w quits = rw (quits) refl

  -- The world that a tick with a single QUIT leaves.
  abbrev pub after_quit : ℕ → Bytes → World → World
  after_quit s param v = record v {
    should_quit = true;
    calls =
        zmq_recv (some s) (failed eagain)
        ∷ zmq_send (some s) (codes "OK")
        ∷ zmq_recv (some s) (message (quit_message param))
        ∷ v.calls;
  }

  serve-quit :
      (parser : ParseCtx table) (s : ℕ) (param : Bytes) (v w w' : World)
      → register_operations host tag_reader table w ≡ some (parser, w')
      → 0 < length param
      → IsPlain (quit_message param)
      → serve table regex s parser (quit_message param ∷ []) v ≡ some (after_quit s param v)
  serve-quit parser s param v w w' e some_param plain =
      let received = record v {
        calls = zmq_recv (some s) (message (quit_message param)) ∷ v.calls;
      } in
      let same = c_string-IsText (quit_message param) (IsPlain-IsText (quit_message param) plain) in
      serve-one table regex s parser (quit_message param) v _ (
        ap (λ t. replied s (parse_message table regex parser t (some received))) same
        ∙ ap (replied s) (parse_message-quit parser param received w w' e some_param plain))

  abbrev pub server_closure : ℕ → ParseCtx table → TimerClosure table regex
  server_closure s parser = record {
    zmq_socket = some s;
    parse_ctx = some parser;
    pubsub_mode = false;
  }

  handle_tick-quit :
      (parser : ParseCtx table) (s : ℕ) (param : Bytes) (v w w' : World)
      → register_operations host tag_reader table w ≡ some (parser, w')
      → 0 < length param
      → IsPlain (quit_message param)
      → handle_tick table regex false (server_closure s parser) (queue (quit_message param ∷ [])) v
        ≡ some ((true, some []), after_quit s param v)
  unfolding handle_tick
  handle_tick-quit parser s param v w w' e some_param plain =
      >>=-some
        (handle_queued table regex (server_closure s parser) (queue (quit_message param ∷ []))) _
        (handle_queued-serve table regex s parser (quit_message param ∷ []) v
          ∙ ap (emptied table regex) (serve-quit parser s param v w w' e some_param plain))

  dispatch_timer :
      (closure : TimerClosure table regex) (rs : List Received) (v v' : World)
      (should_quit stays : Bool) (left : Option (List Received))
      → v.should_quit ≡ should_quit
      → handle_tick table regex should_quit closure rs v ≡ some ((stays, left), v')
      → dispatch_event host tag_reader table regex closure (timer rs) v ≡ some (stays, v')
  unfolding dispatch_event handle_incoming_messages
  dispatch_timer closure rs v v' should_quit stays left quits e =
      >>=-some (handle_incoming_messages table regex closure rs) _
        (ap (λ b. handle_tick table regex b closure rs v) quits ∙ e)

  -- With the plugins registered, when a server that is not to quit finds one message in a tick, QUIT with
  -- an argument of printable ASCII, it is answered with "OK" in this tick, and the next tick ends the main
  -- loop, whatever has come in by then.
  pub g_main_loop_run-quit :
      (parser : ParseCtx table) (s : ℕ) (param : Bytes) (rs : List Received) (es : List Event)
      (v w w' : World)
      → register_operations host tag_reader table w ≡ some (parser, w')
      → 0 < length param
      → IsPlain (quit_message param)
      → v.should_quit ≡ false
      → let quit = after_quit s param v in
        g_main_loop_run host tag_reader table regex
          (server_closure s parser)
          (timer (queue (quit_message param ∷ [])) ∷ timer rs ∷ es)
          v
        ≡ some (true, record quit { calls = g_main_loop_quit ∷ quit.calls })
  unfolding g_main_loop_run
  g_main_loop_run-quit parser s param rs es v w w' e some_param plain runs =
      >>=-some
        (dispatch_event host tag_reader table regex (server_closure s parser)
          (timer (queue (quit_message param ∷ []))))
        _
        (dispatch_timer (server_closure s parser) _ v (after_quit s param v) false true _ runs
          (handle_tick-quit parser s param v w w' e some_param plain))
      ∙ g_main_loop_run_stops (server_closure s parser) rs es (after_quit s param v) refl
