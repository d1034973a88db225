-- ===== src/Daemon/Kept/Loop.antt =====
-- The main loop of src/gst_playd.c keeps the socket of the events, the pipeline and its mixer.
use gst_playd.Base.{ℕ, zero, suc, ◌≡◌, refl, Bool, true, false, Option, none, some, List, [], ◌∷◌}
use gst_playd.Base.{length, c_string, if◌then◌else◌}
use gst_playd.Daemon.Kept.{send_reply-Keeps, parse_message-Keeps}
use gst_playd.Daemon.Main.{
  Event, timer, signal, bus, register_operations, dispatch_event, g_main_loop_run,
}
use gst_playd.Daemon.Messages.{
  send_reply, answer, handle_message, handle_loop, loop_next, errno_result, handle_queued,
  handle_tick, handle_incoming_messages, handle_sigint,
}
use gst_playd.Daemon.Started.{server}
use gst_playd.Glib.HashTable.{HashTable}
use gst_playd.Glib.Regex.{Regex}
use gst_playd.Host.{Host, World, Pointer, Received, message, failed, Errno, g_main_loop_quit}
use gst_playd.Host.Actions.{Action, pure, perform, receive_nowait, next_incoming, some->>=}
use gst_playd.Host.Frame.{Keeps, Kept, Kept-frame, pure-Keeps, perform-Keeps, >>=-Keeps}
use gst_playd.Operations.{OpContext, Process}
use gst_playd.Operations.Kept.{playback_bus_callback-Keeps}
use gst_playd.Operations.Play.TagsPipeline.{TagReader}
use gst_playd.Parser.{RegEntryWithCtx, ParseCtx, parse_message}

receive_nowait-Keeps : (sock : Pointer) (rs : List Received) → Keeps Kept (receive_nowait sock rs)
receive_nowait-Keeps sock rs w v a e = pure-Keeps Kept-frame (next_incoming sock rs) _ v a e

handle_loop-Keeps :
    (fuel : ℕ) (handle : List Received → Action (Option Errno × List Received)) (rs : List Received)
    → ((rs : List Received) → Keeps Kept (handle rs))
    → Keeps Kept (handle_loop fuel handle rs)
unfolding handle_loop
handle_loop-Keeps zero handle rs keeps = pure-Keeps Kept-frame none
handle_loop-Keeps (suc fuel) handle rs keeps =
    >>=-Keeps Kept-frame (handle rs) (loop_next (handle_loop fuel handle)) (keeps rs)
      (next (λ rest. handle_loop-Keeps fuel handle rest keeps))
  where
    next :
        ((rest : List Received) → Keeps Kept (handle_loop fuel handle rest))
        → (r : Option Errno × List Received) → Keeps Kept (loop_next (handle_loop fuel handle) r)
    next again (some e, rest) = pure-Keeps Kept-frame (some rest)
    next again (none, rest) = again rest

module _ (host : Host) (tag_reader : TagReader)
    (table : HashTable (RegEntryWithCtx Process OpContext)) (regex : Regex)
    (parser : ParseCtx table) (u u' : World)
    (registers : register_operations host tag_reader table u ≡ some (parser, u')) where
  answer-Keeps : (sock : Pointer) (msg : Received) → Keeps Kept (answer table regex sock parser msg)
  unfolding answer
  answer-Keeps sock (failed e) = pure-Keeps Kept-frame (errno_result e)
  answer-Keeps sock (message m) = λ w v ret e.
      let (t, w1, sent, rest) =
        some->>= (λ w. send_reply sock (parse_message table regex parser (c_string m) (some w)))
          (λ t. pure none) e in
      let (w2, ran, kept) = send_reply-Keeps Kept-frame sock _ w1 t sent in
      Kept-frame.trans w w1 v
        (Kept-frame.trans w w2 w1
          (parse_message-Keeps Kept-frame host tag_reader table regex parser u u' w w2 (c_string m)
            _ registers (λ word w. (refl, refl, refl)) (λ word w items. (refl, refl, refl))
            (λ word w items. (refl, refl, refl)) ran)
          kept)
        (pure-Keeps Kept-frame none w1 v ret rest)

  handle_message-Keeps :
      (sock : Pointer) (rs : List Received) → Keeps Kept (handle_message table regex sock parser rs)
  unfolding handle_message
  handle_message-Keeps sock rs =
      >>=-Keeps Kept-frame (receive_nowait sock rs) _ (receive_nowait-Keeps sock rs) (λ next.
        >>=-Keeps Kept-frame (answer table regex sock parser next.0) _ (answer-Keeps sock next.0)
          (λ ret. pure-Keeps Kept-frame (ret, next.1)))

  module _ (sock : Pointer) where
    handle_tick-Keeps :
        (should_quit : Bool) (rs : List Received)
        → Keeps Kept (
            handle_tick table regex should_quit (server host tag_reader table regex sock parser) rs)
    unfolding handle_tick handle_queued
    handle_tick-Keeps true rs =
        >>=-Keeps Kept-frame (perform g_main_loop_quit) _
          (perform-Keeps Kept-frame g_main_loop_quit) (λ t. pure-Keeps Kept-frame (false, some rs))
    handle_tick-Keeps false rs =
        >>=-Keeps Kept-frame
          (handle_loop (suc (length rs)) (handle_message table regex sock parser) rs) _
          (handle_loop-Keeps (suc (length rs)) (handle_message table regex sock parser) rs
            (handle_message-Keeps sock))
          (λ left. pure-Keeps Kept-frame (true, left))

    dispatch_event-Keeps :
        (event : Event)
        → Keeps Kept (
            dispatch_event host tag_reader table regex
              (server host tag_reader table regex sock parser)
              event)
    unfolding dispatch_event handle_incoming_messages handle_sigint
    dispatch_event-Keeps (timer rs) = λ w v stays e.
        let (r, w1, ran, rest) =
          some->>=
            (handle_tick table regex w.should_quit (server host tag_reader table regex sock parser)
              rs)
            (λ r. pure r.0) e in
        Kept-frame.trans w w1 v (handle_tick-Keeps w.should_quit rs w w1 r ran)
          (pure-Keeps Kept-frame r.0 w1 v stays rest)
    dispatch_event-Keeps signal =
        λ w v stays e. pure-Keeps Kept-frame true (record w { should_quit = true }) v stays e
    dispatch_event-Keeps (bus m) = playback_bus_callback-Keeps Kept-frame m

    -- Whatever a server reacts to, its main loop keeps the contexts.
    pub g_main_loop_run-Keeps :
        (events : List Event)
        → Keeps Kept (
            g_main_loop_run host tag_reader table regex
              (server host tag_reader table regex sock parser)
              events)
    unfolding g_main_loop_run
    g_main_loop_run-Keeps [] = pure-Keeps Kept-frame false
    g_main_loop_run-Keeps (event ∷ events) =
        >>=-Keeps Kept-frame
          (dispatch_event host tag_reader table regex
            (server host tag_reader table regex sock parser) event)
          _ (dispatch_event-Keeps event) (go_on (g_main_loop_run-Keeps events))
      where
        go_on :
            {m : Action Bool}
            → Keeps Kept m
            → (goes_on : Bool) → Keeps Kept (if goes_on then m else pure true)
        go_on keeps true = keeps
        go_on keeps false = pure-Keeps Kept-frame true

    -- With the plugins registered, whatever a server reacts to, errors, signals and messages of the
    -- pipeline included, as long as no handler aborts: its main loop leaves it with the socket of its
    -- events, the pipeline and the mixer that it had before, whether or not the loop has been quit.
    pub g_main_loop_run-Kept :
        (events : List Event) (w v : World) (quit : Bool)
        → g_main_loop_run host tag_reader table regex
            (server host tag_reader table regex sock parser)
            events
            w
          ≡ some (quit, v)
        → Kept w v
    g_main_loop_run-Kept events w v quit e = g_main_loop_run-Keeps events w v quit e
