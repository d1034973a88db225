-- ===== src/Daemon/Serves/Loop.antt =====
-- The main loop of the server in src/gst_playd.c returns, where the libraries refuse nothing.
use gst_playd.Base.{
  ℕ, ◌≡◌, refl, ap, ◌∙◌, Bool, true, false, Option, none, some, List, [], ◌∷◌, Bytes,
}
use gst_playd.Base.{All, if◌then◌else◌}
use gst_playd.Daemon.Asked.{ends}
use gst_playd.Daemon.Asked.Loop.{g_main_loop_run-ends}
use gst_playd.Daemon.Main.{
  Event, timer, signal, bus, register_operations, dispatch_event, g_main_loop_run,
}
use gst_playd.Daemon.Messages.{handle_queued, handle_tick, handle_incoming_messages, handle_sigint}
use gst_playd.Daemon.Received.{left_on, handle_queued-attend}
use gst_playd.Daemon.Serves.{IsModest, attend-returns}
use gst_playd.Daemon.Started.{server}
use gst_playd.Glib.HashTable.{HashTable}
use gst_playd.Glib.Regex.{Regex}
use gst_playd.Host.{Host, World, Received}
use gst_playd.Host.Actions.{Action, pure, ◌>>=◌, >>=-some}
use gst_playd.Operations.{OpContext, Process, services_pub_sub}
use gst_playd.Operations.Play.Handlers.{playback_bus_callback, publish_event, prefix_of}
use gst_playd.Operations.Play.TagsPipeline.{TagReader}
use gst_playd.Operations.Returns.{IsReady, RefusesNothing, services_pub_sub-some}
use gst_playd.Parser.{RegEntryWithCtx, ParseCtx}
use gst_playd.Pubsub.{pubsub_send_message}

-- What comes in is modest.
abbrev pub IsModestEvent : ℕ → Event → Type 0
IsModestEvent bound (timer rs) = All (IsModest bound) rs
IsModestEvent bound signal = Unit {0}
IsModestEvent bound (bus m) = Unit {0}

module _ (host : Host) where
  -- From a daemon that is ready the action returns, and leaves it ready.
  abbrev Returns : {A : Type 0} → Action A → Type 0
  Returns {A} m =
      (w : World) → IsReady host w → (a : A) × (v : World) × (m w ≡ some (a, v)) × IsReady host v

  >>=-Returns :
      {A B : Type 0} (m : Action A) (k : A → Action B)
      → Returns m
      → ((a : A) → Returns (k a))
      → Returns (m >>= k)
  >>=-Returns m k first next w ready =
      let (a, u, ran, now) = first w ready in
      let (b, v, rest, still) = next a u now in (b, v, >>=-some m k ran ∙ rest, still)

  publish_event-Returns : (event : Option (Bytes × Bytes)) → Returns (publish_event event)
  unfolding pubsub_send_message
  publish_event-Returns none w ready = (true, w, refl, ready)
  publish_event-Returns (some (prefix, text)) w ready =
      (true, _, >>=-some services_pub_sub _ (services_pub_sub-some host w ready), ready)

  module _ (tag_reader : TagReader) (bound : ℕ) (refuses : RefusesNothing host tag_reader bound)
      (table : HashTable (RegEntryWithCtx Process OpContext)) (regex : Regex)
      (parser : ParseCtx table) (u u' : World)
      (registers : register_operations host tag_reader table u ≡ some (parser, u')) (s : ℕ) where
    handle_tick-Returns :
        (flag : Bool) (rs : List Received)
        → All (IsModest bound) rs
        → Returns
            (handle_tick table regex flag (server host tag_reader table regex (some s) parser) rs)
    unfolding handle_tick
    handle_tick-Returns true rs modest w ready = (_, _, refl, ready)
    handle_tick-Returns false rs modest w ready =
        let (rest, v, ran, still) =
          attend-returns host tag_reader bound refuses table regex parser u u' registers s rs w
            modest ready in
        (
          (true, some rest),
          v,
          >>=-some
              (handle_queued table regex (server host tag_reader table regex (some s) parser) rs) _
              (handle_queued-attend table regex s parser rs w ∙ ap (left_on table regex) ran),
          still,
        )

    dispatch_event-Returns :
        (event : Event)
        → IsModestEvent bound event
        → Returns (
            dispatch_event host tag_reader table regex
              (server host tag_reader table regex (some s) parser)
              event)
    unfolding dispatch_event handle_incoming_messages handle_sigint playback_bus_callback
    dispatch_event-Returns (timer rs) modest w ready =
        >>=-Returns
          (handle_tick table regex w.should_quit
            (server host tag_reader table regex (some s) parser) rs)
          (λ r. pure r.0) (handle_tick-Returns w.should_quit rs modest)
          (λ r v now. (r.0, v, refl, now)) w ready
    dispatch_event-Returns signal modest w ready = (true, _, refl, ready)
    dispatch_event-Returns (bus m) modest w ready = publish_event-Returns (prefix_of m) w ready

    loop-Returns :
        (events : List Event)
        → All (IsModestEvent bound) events
        → Returns (
            g_main_loop_run host tag_reader table regex
              (server host tag_reader table regex (some s) parser)
              events)
    unfolding g_main_loop_run
    loop-Returns [] modest w ready = (false, w, refl, ready)
    loop-Returns (event ∷ events) (here, modest) w ready =
        >>=-Returns
          (dispatch_event host tag_reader table regex
            (server host tag_reader table regex (some s) parser) event)
          (λ goes_on.
            if goes_on
            then g_main_loop_run host tag_reader table regex
                (server host tag_reader table regex (some s) parser) events
            else pure true)
          (dispatch_event-Returns event here) (go_on (loop-Returns events modest)) w ready
      where
        go_on :
            {m : Action Bool}
            → Returns m
            → (goes_on : Bool) → Returns (if goes_on then m else pure true)
        go_on returns true = returns
        go_on returns false = λ w ready. (true, w, refl, ready)

    -- A server never aborts, where GStreamer never refuses to start an element, a message leaves room
    -- for the printed address and time in `to_hash`, and the tags of a file fit their text: with the
    -- plugins registered and a server socket, from a world with the socket of the events in which every
    -- source has a number, whatever comes in as texts of printable ASCII of at most this length and as
    -- failed receives, whatever the signals and the messages of the pipeline, its main loop returns,
    -- having been quit exactly when the machine says so, and leaves such a world again.
    pub g_main_loop_run-returns :
        (events : List Event) (w : World)
        → All (IsModestEvent bound) events
        → IsReady host w
        → (v : World) × (g_main_loop_run host tag_reader table regex
              (server host tag_reader table regex (some s) parser)
              events
              w
            ≡ some (ends regex w.should_quit events, v))
          × IsReady host v
    g_main_loop_run-returns events w modest ready =
        let (quit, v, ran, still) = loop-Returns events modest w ready in
        let says =
          g_main_loop_run-ends host tag_reader table regex parser u u' registers s events w v quit
            ran in
        (v, ran ∙ ap {B = Option (Bool × World)} (λ b. some (b, v)) says, still)
