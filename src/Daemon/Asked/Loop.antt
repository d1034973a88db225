-- ===== src/Daemon/Asked/Loop.antt =====
-- When the main loop of the server in src/gst_playd.c ends, whatever it reacts to.
use gst_playd.Daemon.Asked.{asked, ends, handle_queued-asked}
use gst_playd.Base.{
  ◌++◌, ℕ, ◌≡◌, refl, ap, ◌∙◌, sym, Bool, true, false, Option, none, some, List, [], ◌∷◌, Bytes,
  codes,
}
use gst_playd.Base.{if◌then◌else◌}
use gst_playd.Daemon.Main.{
  Event, timer, signal, bus, register_operations, dispatch_event, g_main_loop_run,
}
use gst_playd.Daemon.Messages.{handle_queued, handle_tick, handle_incoming_messages, handle_sigint}
use gst_playd.Daemon.Started.{server}
use gst_playd.Glib.HashTable.{HashTable}
use gst_playd.Glib.Regex.{Regex}
use gst_playd.Host.{Host, World, Received}
use gst_playd.Host.Actions.{◌>>=◌, pure, some->>=}
use gst_playd.Host.Frame.{SameFlag-frame, left_world}
use gst_playd.Operations.{OpContext, services_pub_sub, Process}
use gst_playd.Operations.Kept.{playback_bus_callback-Keeps}
use gst_playd.Operations.Play.Handlers.{
  PipelineMessage, playback_bus_callback, publish_event, prefix_of,
}
use gst_playd.Pubsub.{pubsub_send_message}
use gst_playd.Operations.Play.TagsPipeline.{TagReader}
use gst_playd.Parser.{RegEntryWithCtx, ParseCtx}

module _ (host : Host) (tag_reader : TagReader)
    (table : HashTable (RegEntryWithCtx Process OpContext)) (regex : Regex)
    (parser : ParseCtx table) (u u' : World)
    (registers : register_operations host tag_reader table u ≡ some (parser, u')) where
  -- A tick, and what it leaves to the events behind it.
  handle_tick-ends :
      (s : ℕ) (flag stays : Bool) (rs : List Received) (left : Option (List Received)) (w v : World)
      → w.should_quit ≡ flag
      → handle_tick table regex flag (server host tag_reader table regex (some s) parser) rs w
        ≡ some ((stays, left), v)
      → (es : List Event)
      → (elim flag as (λ x. Bool) [ true ↦ true | false ↦ ends regex (asked regex false rs) es ])
        ≡ (if stays then ends regex v.should_quit es else true)
  unfolding handle_tick
  handle_tick-ends s true stays rs left w v is e es =
      let ended : false ≡ stays = cc in
      ap (λ b. if b then ends regex v.should_quit es else true) ended
  handle_tick-ends s false stays rs left w v is e es =
      let (left', w1, ran, rest) =
        some->>= (handle_queued table regex (server host tag_reader table regex (some s) parser) rs)
          _ e in
      let more : true ≡ stays = cc in
      let kept : w1 ≡ v = cc in
      ap (λ flag. ends regex flag es)
        (sym (
          sym (ap (λ x. x.should_quit) kept)
          ∙ (handle_queued-asked host tag_reader table regex parser u u' registers s rs left' w w1
                ran
              ∙ ap (λ flag. asked regex flag rs) is)))
      ∙ ap (λ b. if b then ends regex v.should_quit es else true) more

  playback_bus_callback-true :
      (m : PipelineMessage) (b : Bool) (w v : World)
      → playback_bus_callback m w ≡ some (b, v)
      → true ≡ b
  unfolding playback_bus_callback pubsub_send_message
  playback_bus_callback-true m b w v e = go (prefix_of m) e
    where
      go : (event : Option (Bytes × Bytes)) → publish_event event w ≡ some (b, v) → true ≡ b
      go none e = cc
      go (some (prefix, text)) e =
          let (p, w1, found, rest) =
            some->>= services_pub_sub
              (λ p. pubsub_send_message p (prefix ++ (codes ": " ++ text)) >>= λ sent. pure true)
              e in
          cc

  -- One event, and what it leaves to the events behind it.
  dispatch_event-ends :
      (s : ℕ) (event : Event) (goes_on : Bool) (w v : World)
      → dispatch_event host tag_reader table regex
          (server host tag_reader table regex (some s) parser)
          event
          w
        ≡ some (goes_on, v)
      → (es : List Event)
      → ends regex w.should_quit (event ∷ es)
        ≡ (if goes_on then ends regex v.should_quit es else true)
  unfolding dispatch_event handle_incoming_messages handle_tick handle_sigint
  dispatch_event-ends s (timer rs) goes_on w v e es =
      let ((stays, left), w1, ran, rest) =
        some->>=
          (handle_tick table regex w.should_quit
            (server host tag_reader table regex (some s) parser) rs)
          (λ r. pure r.0) e in
      let same_stays : stays ≡ goes_on = cc in
      let kept : w1 ≡ v = cc in
      handle_tick-ends s w.should_quit stays rs left w w1 refl ran es
      ∙ (ap (λ b. if b then ends regex w1.should_quit es else true) same_stays
          ∙ ap (λ x. if goes_on then ends regex x.should_quit es else true) kept)
  dispatch_event-ends s signal goes_on w v e es =
      let more : true ≡ goes_on = cc in
      ap (λ flag. ends regex flag es) (sym (ap (λ x. x.should_quit) (left_world e refl)))
      ∙ ap (λ b. if b then ends regex v.should_quit es else true) more
  dispatch_event-ends s (bus m) goes_on w v e es =
      ap (λ flag. ends regex flag es)
        (sym (playback_bus_callback-Keeps SameFlag-frame m w v goes_on e))
      ∙ ap (λ b. if b then ends regex v.should_quit es else true)
          (playback_bus_callback-true m goes_on w v e)

  -- With the plugins registered, whatever a server with a server socket reacts to, as long as no
  -- handler aborts: its main loop has been quit exactly when the machine says so, that is, by a tick
  -- behind a signal or behind a message received in a tick before whose command word is QUIT.
  pub g_main_loop_run-ends :
      (s : ℕ) (events : List Event) (w v : World) (quit : Bool)
      → g_main_loop_run host tag_reader table regex
          (server host tag_reader table regex (some s) parser)
          events
          w
        ≡ some (quit, v)
      → quit ≡ ends regex w.should_quit events
  unfolding g_main_loop_run
  g_main_loop_run-ends s [] w v quit e = cc
  g_main_loop_run-ends s (event ∷ events) w v quit e =
      let (goes_on, w1, ran, rest) =
        some->>=
          (dispatch_event host tag_reader table regex
            (server host tag_reader table regex (some s) parser) event)
          _ e in
      go goes_on w1 rest (g_main_loop_run-ends s events w1 v quit)
      ∙ sym (dispatch_event-ends s event goes_on w w1 ran events)
    where
      go :
          (goes_on : Bool) (w1 : World)
          → (if goes_on
                then g_main_loop_run host tag_reader table regex
                    (server host tag_reader table regex (some s) parser)
                    events
                else pure true)
              w1
            ≡ some (quit, v)
          → (g_main_loop_run host tag_reader table regex
                  (server host tag_reader table regex (some s) parser)
                  events
                  w1
                ≡ some (quit, v)
              → quit ≡ ends regex w1.should_quit events)
          → quit ≡ (if goes_on then ends regex w1.should_quit events else true)
      go true w1 rest ih = ih rest
      go false w1 rest ih = cc
