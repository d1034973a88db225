-- ===== src/Daemon/Listens.antt =====
-- What a listener of src/gst_playd.c writes, and when it exits.
pub mod Exit
use gst_playd.Base.{
  ℕ, ◌≡◌, refl, ap, ◌∙◌, sym, Bool, true, false, none, some, List, [], ◌∷◌, ◌++◌, Bytes, codes,
}
use gst_playd.Base.{All, c_string}
use mathlib.Core.List.{append_assoc, append-nil}
use gst_playd.Daemon.Main.{Event, timer, signal, bus, dispatch_event, g_main_loop_run}
use gst_playd.Daemon.Messages.{TimerClosure, handle_incoming_messages, handle_sigint}
use gst_playd.Daemon.Overheard.{overhear, handle_incoming_messages-overhear}
use gst_playd.Daemon.Quit.{g_main_loop_run_stops}
use gst_playd.Glib.HashTable.{HashTable}
use gst_playd.Glib.Regex.{Regex}
use gst_playd.Host.{
  Host, World, Call, eagain, eintr, other, Received, message, failed, g_print, g_main_loop_quit,
}
use gst_playd.Host.Actions.{>>=-some}
use gst_playd.Operations.{OpContext, Process}
use gst_playd.Operations.Play.TagsPipeline.{TagReader}
use gst_playd.Parser.{RegEntryWithCtx}

-- What a process has written, the oldest first.
abbrev pub output : List Call → Bytes
output [] = []
output (g_print text ∷ calls) = output calls ++ text
output (call ∷ calls) = output calls

-- The lines of the texts that a tick receives.
abbrev pub lines : List Received → Bytes
lines [] = []
lines (message m ∷ rs) = (c_string m ++ codes "\n") ++ lines rs
lines (failed eintr ∷ rs) = lines rs
lines (failed e ∷ rs) = []

-- The lines of the texts that come in until the main loop ends, when the process has been signalled
-- or not.
abbrev pub heard : Bool → List Event → Bytes
heard signalled [] = []
heard signalled (timer rs ∷ es) = elim signalled [ true ↦ [] | false ↦ lines rs ++ heard false es ]
heard signalled (signal ∷ es) = heard true es
heard signalled (bus m ∷ es) = heard signalled es

-- Whether the main loop ends: by a tick behind a signal.
abbrev pub stops : Bool → List Event → Bool
stops signalled [] = false
stops signalled (timer rs ∷ es) = elim signalled [ true ↦ true | false ↦ stops false es ]
stops signalled (signal ∷ es) = stops true es
stops signalled (bus m ∷ es) = stops signalled es

-- A listener has no pipeline.
abbrev pub IsHeard : Event → Type 0
IsHeard (bus m) = ⊥
IsHeard event = Unit {0}

output-overhear :
    (s : ℕ) (rs : List Received) (w : World)
    → output (overhear s rs w).1.calls ≡ output w.calls ++ lines rs
output-overhear s [] w = sym (append-nil (output w.calls))
output-overhear s (message m ∷ rs) w =
    output-overhear s rs _ ∙ append_assoc (output w.calls) (c_string m ++ codes "\n") (lines rs)
output-overhear s (failed eintr ∷ rs) w = output-overhear s rs _
output-overhear s (failed eagain ∷ rs) w = sym (append-nil (output w.calls))
output-overhear s (failed (other n) ∷ rs) w = sym (append-nil (output w.calls))

should_quit-overhear :
    (s : ℕ) (rs : List Received) (w : World) → (overhear s rs w).1.should_quit ≡ w.should_quit
should_quit-overhear s [] w = refl
should_quit-overhear s (message m ∷ rs) w = should_quit-overhear s rs _
should_quit-overhear s (failed eintr ∷ rs) w = should_quit-overhear s rs _
should_quit-overhear s (failed eagain ∷ rs) w = refl
should_quit-overhear s (failed (other n) ∷ rs) w = refl

module _ (host : Host) (tag_reader : TagReader)
    (table : HashTable (RegEntryWithCtx Process OpContext)) (regex : Regex) where
  abbrev pub listener : ℕ → TimerClosure table regex
  listener s = record { zmq_socket = some s; parse_ctx = none; pubsub_mode = true }

  dispatch_event-overhear :
      (s : ℕ) (rs : List Received) (w : World)
      → w.should_quit ≡ false
      → dispatch_event host tag_reader table regex (listener s) (timer rs) w
        ≡ some (true, (overhear s rs w).1)
  unfolding dispatch_event
  dispatch_event-overhear s rs w runs =
      >>=-some (handle_incoming_messages table regex (listener s) rs) _
        (handle_incoming_messages-overhear table regex s none rs w runs)

  g_main_loop_run-signal :
      (s : ℕ) (events : List Event) (w : World)
      → g_main_loop_run host tag_reader table regex (listener s) (signal ∷ events) w
        ≡ g_main_loop_run host tag_reader table regex
            (listener s)
            events
            (record w { should_quit = true })
  unfolding g_main_loop_run dispatch_event handle_sigint
  g_main_loop_run-signal s events w = refl

  -- The main loop of a listener returns: it ends by a tick behind a signal, and what it has written is
  -- what came in before.
  pub g_main_loop_run-heard :
      (s : ℕ) (events : List Event) (flag : Bool) (w : World)
      → All IsHeard events
      → w.should_quit ≡ flag
      → (v : World) × (g_main_loop_run host tag_reader table regex (listener s) events w
          ≡ some (stops flag events, v))
        × (output v.calls ≡ output w.calls ++ heard flag events)
  unfolding g_main_loop_run
  g_main_loop_run-heard s [] flag w hears is = (w, refl, sym (append-nil (output w.calls)))
  g_main_loop_run-heard s (timer rs ∷ events) true w hears is = (
    record w { calls = g_main_loop_quit ∷ w.calls },
    g_main_loop_run_stops host tag_reader table regex (listener s) rs events w is,
    sym (append-nil (output w.calls)),
  )
  g_main_loop_run-heard s (timer rs ∷ events) false w (here, hears) is =
      let w1 = (overhear s rs w).1 in
      let (v, ran, wrote) =
        g_main_loop_run-heard s events false w1 hears (should_quit-overhear s rs w ∙ is) in
      (
        v,
        >>=-some (dispatch_event host tag_reader table regex (listener s) (timer rs)) _
              (dispatch_event-overhear s rs w is)
            ∙ ran,
        wrote
            ∙ (ap (λ t. t ++ heard false events) (output-overhear s rs w)
                ∙ append_assoc (output w.calls) (lines rs) (heard false events)),
      )
  g_main_loop_run-heard s (signal ∷ events) flag w (here, hears) is =
      let (v, ran, wrote) =
        g_main_loop_run-heard s events true (record w { should_quit = true }) hears refl in
      (v, g_main_loop_run-signal s events w ∙ ran, wrote)
  g_main_loop_run-heard s (bus m ∷ events) flag w (here, hears) is = absurd here
