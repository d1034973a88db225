-- ===== src/Examples/Listens.antt =====
-- A listener of src/gst_playd.c that hears two texts.
use gst_playd.Base.{◌≡◌, refl, arith, false, none, some, List, [], ◌∷◌, ◌++◌, codes, c_string}
use gst_playd.Daemon.Listens.{output, heard, stops, listener}
use gst_playd.Daemon.Listens.Exit.{listener_options, main-listener}
use gst_playd.Daemon.Main.{Event, timer, signal, running, start_listener, main}
use gst_playd.Daemon.Messages.{TimerClosure}
use gst_playd.Daemon.Process.{exit_code, prologue}
use gst_playd.Examples.Run.{table}
use gst_playd.Examples.TestHost.{host, blank, titled}
use gst_playd.Glib.Regex.Engine.Search.{backtracking}
use gst_playd.Host.{Host, World, message, failed, eintr}

abbrev peer : Host
peer = record host {
  options = λ calls argv. some (listener_options 8000);
  reply = λ calls. message (codes "OK tcp://127.0.0.1:18001");
}

abbrev begun : World
begun = record blank { calls = prologue peer [] (codes "/") (listener_options 8000) [] }

abbrev entered : World
entered = elim (start_listener peer titled table backtracking 8000 begun) [
  | none ↦ blank
  | some r ↦ r.1
]

abbrev closure : TimerClosure table backtracking
closure = listener peer titled table backtracking 11

listener_starts :
    start_listener peer titled table backtracking 8000 begun ≡ some (running closure, entered)
unfolding start_listener c_string
listener_starts = refl

abbrev events : List Event
events =
    timer (message (codes "TAGS a") ∷ failed eintr ∷ message (codes "EOS: b") ∷ [])
    ∷ signal
    ∷ timer (message (codes "late") ∷ [])
    ∷ []

main-listener_example :
    (end : World) × (main peer titled table backtracking [] events blank
      ≡ some (exit_code (stops false events), end))
    × (output end.calls ≡ output entered.calls ++ heard false events)
main-listener_example =
    main-listener peer titled table backtracking [] (codes "/") 8000 events closure blank entered
      (record { finds = refl; parses = refl }) listener_starts (omega arith)

-- It exits with 0, and the text behind the signal is not heard.
exits : exit_code (stops false events) ≡ some 0
exits = refl

heard-events : heard false events ≡ codes "TAGS a\nEOS: b\n"
unfolding c_string
heard-events = refl
