-- ===== src/Daemon/Overheard.antt =====
-- What a tick of the listener in src/gst_playd.c does with all that it may receive.
use gst_playd.Base.{
  ℕ, zero, suc, ◌<◌, ◌≡◌, refl, ap, ◌∙◌, arith, true, false, Option, some, List, [], ◌∷◌, ◌++◌,
  codes,
}
use gst_playd.Base.{length, c_string}
use gst_playd.Daemon.Messages.{
  TimerClosure, handle_loop, print_received, handle_pubsub_message, handle_queued, handle_tick,
  handle_incoming_messages,
}
use gst_playd.Glib.HashTable.{HashTable}
use gst_playd.Glib.Regex.{Regex}
use gst_playd.Host.{eagain, eintr, other, Received, message, failed, World, zmq_recv, g_print}
use gst_playd.Host.Actions.{>>=-some}
use gst_playd.Operations.{OpContext, Process}
use gst_playd.Parser.{RegEntryWithCtx, ParseCtx}

-- What comes in is taken in order. A text is printed before anything else is received, an interrupted
-- receive is tried again, and the first other failure ends the tick; what has come in behind it stays
-- on the socket.
abbrev pub overhear : ℕ → List Received → World → List Received × World
overhear s [] w = ([], record w { calls = zmq_recv (some s) (failed eagain) ∷ w.calls })
overhear s (message m ∷ rs) w = overhear s rs (record w {
  calls = g_print (c_string m ++ codes "\n") ∷ zmq_recv (some s) (message m) ∷ w.calls;
})
overhear s (failed eintr ∷ rs) w =
    overhear s rs (record w { calls = zmq_recv (some s) (failed eintr) ∷ w.calls })
overhear s (failed e ∷ rs) w = (rs, record w { calls = zmq_recv (some s) (failed e) ∷ w.calls })

handle_loop-overhear :
    (s fuel : ℕ) (rs : List Received) (w : World)
    → length rs < fuel
    → handle_loop fuel (handle_pubsub_message (some s)) rs w
      ≡ some (some (overhear s rs w).0, (overhear s rs w).1)
unfolding handle_loop handle_pubsub_message print_received
handle_loop-overhear s zero rs w enough = absurd (omega arith)
handle_loop-overhear s (suc fuel) [] w enough = refl
handle_loop-overhear s (suc fuel) (message m ∷ rs) w enough =
    handle_loop-overhear s fuel rs _ (omega arith)
handle_loop-overhear s (suc fuel) (failed eintr ∷ rs) w enough =
    handle_loop-overhear s fuel rs _ (omega arith)
handle_loop-overhear s (suc fuel) (failed eagain ∷ rs) w enough = refl
handle_loop-overhear s (suc fuel) (failed (other n) ∷ rs) w enough = refl

module _ (table : HashTable (RegEntryWithCtx Process OpContext)) (regex : Regex) where
  -- A tick of a listener that is not to quit returns, whatever comes in, and the timer stays: each
  -- text is printed with a newline before anything else is received, an interrupted receive is tried
  -- again, and the first other failure, or that there is nothing more, ends the tick; what has come
  -- in behind it stays on the socket.
  pub handle_incoming_messages-overhear :
      (s : ℕ) (parser : Option (ParseCtx table)) (rs : List Received) (w : World)
      → w.should_quit ≡ false
      → handle_incoming_messages table regex
          (record { zmq_socket = some s; parse_ctx = parser; pubsub_mode = true })
          rs
          w
        ≡ some ((true, some (overhear s rs w).0), (overhear s rs w).1)
  unfolding handle_incoming_messages handle_tick handle_queued
  handle_incoming_messages-overhear s parser rs w runs =
      let closure : TimerClosure table regex = record {
        zmq_socket = some s;
        parse_ctx = parser;
        pubsub_mode = true;
      } in
      ap (λ b. handle_tick table regex b closure rs w) runs
      ∙ >>=-some (handle_queued table regex closure rs) _
          (handle_loop-overhear s (suc (length rs)) rs w (omega arith))
