-- ===== src/Daemon/Loop.antt =====
-- The loops of src/gst_playd.c over the messages that have come in.
use gst_playd.Base.{
  ℕ, zero, suc, ◌<◌, ◌≡◌, refl, ap, ◌∙◌, sym, arith, Bool, true, false, Option, none, some, List,
  [], ◌∷◌,
}
use gst_playd.Base.{length}
use gst_playd.Daemon.Messages.{
  errno_result, handle_loop, loop_next, print_received, handle_pubsub_message, TimerClosure, answer,
  handle_message, handle_queued, handle_tick, handle_incoming_messages,
}
use gst_playd.Glib.HashTable.{HashTable}
use gst_playd.Glib.Regex.{Regex}
use gst_playd.Host.{
  Pointer, Errno, eagain, eintr, other, message, Received, failed, World, zmq_recv,
}
use gst_playd.Host.Actions.{Action, pure, ◌>>=◌, some->>=, >>=-some, receive_nowait, enotsock}
use gst_playd.Operations.{OpContext, Process}
use gst_playd.Parser.{RegEntryWithCtx, ParseCtx}

-- A handler that returns 0 has taken a message off the queue.
abbrev IsConsuming : (List Received → Action (Option Errno × List Received)) → Type 0
IsConsuming handle =
    (rs rest : List Received) (w w' : World)
    → handle rs w ≡ some ((none, rest), w')
    → length rest < length rs

handle_loop-left :
    (fuel : ℕ) (handle : List Received → Action (Option Errno × List Received)) (rs : List Received)
    (w w' : World) (left : Option (List Received))
    → IsConsuming handle
    → length rs < fuel
    → handle_loop fuel handle rs w ≡ some (left, w')
    → (rest : List Received) × (left ≡ some rest)
unfolding handle_loop
handle_loop-left zero handle rs w w' left consumes enough e = absurd (omega arith)
handle_loop-left (suc fuel) handle rs w w' left consumes enough e =
    let ((ret, rest), w1, ran, after) = some->>= (handle rs) _ e in
    go ret rest w1 ran after (λ rest w1 shorter after.
      handle_loop-left fuel handle rest w1 w' left consumes (omega arith) after)
  where
    go :
        (ret : Option Errno) (rest : List Received) (w1 : World)
        → handle rs w ≡ some ((ret, rest), w1)
        → loop_next (handle_loop fuel handle) (ret, rest) w1 ≡ some (left, w')
        → ((rest : List Received) (w1 : World)
            → length rest < length rs
            → handle_loop fuel handle rest w1 ≡ some (left, w')
            → (rest : List Received) × (left ≡ some rest))
        → (rest : List Received) × (left ≡ some rest)
    go (some e) rest w1 ran after again = (rest, cc)
    go none rest w1 ran after again = again rest w1 (consumes rs rest w w1 ran) after

-- A receive, and what `act` does with what was received.
received-IsConsuming :
    (act : Received → Action (Option Errno)) (sock : Pointer)
    → ((e : Errno) → act (failed e) ≡ pure (errno_result e))
    → IsConsuming
        (λ rs. receive_nowait sock rs >>= λ next. act next.0 >>= λ ret. pure (ret, next.1))
received-IsConsuming act none fails rs rest w w' e = absurd (
    cc (
      sym e
      ∙ ap
          (λ a.
            (a >>= λ ret. pure (ret, rs))
              (record w { calls = zmq_recv none (failed enotsock) ∷ w.calls }))
          (fails enotsock)))
received-IsConsuming act (some s) fails [] rest w w' e = absurd (
    cc (
      sym e
      ∙ ap
          (λ a.
            (a >>= λ ret. pure (ret, []))
              (record w { calls = zmq_recv (some s) (failed eagain) ∷ w.calls }))
          (fails eagain)))
received-IsConsuming act (some s) fails (r ∷ rs) rest w w' e =
    let (ret, w1, ran, after) = some->>= (act r) _ e in
    let same : rs ≡ rest = cc in omega (arith, ap length same)

handle_pubsub_message-IsConsuming : (sock : Pointer) → IsConsuming (handle_pubsub_message sock)
unfolding handle_pubsub_message
handle_pubsub_message-IsConsuming sock = received-IsConsuming print_received sock (λ e. refl)

module _ (table : HashTable (RegEntryWithCtx Process OpContext)) (regex : Regex) where
  handle_message-IsConsuming :
      (sock : Pointer) (parser : ParseCtx table)
      → IsConsuming (handle_message table regex sock parser)
  unfolding handle_message
  handle_message-IsConsuming sock parser =
      received-IsConsuming (answer table regex sock parser) sock (λ e. refl)

  handle_queued-left :
      (s : Pointer) (p : Option (ParseCtx table)) (m : Bool) (rs : List Received) (w w' : World)
      (left : Option (List Received))
      → handle_queued table regex (record { zmq_socket = s; parse_ctx = p; pubsub_mode = m }) rs w
        ≡ some (left, w')
      → (rest : List Received) × (left ≡ some rest)
  unfolding handle_queued
  handle_queued-left s p true rs w w' left e =
      handle_loop-left (suc (length rs)) (handle_pubsub_message s) rs w w' left
        (handle_pubsub_message-IsConsuming s) (omega arith) e
  handle_queued-left s none false rs w w' left e = absurd (cc)
  handle_queued-left s (some parser) false rs w w' left e =
      handle_loop-left (suc (length rs)) (handle_message table regex s parser) rs w w' left
        (handle_message-IsConsuming s parser) (omega arith) e

  handle_tick-left :
      (should_quit : Bool) (closure : TimerClosure table regex) (rs : List Received) (w w' : World)
      (stays : Bool) (left : Option (List Received))
      → handle_tick table regex should_quit closure rs w ≡ some ((stays, left), w')
      → (rest : List Received) × (left ≡ some rest)
  unfolding handle_tick
  handle_tick-left true closure rs w w' stays left e = (rs, cc)
  handle_tick-left false closure rs w w' stays left e =
      let (l, w1, ran, after) = some->>= (handle_queued table regex closure rs) _ e in
      let same : l ≡ left = cc in
      let (rest, is) =
        handle_queued-left closure.zmq_socket closure.parse_ctx closure.pubsub_mode rs w w1 l ran in
      (rest, sym same ∙ is)

  -- Whatever comes in, errors included, and whatever the handlers do, a tick that has a result has
  -- not used up the fuel of its loop, which is one more than the number of messages.
  pub handle_incoming_messages-left :
      (closure : TimerClosure table regex) (rs : List Received) (w w' : World) (stays : Bool)
      (left : Option (List Received))
      → handle_incoming_messages table regex closure rs w ≡ some ((stays, left), w')
      → (rest : List Received) × (left ≡ some rest)
  unfolding handle_incoming_messages
  handle_incoming_messages-left closure rs w w' stays left e =
      handle_tick-left w.should_quit closure rs w w' stays left e

  handle_loop-listener :
      (fuel : ℕ) (sock : Pointer) (rs : List Received) (w : World)
      → length rs < fuel
      → (rest : List Received) × (w' : World) × (handle_loop fuel (handle_pubsub_message sock) rs w
          ≡ some (some rest, w'))
  unfolding handle_loop handle_pubsub_message print_received
  handle_loop-listener zero sock rs w enough = absurd (omega arith)
  handle_loop-listener (suc fuel) none rs w enough = (rs, _, refl)
  handle_loop-listener (suc fuel) (some s) [] w enough = ([], _, refl)
  handle_loop-listener (suc fuel) (some s) (failed eagain ∷ rs) w enough = (rs, _, refl)
  handle_loop-listener (suc fuel) (some s) (failed (other n) ∷ rs) w enough = (rs, _, refl)
  handle_loop-listener (suc fuel) (some s) (failed eintr ∷ rs) w enough =
      handle_loop-listener fuel (some s) rs _ (omega arith)
  handle_loop-listener (suc fuel) (some s) (message m ∷ rs) w enough =
      handle_loop-listener fuel (some s) rs _ (omega arith)

  -- Every tick of a listener that is not to quit returns, whatever comes in, and the timer stays.
  pub handle_incoming_messages-listener :
      (closure : TimerClosure table regex) (rs : List Received) (w : World)
      → closure.pubsub_mode ≡ true
      → w.should_quit ≡ false
      → (rest : List Received) × (w' : World) × (handle_incoming_messages table regex closure rs w
          ≡ some ((true, some rest), w'))
  unfolding handle_incoming_messages handle_tick handle_queued
  handle_incoming_messages-listener closure rs w listens runs =
      let (rest, w', e) =
        handle_loop-listener (suc (length rs)) closure.zmq_socket rs w (omega arith) in
      let queued : handle_queued table regex closure rs w ≡ some (some rest, w') =
        ap (λ b. handle_queued table regex (record closure { pubsub_mode = b }) rs w) listens ∙ e in
      (
        rest,
        w',
        ap (λ b. handle_tick table regex b closure rs w) runs
            ∙ >>=-some (handle_queued table regex closure rs) _ queued,
      )
