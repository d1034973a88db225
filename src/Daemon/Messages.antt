-- ===== src/Daemon/Messages.antt =====
-- The message handling of src/gst_playd.c. `rs` is what is still to be received on the polled
-- socket; the warnings are not modelled.
use gst_playd.Base.{ℕ, zero, suc, Bool, true, false, Option, none, some, List, ◌++◌, Bytes, codes}
use gst_playd.Base.{length, c_string, if◌then◌else◌}
use gst_playd.Glib.HashTable.{HashTable}
use gst_playd.Glib.Regex.{Regex}
use gst_playd.Host.{
  Pointer, Errno, eintr, Received, message, failed, World, zmq_send, g_print, g_main_loop_quit,
}
use gst_playd.Host.Actions.{Action, pure, abort, gets, modify, ◌>>=◌, ◌>>◌, perform, receive_nowait}
use gst_playd.Operations.{OpContext, Process}
use gst_playd.Parser.{RegEntryWithCtx, ParseCtx, parse_message}

-- `ret` after a failed receive; `none` is 0.
abbrev pub errno_result : Errno → Option Errno
errno_result eintr = none
errno_result e = some e

-- The state after a call of `parse_message`, with the reply that is sent.
abbrev pub send_reply : Pointer → Bytes × Process → Option (Unit {0} × World)
send_reply zmq_sock (data_text, none) = none
send_reply zmq_sock (data_text, some w) = perform (zmq_send zmq_sock data_text) w

-- The loop goes on, by `again`, only after a 0.
abbrev pub loop_next :
    (List Received → Action (Option (List Received)))
    → Option Errno × List Received
    → Action (Option (List Received))
loop_next again (some e, rest) = pure (some rest)
loop_next again (none, rest) = again rest

-- The loop that calls `handle` until it does not return 0; `none` once `fuel` is used up.
unfoldable pub handle_loop :
    ℕ
    → (List Received → Action (Option Errno × List Received))
    → List Received
    → Action (Option (List Received))
handle_loop zero handle rs = pure none
handle_loop (suc fuel) handle rs = handle rs >>= loop_next (handle_loop fuel handle)

-- The text of a message is printed.
unfoldable pub print_received : Received → Action (Option Errno)
print_received (failed e) = pure (errno_result e)
print_received (message m) = do perform (g_print (c_string m ++ codes "\n")); pure none

unfoldable pub handle_pubsub_message :
    Pointer → List Received → Action (Option Errno × List Received)
unfolding print_received
handle_pubsub_message zmq_sock rs = do
  (msg, rest) ← receive_nowait zmq_sock rs
  ret ← print_received msg
  pure (ret, rest)

module _ (table : HashTable (RegEntryWithCtx Process OpContext)) (regex : Regex) where
  -- `struct timer_closure`; its `should_quit` is that of the world, its parser NULL for a listener.
  pub record TimerClosure : Type 0 where
    pub zmq_socket : Pointer
    pub parse_ctx : Option (ParseCtx table)
    pub pubsub_mode : Bool

  -- The code once a message has been received.
  unfoldable pub answer : Pointer → ParseCtx table → Received → Action (Option Errno)
  answer zmq_sock parser (failed e) = pure (errno_result e)
  answer zmq_sock parser (message m) = do
    (λ w. send_reply zmq_sock (parse_message table regex parser (c_string m) (some w)))
    pure none

  unfoldable pub handle_message :
      Pointer → ParseCtx table → List Received → Action (Option Errno × List Received)
  unfolding answer
  handle_message zmq_sock parser rs = do
    (msg, rest) ← receive_nowait zmq_sock rs
    ret ← answer zmq_sock parser msg
    pure (ret, rest)

  -- The loop of a tick. Without a parser, a message would be parsed with NULL.
  unfoldable pub handle_queued : TimerClosure → List Received → Action (Option (List Received))
  unfolding handle_loop handle_message handle_pubsub_message
  handle_queued closure rs =
      if closure.pubsub_mode
      then handle_loop (suc (length rs)) (handle_pubsub_message closure.zmq_socket) rs
      else elim closure.parse_ctx [
        | none ↦ abort
        | some parser ↦ handle_loop (suc (length rs)) (handle_message closure.zmq_socket parser) rs
      ]

  -- The code with `closure->should_quit` read.
  unfoldable pub handle_tick :
      Bool → TimerClosure → List Received → Action (Bool × Option (List Received))
  unfolding handle_queued
  handle_tick true closure rs = do perform g_main_loop_quit; pure (false, some rs)
  handle_tick false closure rs = do left ← handle_queued closure rs; pure (true, left)

  -- Whether the timer stays, and what is left on the socket.
  unfoldable pub handle_incoming_messages :
      TimerClosure → List Received → Action (Bool × Option (List Received))
  unfolding handle_tick
  handle_incoming_messages closure rs = do
    should_quit ← gets (λ w. w.should_quit)
    handle_tick should_quit closure rs

-- `handle_sigint`, for SIGINT and SIGTERM.
unfoldable pub handle_sigint : Action Bool
handle_sigint = do modify (λ w. record w { should_quit = true }); pure true
