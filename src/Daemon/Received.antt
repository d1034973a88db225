-- ===== src/Daemon/Received.antt =====
-- What a tick of the server in src/gst_playd.c does with all that it may receive, failures included.
use gst_playd.Base.{
  ℕ, zero, suc, ◌<◌, ◌≡◌, refl, ap, ◌∙◌, arith, false, Option, none, some, List, [], ◌∷◌, Bytes,
}
use gst_playd.Base.{length, c_string}
use gst_playd.Daemon.Messages.{
  handle_loop, loop_next, handle_message, handle_queued, answer, send_reply,
}
use gst_playd.Glib.HashTable.{HashTable}
use gst_playd.Glib.Regex.{Regex}
use gst_playd.Host.{
  Errno, eagain, eintr, other, Received, message, failed, World, zmq_recv, zmq_send,
}
use gst_playd.Host.Actions.{Action, pure, ◌>>=◌, ◌>>◌}
use gst_playd.Operations.{OpContext, Process}
use gst_playd.Parser.{RegEntryWithCtx, ParseCtx, parse_message}

-- What becomes of a reply: an aborted process sends nothing, and every other sends the reply, once.
abbrev pub replied : ℕ → Bytes × Process → Option (Unit {0} × World)
replied s (text, none) = none
replied s (text, some w) = some (tt, record w { calls = zmq_send (some s) text ∷ w.calls })

pub send_reply-replied : (s : ℕ) (r : Bytes × Process) → send_reply (some s) r ≡ replied s r
send_reply-replied s (text, none) = refl
send_reply-replied s (text, some w) = refl

module _ (table : HashTable (RegEntryWithCtx Process OpContext)) (regex : Regex) where
  -- One text: it is received, run, and answered.
  abbrev pub serve_one : ℕ → ParseCtx table → Bytes → World → Option (Unit {0} × World)
  serve_one s parser m w = replied s (
      parse_message table regex parser (c_string m)
        (some (record w { calls = zmq_recv (some s) (message m) ∷ w.calls })))

  -- The world once something was received.
  abbrev pub receiving : ℕ → Received → World → World
  receiving s r w = record w { calls = zmq_recv (some s) r ∷ w.calls }

  -- What comes in is taken in order. A text is run and answered before anything else is received, an
  -- interrupted receive is tried again, and the first other failure ends the tick; what has come in
  -- behind it stays on the socket.
  abbrev pub attend : ℕ → ParseCtx table → List Received → World → Option (List Received × World)
  attend s parser [] w = some ([], receiving s (failed eagain) w)
  attend s parser (message m ∷ rs) w = elim (serve_one s parser m w) [
    | none ↦ none
    | some (done, w') ↦ attend s parser rs w'
  ]
  attend s parser (failed eintr ∷ rs) w = attend s parser rs (receiving s (failed eintr) w)
  attend s parser (failed e ∷ rs) w = some (rs, receiving s (failed e) w)

  abbrev pub left_on : Option (List Received × World) → Option (Option (List Received) × World)
  left_on none = none
  left_on (some (rest, w)) = some (some rest, w)

  abbrev answered : Option (Unit {0} × World) → Action (Option Errno)
  answered r = (λ w. r) >> pure none

  round-attend :
      (s fuel : ℕ) (parser : ParseCtx table) (rs : List Received) (w : World)
      (r : Option (Unit {0} × World))
      → ((w' : World)
          → handle_loop fuel (handle_message table regex (some s) parser) rs w'
            ≡ left_on (attend s parser rs w'))
      → ((answered r >>= λ ret. pure (ret, rs))
            >>= loop_next (handle_loop fuel (handle_message table regex (some s) parser)))
          w
        ≡ left_on (elim r as (λ x. Option (List Received × World)) [
          | none ↦ none
          | some (u, w') ↦ attend s parser rs w'
        ])
  round-attend s fuel parser rs w none ih = refl
  round-attend s fuel parser rs w (some (u, w')) ih = ih w'

  handle_loop-attend :
      (s fuel : ℕ) (parser : ParseCtx table) (rs : List Received) (w : World)
      → length rs < fuel
      → handle_loop fuel (handle_message table regex (some s) parser) rs w
        ≡ left_on (attend s parser rs w)
  unfolding handle_loop handle_message answer
  handle_loop-attend s zero parser rs w enough = absurd (omega arith)
  handle_loop-attend s (suc fuel) parser [] w enough = refl
  handle_loop-attend s (suc fuel) parser (message m ∷ rs) w enough =
      let parsed =
        parse_message table regex parser (c_string m)
          (some (record w { calls = zmq_recv (some s) (message m) ∷ w.calls })) in
      round-attend s fuel parser rs w (send_reply (some s) parsed)
        (λ w'. handle_loop-attend s fuel parser rs w' (omega arith))
      ∙ ap
          (λ r. left_on (elim r as (λ x. Option (List Received × World)) [
            | none ↦ none
            | some (u, w') ↦ attend s parser rs w'
          ]))
          (send_reply-replied s parsed)
  handle_loop-attend s (suc fuel) parser (failed eintr ∷ rs) w enough =
      handle_loop-attend s fuel parser rs (receiving s (failed eintr) w) (omega arith)
  handle_loop-attend s (suc fuel) parser (failed eagain ∷ rs) w enough = refl
  handle_loop-attend s (suc fuel) parser (failed (other n) ∷ rs) w enough = refl

  -- Whatever comes in, a tick of a server does what attending to it one by one does, and leaves the
  -- same behind on the socket: each text is run and answered with one reply before anything else is
  -- received, an interrupted receive is tried again, and the first other failure, or that there is
  -- nothing more, ends the tick. Where a handler aborts, so does the tick.
  pub handle_queued-attend :
      (s : ℕ) (parser : ParseCtx table) (rs : List Received) (w : World)
      → handle_queued table regex
          (record { zmq_socket = some s; parse_ctx = some parser; pubsub_mode = false })
          rs
          w
        ≡ left_on (attend s parser rs w)
  unfolding handle_queued
  handle_queued-attend s parser rs w =
      handle_loop-attend s (suc (length rs)) parser rs w (omega arith)
