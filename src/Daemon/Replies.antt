-- ===== src/Daemon/Replies.antt =====
-- The replies of the server in src/gst_playd.c: one to each message, in order.
use gst_playd.Base.{ℕ, ◌≡◌, refl, ap, ◌∙◌, false, Option, none, some, List, [], ◌∷◌, Bytes}
use gst_playd.Daemon.Messages.{handle_queued}
use gst_playd.Daemon.Received.{serve_one, attend, left_on, handle_queued-attend}
use gst_playd.Glib.HashTable.{HashTable}
use gst_playd.Glib.Regex.{Regex}
use gst_playd.Host.{eagain, Received, message, failed, World, zmq_recv}
use gst_playd.Operations.{OpContext, Process}
use gst_playd.Parser.{RegEntryWithCtx, ParseCtx}

-- The texts as they come in.
abbrev pub queue : List Bytes → List Received
queue [] = []
queue (m ∷ ms) = message m ∷ queue ms

module _ (table : HashTable (RegEntryWithCtx Process OpContext)) (regex : Regex) where
  -- Each text is received, run and answered before the next is received, and at last there is
  -- nothing to receive.
  abbrev pub serve : ℕ → ParseCtx table → List Bytes → World → Option World
  serve s parser [] w = some (record w { calls = zmq_recv (some s) (failed eagain) ∷ w.calls })
  serve s parser (m ∷ ms) w = elim (serve_one table regex s parser m w) [
    | none ↦ none
    | some (done, w') ↦ serve s parser ms w'
  ]

  pub serve-one :
      (s : ℕ) (parser : ParseCtx table) (m : Bytes) (w w' : World)
      → serve_one table regex s parser m w ≡ some (tt, w')
      → serve s parser (m ∷ []) w
        ≡ some (record w' { calls = zmq_recv (some s) (failed eagain) ∷ w'.calls })
  serve-one s parser m w w' e =
      ap
        (λ r. elim r as (λ x. Option World) [
          | none ↦ none
          | some (done, w') ↦ serve s parser [] w'
        ])
        e

  abbrev pub emptied : Option World → Option (Option (List Received) × World)
  emptied none = none
  emptied (some w) = some (some [], w)

  attend-queue :
      (s : ℕ) (parser : ParseCtx table) (ms : List Bytes) (w : World)
      → left_on table regex (attend table regex s parser (queue ms) w)
        ≡ emptied (serve s parser ms w)
  attend-queue s parser [] w = refl
  attend-queue s parser (m ∷ ms) w =
      go (attend-queue s parser ms) (serve_one table regex s parser m w)
    where
      go :
          ((w : World)
            → left_on table regex (attend table regex s parser (queue ms) w)
              ≡ emptied (serve s parser ms w))
          → (r : Option (Unit {0} × World))
          → left_on table regex (elim r as (λ x. Option (List Received × World)) [
            | none ↦ none
            | some (u, w') ↦ attend table regex s parser (queue ms) w'
          ])
            ≡ emptied (elim r as (λ x. Option World) [
              | none ↦ none
              | some (u, w') ↦ serve s parser ms w'
            ])
      go ih none = refl
      go ih (some (u, w')) = ih w'

  -- When all that has come in are texts, a tick of a server leaves the world and the calls that
  -- serving the texts one after the other leaves: each is received, run, and answered with one reply
  -- before the next is received, and nothing is left on the socket. Where a handler aborts, so does the
  -- tick.
  pub handle_queued-serve :
      (s : ℕ) (parser : ParseCtx table) (ms : List Bytes) (w : World)
      → handle_queued table regex
          (record { zmq_socket = some s; parse_ctx = some parser; pubsub_mode = false })
          (queue ms)
          w
        ≡ emptied (serve s parser ms w)
  handle_queued-serve s parser ms w =
      handle_queued-attend table regex s parser (queue ms) w ∙ attend-queue s parser ms w
