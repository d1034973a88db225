-- ===== src/Daemon/Serves.antt =====
-- The server of src/gst_playd.c never aborts, where the libraries refuse nothing.
pub mod Loop
use gst_playd.Base.{
  ℕ, ◌+◌, ◌≤◌, ◌≡◌, refl, ap, ◌∙◌, arith, true, Option, none, some, List, [], ◌∷◌, ◌++◌, Bytes,
}
use gst_playd.Base.{All, str_equal, length, length-append, c_string-IsText, inl, inr}
use gst_playd.Daemon.Entries.{lookup-Holds}
use gst_playd.Daemon.Main.{register_operations}
use gst_playd.Daemon.Received.{replied, serve_one, receiving, attend}
use gst_playd.Glib.HashTable.{HashTable}
use gst_playd.Glib.Regex.{Regex, IsPlain}
use gst_playd.Glib.Regex.Facts.{IsPlain-IsText}
use gst_playd.Host.{Host, World, eagain, eintr, other, Received, message, failed, zmq_send}
use gst_playd.Host.Actions.{Action}
use gst_playd.Operations.{
  OpContext, services, playback, Process, handler, run_handler, run_handler_lem,
}
use gst_playd.Operations.Control.{op_pubsub_parse, op_quit_parse, control_messages}
use gst_playd.Operations.Ping.{op_ping_parse, ping_messages}
use gst_playd.Operations.Play.Handlers.{
  op_play_parse, op_stop_parse, op_dumpgraph_parse, playback_messages,
}
use gst_playd.Operations.Play.TagsPipeline.{TagReader, op_tags_parse}
use gst_playd.Operations.Returns.{
  IsReady, Replies, RefusesNothing, op_ping_parse-Replies, op_pubsub_parse-Replies,
  op_quit_parse-Replies, op_dumpgraph_parse-Replies, op_tags_parse-Replies, op_play_parse-Replies,
  op_stop_parse-Replies,
}
use gst_playd.Parser.{ParseHandlerCb, RegEntryWithCtx, ParseCtx, parse_message, invalid_message}
use gst_playd.Parser.Dispatch.{parse_message_plain}

-- A text of printable ASCII that is not too long, or a failed receive.
abbrev pub IsModest : ℕ → Received → Type 0
IsModest bound (message m) = IsPlain m × (length m ≤ bound)
IsModest bound (failed e) = Unit {0}

module _ (host : Host) (tag_reader : TagReader) (bound : ℕ)
    (refuses : RefusesNothing host tag_reader bound) where
  -- The process has replied and is ready.
  abbrev pub HasReplied : Bytes × Process → Type 0
  HasReplied r = (reply : Bytes) × (v : World) × (r ≡ (reply, some v)) × IsReady host v

  HandlerReplies : OpContext → ParseHandlerCb Process OpContext → Type 0
  HandlerReplies ctx op =
      (param : Bytes) (w : World)
      → length param ≤ bound
      → IsReady host w
      → HasReplied (op (some param) ctx (some w))

  run_handler-HasReplied :
      (op : Action Bytes) (w : World) → Replies host op w → HasReplied (run_handler op (some w))
  run_handler-HasReplied op w (reply, v, ran, ready) =
      (reply, v, run_handler_lem op w v reply ran, ready)

  handler-HandlerReplies :
      (op : Option Bytes → OpContext → Action Bytes) (ctx : OpContext)
      → ((param : Bytes) (w : World)
          → length param ≤ bound
          → IsReady host w
          → Replies host (op (some param) ctx) w)
      → HandlerReplies ctx (handler op)
  unfolding HandlerReplies
  handler-HandlerReplies op ctx replies param w short ready =
      run_handler-HasReplied (op (some param) ctx) w (replies param w short ready)

  module _ (k : Bytes) where
    playback_messages-HandlerReplies :
        All
          (λ msg. str_equal msg.prefix k ≡ true → HandlerReplies playback msg.op_parse)
          (playback_messages host tag_reader)
    playback_messages-HandlerReplies = (
      λ word.
          handler-HandlerReplies (op_tags_parse host tag_reader) playback (λ param w short ready.
            op_tags_parse-Replies host w ready tag_reader bound refuses param),
      (
        λ word. handler-HandlerReplies (op_play_parse host) playback (λ param w short ready.
            op_play_parse-Replies host w ready tag_reader bound refuses param short),
        (
          λ word. handler-HandlerReplies (op_stop_parse host) playback (λ param w short ready.
              op_stop_parse-Replies host w ready tag_reader bound refuses param),
          (
            λ word.
                handler-HandlerReplies (op_dumpgraph_parse host) playback
                  (λ param w short ready. op_dumpgraph_parse-Replies host w ready param),
            tt,
          ),
        ),
      ),
    )

    control_messages-HandlerReplies :
        All
          (λ msg. str_equal msg.prefix k ≡ true → HandlerReplies services msg.op_parse)
          control_messages
    control_messages-HandlerReplies = (
      λ word.
          handler-HandlerReplies op_pubsub_parse services
            (λ param w short ready. op_pubsub_parse-Replies host w ready param),
      (
        λ word.
            handler-HandlerReplies op_quit_parse services
              (λ param w short ready. op_quit_parse-Replies host w ready param),
        tt,
      ),
    )

    ping_messages-HandlerReplies :
        All
          (λ msg. str_equal msg.prefix k ≡ true → HandlerReplies services msg.op_parse)
          ping_messages
    ping_messages-HandlerReplies = (
      λ word.
          handler-HandlerReplies op_ping_parse services
            (λ param w short ready. op_ping_parse-Replies host w ready param),
      tt,
    )

  module _ (table : HashTable (RegEntryWithCtx Process OpContext)) (regex : Regex)
      (parser : ParseCtx table) (u u' : World)
      (registers : register_operations host tag_reader table u ≡ some (parser, u')) where
    parse_message-HasReplied :
        (text : Bytes) (w : World)
        → IsPlain text
        → length text ≤ bound
        → IsReady host w
        → HasReplied (parse_message table regex parser text (some w))
    unfolding HandlerReplies
    parse_message-HasReplied text w plain short ready =
        elim (parse_message_plain table regex parser text (some w) plain) [
          | inl invalid ↦ (invalid_message, w, invalid, ready)
          | inr (prefix, space, param, entry, split, found, ran) ↦
              let shorter : length param ≤ bound = omega (
                arith,
                ap length split.whole,
                length-append prefix (space ++ param),
                length-append space param,
              ) in
              let (reply, v, done, still) =
                lookup-Holds HandlerReplies table host tag_reader parser u u' prefix entry registers
                  (playback_messages-HandlerReplies prefix) (control_messages-HandlerReplies prefix)
                  (ping_messages-HandlerReplies prefix) found param w shorter ready in
              (reply, v, ran ∙ done, still)
        ]

    -- Once a text is received it is answered.
    serve_one-returns :
        (s : ℕ) (m : Bytes) (w : World)
        → IsModest bound (message m)
        → IsReady host w
        → (v : World) × (serve_one table regex s parser m w ≡ some (tt, v)) × IsReady host v
    serve_one-returns s m w (plain, short) ready =
        let same = c_string-IsText m (IsPlain-IsText m plain) in
        let (reply, v, ran, still) =
          parse_message-HasReplied m (receiving table regex s (message m) w) plain short ready in
        (
          record v { calls = zmq_send (some s) reply ∷ v.calls },
          ap
                (λ t. replied s (
                  parse_message table regex parser t
                    (some (receiving table regex s (message m) w))))
                same
              ∙ ap (replied s) ran,
          still,
        )

    pub attend-returns :
        (s : ℕ) (rs : List Received) (w : World)
        → All (IsModest bound) rs
        → IsReady host w
        → (rest : List Received) × (v : World) × (attend table regex s parser rs w ≡ some (rest, v))
          × IsReady host v
    attend-returns s [] w modest ready = ([], _, refl, ready)
    attend-returns s (failed eintr ∷ rs) w (here, modest) ready =
        attend-returns s rs (receiving table regex s (failed eintr) w) modest ready
    attend-returns s (failed eagain ∷ rs) w modest ready = (rs, _, refl, ready)
    attend-returns s (failed (other n) ∷ rs) w modest ready = (rs, _, refl, ready)
    attend-returns s (message m ∷ rs) w (here, modest) ready =
        let (w1, served, now) = serve_one-returns s m w here ready in
        let (rest, v, ran, still) = attend-returns s rs w1 modest now in
        (
          rest,
          v,
          ap
                (λ r. elim r as (λ x. Option (List Received × World)) [
                  | none ↦ none
                  | some (t, w') ↦ attend table regex s parser rs w'
                ])
                served
              ∙ ran,
          still,
        )
