-- ===== src/Daemon/Kept.antt =====
-- What the messages of the server in src/gst_playd.c leave alone.
pub mod Loop
pub mod Sockets
use gst_playd.Base.{codes, str_equal_iff, ◌≡◌, refl, ap, ◌∙◌, sym, true, Option, none, some, Bytes}
use gst_playd.Base.{All, inl, inr, str_equal, if◌then◌else◌}
use gst_playd.Daemon.Entries.{lookup-Holds}
use gst_playd.Daemon.Main.{register_operations}
use gst_playd.Daemon.Messages.{send_reply}
use gst_playd.Glib.HashTable.{HashTable}
use gst_playd.Glib.Regex.{Regex}
use gst_playd.Host.{Host, World, Pointer, zmq_send}
use gst_playd.Host.Actions.{Action}
use gst_playd.Host.Frame.{Frame, SetsSources, SetsFlag, Keeps, same, perform-Keeps}
use gst_playd.Operations.{OpContext, services, playback, Process, run_handler, run_handler-some}
use gst_playd.Operations.Control.{control_messages}
use gst_playd.Operations.Kept.{
  op_ping_parse-Keeps, op_pubsub_parse-Keeps, op_quit_parse-Keeps, op_tags_parse-Keeps,
  op_play_parse-Keeps, op_stop_parse-Keeps, op_dumpgraph_parse-Keeps,
}
use gst_playd.Operations.Ping.{ping_messages}
use gst_playd.Operations.Play.Handlers.{playback_messages}
use gst_playd.Operations.Play.TagsPipeline.{TagReader}
use gst_playd.Parser.{RegEntryWithCtx, ParseCtx, parse_message}
use gst_playd.Parser.Dispatch.{command_word, parse_message_cases}

-- A handler, called in a process.
HandlerKeeps :
    (World → World → Type 0)
    → OpContext
    → (Option Bytes → OpContext → Process → Bytes × Process)
    → Type 0
HandlerKeeps R ctx op =
    (param : Option Bytes) (w v : World) (reply : Bytes)
    → op param ctx (some w) ≡ (reply, some v)
    → R w v

-- Where the command word asks to quit, to play or to stop, the relation has to hold of what it changes.
module _ {R : World → World → Type 0} (frame : Frame R) where
  run_handler-Keeps :
      (op : Action Bytes) (w v : World) (reply : Bytes)
      → Keeps R op
      → run_handler op (some w) ≡ (reply, some v)
      → R w v
  run_handler-Keeps op w v reply keeps e = keeps w v reply (run_handler-some op w v reply e)

  -- A reply is sent by a process that goes on.
  pub send_reply-Keeps :
      (sock : Pointer) (r : Bytes × Process) (v : World) (u : Unit {0})
      → send_reply sock r ≡ some (u, v)
      → (w1 : World) × (r ≡ (r.0, some w1)) × R w1 v
  send_reply-Keeps sock (text, none) v u e = absurd (cc)
  send_reply-Keeps sock (text, some w1) v u e =
      (w1, refl, perform-Keeps frame (zmq_send sock text) w1 v u e)

  module _ (host : Host) (tag_reader : TagReader)
      (table : HashTable (RegEntryWithCtx Process OpContext)) (k : Bytes) where
    playback_messages-HandlerKeeps :
        (str_equal (codes "PLAY") k ≡ true → SetsSources R)
        → (str_equal (codes "STOP") k ≡ true → SetsSources R)
        → All
            (λ msg. str_equal msg.prefix k ≡ true → HandlerKeeps R playback msg.op_parse)
            (playback_messages host tag_reader)
    unfolding HandlerKeeps
    playback_messages-HandlerKeeps plays stops = (
      λ word param w v reply.
          run_handler-Keeps _ w v reply (op_tags_parse-Keeps frame host tag_reader param playback),
      (
        λ word param w v reply.
            run_handler-Keeps _ w v reply
              (op_play_parse-Keeps frame host (plays word) param playback),
        (
          λ word param w v reply.
              run_handler-Keeps _ w v reply
                (op_stop_parse-Keeps frame host (stops word) param playback),
          (
            λ word param w v reply.
                run_handler-Keeps _ w v reply (op_dumpgraph_parse-Keeps frame host param playback),
            tt,
          ),
        ),
      ),
    )

    control_messages-HandlerKeeps :
        (str_equal (codes "QUIT") k ≡ true → SetsFlag R)
        → All
            (λ msg. str_equal msg.prefix k ≡ true → HandlerKeeps R services msg.op_parse)
            control_messages
    unfolding HandlerKeeps
    control_messages-HandlerKeeps quits = (
      λ word param w v reply.
          run_handler-Keeps _ w v reply (op_pubsub_parse-Keeps frame param services),
      (
        λ word param w v reply.
            run_handler-Keeps _ w v reply (op_quit_parse-Keeps frame (quits word) param services),
        tt,
      ),
    )

    ping_messages-HandlerKeeps :
        All
          (λ msg. str_equal msg.prefix k ≡ true → HandlerKeeps R services msg.op_parse)
          ping_messages
    unfolding HandlerKeeps
    ping_messages-HandlerKeeps = (
      λ word param w v reply.
          run_handler-Keeps _ w v reply (op_ping_parse-Keeps frame param services),
      tt,
    )

  pub parse_message-Keeps :
      (host : Host) (tag_reader : TagReader) (table : HashTable (RegEntryWithCtx Process OpContext))
      (regex : Regex) (parser : ParseCtx table) (u u' w v : World) (text reply : Bytes)
      → register_operations host tag_reader table u ≡ some (parser, u')
      → (command_word regex text ≡ some (codes "QUIT") → SetsFlag R)
      → (command_word regex text ≡ some (codes "PLAY") → SetsSources R)
      → (command_word regex text ≡ some (codes "STOP") → SetsSources R)
      → parse_message table regex parser text (some w) ≡ (reply, some v)
      → R w v
  unfolding HandlerKeeps
  parse_message-Keeps host tag_reader table regex parser u u' w v text reply registers quits plays
        stops e =
      elim (parse_message_cases table regex parser text (some w)) [
        | inl invalid ↦ let kept : w ≡ v = cc in same frame w v kept
        | inr (k, param, entry, word, found, ran) ↦
            let is_word = λ (s : Bytes) (is : str_equal s k ≡ true).
              word ∙ ap (λ x. some x) (sym ((str_equal_iff s k).0 is)) in
            lookup-Holds (HandlerKeeps R) table host tag_reader parser u u' k entry registers
              (playback_messages-HandlerKeeps host tag_reader table k (λ is. plays (is_word _ is))
                (λ is. stops (is_word _ is)))
              (control_messages-HandlerKeeps host tag_reader table k (λ is. quits (is_word _ is)))
              (ping_messages-HandlerKeeps host tag_reader table k) found param w v reply
              (sym ran ∙ e)
      ]
