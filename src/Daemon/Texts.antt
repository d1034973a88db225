-- ===== src/Daemon/Texts.antt =====
-- The replies of the server in src/gst_playd.c hold no NUL.
use gst_playd.Base.{
  inl, inr, true, str_equal, ◌≡◌, ap, ◌∙◌, sym, subst, arith, Option, some, List, ◌++◌, Bytes,
}
use gst_playd.Base.{All, All-append_right, IsText, inl, inr}
use gst_playd.Daemon.Entries.{lookup-Holds}
use gst_playd.Daemon.Main.{register_operations}
use gst_playd.Glib.HashTable.{HashTable}
use gst_playd.Glib.Regex.{Regex, IsPlain}
use gst_playd.Glib.Regex.Facts.{IsPlain-IsText}
use gst_playd.Host.{Host, World, Call}
use gst_playd.Host.Actions.{Action}
use gst_playd.Operations.{OpContext, services, playback, Process, run_handler, run_handler_cases}
use gst_playd.Operations.Control.{control_messages}
use gst_playd.Operations.Ping.{ping_messages}
use gst_playd.Operations.Play.Handlers.{playback_messages}
use gst_playd.Operations.Play.TagsPipeline.{TagReader}
use gst_playd.Operations.Play.TagsText.{IsParam, HasText}
use gst_playd.Operations.Texts.{
  HasAddress, RepliesText, op_ping_parse-RepliesText, op_pubsub_parse-RepliesText,
  op_quit_parse-RepliesText, op_tags_parse-RepliesText, op_play_parse-RepliesText,
  op_stop_parse-RepliesText, op_dumpgraph_parse-RepliesText,
}
use gst_playd.Parser.{ParseHandlerCb, RegEntryWithCtx, ParseCtx, parse_message}
use gst_playd.Parser.Dispatch.{parse_message_plain}

HandlerText : OpContext → ParseHandlerCb Process OpContext → Type 0
HandlerText ctx op =
    (param : Option Bytes) (w : World) (reply : Bytes) (p : Process)
    → IsParam param
    → HasAddress w
    → op param ctx (some w) ≡ (reply, p)
    → IsText reply

run_handler-IsText :
    (op : Action Bytes) (w : World) (reply : Bytes) (p : Process)
    → RepliesText op
    → HasAddress w
    → run_handler op (some w) ≡ (reply, p)
    → IsText reply
run_handler-IsText op w reply p texts address e = elim (run_handler_cases op w reply p e) [
  | inl (empty, aborted) ↦ rw empty tt
  | inr (v, ran, same) ↦ texts w v reply address ran
]

module _ (host : Host) (tag_reader : TagReader)
    (table : HashTable (RegEntryWithCtx Process OpContext)) where
  module _ (k : Bytes) where
    playback_messages-HandlerText :
        ((calls : List Call) → All HasText (tag_reader.popped calls))
        → All
            (λ msg. str_equal msg.prefix k ≡ true → HandlerText playback msg.op_parse)
            (playback_messages host tag_reader)
    unfolding HandlerText
    playback_messages-HandlerText texts = (
      λ word param w reply p text.
          run_handler-IsText _ w reply p
            (op_tags_parse-RepliesText host tag_reader param playback texts),
      (
        λ word param w reply p text.
            run_handler-IsText _ w reply p (op_play_parse-RepliesText host param playback),
        (
          λ word param w reply p text.
              run_handler-IsText _ w reply p (op_stop_parse-RepliesText host param playback),
          (
            λ word param w reply p text.
                run_handler-IsText _ w reply p (op_dumpgraph_parse-RepliesText host param playback),
            tt,
          ),
        ),
      ),
    )

    control_messages-HandlerText :
        All
          (λ msg. str_equal msg.prefix k ≡ true → HandlerText services msg.op_parse)
          control_messages
    unfolding HandlerText
    control_messages-HandlerText = (
      λ word param w reply p text.
          run_handler-IsText _ w reply p (op_pubsub_parse-RepliesText param services),
      (
        λ word param w reply p text.
            run_handler-IsText _ w reply p (op_quit_parse-RepliesText param services),
        tt,
      ),
    )

    ping_messages-HandlerText :
        All (λ msg. str_equal msg.prefix k ≡ true → HandlerText services msg.op_parse) ping_messages
    unfolding HandlerText
    ping_messages-HandlerText = (
      λ word param w reply p text.
          run_handler-IsText _ w reply p (op_ping_parse-RepliesText param services text),
      tt,
    )

  -- With the plugins registered, where the address of the events and the errors of GStreamer are C
  -- strings, the reply to a message of printable ASCII is a C string, whatever the message: it holds
  -- no NUL, so that the `strlen` bytes that are sent are all of it.
  pub parse_message-IsText :
      (regex : Regex) (parser : ParseCtx table) (u u' w : World) (message reply : Bytes)
      (p : Process)
      → register_operations host tag_reader table u ≡ some (parser, u')
      → ((calls : List Call) → All HasText (tag_reader.popped calls))
      → HasAddress w
      → IsPlain message
      → parse_message table regex parser message (some w) ≡ (reply, p)
      → IsText reply
  unfolding HandlerText
  parse_message-IsText regex parser u u' w message reply p registers texts address plain e =
      elim (parse_message_plain table regex parser message (some w) plain) [
        | inl invalid ↦ subst IsText (ap (λ r. r.0) (sym invalid ∙ e)) (omega arith)
        | inr (prefix, space, param, entry, split, found, ran) ↦
            let rest : IsPlain (space ++ param) =
              All-append_right _ prefix (space ++ param) (subst IsPlain split.whole plain) in
            let text = IsPlain-IsText param (All-append_right _ space param rest) in
            lookup-Holds HandlerText table host tag_reader parser u u' prefix entry registers
              (playback_messages-HandlerText prefix texts) (control_messages-HandlerText prefix)
              (ping_messages-HandlerText prefix) found (some param) w reply p text address
              (sym ran ∙ e)
      ]
