-- ===== src/Operations/Texts.antt =====
-- The replies of the handlers in src/operations hold no NUL, so that the whole reply is sent.
use gst_playd.Base.{ℕ, ◌≡◌, sym, subst, ap, arith, Option, none, some, List, ◌++◌, Bytes, codes}
use gst_playd.Base.{All, IsText, append-IsText}
use gst_playd.Base.Decimal.{format_unsigned, format_unsigned-IsText, atoll, to_guint}
use gst_playd.Host.{Host, World, Call, PubsubCtx, SourceItem}
use gst_playd.Host.Actions.{Action, pure, lift, some->>=, lift->>=, abort}
use gst_playd.Operations.{OpContext, no_context, services, playback}
use gst_playd.Operations.Control.{op_pubsub_parse, op_quit_parse}
use gst_playd.Operations.Ping.{op_ping_parse, param_text}
use gst_playd.Operations.Play.Handlers.{
  op_play_parse, op_stop_parse, op_dumpgraph_parse, stop_source, player_id,
}
use gst_playd.Operations.Play.Invariant.{stop_source-none, stop_source-some}
use gst_playd.Operations.Play.Sources.{source_item_from_id}
use gst_playd.Operations.Play.Stop.{op_play_parse-source}
use gst_playd.Operations.Play.Tags.{BusMessage, read_tags}
use gst_playd.Operations.Play.TagsText.{IsParam, HasText, read_tags-IsText}
use gst_playd.Operations.Play.TagsPipeline.{TagReader, paused_messages, op_tags_parse}
use gst_playd.Pubsub.{pubsub_send_message}

-- The address of the socket of the events is a C string.
abbrev pub HasAddress : World → Type 0
HasAddress w = (ctx : PubsubCtx) → w.pub_sub ≡ some ctx → IsText ctx.addr

-- An action whose replies are C strings.
abbrev pub RepliesText : Action Bytes → Type 0
RepliesText op =
    (w v : World) (reply : Bytes) → HasAddress w → op w ≡ some (reply, v) → IsText reply

pure-RepliesText : (s : Bytes) → IsText s → RepliesText (pure s)
pure-RepliesText s text w v reply address e =
    subst IsText (ap (λ r. elim r as (λ x. Bytes) [ none ↦ s | some (t, u) ↦ t ]) e) text

lift-result :
    {A : Type 0} (o : Option A) (w v : World) (a : A) → lift o w ≡ some (a, v) → o ≡ some a
lift-result none w v a e = absurd (cc)
lift-result (some b) w v a e = cc

abort-RepliesText : RepliesText abort
abort-RepliesText w v reply address e = absurd (cc)

param_text-IsText : (param : Option Bytes) → IsParam param → IsText (param_text param)
param_text-IsText none text = omega arith
param_text-IsText (some s) text = text

pub op_ping_parse-RepliesText :
    (param : Option Bytes) (ctx : OpContext) → IsParam param → RepliesText (op_ping_parse param ctx)
unfolding op_ping_parse pubsub_send_message
op_ping_parse-RepliesText param services text = λ w v reply address e.
    let (p, is, rest) = lift->>= w.pub_sub _ w e in
    pure-RepliesText (codes "OK Message was " ++ param_text param)
      (append-IsText (codes "OK Message was ") (param_text param) (omega arith)
        (param_text-IsText param text))
      _ v reply address rest
op_ping_parse-RepliesText param no_context text = abort-RepliesText
op_ping_parse-RepliesText param playback text = abort-RepliesText

pub op_pubsub_parse-RepliesText :
    (param : Option Bytes) (ctx : OpContext) → RepliesText (op_pubsub_parse param ctx)
unfolding op_pubsub_parse
op_pubsub_parse-RepliesText param services = λ w v reply address e.
    let (p, is, rest) = lift->>= w.pub_sub _ w e in
    pure-RepliesText (codes "OK " ++ p.addr)
      (append-IsText (codes "OK ") p.addr (omega arith) (address p is)) w v reply address rest
op_pubsub_parse-RepliesText param no_context = abort-RepliesText
op_pubsub_parse-RepliesText param playback = abort-RepliesText

pub op_quit_parse-RepliesText :
    (param : Option Bytes) (ctx : OpContext) → RepliesText (op_quit_parse param ctx)
unfolding op_quit_parse
op_quit_parse-RepliesText param services =
    λ w v reply address e. pure-RepliesText (codes "OK") (omega arith) _ v reply address e
op_quit_parse-RepliesText param no_context = abort-RepliesText
op_quit_parse-RepliesText param playback = abort-RepliesText

player_id-IsText : (id : ℕ) → IsText (player_id id)
player_id-IsText id =
    append-IsText (codes "OK player id: ") (format_unsigned id) (omega arith)
      (format_unsigned-IsText id)

module _ (host : Host) where
  paused_messages-popped :
      (tag_reader : TagReader) (param : Option Bytes) (w v : World)
      (msgs : List (BusMessage tag_reader.Double tag_reader.Date))
      → paused_messages host tag_reader param w ≡ some (msgs, v)
      → (calls : List Call) × (msgs ≡ tag_reader.popped calls)
  unfolding paused_messages
  paused_messages-popped tag_reader param w v msgs e = (
    _,
    sym (
        ap
          (λ r. elim r as (λ x. List (BusMessage tag_reader.Double tag_reader.Date)) [
            | none ↦ msgs
            | some (m, u) ↦ m
          ])
          e),
  )

  pub op_tags_parse-RepliesText :
      (tag_reader : TagReader) (param : Option Bytes) (ctx : OpContext)
      → ((calls : List Call) → All HasText (tag_reader.popped calls))
      → RepliesText (op_tags_parse host tag_reader param ctx)
  unfolding op_tags_parse
  op_tags_parse-RepliesText tag_reader param ctx texts w v reply address e =
      let (msgs, w1, ran, rest) =
        some->>= (paused_messages host tag_reader param)
          (λ msgs.
            lift (read_tags tag_reader.format_double tag_reader.format_date tag_reader.table msgs))
          e in
      let (calls, popped) = paused_messages-popped tag_reader param w w1 msgs ran in
      read_tags-IsText tag_reader.format_double tag_reader.format_date tag_reader.table msgs reply
        (subst (All HasText) (sym popped) (texts calls)) (lift-result _ w1 v reply rest)

  pub op_dumpgraph_parse-RepliesText :
      (param : Option Bytes) (ctx : OpContext) → RepliesText (op_dumpgraph_parse host param ctx)
  unfolding op_dumpgraph_parse
  op_dumpgraph_parse-RepliesText param playback =
      λ w v reply address e. pure-RepliesText (codes "OK") (omega arith) _ v reply address e
  op_dumpgraph_parse-RepliesText param no_context = abort-RepliesText
  op_dumpgraph_parse-RepliesText param services = abort-RepliesText

  pub op_play_parse-RepliesText :
      (param : Option Bytes) (ctx : OpContext) → RepliesText (op_play_parse host param ctx)
  unfolding op_play_parse
  op_play_parse-RepliesText (some uri) playback = λ w v reply address e.
      let (item, id, same_uri, at, has, context, replied) =
        op_play_parse-source host uri reply w v e in
      subst IsText (sym replied) (player_id-IsText id)
  op_play_parse-RepliesText none ctx = abort-RepliesText
  op_play_parse-RepliesText (some uri) no_context = abort-RepliesText
  op_play_parse-RepliesText (some uri) services = abort-RepliesText

  stop_source-IsText :
      (id : ℕ) (found : Option SourceItem) (w v : World) (reply : Bytes)
      → stop_source host w.playback id found w ≡ some (reply, v)
      → IsText reply
  stop_source-IsText id none w v reply e =
      subst IsText (sym (stop_source-none host w.playback id w v reply e).0) (omega arith)
  stop_source-IsText id (some item) w v reply e =
      subst IsText (sym (stop_source-some host w.playback id item w v reply e).0)
        (player_id-IsText id)

  pub op_stop_parse-RepliesText :
      (param : Option Bytes) (ctx : OpContext) → RepliesText (op_stop_parse host param ctx)
  unfolding op_stop_parse
  op_stop_parse-RepliesText (some param) playback = λ w v reply address e.
      let id = to_guint (atoll param) in
      let (found, searched, rest) =
        lift->>= (source_item_from_id host w.playback.sources id) (stop_source host w.playback id) w
          e in
      stop_source-IsText id found w v reply rest
  op_stop_parse-RepliesText none ctx = abort-RepliesText
  op_stop_parse-RepliesText (some param) no_context = abort-RepliesText
  op_stop_parse-RepliesText (some param) services = abort-RepliesText
