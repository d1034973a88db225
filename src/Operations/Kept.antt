-- ===== src/Operations/Kept.antt =====
-- What the handlers of src/operations leave alone.
use gst_playd.Base.{refl, subst, ◌≡◌, sym, ℕ, ◌∷◌, ◌++◌, true, Option, none, some, codes, Bytes}
use gst_playd.Host.{gst_debug_bin_to_dot_file, Host, World, PubsubCtx, SourceItem, zmq_send}
use gst_playd.Host.Actions.{gets, pure, lift, ◌>>=◌, some->>=, lift->>=, lift-pure}
use gst_playd.Operations.Play.Stop.{unlinked}
use gst_playd.Host.Frame.{
  Frame, Keeps, SetsSources, SetsFlag, called, moved, left_world, pure-Keeps, abort-Keeps,
  lift-Keeps, gets-Keeps, >>=-Keeps,
}
use gst_playd.Operations.{OpContext, no_context, services, playback, services_pub_sub}
use gst_playd.Operations.Control.{op_pubsub_parse, op_quit_parse}
use gst_playd.Operations.Ping.{op_ping_parse}
use gst_playd.Operations.Play.Handlers.{
  op_play_parse, op_stop_parse, op_dumpgraph_parse, stop_source, player_id, set_sources,
  playback_bus_callback, publish_event, prefix_of, PipelineMessage,
}
use gst_playd.Base.Decimal.{atoll, to_guint}
use gst_playd.Operations.Play.Ran.{source_new_and_link-OnlyCalls, source_free_and_unlink-ran}
use gst_playd.Operations.Play.Sources.{
  source_item_to_id, source_item_from_id, remove_source, source_new_and_link,
  source_free_and_unlink,
}
use gst_playd.Operations.Play.Tags.{read_tags}
use gst_playd.Operations.Play.TagsPipeline.{TagReader, paused_messages, op_tags_parse}
use gst_playd.Pubsub.{pubsub_send_message}

module _ {R : World → World → Type 0} (frame : Frame R) where
  services_pub_sub-Keeps : Keeps R services_pub_sub
  services_pub_sub-Keeps =
      >>=-Keeps frame (gets (λ w. w.pub_sub)) _ (gets-Keeps frame (λ w. w.pub_sub))
        (lift-Keeps frame)

  -- What is sent on the socket of the events changes none of them.
  publishes-Keeps :
      {A : Type 0} (text : PubsubCtx → Bytes) (a : A)
      → Keeps R (services_pub_sub >>= λ p. pubsub_send_message p (text p) >>= λ sent. pure a)
  unfolding pubsub_send_message
  publishes-Keeps text a w v b e =
      let (p, w1, found, rest) = some->>= services_pub_sub _ e in
      frame.trans w w1 v (services_pub_sub-Keeps w w1 p found)
        (called frame w1 v (zmq_send p.sock (text p) ∷ w1.calls) (left_world {a = a} refl rest))

  pub op_ping_parse-Keeps :
      (param : Option Bytes) (ctx : OpContext) → Keeps R (op_ping_parse param ctx)
  unfolding op_ping_parse
  op_ping_parse-Keeps param services = publishes-Keeps (λ p. _) _
  op_ping_parse-Keeps param no_context = abort-Keeps frame
  op_ping_parse-Keeps param playback = abort-Keeps frame

  pub op_pubsub_parse-Keeps :
      (param : Option Bytes) (ctx : OpContext) → Keeps R (op_pubsub_parse param ctx)
  unfolding op_pubsub_parse
  op_pubsub_parse-Keeps param services =
      >>=-Keeps frame services_pub_sub _ services_pub_sub-Keeps (λ pub_sub. pure-Keeps frame _)
  op_pubsub_parse-Keeps param no_context = abort-Keeps frame
  op_pubsub_parse-Keeps param playback = abort-Keeps frame

  module _ (quits : SetsFlag R) where
    pub op_quit_parse-Keeps :
        (param : Option Bytes) (ctx : OpContext) → Keeps R (op_quit_parse param ctx)
    unfolding op_quit_parse
    op_quit_parse-Keeps param services =
        λ w v a e. subst (λ u. R w u) (left_world {a = codes "OK"} refl e) (quits w)
    op_quit_parse-Keeps param no_context = abort-Keeps frame
    op_quit_parse-Keeps param playback = abort-Keeps frame

  publish_event-Keeps : (event : Option (Bytes × Bytes)) → Keeps R (publish_event event)
  publish_event-Keeps none = pure-Keeps frame true
  publish_event-Keeps (some (prefix, text)) =
      publishes-Keeps (λ p. prefix ++ (codes ": " ++ text)) true

  pub playback_bus_callback-Keeps : (m : PipelineMessage) → Keeps R (playback_bus_callback m)
  unfolding playback_bus_callback
  playback_bus_callback-Keeps m = publish_event-Keeps (prefix_of m)

  module _ (host : Host) where
    paused_messages-Keeps :
        (tag_reader : TagReader) (param : Option Bytes)
        → Keeps R (paused_messages host tag_reader param)
    unfolding paused_messages
    paused_messages-Keeps tag_reader param w v msgs e = called frame w v _ (left_world refl e)

    pub op_tags_parse-Keeps :
        (tag_reader : TagReader) (param : Option Bytes) (ctx : OpContext)
        → Keeps R (op_tags_parse host tag_reader param ctx)
    unfolding op_tags_parse
    op_tags_parse-Keeps tag_reader param ctx =
        >>=-Keeps frame (paused_messages host tag_reader param)
          (λ msgs.
            lift (read_tags tag_reader.format_double tag_reader.format_date tag_reader.table msgs))
          (paused_messages-Keeps tag_reader param) (λ msgs. lift-Keeps frame _)

    pub op_dumpgraph_parse-Keeps :
        (param : Option Bytes) (ctx : OpContext) → Keeps R (op_dumpgraph_parse host param ctx)
    unfolding op_dumpgraph_parse
    op_dumpgraph_parse-Keeps param playback = λ w v a e.
        called frame w v (gst_debug_bin_to_dot_file w.playback.pipeline param ∷ w.calls)
          (left_world {a = codes "OK"} refl e)
    op_dumpgraph_parse-Keeps param no_context = abort-Keeps frame
    op_dumpgraph_parse-Keeps param services = abort-Keeps frame

    module _ (sources : SetsSources R) where
      pub op_play_parse-Keeps :
          (param : Option Bytes) (ctx : OpContext) → Keeps R (op_play_parse host param ctx)
      unfolding op_play_parse
      op_play_parse-Keeps (some uri) playback = λ w v reply e.
          let (item, w1, made, rest) =
            some->>= (source_new_and_link host uri w.playback.pipeline w.playback.mux) _ e in
          let made_calls = source_new_and_link-OnlyCalls host uri _ _ w w1 item made in
          let (id, has, replied, left) =
            lift-pure (source_item_to_id host item) player_id
              (set_sources (item ∷ w.playback.sources) w1) v reply rest in
          frame.trans w w1 v (frame.calls w w1 made_calls)
            (moved frame w1 v (item ∷ w.playback.sources) sources (sym left))
      op_play_parse-Keeps none ctx = abort-Keeps frame
      op_play_parse-Keeps (some uri) no_context = abort-Keeps frame
      op_play_parse-Keeps (some uri) services = abort-Keeps frame

      stop_source-Keeps :
          (id : ℕ) (found : Option SourceItem) (w v : World) (reply : Bytes)
          → stop_source host w.playback id found w ≡ some (reply, v)
          → R w v
      unfolding stop_source
      stop_source-Keeps id none w v reply e =
          pure-Keeps frame (codes "FAIL id is invalid") w v reply e
      stop_source-Keeps id (some item) w v reply e =
          let kept = set_sources (remove_source w.playback.sources item) w in
          let (u, w1, freed, rest) =
            some->>= (source_free_and_unlink host item w.playback.pipeline w.playback.mux) _ e in
          frame.trans w w1 v
            (frame.trans w kept w1 (sources w (remove_source w.playback.sources item)) (
              called frame kept w1 (unlinked host item w.playback w.calls)
                (source_free_and_unlink-ran host item kept w1 u freed)))
            (pure-Keeps frame (player_id id) w1 v reply rest)

      pub op_stop_parse-Keeps :
          (param : Option Bytes) (ctx : OpContext) → Keeps R (op_stop_parse host param ctx)
      unfolding op_stop_parse
      op_stop_parse-Keeps (some param) playback = λ w v reply e.
          let id = to_guint (atoll param) in
          let (found, searched, rest) =
            lift->>= (source_item_from_id host w.playback.sources id)
              (stop_source host w.playback id) w e in
          stop_source-Keeps id found w v reply rest
      op_stop_parse-Keeps none ctx = abort-Keeps frame
      op_stop_parse-Keeps (some param) no_context = abort-Keeps frame
      op_stop_parse-Keeps (some param) services = abort-Keeps frame
