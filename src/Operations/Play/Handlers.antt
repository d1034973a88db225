-- ===== src/Operations/Play/Handlers.antt =====
-- The handlers and the plugin of src/operations/play.c. A NULL parameter is dereferenced by PLAY and
-- STOP; with a context that is not the playback context a handler has no result.
use gst_playd.Base.{ℕ, Bool, true, false, Option, none, some, List, [], ◌∷◌, ◌++◌, Bytes, codes}
use gst_playd.Base.Decimal.{format_unsigned, atoll, to_guint}
use gst_playd.Host.{
  Pointer, ready, Host, SourceItem, PlaybackCtx, World, gst_bin_add_many, gst_bus_add_watch,
  gst_debug_bin_to_dot_file, gst_object_unref,
}
use gst_playd.Host.Actions.{
  Action, pure, abort, lift, gets, modify, ◌>>=◌, ◌>>◌, perform, make, pipeline_new, link_many,
  get_bus, set_state,
}
use gst_playd.Operations.{OpContext, no_context, playback, Process, handler, services_pub_sub}
use gst_playd.Operations.Play.Sources.{
  source_item_to_id, source_item_from_id, remove_source, source_new_and_link,
  source_free_and_unlink,
}
use gst_playd.Operations.Play.TagsPipeline.{TagReader, op_tags_parse}
use gst_playd.Parser.{MessageDispatchEntry}
use gst_playd.Pubsub.{pubsub_send_message}

abbrev pub set_sources : List SourceItem → World → World
set_sources items w = record w { playback = record w.playback { sources = items } }

abbrev pub player_id : ℕ → Bytes
player_id id = codes "OK player id: " ++ format_unsigned id

-- The messages on the bus of the playback pipeline, with the text of their error.
pub data PipelineMessage : Type 0 where
  error_message warning_message info_message : Bytes → PipelineMessage
  unwatched : PipelineMessage

abbrev pub prefix_of : PipelineMessage → Option (Bytes × Bytes)
prefix_of (error_message text) = some (codes "ERROR", text)
prefix_of (warning_message text) = some (codes "WARNING", text)
prefix_of (info_message text) = some (codes "INFO", text)
prefix_of unwatched = none

abbrev pub publish_event : Option (Bytes × Bytes) → Action Bool
publish_event none = pure true
publish_event (some (prefix, text)) = do
  pub_sub ← services_pub_sub
  sent ← pubsub_send_message pub_sub (prefix ++ (codes ": " ++ text))
  pure true

unfoldable pub playback_bus_callback : PipelineMessage → Action Bool
unfolding pubsub_send_message
playback_bus_callback m = publish_event (prefix_of m)

module _ (host : Host) where
  -- `g_error` aborts where an element is NULL.
  abbrev pub make_or_abort : Bytes → Action Pointer
  make_or_abort name = do
    element ← make host name
    elim element [ none ↦ abort | some e ↦ pure (some e) ]

  -- The code once the elements are linked, or not.
  unfoldable pub watch_or_abort : PlaybackCtx → Bool → Action OpContext
  watch_or_abort ret false = abort
  watch_or_abort ret true = do
    bus ← get_bus host ret.pipeline
    perform (gst_bus_add_watch bus)
    perform (gst_object_unref bus)
    modify (λ w. record w { playback = ret })
    pure playback

  unfoldable pub op_playback_new : OpContext → Action OpContext
  unfolding watch_or_abort
  op_playback_new ctx = do
    audio_sink ← make_or_abort (codes "osxaudiosink")
    mux ← make_or_abort (codes "adder")
    pipeline ← pipeline_new host
    ac ← make host (codes "audioconvert")
    perform (gst_bin_add_many pipeline mux ac audio_sink)
    linked ← link_many host mux ac audio_sink
    watch_or_abort
        (record { pipeline = pipeline; mux = mux; audio_sink = audio_sink; sources = [] }) linked

  abbrev pub start_playback : OpContext → Process → OpContext × Process
  start_playback ctx none = (no_context, none)
  start_playback ctx (some w) = elim (op_playback_new ctx w) [
    | none ↦ (no_context, none)
    | some (made, w') ↦ (made, some w')
  ]

  -- The loop over the sources, from the head.
  unfoldable pub free_sources : List SourceItem → Pointer → Pointer → Action (Unit {0})
  unfolding source_free_and_unlink
  free_sources [] pipeline mux = pure tt
  free_sources (item ∷ iter) pipeline mux =
      source_free_and_unlink host item pipeline mux >> free_sources iter pipeline mux

  unfoldable pub op_playback_free : OpContext → Action (Unit {0})
  unfolding free_sources
  op_playback_free playback = do
    context ← gets (λ w. w.playback)
    free_sources context.sources context.pipeline context.mux
    moved ← set_state host context.pipeline ready
    perform (gst_object_unref context.pipeline)
  op_playback_free ctx = abort

  abbrev pub free_playback : OpContext → Process → Process
  free_playback ctx none = none
  free_playback ctx (some w) = elim (op_playback_free ctx w) [ none ↦ none | some r ↦ some r.1 ]

  -- `source_new_and_link` never returns NULL, so the reply "FAIL Can't load source" is never made.
  unfoldable pub op_play_parse : Option Bytes → OpContext → Action Bytes
  unfolding source_new_and_link source_item_to_id
  op_play_parse (some param) playback = do
    context ← gets (λ w. w.playback)
    to_add ← source_new_and_link host param context.pipeline context.mux
    modify (set_sources (to_add ∷ context.sources))
    id ← lift (source_item_to_id host to_add)
    pure (player_id id)
  op_play_parse param ctx = abort

  -- The code once the search has ended.
  unfoldable pub stop_source : PlaybackCtx → ℕ → Option SourceItem → Action Bytes
  unfolding source_free_and_unlink
  stop_source context id none = pure (codes "FAIL id is invalid")
  stop_source context id (some to_remove) = do
    modify (set_sources (remove_source context.sources to_remove))
    source_free_and_unlink host to_remove context.pipeline context.mux
    pure (player_id id)

  unfoldable pub op_stop_parse : Option Bytes → OpContext → Action Bytes
  unfolding stop_source source_item_from_id
  op_stop_parse (some param) playback = do
    context ← gets (λ w. w.playback)
    to_remove ← lift (source_item_from_id host context.sources (to_guint (atoll param)))
    stop_source context (to_guint (atoll param)) to_remove
  op_stop_parse param ctx = abort

  unfoldable pub op_dumpgraph_parse : Option Bytes → OpContext → Action Bytes
  op_dumpgraph_parse param playback = do
    context ← gets (λ w. w.playback)
    perform (gst_debug_bin_to_dot_file context.pipeline param)
    pure (codes "OK")
  op_dumpgraph_parse param ctx = abort

  module _ (tag_reader : TagReader) where
    abbrev pub playback_messages : List (MessageDispatchEntry Process OpContext)
    playback_messages =
        record { prefix = codes "TAGS"; op_parse = handler (op_tags_parse host tag_reader) }
        ∷ record { prefix = codes "PLAY"; op_parse = handler op_play_parse }
        ∷ record { prefix = codes "STOP"; op_parse = handler op_stop_parse }
        ∷ record { prefix = codes "DUMPGRAPH"; op_parse = handler op_dumpgraph_parse }
        ∷ []

    unfoldable pub op_playback_register :
        OpContext → Option (List (MessageDispatchEntry Process OpContext))
    op_playback_register no_context = none
    op_playback_register ctx = some playback_messages
