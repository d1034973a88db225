-- ===== src/Operations/Returns.antt =====
-- The handlers of src/operations never abort, where the libraries refuse nothing.
use gst_playd.Base.{
  ℕ, ◌+◌, ◌<◌, ◌≤◌, ◌≡◌, refl, ap, ◌∙◌, sym, subst, arith, true, Option, none, some, List, [], ◌∷◌,
  Bytes,
}
use gst_playd.Base.{All, length, if◌then◌else◌, Bool-cases, inl, inr, ◌==◌}
use gst_playd.Base.Decimal.{format_unsigned, atoll, to_guint}
use gst_playd.Host.{Host, World, Call, PubsubCtx, SourceItem}
use gst_playd.Host.Actions.{Action, lift, ◌>>=◌, >>=-some}
use gst_playd.Host.Frame.{Kept-frame}
use gst_playd.Operations.{services, playback, services_pub_sub}
use gst_playd.Operations.Control.{op_pubsub_parse, op_quit_parse}
use gst_playd.Operations.Kept.{op_play_parse-Keeps}
use gst_playd.Operations.Ping.{op_ping_parse}
use gst_playd.Operations.Play.Handlers.{
  op_play_parse, op_stop_parse, op_dumpgraph_parse, stop_source,
}
use gst_playd.Operations.Play.Limits.{op_play_parse-returns}
use gst_playd.Operations.Play.Preroll.{Preroll, read_tags-Preroll}
use gst_playd.Operations.Play.Sources.{
  source_item_to_id, source_item_from_id, found_or, remove_source,
}
use gst_playd.Operations.Play.Stop.{op_play_parse-source}
use gst_playd.Operations.Play.StopAny.{stop_source-found}
use gst_playd.Operations.Play.Tags.{read_tags}
use gst_playd.Operations.Play.TagsPipeline.{TagReader, paused_messages, op_tags_parse}
use gst_playd.Pubsub.{pubsub_send_message}

module _ (host : Host) where
  -- The text of a source fits `to_hash`.
  abbrev pub HasId : SourceItem → Type 0
  HasId item = (id : ℕ) × (source_item_to_id host item ≡ some id)

  -- The daemon has the socket of its events, and every source has a number.
  abbrev pub IsReady : World → Type 0
  IsReady w = ((ctx : PubsubCtx) × (w.pub_sub ≡ some ctx)) × All HasId w.playback.sources

  -- A handler that replies and leaves the daemon ready.
  abbrev pub Replies : Action Bytes → World → Type 0
  Replies op w = (reply : Bytes) × (v : World) × (op w ≡ some (reply, v)) × IsReady v

  -- GStreamer never refuses to start an element, an argument of `bound` bytes leaves room in `to_hash`
  -- for the printed address and the printed time, and a pipeline that is paused prerolls or fails, with
  -- tags that fit.
  pub record RefusesNothing (tag_reader : TagReader) (bound : ℕ) : Type 0 where
    pub accepts : (calls : List Call) → host.state_ok calls ≡ true
    pub fits :
        (calls : List Call)
        → bound
            + length (host.format_pointer (host.new_address calls))
            + length (format_unsigned (host.now calls))
          < 2044
    pub prerolls :
        (calls : List Call)
        → Preroll tag_reader.format_double tag_reader.format_date tag_reader.table
            (tag_reader.popped calls)

  source_item_from_id-some :
      (items : List SourceItem) (id : ℕ)
      → All HasId items
      → (found : Option SourceItem) × (source_item_from_id host items id ≡ some found)
  unfolding source_item_from_id
  source_item_from_id-some [] id has = (none, refl)
  source_item_from_id-some (item ∷ items) id ((k, is), has) =
      let (found, rest) = source_item_from_id-some items id has in
      let step = ap (found_or id item (source_item_from_id host items id)) is in
      elim (Bool-cases (k == id)) [
        | inl this ↦ (
          some item,
          step ∙ ap (λ b. if b then some (some item) else source_item_from_id host items id) this,
        )
        | inr other ↦ (
          found,
          step
              ∙ (ap (λ b. if b then some (some item) else source_item_from_id host items id) other
                  ∙ rest),
        )
      ]

  remove_source-HasId :
      (items : List SourceItem) (item : SourceItem)
      → All HasId items
      → All HasId (remove_source items item)
  unfolding remove_source
  remove_source-HasId [] item has = tt
  remove_source-HasId (x ∷ items) item (is, has) = elim (Bool-cases (x.address == item.address)) [
    | inl this ↦ rw this has
    | inr other ↦ rw other (is, remove_source-HasId items item has)
  ]

  module _ (w : World) (ready : IsReady w) where
    pub services_pub_sub-some : services_pub_sub w ≡ some (ready.0.0, w)
    services_pub_sub-some = ap (λ p. lift p w) ready.0.1

    pub op_ping_parse-Replies : (param : Bytes) → Replies (op_ping_parse (some param) services) w
    unfolding op_ping_parse pubsub_send_message
    op_ping_parse-Replies param = (_, _, >>=-some services_pub_sub _ services_pub_sub-some, ready)

    pub op_pubsub_parse-Replies :
        (param : Bytes) → Replies (op_pubsub_parse (some param) services) w
    unfolding op_pubsub_parse
    op_pubsub_parse-Replies param = (_, _, >>=-some services_pub_sub _ services_pub_sub-some, ready)

    pub op_quit_parse-Replies : (param : Bytes) → Replies (op_quit_parse (some param) services) w
    unfolding op_quit_parse
    op_quit_parse-Replies param = (_, _, refl, ready)

    pub op_dumpgraph_parse-Replies :
        (param : Bytes) → Replies (op_dumpgraph_parse host (some param) playback) w
    unfolding op_dumpgraph_parse
    op_dumpgraph_parse-Replies param = (_, _, refl, ready)

    paused_messages-popped :
        (tag_reader : TagReader) (param : Option Bytes)
        → (calls : List Call) × (paused_messages host tag_reader param w
            ≡ some (tag_reader.popped calls, record w { calls = calls }))
    unfolding paused_messages
    paused_messages-popped tag_reader param = (_, refl)

    stop_source-Replies :
        (id : ℕ) (found : Option SourceItem)
        → ((calls : List Call) → host.state_ok calls ≡ true)
        → Replies (stop_source host w.playback id found) w
    unfolding stop_source
    stop_source-Replies id none accepts = (_, _, refl, ready)
    stop_source-Replies id (some item) accepts = (
      _,
      _,
      stop_source-found host item w id _ refl (accepts w.calls),
      (ready.0, remove_source-HasId w.playback.sources item ready.1),
    )

    module _ (tag_reader : TagReader) (bound : ℕ) (refuses : RefusesNothing tag_reader bound) where
      pub op_tags_parse-Replies :
          (param : Bytes) → Replies (op_tags_parse host tag_reader (some param) playback) w
      unfolding op_tags_parse
      op_tags_parse-Replies param =
          let (calls, ran) = paused_messages-popped tag_reader (some param) in
          let (reply, is) =
            read_tags-Preroll tag_reader.format_double tag_reader.format_date tag_reader.table
              (tag_reader.popped calls) (refuses.prerolls calls) in
          (
            reply,
            record w { calls = calls },
            >>=-some (paused_messages host tag_reader (some param))
                  (λ msgs. lift (
                    read_tags tag_reader.format_double tag_reader.format_date tag_reader.table
                      msgs))
                  ran
                ∙ ap (λ o. lift o (record w { calls = calls })) is,
            ready,
          )

      pub op_play_parse-Replies :
          (param : Bytes)
          → length param ≤ bound
          → Replies (op_play_parse host (some param) playback) w
      op_play_parse-Replies param short =
          let (id, v, e) =
            op_play_parse-returns host param w refuses.accepts
              (omega (arith, refuses.fits w.calls, short)) in
          let (item, k, same, at, has, context, replied) =
            op_play_parse-source host param _ w v e in
          (
            _,
            v,
            e,
            (
              (
                ready.0.0,
                (op_play_parse-Keeps Kept-frame host (λ w items. (refl, refl, refl)) (some param)
                      playback w v _ e).0
                    ∙ ready.0.1,
              ),
              subst (All HasId) (sym (ap (λ c. c.sources) context)) ((k, has), ready.1),
            ),
          )

      pub op_stop_parse-Replies :
          (param : Bytes) → Replies (op_stop_parse host (some param) playback) w
      unfolding op_stop_parse
      op_stop_parse-Replies param =
          let id = to_guint (atoll param) in
          let (found, searched) = source_item_from_id-some w.playback.sources id ready.1 in
          let (reply, v, ran, still) = stop_source-Replies id found refuses.accepts in
          (reply, v, ap (λ o. (lift o >>= stop_source host w.playback id) w) searched ∙ ran, still)
