-- ===== src/Operations/Play/Stop.antt =====
-- PLAY and STOP of src/operations/play.c together.
use gst_playd.Base.{
  ℕ, ◌^◌, ◌<◌, ◌≡◌, refl, ap, ◌∙◌, sym, arith, true, false, Option, none, some, List, ◌∷◌, Bytes,
}
use gst_playd.Base.{Bool-cases, inl, inr}
use gst_playd.Base.Decimal.{format_unsigned, to_guint-format_unsigned}
use gst_playd.Host.{
  Pointer, playing, Host, Call, SourceItem, PlaybackCtx, World, gst_bin_remove,
  gst_element_unlink_many, gst_element_release_request_pad, gst_element_set_state,
  gst_element_get_static_pad, gst_pad_get_peer,
}
use gst_playd.Host.Actions.{>>=-some, some->>=, lift-pure, pure}
use gst_playd.Operations.{playback}
use gst_playd.Operations.Play.Sources.{
  source_text, source_item_to_id, source_item_from_id, remove_source, source_new_and_link,
  source_free_and_unlink, play_or_abort,
}
use gst_playd.Operations.Play.Handlers.{op_play_parse, op_stop_parse, player_id, set_sources}

module _ (host : Host) where
  -- The calls that take `item` out of the pipeline, on top of `calls`.
  abbrev pub unlinked : SourceItem → PlaybackCtx → List Call → List Call
  unlinked item context calls =
      let calls = gst_element_set_state item.element playing true ∷ calls in
      let ac_src = host.pad calls in
      let calls = gst_element_get_static_pad item.ac ac_src ∷ calls in
      let mux_sink = host.pad calls in
      gst_bin_remove context.pipeline item.ac
      ∷ gst_bin_remove context.pipeline item.element
      ∷ gst_element_release_request_pad context.mux mux_sink
      ∷ gst_element_unlink_many item.element item.ac context.mux
      ∷ gst_pad_get_peer ac_src mux_sink
      ∷ calls

  pub source_item_to_id-lt :
      (item : SourceItem) (id : ℕ) → source_item_to_id host item ≡ some id → id < 2 ^ 32
  unfolding source_item_to_id
  source_item_to_id-lt item id has = ground (arith, host.g_str_hash-lt (source_text host item))

  source_item_from_id-newest :
      (item : SourceItem) (items : List SourceItem) (id : ℕ)
      → source_item_to_id host item ≡ some id
      → source_item_from_id host (item ∷ items) id ≡ some (some item)
  unfolding source_item_from_id
  source_item_from_id-newest item items id has = rw (has) (ground arith)

  pub play_or_abort_lem :
      (element : Pointer) (w : World)
      → host.state_ok w.calls ≡ true
      → play_or_abort host element w
        ≡ some (tt, record w { calls = gst_element_set_state element playing true ∷ w.calls })
  unfolding play_or_abort
  play_or_abort_lem element w ok = rw (ok) refl

  pub source_free_and_unlink_lem :
      (item : SourceItem) (w : World)
      → host.state_ok w.calls ≡ true
      → source_free_and_unlink host item w.playback.pipeline w.playback.mux w
        ≡ some (tt, record w { calls = unlinked item w.playback w.calls })
  unfolding source_free_and_unlink
  source_free_and_unlink_lem item w ok =
      >>=-some (play_or_abort host item.element) _ (play_or_abort_lem item.element w ok)

  pub remove_source-newest :
      (item : SourceItem) (items : List SourceItem) → remove_source (item ∷ items) item ≡ items
  unfolding remove_source
  remove_source-newest item items = ground arith

  -- STOP with the number of the newest source.
  stop_newest :
      (item : SourceItem) (items : List SourceItem) (w : World) (id : ℕ)
      → w.playback.sources ≡ item ∷ items
      → source_item_to_id host item ≡ some id
      → id < 2 ^ 32
      → host.state_ok w.calls ≡ true
      → op_stop_parse host (some (format_unsigned id)) playback w
        ≡ some (
          player_id id,
          record (set_sources items w) { calls = unlinked item w.playback w.calls },
        )
  unfolding op_stop_parse
  stop_newest item items w id is has small ok =
      rw (to_guint-format_unsigned id small, is, source_item_from_id-newest item items id has)
        (rw (remove_source-newest item items) (
          >>=-some (source_free_and_unlink host item w.playback.pipeline w.playback.mux)
            (λ x. pure (player_id id)) (source_free_and_unlink_lem item (set_sources items w) ok)))

  pub play_or_abort-fails :
      (element : Pointer) (w : World)
      → host.state_ok w.calls ≡ false
      → play_or_abort host element w ≡ none
  unfolding play_or_abort
  play_or_abort-fails element w failed = rw (failed) refl

  pub play_or_abort-playback :
      (element : Pointer) (w w' : World) (u : Unit {0})
      → play_or_abort host element w ≡ some (u, w')
      → w'.playback ≡ w.playback
  unfolding play_or_abort
  play_or_abort-playback element w w' u e = elim (Bool-cases (host.state_ok w.calls)) [
    | inl moved ↦
        let r = sym (play_or_abort_lem element w moved) ∙ e in
        let same : record w { calls = gst_element_set_state element playing true ∷ w.calls } ≡ w' =
          cc in
        ap (λ w. w.playback) (sym same)
    | inr failed ↦ absurd (cc (play_or_abort-fails element w failed))
  ]

  pub source_new_and_link-playback :
      (uri : Bytes) (pipeline mux : Pointer) (w w' : World) (item : SourceItem)
      → source_new_and_link host uri pipeline mux w ≡ some (item, w')
      → (item.uri ≡ uri) × (item.address ≡ host.new_address w.calls) × (w'.playback ≡ w.playback)
  unfolding source_new_and_link
  source_new_and_link-playback uri pipeline mux w w' item e =
      let (u, w1, started, rest) = some->>= (play_or_abort host _) _ e in
      let same : w1 ≡ w' = cc in
      (
        ap (λ r. elim r as (λ x. Bytes) [ none ↦ uri | some (i, v) ↦ i.uri ]) (sym rest),
        ap (λ r. elim r as (λ x. ℕ) [ none ↦ host.new_address w.calls | some (i, v) ↦ i.address ])
            (sym rest),
        ap (λ w. w.playback) (sym same) ∙ play_or_abort-playback _ _ w1 u started,
      )

  -- What a PLAY with a reply has done.
  pub op_play_parse-source :
      (uri reply : Bytes) (w w' : World)
      → op_play_parse host (some uri) playback w ≡ some (reply, w')
      → (item : SourceItem) × (id : ℕ) × (item.uri ≡ uri)
        × (item.address ≡ host.new_address w.calls)
        × (source_item_to_id host item ≡ some id)
        × (w'.playback ≡ record w.playback { sources = item ∷ w.playback.sources })
        × (reply ≡ player_id id)
  unfolding op_play_parse
  op_play_parse-source uri reply w w' e =
      let (item, w1, made, rest) =
        some->>= (source_new_and_link host uri w.playback.pipeline w.playback.mux) _ e in
      let (same_uri, at, kept) = source_new_and_link-playback uri _ _ w w1 item made in
      let v = set_sources (item ∷ w.playback.sources) w1 in
      let (id, has, replied, left) =
        lift-pure (source_item_to_id host item) player_id v w' reply rest in
      (
        item,
        id,
        same_uri,
        at,
        has,
        ap (λ u. u.playback) left
            ∙ ap {A = PlaybackCtx} {B = PlaybackCtx}
                (λ c. record c { sources = item ∷ w.playback.sources }) kept,
        replied,
      )

  -- A PLAY that has a reply puts a new source with its URI at the head of the list, and its reply is
  -- "OK player id: " and a number. STOP with this number, in the world that PLAY left, where
  -- GStreamer does not refuse to start the source's element, takes exactly that source out of the
  -- list and of the pipeline, in seven calls, and makes the same reply.
  pub op_stop_parse-op_play_parse :
      (uri reply : Bytes) (w w' : World)
      → op_play_parse host (some uri) playback w ≡ some (reply, w')
      → host.state_ok w'.calls ≡ true
      → (item : SourceItem) × (id : ℕ) × (item.uri ≡ uri)
        × (w'.playback ≡ record w.playback { sources = item ∷ w.playback.sources })
        × (reply ≡ player_id id)
        × (op_stop_parse host (some (format_unsigned id)) playback w'
            ≡ some (
              reply,
              record (set_sources w.playback.sources w') {
                calls = unlinked item w'.playback w'.calls;
              },
            ))
  op_stop_parse-op_play_parse uri reply w w' e ok =
      let (item, id, same_uri, at, has, context, replied) = op_play_parse-source uri reply w w' e in
      let small : id < 2 ^ 32 = source_item_to_id-lt item id has in
      let stopped =
        stop_newest item w.playback.sources w' id (ap (λ c. c.sources) context) has small ok in
      let left = record (set_sources w.playback.sources w') {
        calls = unlinked item w'.playback w'.calls;
      } in
      (
        item,
        id,
        same_uri,
        context,
        replied,
        stopped ∙ ap {A = Bytes} {B = Option (Bytes × World)} (λ r. some (r, left)) (sym replied),
      )
