-- ===== src/Operations/Play/Limits.antt =====
-- The handlers of src/operations/play.c where no source has the number, and where a URI is long.
use gst_playd.Base.{
  ℕ, ◌+◌, ◌<◌, ◌≤◌, ◌≡◌, ◌≢◌, refl, ap, ◌∙◌, arith, true, false, Option, none, some, List, [], ◌∷◌,
  ◌++◌, Bytes, codes,
}
use gst_playd.Base.{Option-cases, inl, inr, All, length, length-append, ltb, lt→ltb}
use gst_playd.Base.Decimal.{format_unsigned, atoll, to_guint}
use gst_playd.Host.{Pointer, Host, Call, SourceItem, World}
use gst_playd.Host.Actions.{◌>>=◌, >>=-some, pure, lift}
use gst_playd.Operations.{playback}
use gst_playd.Operations.Play.Sources.{
  source_text, source_item_to_id, source_item_from_id, source_new_and_link, play_or_abort,
}
use gst_playd.Operations.Play.Handlers.{op_play_parse, op_stop_parse, player_id, set_sources}
use gst_playd.Operations.Play.Stop.{play_or_abort_lem, op_play_parse-source}

module _ (host : Host) where
  -- A source whose number is not `id`.
  abbrev pub HasOtherId : ℕ → SourceItem → Type 0
  HasOtherId id item = (k : ℕ) × (source_item_to_id host item ≡ some k) × (k ≢ id)

  source_item_from_id-none :
      (items : List SourceItem) (id : ℕ)
      → All (HasOtherId id) items
      → source_item_from_id host items id ≡ some none
  unfolding source_item_from_id
  source_item_from_id-none [] id others = refl
  source_item_from_id-none (item ∷ items) id ((k, has, ne), others) =
      rw (has) (ground (arith, source_item_from_id-none items id others))

  -- STOP with a number that no source has, where the text of every source fits `to_hash`, says so and
  -- changes nothing.
  pub op_stop_parse_unknown :
      (param : Bytes) (w : World)
      → All (HasOtherId (to_guint (atoll param))) w.playback.sources
      → op_stop_parse host (some param) playback w ≡ some (codes "FAIL id is invalid", w)
  unfolding op_stop_parse
  op_stop_parse_unknown param w others =
      rw (source_item_from_id-none w.playback.sources (to_guint (atoll param)) others) refl

  length-source_text :
      (item : SourceItem)
      → length (source_text host item)
        ≡ length item.uri
          + length (host.format_pointer item.address)
          + length (format_unsigned item.created_at)
          + 4
  length-source_text item =
      let seconds = format_unsigned item.created_at in
      let pointer = host.format_pointer item.address in
      omega (
        arith,
        length-append item.uri (codes " 0x" ++ (pointer ++ (codes " " ++ seconds))),
        length-append (codes " 0x") (pointer ++ (codes " " ++ seconds)),
        length-append pointer (codes " " ++ seconds),
        length-append (codes " ") seconds,
      )

  no_id :
      (uri : Bytes) (item : SourceItem)
      → item.uri ≡ uri
      → 2044 ≤ length uri
      → source_item_to_id host item ≡ none
  unfolding source_item_to_id
  no_id uri item same long =
      let low : ltb (length (source_text host item)) 2048 ≡ false =
        ground (arith, length-source_text item, ap length same) in
      rw (low) refl

  id_of :
      (uri : Bytes) (item : SourceItem)
      → item.uri ≡ uri
      → length uri
          + length (host.format_pointer item.address)
          + length (format_unsigned item.created_at)
        < 2044
      → source_item_to_id host item ≡ some (host.g_str_hash (source_text host item))
  unfolding source_item_to_id
  id_of uri item same short =
      let low : ltb (length (source_text host item)) 2048 ≡ true =
        lt→ltb (length (source_text host item)) 2048
          (omega (arith, length-source_text item, ap length same)) in
      rw (low) refl

  -- A PLAY of a URI of 2044 bytes or more never replies: the text that is hashed for its number does
  -- not fit the 2048 bytes of `to_hash`.
  pub op_play_parse_long :
      (uri : Bytes) (w : World)
      → 2044 ≤ length uri
      → op_play_parse host (some uri) playback w ≡ none
  op_play_parse_long uri w long = elim (Option-cases (op_play_parse host (some uri) playback w)) [
    | inl none_left ↦ none_left
    | inr ((reply, w'), e) ↦
        let (item, id, same, at, has, context, replied) =
          op_play_parse-source host uri reply w w' e in
        absurd (cc (no_id uri item same long))
  ]

  source_new_and_link-returns :
      (uri : Bytes) (pipeline mux : Pointer) (w : World)
      → ((calls : List Call) → host.state_ok calls ≡ true)
      → (item : SourceItem) × (w' : World) × (source_new_and_link host uri pipeline mux w
          ≡ some (item, w'))
        × (item.uri ≡ uri)
        × (item.address ≡ host.new_address w.calls)
        × (item.created_at ≡ host.now w.calls)
  unfolding source_new_and_link
  source_new_and_link-returns uri pipeline mux w ok = (
    _,
    _,
    >>=-some (play_or_abort host _) _ (play_or_abort_lem host _ _ (ok _)),
    refl,
    refl,
    refl,
  )

  pub op_play_parse-returns :
      (uri : Bytes) (w : World)
      → ((calls : List Call) → host.state_ok calls ≡ true)
      → length uri
          + length (host.format_pointer (host.new_address w.calls))
          + length (format_unsigned (host.now w.calls))
        < 2044
      → (id : ℕ) × (w' : World) × (op_play_parse host (some uri) playback w
          ≡ some (player_id id, w'))
  unfolding op_play_parse
  op_play_parse-returns uri w ok short =
      let (item, w1, made, same, at, when) =
        source_new_and_link-returns uri w.playback.pipeline w.playback.mux w ok in
      let has = id_of uri item same (
        omega (
          arith,
          ap (λ a. length (host.format_pointer a)) at,
          ap (λ t. length (format_unsigned t)) when,
        )) in
      (
        host.g_str_hash (source_text host item),
        set_sources (item ∷ w.playback.sources) w1,
        >>=-some (source_new_and_link host uri w.playback.pipeline w.playback.mux) _ made
            ∙ ap {A = Option ℕ} {B = Option (Bytes × World)}
                (λ o.
                  (lift o >>= λ id. pure (player_id id))
                    (set_sources (item ∷ w.playback.sources) w1))
                has,
      )

  -- Where GStreamer never refuses to start an element, a PLAY whose URI, printed address and printed
  -- time come to less than 2044 bytes always replies: it puts a new source with this URI at the head of
  -- the list, and the reply is "OK player id: " and the number of this source.
  pub op_play_parse_short :
      (uri : Bytes) (w : World)
      → ((calls : List Call) → host.state_ok calls ≡ true)
      → length uri
          + length (host.format_pointer (host.new_address w.calls))
          + length (format_unsigned (host.now w.calls))
        < 2044
      → (item : SourceItem) × (id : ℕ) × (w' : World) × (op_play_parse host (some uri) playback w
          ≡ some (player_id id, w'))
        × (item.uri ≡ uri)
        × (source_item_to_id host item ≡ some id)
        × (w'.playback ≡ record w.playback { sources = item ∷ w.playback.sources })
  op_play_parse_short uri w ok short =
      let (k, w', ran) = op_play_parse-returns uri w ok short in
      let (item, id, same_uri, at, has, context, replied) =
        op_play_parse-source host uri (player_id k) w w' ran in
      (
        item,
        id,
        w',
        ran ∙ ap {B = Option (Bytes × World)} (λ reply. some (reply, w')) replied,
        same_uri,
        has,
        context,
      )
