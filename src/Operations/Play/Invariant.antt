-- ===== src/Operations/Play/Invariant.antt =====
-- The list of sources of src/operations/play.c as its handlers change it.
use gst_playd.Base.{
  ℕ, ◌≡◌, ◌≢◌, refl, ap, ◌∙◌, sym, Bool, true, false, Option, none, some, List, [], ◌∷◌, Bytes,
  codes,
}
use gst_playd.Base.{All, inl, inr, ◌⊎◌, if◌then◌else◌, ◌==◌}
use gst_playd.Base.Decimal.{atoll, to_guint}
use gst_playd.Host.{Host, SourceItem, World, Pointer, PlaybackCtx}
use gst_playd.Host.Actions.{some->>=, lift->>=}
use gst_playd.Operations.{playback}
use gst_playd.Operations.Play.Sources.{
  source_item_from_id, remove_source, source_free_and_unlink, play_or_abort,
}
use gst_playd.Operations.Play.Handlers.{
  op_play_parse, op_stop_parse, stop_source, player_id, set_sources,
}
use gst_playd.Operations.Play.Stop.{play_or_abort-playback, op_play_parse-source}

-- No source of the list is at the address.
abbrev pub IsFree : ℕ → List SourceItem → Type 0
IsFree a items = All (λ item. item.address ≢ a) items

abbrev pub HasDistinctAddresses : List SourceItem → Type 0
HasDistinctAddresses [] = Unit {0}
HasDistinctAddresses (item ∷ items) = IsFree item.address items × HasDistinctAddresses items

if_both : {A : Type 0} (P : A → Type 0) {x y : A} (b : Bool) → P x → P y → P (if b then x else y)
if_both P true h k = h
if_both P false h k = k

remove_source-IsFree :
    (a : ℕ) (items : List SourceItem) (item : SourceItem)
    → IsFree a items
    → IsFree a (remove_source items item)
unfolding remove_source
remove_source-IsFree a [] item free = tt
remove_source-IsFree a (x ∷ xs) item (ne, free) =
    let rest = remove_source-IsFree a xs item free in
    if_both (IsFree a) (x.address == item.address) free (ne, rest)

remove_source-HasDistinctAddresses :
    (items : List SourceItem) (item : SourceItem)
    → HasDistinctAddresses items
    → HasDistinctAddresses (remove_source items item)
unfolding remove_source
remove_source-HasDistinctAddresses [] item distinct = tt
remove_source-HasDistinctAddresses (x ∷ xs) item (free, distinct) =
    let rest = remove_source-HasDistinctAddresses xs item distinct in
    let still = remove_source-IsFree x.address xs item free in
    if_both HasDistinctAddresses (x.address == item.address) distinct (still, rest)

module _ (host : Host) where
  source_free_and_unlink-playback :
      (item : SourceItem) (pipeline mux : Pointer) (w w' : World) (u : Unit {0})
      → source_free_and_unlink host item pipeline mux w ≡ some (u, w')
      → w'.playback ≡ w.playback
  unfolding source_free_and_unlink
  source_free_and_unlink-playback item pipeline mux w w' u e =
      let (v, w1, started, rest) = some->>= (play_or_abort host item.element) _ e in
      let kept : w'.playback ≡ w1.playback =
        ap (λ r. elim r as (λ x. PlaybackCtx) [ none ↦ w1.playback | some (u, v) ↦ v.playback ])
          (sym rest) in
      kept ∙ play_or_abort-playback host item.element w w1 v started

  pub stop_source-some :
      (context : PlaybackCtx) (id : ℕ) (item : SourceItem) (w w' : World) (reply : Bytes)
      → stop_source host context id (some item) w ≡ some (reply, w')
      → (reply ≡ player_id id) × (w'.playback.sources ≡ remove_source context.sources item)
  unfolding stop_source
  stop_source-some context id item w w' reply e =
      let (u, w1, freed, rest) =
        some->>= (source_free_and_unlink host item context.pipeline context.mux) _ e in
      let same : w1 ≡ w' = cc in
      let kept =
        source_free_and_unlink-playback item context.pipeline context.mux
          (set_sources (remove_source context.sources item) w) w1 u freed in
      (cc, ap (λ v. v.playback.sources) (sym same) ∙ ap (λ c. c.sources) kept)

  pub stop_source-none :
      (context : PlaybackCtx) (id : ℕ) (w w' : World) (reply : Bytes)
      → stop_source host context id none w ≡ some (reply, w')
      → (reply ≡ codes "FAIL id is invalid") × (w' ≡ w)
  unfolding stop_source
  stop_source-none context id w w' reply e = (cc, cc)

  stop_source-sources :
      (context : PlaybackCtx) (id : ℕ) (found : Option SourceItem) (w w' : World) (reply : Bytes)
      → w.playback ≡ context
      → stop_source host context id found w ≡ some (reply, w')
      → (w'.playback.sources ≡ context.sources)
        ⊎ ((item : SourceItem) × (w'.playback.sources ≡ remove_source context.sources item))
  stop_source-sources context id none w w' reply is e =
      let (failed, same) = stop_source-none context id w w' reply e in
      inl (ap (λ u. u.playback.sources) same ∙ ap (λ c. c.sources) is)
  stop_source-sources context id (some item) w w' reply is e =
      inr (item, (stop_source-some context id item w w' reply e).1)

  op_stop_parse-sources :
      (param reply : Bytes) (w w' : World)
      → op_stop_parse host (some param) playback w ≡ some (reply, w')
      → (w'.playback.sources ≡ w.playback.sources)
        ⊎ ((item : SourceItem) × (w'.playback.sources ≡ remove_source w.playback.sources item))
  unfolding op_stop_parse
  op_stop_parse-sources param reply w w' e =
      let id = to_guint (atoll param) in
      let (found, has, rest) =
        lift->>= (source_item_from_id host w.playback.sources id) (stop_source host w.playback id) w
          e in
      stop_source-sources w.playback id found w w' reply refl rest

  -- A step of the daemon: a PLAY for which `g_new0` returns memory that no source uses, or a STOP.
  pub data Step : World → World → Type 0 where
    play :
        {w w' : World} (uri reply : Bytes)
        → op_play_parse host (some uri) playback w ≡ some (reply, w')
        → IsFree (host.new_address w.calls) w.playback.sources
        → Step w w'
    stop :
        {w w' : World} (param reply : Bytes)
        → op_stop_parse host (some param) playback w ≡ some (reply, w')
        → Step w w'

  pub Step-HasDistinctAddresses :
      (w w' : World)
      → Step w w'
      → HasDistinctAddresses w.playback.sources
      → HasDistinctAddresses w'.playback.sources
  Step-HasDistinctAddresses w w' (play uri reply e free) distinct =
      let (item, id, same_uri, at, has, context, replied) =
        op_play_parse-source host uri reply w w' e in
      let here : IsFree item.address w.playback.sources = rw (at) free in
      rw (context) (here, distinct)
  Step-HasDistinctAddresses w w' (stop param reply e) distinct =
      elim (op_stop_parse-sources param reply w w' e) [
        | inl kept ↦ rw (kept) distinct
        | inr (item, removed) ↦
            rw (removed) (remove_source-HasDistinctAddresses w.playback.sources item distinct)
      ]
