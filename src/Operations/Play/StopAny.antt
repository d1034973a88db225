-- ===== src/Operations/Play/StopAny.antt =====
-- STOP in src/operations/play.c for any source of the list.
use gst_playd.Base.{ℕ, ◌≡◌, ◌≢◌, ap, ◌∙◌, sym, arith, true, some, List, [], ◌∷◌, ◌++◌, All}
use gst_playd.Base.Decimal.{format_unsigned, to_guint-format_unsigned}
use gst_playd.Host.{Host, SourceItem, World}
use gst_playd.Host.Actions.{>>=-some, pure}
use gst_playd.Operations.{playback}
use gst_playd.Operations.Play.Handlers.{op_stop_parse, stop_source, player_id, set_sources}
use gst_playd.Operations.Play.Invariant.{IsFree, HasDistinctAddresses}
use gst_playd.Operations.Play.Limits.{HasOtherId}
use gst_playd.Operations.Play.Sources.{
  source_item_to_id, source_item_from_id, remove_source, source_free_and_unlink,
}
use gst_playd.Operations.Play.Stop.{unlinked, source_free_and_unlink_lem, source_item_to_id-lt}

pub remove_source-append :
    (before after : List SourceItem) (item : SourceItem)
    → HasDistinctAddresses (before ++ item ∷ after)
    → remove_source (before ++ item ∷ after) item ≡ before ++ after
unfolding remove_source
remove_source-append [] after item distinct = ground arith
remove_source-append (x ∷ before) after item (free, distinct) =
    let ne : x.address ≢ item.address = free_before before item after x.address free in
    let rest = remove_source-append before after item distinct in ground (arith, ne, rest)
  where
    free_before :
        (before : List SourceItem) (item : SourceItem) (after : List SourceItem) (a : ℕ)
        → IsFree a (before ++ item ∷ after)
        → a ≢ item.address
    free_before [] item after a (ne, rest) e = ne (sym e)
    free_before (y ∷ before) item after a (ne, rest) e = free_before before item after a rest e

module _ (host : Host) where
  source_item_from_id-append :
      (before after : List SourceItem) (item : SourceItem) (id : ℕ)
      → All (HasOtherId host id) before
      → source_item_to_id host item ≡ some id
      → source_item_from_id host (before ++ item ∷ after) id ≡ some (some item)
  unfolding source_item_from_id
  source_item_from_id-append [] after item id others has = rw (has) (ground arith)
  source_item_from_id-append (x ∷ before) after item id ((k, hask, ne), others) has =
      rw (hask) (ground (arith, source_item_from_id-append before after item id others has))

  pub stop_source-found :
      (item : SourceItem) (w : World) (id : ℕ) (left : List SourceItem)
      → remove_source w.playback.sources item ≡ left
      → host.state_ok w.calls ≡ true
      → stop_source host w.playback id (some item) w
        ≡ some (
          player_id id,
          record (set_sources left w) { calls = unlinked host item w.playback w.calls },
        )
  unfolding stop_source
  stop_source-found item w id left removed ok = rw (removed) (
      >>=-some (source_free_and_unlink host item w.playback.pipeline w.playback.mux)
        (λ u. pure (player_id id)) (source_free_and_unlink_lem host item (set_sources left w) ok))

  -- STOP with the number of a source, when no source before it in the list has this number, the
  -- sources are at distinct addresses, and GStreamer does not refuse to start its element: exactly this
  -- source leaves the list, the others stay in their order, and the pipeline lets go of its elements.
  pub op_stop_parse_found :
      (before after : List SourceItem) (item : SourceItem) (id : ℕ) (w : World)
      → w.playback.sources ≡ before ++ item ∷ after
      → All (HasOtherId host id) before
      → source_item_to_id host item ≡ some id
      → HasDistinctAddresses (before ++ item ∷ after)
      → host.state_ok w.calls ≡ true
      → op_stop_parse host (some (format_unsigned id)) playback w
        ≡ some (
          player_id id,
          record (set_sources (before ++ after) w) {
            calls = unlinked host item w.playback w.calls;
          },
        )
  unfolding op_stop_parse
  op_stop_parse_found before after item id w is others has distinct ok =
      let found : source_item_from_id host w.playback.sources id ≡ some (some item) =
        ap (λ items. source_item_from_id host items id) is
        ∙ source_item_from_id-append before after item id others has in
      let removed : remove_source w.playback.sources item ≡ before ++ after =
        ap (λ items. remove_source items item) is
        ∙ remove_source-append before after item distinct in
      rw (to_guint-format_unsigned id (source_item_to_id-lt host item id has), found)
        (stop_source-found item w id (before ++ after) removed ok)
