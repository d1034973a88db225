-- ===== src/Operations/Play/Balance/Requests.antt =====
-- PLAY and STOP of src/operations/play.c keep the balance of what a bin holds.
use gst_playd.Base.{ℕ, ◌≡◌, ap, ◌∙◌, sym, subst, arith, Option, none, some, List, ◌∷◌, Bytes}
use gst_playd.Base.Decimal.{atoll, to_guint}
use gst_playd.Host.{Host, Pointer, SourceItem, World}
use gst_playd.Host.Actions.{some->>=, lift->>=, lift-pure}
use gst_playd.Operations.{playback}
use gst_playd.Operations.Play.Balance.{
  added, removed, held, IsBalanced, added-unlinked, removed-unlinked, source_new_and_link-added,
}
use gst_playd.Operations.Play.Handlers.{
  op_play_parse, op_stop_parse, stop_source, set_sources, player_id,
}
use gst_playd.Operations.Play.Invariant.{
  HasDistinctAddresses, play, stop, Step-HasDistinctAddresses, stop_source-none,
}
use gst_playd.Operations.Play.Players.{Request, play_uri, stop_player, Responds, idle, responded}
use gst_playd.Operations.Play.Ran.{source_free_and_unlink-ran}
use gst_playd.Operations.Play.Sources.{
  source_item_to_id, source_item_from_id, remove_source, source_new_and_link,
  source_free_and_unlink,
}
use gst_playd.Operations.Play.Stop.{source_new_and_link-playback}
use gst_playd.Operations.Play.Balance.Held.{held-remove_source}

module _ (bin element : Pointer) (host : Host) where
  play_uri-IsBalanced :
      (uri reply : Bytes) (w v : World)
      → op_play_parse host (some uri) playback w ≡ some (reply, v)
      → IsBalanced bin element w
      → IsBalanced bin element v
  unfolding op_play_parse held
  play_uri-IsBalanced uri reply w v e balanced =
      let (item, w1, made, rest) =
        some->>= (source_new_and_link host uri w.playback.pipeline w.playback.mux) _ e in
      let (same_uri, at, kept) = source_new_and_link-playback host uri _ _ w w1 item made in
      let (adds, removes) =
        source_new_and_link-added bin element host uri w.playback.pipeline w.playback.mux w w1 item
          made in
      let (id, has, replied, left) =
        lift-pure (source_item_to_id host item) player_id
          (set_sources (item ∷ w.playback.sources) w1) v reply rest in
      let sources = item ∷ w.playback.sources in
      omega (
        arith,
        adds,
        removes,
        balanced,
        ap (λ x. added bin element x.calls) left,
        ap (λ x. removed bin element x.calls) left,
        ap (λ x. held bin element x.playback.pipeline x.playback.sources) left,
        ap (λ x. held bin element x.pipeline sources) kept,
      )

  stop_source-IsBalanced :
      (id : ℕ) (item : SourceItem) (reply : Bytes) (w v : World)
      → source_item_from_id host w.playback.sources id ≡ some (some item)
      → HasDistinctAddresses w.playback.sources
      → stop_source host w.playback id (some item) w ≡ some (reply, v)
      → IsBalanced bin element w
      → IsBalanced bin element v
  unfolding stop_source
  stop_source-IsBalanced id item reply w v found distinct e balanced =
      let kept = set_sources (remove_source w.playback.sources item) w in
      let (u, w1, freed, rest) =
        some->>= (source_free_and_unlink host item w.playback.pipeline w.playback.mux) _ e in
      let ran = source_free_and_unlink-ran host item kept w1 u freed in
      let same : w1 ≡ v = cc in
      let left = ran ∙ same in
      omega (
        arith,
        balanced,
        held-remove_source bin element host w.playback.pipeline w.playback.sources id item found
            distinct,
        added-unlinked bin element host item w.playback w.calls,
        removed-unlinked bin element host item w.playback w.calls,
        ap (λ x. added bin element x.calls) left,
        ap (λ x. removed bin element x.calls) left,
        ap (λ x. held bin element x.playback.pipeline x.playback.sources) left,
      )

  stop_player-IsBalanced :
      (param reply : Bytes) (w v : World)
      → HasDistinctAddresses w.playback.sources
      → op_stop_parse host (some param) playback w ≡ some (reply, v)
      → IsBalanced bin element w
      → IsBalanced bin element v
  unfolding op_stop_parse
  stop_player-IsBalanced param reply w v distinct e balanced =
      let id = to_guint (atoll param) in
      let (found, searched, rest) =
        lift->>= (source_item_from_id host w.playback.sources id) (stop_source host w.playback id) w
          e in
      go id found searched rest
    where
      go :
          (id : ℕ) (found : Option SourceItem)
          → source_item_from_id host w.playback.sources id ≡ some found
          → stop_source host w.playback id found w ≡ some (reply, v)
          → IsBalanced bin element v
      go id none searched ran =
          subst (IsBalanced bin element) (sym (stop_source-none host w.playback id w v reply ran).1)
            balanced
      go id (some item) searched ran =
          stop_source-IsBalanced id item reply w v searched distinct ran balanced

  -- Through PLAYs and STOPs, when each PLAY is given memory that no source uses, from sources at
  -- distinct addresses: for every bin and every element, if the element has been added to the bin
  -- as often as it has been removed and is held by a source together, then this stays so.
  pub Responds-IsBalanced :
      (w w' : World) (exchanged : List (Request × Bytes))
      → Responds host w exchanged w'
      → HasDistinctAddresses w.playback.sources
      → IsBalanced bin element w
      → IsBalanced bin element w'
  Responds-IsBalanced w w' exchanged idle distinct balanced = balanced
  Responds-IsBalanced w w' exchanged (responded {v} {request = play_uri uri} {reply} e free more)
        distinct balanced =
      Responds-IsBalanced v w' _ more
        (Step-HasDistinctAddresses host w v (play uri reply e free) distinct)
        (play_uri-IsBalanced uri reply w v e balanced)
  Responds-IsBalanced w w' exchanged
        (responded {v} {request = stop_player param} {reply} e free more) distinct balanced =
      Responds-IsBalanced v w' _ more
        (Step-HasDistinctAddresses host w v (stop param reply e) distinct)
        (stop_player-IsBalanced param reply w v distinct e balanced)
