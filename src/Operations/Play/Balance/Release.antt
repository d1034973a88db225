-- ===== src/Operations/Play/Balance/Release.antt =====
-- The release in src/operations/play.c, at the end of PLAYs and STOPs, leaves a bin in balance.
use gst_playd.Base.{◌+◌, ◌≡◌, ap, ◌∙◌, sym, subst, arith, some, List, [], ◌∷◌, Bytes}
use gst_playd.Host.{
  Host, Pointer, SourceItem, World, ready, gst_object_unref, gst_element_set_state,
}
use gst_playd.Host.Actions.{some->>=}
use gst_playd.Operations.{playback}
use gst_playd.Operations.Play.Balance.{
  added, removed, held, IsBalanced, added-unlinked, removed-unlinked,
}
use gst_playd.Operations.Play.Handlers.{free_sources, op_playback_free}
use gst_playd.Operations.Play.Invariant.{HasDistinctAddresses}
use gst_playd.Operations.Play.Players.{Request, Responds}
use gst_playd.Operations.Play.Ran.{source_free_and_unlink-ran}
use gst_playd.Operations.Play.Sources.{source_free_and_unlink}
use gst_playd.Operations.Play.Stop.{unlinked}
use gst_playd.Operations.Play.Balance.Requests.{Responds-IsBalanced}

module _ (bin element : Pointer) (host : Host) where
  free_sources-removed :
      (items : List SourceItem) (w v : World) (u : Unit {0})
      → free_sources host items w.playback.pipeline w.playback.mux w ≡ some (u, v)
      → (added bin element v.calls ≡ added bin element w.calls)
        × (removed bin element v.calls
            ≡ removed bin element w.calls + held bin element w.playback.pipeline items)
  unfolding free_sources held
  free_sources-removed [] w v u e =
      let same : w ≡ v = cc in
      (
        ap (λ x. added bin element x.calls) (sym same),
        omega (arith, ap (λ x. removed bin element x.calls) same),
      )
  free_sources-removed (item ∷ items) w v u e =
      let (t, w1, freed, rest) =
        some->>= (source_free_and_unlink host item w.playback.pipeline w.playback.mux) _ e in
      let ran = source_free_and_unlink-ran host item w w1 t freed in
      let next : World = record w { calls = unlinked host item w.playback w.calls } in
      let (adds, removes) = free_sources-removed items next v u (
        subst (λ x. free_sources host items w.playback.pipeline w.playback.mux x ≡ some (u, v))
          (sym ran) rest) in
      (
        adds ∙ added-unlinked bin element host item w.playback w.calls,
        omega (arith, removes, removed-unlinked bin element host item w.playback w.calls),
      )

  -- From sources that are none to the end of the playback plugin, through PLAYs and STOPs, when
  -- each PLAY is given memory that no source uses: every element that was removed from a bin as
  -- often as it was added to it before has been removed as often as added once the plugin is freed.
  pub op_playback_free-Responds :
      (w v end : World) (exchanged : List (Request × Bytes)) (u : Unit {0})
      → w.playback.sources ≡ []
      → added bin element w.calls ≡ removed bin element w.calls
      → Responds host w exchanged v
      → op_playback_free host playback v ≡ some (u, end)
      → added bin element end.calls ≡ removed bin element end.calls
  unfolding op_playback_free added removed held
  op_playback_free-Responds w v end exchanged u empty even responds e =
      let (t, w1, freed, rest) =
        some->>= (free_sources host v.playback.sources v.playback.pipeline v.playback.mux) _ e in
      let (adds, removes) = free_sources-removed v.playback.sources v w1 t freed in
      let distinct : HasDistinctAddresses w.playback.sources = rw (empty) tt in
      let start : IsBalanced bin element w =
        omega (arith, even, ap (held bin element w.playback.pipeline) empty) in
      let balanced = Responds-IsBalanced bin element host w v exchanged responds distinct start in
      let pipeline = v.playback.pipeline in
      let done : record w1 {
        calls =
            gst_object_unref pipeline
            ∷ gst_element_set_state pipeline ready (host.state_ok w1.calls)
            ∷ w1.calls;
      }
          ≡ end =
        cc in
      omega (
        arith,
        adds,
        removes,
        balanced,
        ap (λ x. added bin element x.calls) done,
        ap (λ x. removed bin element x.calls) done,
      )
