-- ===== src/Operations/Play/Release.antt =====
-- `op_playback_free` of src/operations/play.c: the release of all sources and of the pipeline.
use gst_playd.Base.{◌≡◌, refl, ◌∙◌, true, some, List, [], ◌∷◌}
use gst_playd.Host.{
  Host, Call, SourceItem, PlaybackCtx, World, ready, gst_element_set_state, gst_object_unref,
}
use gst_playd.Host.Actions.{>>=-some}
use gst_playd.Operations.{playback}
use gst_playd.Operations.Play.Handlers.{free_sources, op_playback_free}
use gst_playd.Operations.Play.Sources.{source_free_and_unlink}
use gst_playd.Operations.Play.Stop.{unlinked, source_free_and_unlink_lem}

module _ (host : Host) where
  -- The calls that take the sources out of the pipeline, from the head of the list.
  abbrev pub all_unlinked : List SourceItem → PlaybackCtx → List Call → List Call
  all_unlinked [] context calls = calls
  all_unlinked (item ∷ items) context calls =
      all_unlinked items context (unlinked host item context calls)

  -- GStreamer refuses to start none of the elements.
  abbrev pub Accepts : List SourceItem → PlaybackCtx → List Call → Type 0
  Accepts [] context calls = Unit {0}
  Accepts (item ∷ items) context calls =
      (host.state_ok calls ≡ true) × Accepts items context (unlinked host item context calls)

  pub always-Accepts :
      (items : List SourceItem) (context : PlaybackCtx) (calls : List Call)
      → ((calls : List Call) → host.state_ok calls ≡ true)
      → Accepts items context calls
  always-Accepts [] context calls ok = tt
  always-Accepts (item ∷ items) context calls ok =
      (ok calls, always-Accepts items context (unlinked host item context calls) ok)

  -- The calls that release the playback context.
  abbrev pub released : PlaybackCtx → List Call → List Call
  released context calls =
      let calls = all_unlinked context.sources context calls in
      gst_object_unref context.pipeline
      ∷ gst_element_set_state context.pipeline ready (host.state_ok calls)
      ∷ calls

  free_sources_lem :
      (items : List SourceItem) (w : World)
      → Accepts items w.playback w.calls
      → free_sources host items w.playback.pipeline w.playback.mux w
        ≡ some (tt, record w { calls = all_unlinked items w.playback w.calls })
  unfolding free_sources
  free_sources_lem [] w accepts = refl
  free_sources_lem (item ∷ items) w (ok, accepts) =
      >>=-some (source_free_and_unlink host item w.playback.pipeline w.playback.mux) _
        (source_free_and_unlink_lem host item w ok)
      ∙ free_sources_lem items (record w { calls = unlinked host item w.playback w.calls }) accepts

  pub op_playback_free_lem :
      (w : World)
      → Accepts w.playback.sources w.playback w.calls
      → op_playback_free host playback w
        ≡ some (tt, record w { calls = released w.playback w.calls })
  unfolding op_playback_free
  op_playback_free_lem w accepts =
      >>=-some (free_sources host w.playback.sources w.playback.pipeline w.playback.mux) _
        (free_sources_lem w.playback.sources w accepts)
