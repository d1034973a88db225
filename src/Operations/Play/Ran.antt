-- ===== src/Operations/Play/Ran.antt =====
-- The worlds that the helpers of src/operations/play.c leave where they have a result.
use gst_playd.Base.{◌≡◌, ◌∙◌, sym, true, some, ◌∷◌}
use gst_playd.Base.{Bytes, Bool-cases, inl, inr}
use gst_playd.Host.{Host, Pointer, SourceItem, World, playing, gst_element_set_state}
use gst_playd.Host.Actions.{some->>=}
use gst_playd.Host.Frame.{left_world, OnlyCalls}
use gst_playd.Operations.Play.Sources.{source_new_and_link, source_free_and_unlink, play_or_abort}
use gst_playd.Operations.Play.Stop.{
  unlinked, play_or_abort_lem, play_or_abort-fails, source_free_and_unlink_lem,
}

module _ (host : Host) where
  pub play_or_abort-ran :
      (target : Pointer) (w v : World) (u : Unit {0})
      → play_or_abort host target w ≡ some (u, v)
      → record w { calls = gst_element_set_state target playing true ∷ w.calls } ≡ v
  play_or_abort-ran target w v u e = elim (Bool-cases (host.state_ok w.calls)) [
    | inl ok ↦ left_world (play_or_abort_lem host target w ok) e
    | inr failed ↦ absurd (cc (play_or_abort-fails host target w failed))
  ]

  pub source_free_and_unlink-ran :
      (item : SourceItem) (w v : World) (u : Unit {0})
      → source_free_and_unlink host item w.playback.pipeline w.playback.mux w ≡ some (u, v)
      → record w { calls = unlinked host item w.playback w.calls } ≡ v
  unfolding source_free_and_unlink
  source_free_and_unlink-ran item w v u e = elim (Bool-cases (host.state_ok w.calls)) [
    | inl ok ↦ left_world (source_free_and_unlink_lem host item w ok) e
    | inr failed ↦
        let (t, w1, ran, rest) = some->>= (play_or_abort host item.element) _ e in
        absurd (cc (play_or_abort-fails host item.element w failed))
  ]

  pub source_new_and_link-OnlyCalls :
      (uri : Bytes) (pipeline mux : Pointer) (w v : World) (item : SourceItem)
      → source_new_and_link host uri pipeline mux w ≡ some (item, v)
      → OnlyCalls w v
  unfolding source_new_and_link
  source_new_and_link-OnlyCalls uri pipeline mux w v item e =
      let (u, w1, started, rest) = some->>= (play_or_abort host _) _ e in
      let same : w1 ≡ v = cc in (_, sym (play_or_abort-ran _ _ w1 u started ∙ same))
