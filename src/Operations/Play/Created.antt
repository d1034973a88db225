-- ===== src/Operations/Play/Created.antt =====
-- `op_playback_new` of src/operations/play.c: what it leaves where it has a result.
use gst_playd.Base.{◌≡◌, ap, ◌∙◌, sym, Bool, true, false, Option, none, some, List, [], ◌∷◌}
use gst_playd.Base.{Bytes, codes}
use gst_playd.Host.{Host, World, Pointer, Call, PlaybackCtx, gst_element_factory_make}
use gst_playd.Host.Frame.{OnlyCalls, OnlyCalls-trans}
use gst_playd.Host.Actions.{some->>=, abort, pure}
use gst_playd.Operations.{OpContext, playback}
use gst_playd.Operations.Play.Handlers.{make_or_abort, watch_or_abort, op_playback_new}

module _ (host : Host) where
  make_or_abort-OnlyCalls :
      (name : Bytes) (w v : World) (element : Pointer)
      → make_or_abort host name w ≡ some (element, v)
      → OnlyCalls w v
  make_or_abort-OnlyCalls name w v element e = go (host.new_element w.calls name) e
    where
      go :
          (p : Pointer)
          → (elim p as (λ x. World → Option (Pointer × World)) [
            | none ↦ abort
            | some x ↦ pure (some x)
          ])
              (record w { calls = gst_element_factory_make name p ∷ w.calls })
            ≡ some (element, v)
          → OnlyCalls w v
      go none stuck = absurd (cc)
      go (some x) ran =
          (_, sym (ap (λ r. elim r as (λ x. World) [ none ↦ w | some (p, u) ↦ u ]) ran))

  watch_or_abort-world :
      (ret : PlaybackCtx) (linked : Bool) (c : OpContext) (w w' : World)
      → watch_or_abort host ret linked w ≡ some (c, w')
      → (c ≡ playback) × ((calls : List Call) × (w' ≡ record w { calls = calls; playback = ret }))
  unfolding watch_or_abort
  watch_or_abort-world ret false c w w' e = absurd (cc)
  watch_or_abort-world ret true c w w' e =
      (cc, (_, sym (ap (λ r. elim r as (λ x. World) [ none ↦ w | some (p, u) ↦ u ]) e)))

  pub op_playback_new-world :
      (ctx c : OpContext) (w w' : World)
      → op_playback_new host ctx w ≡ some (c, w')
      → (c ≡ playback)
        × (w'.should_quit ≡ w.should_quit)
        × (w'.pub_sub ≡ w.pub_sub)
        × (w'.playback.sources ≡ [])
  unfolding op_playback_new
  op_playback_new-world ctx c w w' e =
      let (audio_sink, w1, ran1, e1) = some->>= (make_or_abort host (codes "osxaudiosink")) _ e in
      let (mux, w2, ran2, e2) = some->>= (make_or_abort host (codes "adder")) _ e1 in
      let (calls, same) =
        OnlyCalls-trans w w1 w2 (make_or_abort-OnlyCalls _ w w1 audio_sink ran1)
          (make_or_abort-OnlyCalls _ w1 w2 mux ran2) in
      let (made, (calls', left)) = watch_or_abort-world _ _ c _ w' e2 in
      (
        made,
        ap (λ u. u.should_quit) left ∙ ap (λ u. u.should_quit) same,
        ap (λ u. u.pub_sub) left ∙ ap (λ u. u.pub_sub) same,
        ap (λ u. u.playback.sources) left,
      )
