-- ===== src/Operations/Play/Balance.antt =====
-- src/operations/play.c: what has been added to a GStreamer bin and what has been removed, counted
-- in the calls. The elements of a source belong to it while it is in the list.
pub mod Held
pub mod Requests
pub mod Release
use gst_playd.Base.{
  ℕ, ◌+◌, ◌≡◌, refl, ap, ◌∙◌, sym, Bool, true, false, Option, none, some, List, [], ◌∷◌,
}
use gst_playd.Base.{Bytes, ◌==◌, ◌&&◌, if◌then◌else◌}
use gst_playd.Host.{
  Host, Call, Pointer, SourceItem, PlaybackCtx, World, gst_bin_add, gst_bin_remove,
}
use gst_playd.Host.Actions.{some->>=}
use gst_playd.Operations.Play.Sources.{source_new_and_link, play_or_abort}
use gst_playd.Operations.Play.Ran.{play_or_abort-ran}
use gst_playd.Operations.Play.Stop.{unlinked}

abbrev same_pointer : Pointer → Pointer → Bool
same_pointer none none = true
same_pointer (some a) (some b) = a == b
same_pointer p q = false

module _ (bin element : Pointer) where
  -- 1 for this bin and this element.
  unfoldable pub hits : Pointer → Pointer → ℕ
  hits b x = if same_pointer b bin && same_pointer x element then 1 else 0

  -- How often the element has been added to the bin.
  unfoldable pub added : List Call → ℕ
  added [] = 0
  added (gst_bin_add b x ∷ calls) = hits b x + added calls
  added (call ∷ calls) = added calls

  -- How often the element has been removed from the bin.
  unfoldable pub removed : List Call → ℕ
  removed [] = 0
  removed (gst_bin_remove b x ∷ calls) = hits b x + removed calls
  removed (call ∷ calls) = removed calls

  -- How often the sources of a pipeline hold the element.
  unfoldable pub held : Pointer → List SourceItem → ℕ
  held pipeline [] = 0
  held pipeline (item ∷ items) =
      hits pipeline item.element + hits pipeline item.ac + held pipeline items

  -- What has been added and not removed is held by the sources.
  abbrev pub IsBalanced : World → Type 0
  IsBalanced w = added w.calls ≡ removed w.calls + held w.playback.pipeline w.playback.sources

  module _ (host : Host) where
    pub added-unlinked :
        (item : SourceItem) (context : PlaybackCtx) (calls : List Call)
        → added (unlinked host item context calls) ≡ added calls
    unfolding added
    added-unlinked item context calls = refl

    pub removed-unlinked :
        (item : SourceItem) (context : PlaybackCtx) (calls : List Call)
        → removed (unlinked host item context calls)
          ≡ hits context.pipeline item.ac + (hits context.pipeline item.element + removed calls)
    unfolding removed
    removed-unlinked item context calls = refl

    -- A new source has been added with its two elements.
    pub source_new_and_link-added :
        (uri : Bytes) (pipeline mux : Pointer) (w v : World) (item : SourceItem)
        → source_new_and_link host uri pipeline mux w ≡ some (item, v)
        → (added v.calls ≡ hits pipeline item.element + (hits pipeline item.ac + added w.calls))
          × (removed v.calls ≡ removed w.calls)
    unfolding source_new_and_link added removed
    source_new_and_link-added uri pipeline mux w v item e =
        let (u, w1, started, rest) = some->>= (play_or_abort host _) _ e in
        let ran = play_or_abort-ran host _ _ w1 u started in
        let same : w1 ≡ v = cc in
        let item_of : SourceItem → Option (SourceItem × World) → SourceItem =
          λ i r. elim r [ none ↦ i | some (made, x) ↦ made ] in
        let is = ap (item_of item) rest in
        (
          sym (ap (λ x. added x.calls) (ran ∙ same))
              ∙ ap (λ i. hits pipeline i.element + (hits pipeline i.ac + added w.calls)) is,
          sym (ap (λ x. removed x.calls) (ran ∙ same)),
        )
