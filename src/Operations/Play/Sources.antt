-- ===== src/Operations/Play/Sources.antt =====
-- src/operations/play.c: the sources of the playback context. `source_new_and_link` gives a
-- source an address and a time; a string that does not fit `to_hash` has no identifier.
use gst_playd.Base.{ℕ, Bool, true, false, Option, none, some, List, [], ◌∷◌, ◌++◌, Bytes, codes}
use gst_playd.Base.{length, ltb, if◌then◌else◌, ◌==◌}
use gst_playd.Base.Decimal.{format_unsigned}
use gst_playd.Host.{
  Pointer, GstState, playing, Host, SourceItem, gst_bin_add, gst_bin_remove, gst_element_set_uri,
  gst_element_on_pad_added, gst_element_unlink_many, gst_element_release_request_pad,
}
use gst_playd.Host.Actions.{
  Action, pure, abort, gets, ◌>>=◌, ◌>>◌, perform, make, link, get_state, set_state, get_static_pad,
  get_peer,
}

-- `sprintf` into the 2048 bytes of `to_hash`.
abbrev pub source_text : Host → SourceItem → Bytes
source_text host item =
    item.uri
    ++ (codes " 0x"
        ++ (host.format_pointer item.address ++ (codes " " ++ format_unsigned item.created_at)))

unfoldable pub source_item_to_id : Host → SourceItem → Option ℕ
source_item_to_id host item =
    if ltb (length (source_text host item)) 2048
    then some (host.g_str_hash (source_text host item))
    else none

-- One step of the search: the identifier of `needle` against `id`.
abbrev pub found_or :
    ℕ → SourceItem → Option (Option SourceItem) → Option ℕ → Option (Option SourceItem)
found_or id needle rest none = none
found_or id needle rest (some k) = if k == id then some (some needle) else rest

unfoldable pub source_item_from_id : Host → List SourceItem → ℕ → Option (Option SourceItem)
unfolding source_item_to_id
source_item_from_id host [] id = some none
source_item_from_id host (needle ∷ haystack) id =
    let rest = source_item_from_id host haystack id in
    found_or id needle rest (source_item_to_id host needle)

-- `g_slist_remove`: the first link to the item, found by its address.
unfoldable pub remove_source : List SourceItem → SourceItem → List SourceItem
remove_source [] item = []
remove_source (x ∷ xs) item =
    let rest = remove_source xs item in if x.address == item.address then xs else x ∷ rest

abbrev pub is_playing : GstState → Bool
is_playing playing = true
is_playing other = false

-- The element to start: the pipeline, unless it plays or is about to.
abbrev pub start_target : Pointer → Pointer → GstState × GstState → Pointer
start_target element pipeline (current, pending) =
    if is_playing pending then element else (if is_playing current then element else pipeline)

module _ (host : Host) where
  unfoldable pub on_new_source_pad_link : Pointer → Pointer → Action (Unit {0})
  on_new_source_pad_link src mux = do linked ← link host src mux; if linked then pure tt else abort

  -- A move to PLAYING, after which a failure aborts.
  unfoldable pub play_or_abort : Pointer → Action (Unit {0})
  play_or_abort element = do
    moved ← set_state host element playing
    if moved then pure tt else abort

  unfoldable pub source_new_and_link : Bytes → Pointer → Pointer → Action SourceItem
  unfolding play_or_abort
  source_new_and_link uri pipeline mux = do
    address ← gets (λ w. host.new_address w.calls)
    created_at ← gets (λ w. host.now w.calls)
    element ← make host (codes "uridecodebin")
    ac ← make host (codes "audioconvert")
    perform (gst_bin_add pipeline ac)
    linked ← link host ac mux
    perform (gst_bin_add pipeline element)
    perform (gst_element_set_uri element (some uri))
    perform (gst_element_on_pad_added element ac)
    states ← get_state host pipeline
    play_or_abort (start_target element pipeline states)
    pure (record {
      address = address;
      uri = uri;
      created_at = created_at;
      element = element;
      ac = ac;
    })

  unfoldable pub source_free_and_unlink : SourceItem → Pointer → Pointer → Action (Unit {0})
  unfolding play_or_abort
  source_free_and_unlink item pipeline mux = do
    play_or_abort item.element
    ac_src ← get_static_pad host item.ac
    mux_sink ← get_peer host ac_src
    perform (gst_element_unlink_many item.element item.ac mux)
    perform (gst_element_release_request_pad mux mux_sink)
    perform (gst_bin_remove pipeline item.element)
    perform (gst_bin_remove pipeline item.ac)
