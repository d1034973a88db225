-- ===== src/Examples/Players.antt =====
-- A conversation with the daemon of src/operations/play.c, on the host on which every call succeeds.
use gst_playd.Base.{◌≡◌, refl, none, some, List, [], ◌∷◌, codes, Bytes}
use gst_playd.Base.Decimal.{format_unsigned, atoll, to_guint}
use gst_playd.Examples.TestHost.{host, blank}
use gst_playd.Host.{World}
use gst_playd.Operations.{playback}
use gst_playd.Operations.Play.Balance.{added, removed, hits}
use gst_playd.Operations.Play.Balance.Release.{op_playback_free-Responds}
use gst_playd.Operations.Play.Handlers.{
  op_play_parse, op_stop_parse, stop_source, free_sources, op_playback_free,
}
use gst_playd.Operations.Play.Players.{
  Player, Request, play_uri, stop_player, Conversation, ArePlayers, Responds, idle, responded,
}
use gst_playd.Operations.Play.Players.Simulation.{Responds-Conversation}
use gst_playd.Operations.Play.Sources.{
  source_new_and_link, source_item_to_id, source_item_from_id, remove_source,
  source_free_and_unlink,
}

abbrev after_play : World
after_play = elim (op_play_parse host (some (codes "file:///a")) playback blank) [
  | none ↦ blank
  | some r ↦ r.1
]

abbrev after_stop : World
after_stop = elim (op_stop_parse host (some (codes "21")) playback after_play) [
  | none ↦ blank
  | some r ↦ r.1
]

abbrev exchanged : List (Request × Bytes)
exchanged =
    (play_uri (codes "file:///a"), codes "OK player id: 21")
    ∷ (stop_player (codes "21"), codes "OK player id: 21")
    ∷ (stop_player (codes "21"), codes "FAIL id is invalid")
    ∷ []

exchanged-Responds : Responds host blank exchanged after_stop
unfolding op_play_parse op_stop_parse source_new_and_link source_item_to_id format_unsigned atoll
    to_guint stop_source source_item_from_id remove_source source_free_and_unlink
exchanged-Responds = responded refl tt (responded refl tt (responded refl tt idle))

Responds-Conversation_example :
    (last : List Player) × Conversation [] exchanged last
    × ArePlayers host after_stop.playback.sources last
Responds-Conversation_example =
    Responds-Conversation host blank after_stop [] exchanged exchanged-Responds tt tt

-- A source plays when the plugin is freed.
abbrev after_free : World
after_free = elim (op_playback_free host playback after_play) [ none ↦ blank | some r ↦ r.1 ]

freed : op_playback_free host playback after_play ≡ some (tt, after_free)
unfolding op_play_parse source_new_and_link source_item_to_id format_unsigned free_sources
    source_free_and_unlink op_playback_free
freed = refl

one-Responds :
    Responds host blank ((play_uri (codes "file:///a"), codes "OK player id: 21") ∷ []) after_play
unfolding op_play_parse source_new_and_link source_item_to_id format_unsigned
one-Responds = responded refl tt idle

op_playback_free-Responds_example :
    added (some 1) (some 0) after_free.calls ≡ removed (some 1) (some 0) after_free.calls
unfolding added removed
op_playback_free-Responds_example =
    op_playback_free-Responds (some 1) (some 0) host blank after_play after_free _ tt refl refl
      one-Responds freed

-- The element of the source is among those counted.
added_once : added (some 1) (some 0) after_free.calls ≡ 1
unfolding op_play_parse source_new_and_link source_item_to_id format_unsigned free_sources
    source_free_and_unlink op_playback_free added hits
added_once = refl
