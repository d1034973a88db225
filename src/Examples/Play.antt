-- ===== src/Examples/Play.antt =====
-- src/operations/play.c on the host on which every call succeeds.
use gst_playd.Base.{
  ℕ, ◌+◌, ◌≡◌, ◌<◌, ◌^◌, refl, arith, some, none, List, [], ◌∷◌, ◌++◌, codes, Bytes, length,
  length-replicate, All, replicate, IsText, ltb, if◌then◌else◌,
}
use gst_playd.Base.Decimal.{format_unsigned, atoll, to_guint}
use gst_playd.Examples.TestHost.{host, blank}
use gst_playd.Glib.HashTable.{HashTable, assoc_table}
use gst_playd.GstUtil.{GValue, uint, gsu_tags_to_hash_table, tag_to_hash_table, value_text, tag_key}
use gst_playd.Host.{SourceItem, World}
use gst_playd.Operations.{playback}
use gst_playd.Operations.Play.Sources.{source_item_to_id}
use gst_playd.Operations.Play.Handlers.{op_play_parse, op_stop_parse, player_id, set_sources}
use gst_playd.Operations.Play.StopAny.{op_stop_parse_found}
use gst_playd.Operations.Play.Limits.{
  HasOtherId, op_stop_parse_unknown, op_play_parse_long, op_play_parse_short,
}
use gst_playd.Operations.Play.Stop.{unlinked}
use gst_playd.Operations.Play.Tags.{async_done, error, read_tags}
use gst_playd.Operations.Play.TagsReply.{tagged, stored, read_tags-stored}
use gst_playd.Utility.Text.{lines_of}

-- Two sources of different lengths of text, so of different numbers.
abbrev older : SourceItem
older = record { address = 100; uri = codes "a"; created_at = 1; element = some 5; ac = some 6 }

abbrev newer : SourceItem
newer = record { address = 200; uri = codes "bcd"; created_at = 2; element = some 7; ac = some 8 }

abbrev two_sources : World
two_sources = set_sources (newer ∷ older ∷ []) blank

newer-HasOtherId : HasOtherId host 9 newer
unfolding source_item_to_id format_unsigned
newer-HasOtherId = (11, refl, omega arith)

older_id : source_item_to_id host older ≡ some 9
unfolding source_item_to_id format_unsigned
older_id = refl

op_stop_parse_found_example :
    op_stop_parse host (some (format_unsigned 9)) playback two_sources
    ≡ some (
      player_id 9,
      record (set_sources (newer ∷ []) two_sources) {
        calls = unlinked host older two_sources.playback [];
      },
    )
op_stop_parse_found_example =
    op_stop_parse_found host (newer ∷ []) [] older 9 two_sources refl (newer-HasOtherId, tt)
      older_id (omega arith) refl

two_sources-HasOtherId : All (HasOtherId host 7) two_sources.playback.sources
unfolding source_item_to_id format_unsigned
two_sources-HasOtherId = ((11, refl, omega arith), ((9, refl, omega arith), tt))

op_stop_parse_unknown_example :
    op_stop_parse host (some (codes "7")) playback two_sources
    ≡ some (codes "FAIL id is invalid", two_sources)
unfolding atoll to_guint
op_stop_parse_unknown_example =
    op_stop_parse_unknown host (codes "7") two_sources two_sources-HasOtherId

play_short :
    length (codes "file:///a") + length (format_unsigned 4096) + length (format_unsigned 1000)
    < 2044
unfolding format_unsigned
play_short = omega arith

op_play_parse_short_example :
    (item : SourceItem) × (id : ℕ) × (w' : World) × (op_play_parse host
        (some (codes "file:///a"))
        playback
        two_sources
      ≡ some (player_id id, w'))
    × (item.uri ≡ codes "file:///a")
    × (source_item_to_id host item ≡ some id)
    × (w'.playback ≡ record two_sources.playback { sources = item ∷ newer ∷ older ∷ [] })
op_play_parse_short_example =
    op_play_parse_short host (codes "file:///a") two_sources (λ calls. refl) play_short

op_play_parse_long_example : op_play_parse host (some (replicate 2044 b'a')) playback blank ≡ none
op_play_parse_long_example =
    op_play_parse_long host (replicate 2044 b'a') blank
      (omega (arith, length-replicate {A = ℕ} 2044 b'a'))

abbrev table : HashTable Bytes
table = assoc_table Bytes

abbrev no_text : ℕ → Bytes
no_text n = []

-- One TAG message with one tag of one value.
abbrev tags : List (Bytes × List (GValue ℕ ℕ))
tags = (codes "track-number", uint 5 ∷ []) ∷ []

abbrev tag_table : table.Table
tag_table = elim (stored no_text no_text table (tags ∷ []) table.new) [
  | none ↦ table.new
  | some t ↦ t
]

stored-tags : stored no_text no_text table (tags ∷ []) table.new ≡ some tag_table
unfolding gsu_tags_to_hash_table format_unsigned tag_to_hash_table value_text
stored-tags = refl

tags_short : length (lines_of (table.entries tag_table)) + 4 < 2 ^ 31
unfolding gsu_tags_to_hash_table format_unsigned tag_to_hash_table value_text tag_key
tags_short = omega arith

tags-IsText : IsText (lines_of (table.entries tag_table))
unfolding gsu_tags_to_hash_table format_unsigned tag_to_hash_table value_text tag_key
tags-IsText = omega arith

read_tags-stored_example :
    (read_tags no_text no_text table (tagged no_text no_text table (tags ∷ []) (async_done ∷ []))
      ≡ some (codes "OK\n" ++ lines_of (table.entries tag_table)))
    × (read_tags no_text no_text table
          (tagged no_text no_text table (tags ∷ []) (error (codes "bad") ∷ []))
        ≡ some (
            if ltb 0 (length (table.entries tag_table))
            then codes "OK\n" ++ lines_of (table.entries tag_table)
            else codes "FAIL bad"))
read_tags-stored_example =
    read_tags-stored no_text no_text table (tags ∷ []) tag_table (codes "bad") [] stored-tags
      tags_short tags-IsText
