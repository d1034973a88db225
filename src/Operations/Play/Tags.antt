-- ===== src/Operations/Play/Tags.antt =====
-- What `op_tags_parse` of src/operations/play.c does with the messages on the bus of its pipeline.
-- The pop has no time limit: once the messages are used up, the loop has no result.
use gst_playd.Base.{Option, none, some, List, [], ◌∷◌, ◌++◌, Bytes, codes}
use gst_playd.Base.{length, ltb, c_string, if◌then◌else◌, ◌>>=◌}
use gst_playd.Glib.HashTable.{HashTable}
use gst_playd.GstUtil.{GValue, gsu_tags_to_hash_table}
use gst_playd.Utility.{util_hash_table_as_string}

-- The messages that the filter lets through.
pub data BusMessage (Double Date : Type 0) : Type 0 where
  async_done : BusMessage Double Date
  tag : List (Bytes × List (GValue Double Date)) → BusMessage Double Date
  error : Bytes → BusMessage Double Date

module _ {Double Date : Type 0} (format_double : Double → Bytes) (format_date : Date → Bytes)
    (table : HashTable Bytes) where
  -- The loop: `ret` and the table it leaves. A tag whose value has no text leaves no result.
  unfoldable pub pop_loop :
      List (BusMessage Double Date) → table.Table → Option (Option Bytes × table.Table)
  unfolding gsu_tags_to_hash_table
  pop_loop [] t = none
  pop_loop (async_done ∷ msgs) t = some (none, t)
  pop_loop (error text ∷ msgs) t = some (some (codes "FAIL " ++ text), t)
  pop_loop (tag tags ∷ msgs) t =
      gsu_tags_to_hash_table format_double format_date table tags t >>= λ t. pop_loop msgs t

  -- The reply: an error is reported only when no tag was found.
  unfoldable pub tags_reply : Option Bytes → table.Table → Option Bytes
  unfolding util_hash_table_as_string
  tags_reply none t =
      util_hash_table_as_string table t >>= λ text. some (codes "OK\n" ++ c_string text)
  tags_reply (some ret) t =
      if ltb 0 (length (table.entries t))
      then (util_hash_table_as_string table t >>= λ text. some (codes "OK\n" ++ c_string text))
      else some ret

  -- From the loop to the reply.
  unfoldable pub read_tags : List (BusMessage Double Date) → Option Bytes
  unfolding pop_loop tags_reply
  read_tags msgs = pop_loop msgs table.new >>= λ r. tags_reply r.0 r.1
