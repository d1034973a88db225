-- ===== src/Operations/Play/TagsReply.antt =====
-- The reply to TAGS in src/operations/play.c.
use gst_playd.Base.{
  ◌+◌, ◌^◌, ◌<◌, ◌≡◌, refl, ap, Bool, true, false, Option, some, List, [], ◌∷◌, ◌++◌, Bytes, codes,
}
use gst_playd.Base.{length, ltb, c_string, c_string-append, IsText, if◌then◌else◌, ◌>>=◌, >>=-some}
use gst_playd.Glib.HashTable.{HashTable}
use gst_playd.GstUtil.{GValue, gsu_tags_to_hash_table}
use gst_playd.Operations.Play.Tags.{BusMessage, async_done, tag, error, pop_loop, read_tags}
use gst_playd.Utility.{util_hash_table_as_string}
use gst_playd.Utility.Text.{lines_of, util_hash_table_as_string-lines_of}

if_some :
    {x : Bytes} {o : Option Bytes} (y : Bytes) (b : Bool)
    → o ≡ some x
    → (if b then o else some y) ≡ some (if b then x else y)
if_some y true e = e
if_some y false e = refl

module _ {Double Date : Type 0} (format_double : Double → Bytes) (format_date : Date → Bytes)
    (table : HashTable Bytes) where
  -- TAG messages, and what comes behind them.
  abbrev pub tagged :
      List (List (Bytes × List (GValue Double Date)))
      → List (BusMessage Double Date)
      → List (BusMessage Double Date)
  tagged [] rest = rest
  tagged (tags ∷ tss) rest = tag tags ∷ tagged tss rest

  -- The table that the tags of all messages give.
  abbrev pub stored :
      List (List (Bytes × List (GValue Double Date))) → table.Table → Option table.Table
  stored [] t = some t
  stored (tags ∷ tss) t =
      gsu_tags_to_hash_table format_double format_date table tags t >>= stored tss

  pop_loop-stored :
      (tss : List (List (Bytes × List (GValue Double Date)))) (rest : List (BusMessage Double Date))
      (t t' : table.Table)
      → stored tss t ≡ some t'
      → pop_loop format_double format_date table (tagged tss rest) t
        ≡ pop_loop format_double format_date table rest t'
  unfolding pop_loop
  pop_loop-stored [] rest t t' e = ap (pop_loop format_double format_date table rest) (cc)
  pop_loop-stored (tags ∷ tss) rest t t' e =
      let (t1, first, others) =
        >>=-some (gsu_tags_to_hash_table format_double format_date table tags t) _ e in
      rw (first, ◌>>=◌) (pop_loop-stored tss rest t1 t' others)

  table_reply :
      (t : table.Table)
      → length (lines_of (table.entries t)) + 4 < 2 ^ 31
      → IsText (lines_of (table.entries t))
      → (util_hash_table_as_string table t >>= λ text. some (codes "OK\n" ++ c_string text))
        ≡ some (codes "OK\n" ++ lines_of (table.entries t))
  table_reply t fits text =
      let (rest, e) = util_hash_table_as_string-lines_of table t fits in
      rw (e, ◌>>=◌, c_string-append (lines_of (table.entries t)) rest text) refl

  -- After TAG messages whose tags were stored, in a table whose lines hold no NUL and come to less
  -- than 2 ^ 31 - 4 bytes: the end of the preroll makes the reply "OK" with the lines of the table,
  -- and an error makes it "FAIL" with the text of the error when the table is empty, else the same
  -- "OK". What is on the bus behind them does not matter.
  pub read_tags-stored :
      (tss : List (List (Bytes × List (GValue Double Date)))) (t : table.Table) (text : Bytes)
      (rest : List (BusMessage Double Date))
      → stored tss table.new ≡ some t
      → length (lines_of (table.entries t)) + 4 < 2 ^ 31
      → IsText (lines_of (table.entries t))
      → (read_tags format_double format_date table (tagged tss (async_done ∷ rest))
          ≡ some (codes "OK\n" ++ lines_of (table.entries t)))
        × (read_tags format_double format_date table (tagged tss (error text ∷ rest))
            ≡ some (
                if ltb 0 (length (table.entries t))
                then codes "OK\n" ++ lines_of (table.entries t)
                else codes "FAIL " ++ text))
  unfolding read_tags
  read_tags-stored tss t text rest e fits is_text = (
    rw (pop_loop-stored tss (async_done ∷ rest) table.new t e) (table_reply t fits is_text),
    rw (pop_loop-stored tss (error text ∷ rest) table.new t e)
        (if_some _ (ltb 0 (length (table.entries t))) (table_reply t fits is_text)),
  )
