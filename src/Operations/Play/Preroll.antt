-- ===== src/Operations/Play/Preroll.antt =====
-- What is on the bus of the pipeline that TAGS of src/operations/play.c pauses, and that the reading
-- of it then comes to an end with a reply.
use gst_playd.Base.{◌+◌, ◌^◌, ◌<◌, ◌≡◌, refl, ap, ◌∙◌, ◌⊎◌, inl, inr, some, List, [], ◌∷◌}
use gst_playd.Base.{Bytes, All, length, IsText, ◌>>=◌}
use gst_playd.Glib.HashTable.{HashTable}
use gst_playd.GstUtil.{GValue}
use gst_playd.GstUtil.Stored.{HaveRoom, gsu_tags_to_hash_table-HaveRoom}
use gst_playd.Operations.Play.Tags.{BusMessage, async_done, error, read_tags}
use gst_playd.Operations.Play.TagsReply.{tagged, stored, read_tags-stored}
use gst_playd.Utility.Text.{lines_of}

module _ {Double Date : Type 0} (format_double : Double → Bytes) (format_date : Date → Bytes)
    (table : HashTable Bytes) where
  -- A pipeline that is paused prerolls or fails: behind some TAG messages there is the message that
  -- says so. The values of the tags have room in memory, and the lines that they make hold no NUL and
  -- have a length that fits an `int`.
  pub record Preroll (msgs : List (BusMessage Double Date)) : Type 0 where
    pub tags : List (List (Bytes × List (GValue Double Date)))
    pub rest : List (BusMessage Double Date)
    pub ends :
        (msgs ≡ tagged format_double format_date table tags (async_done ∷ rest))
        ⊎ ((text : Bytes) × (msgs
              ≡ tagged format_double format_date table tags (error text ∷ rest)))
    pub rooms : All HaveRoom tags
    pub fits :
        (t : table.Table)
        → stored format_double format_date table tags table.new ≡ some t
        → (length (lines_of (table.entries t)) + 4 < 2 ^ 31) × IsText (lines_of (table.entries t))

  stored-HaveRoom :
      (tss : List (List (Bytes × List (GValue Double Date)))) (t : table.Table)
      → All HaveRoom tss
      → (t' : table.Table) × (stored format_double format_date table tss t ≡ some t')
  stored-HaveRoom [] t rooms = (t, refl)
  stored-HaveRoom (tags ∷ tss) t (room, rooms) =
      let (t1, first) =
        gsu_tags_to_hash_table-HaveRoom format_double format_date table tags t room in
      let (t', e) = stored-HaveRoom tss t1 rooms in (t', rw (first, ◌>>=◌) e)

  pub read_tags-Preroll :
      (msgs : List (BusMessage Double Date))
      → Preroll msgs
      → (reply : Bytes) × (read_tags format_double format_date table msgs ≡ some reply)
  read_tags-Preroll msgs preroll =
      let (t, has) = stored-HaveRoom preroll.tags table.new preroll.rooms in
      let (short, is_text) = preroll.fits t has in
      let replies = λ (text : Bytes).
        read_tags-stored format_double format_date table preroll.tags t text preroll.rest has short
          is_text in
      elim preroll.ends [
        | inl done ↦ (_, ap (read_tags format_double format_date table) done ∙ (replies []).0)
        | inr (text, failed) ↦
            (_, ap (read_tags format_double format_date table) failed ∙ (replies text).1)
      ]
