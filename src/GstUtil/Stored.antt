-- ===== src/GstUtil/Stored.antt =====
-- The tags that src/gst-util.c can store: the text of each of their values has room in memory.
use gst_playd.Base.{ℕ, ◌+◌, ◌≤◌, ◌≡◌, refl, some, List, [], ◌∷◌, Bytes}
use gst_playd.Base.{All, AreBytes, length, ◌>>=◌}
use gst_playd.Glib.HashTable.{HashTable}
use gst_playd.GstUtil.{
  GValue, string, uint, uint64, double, boolean, buffer, date, other, value_text, tag_key,
  insert_values, tag_to_hash_table, gsu_tags_to_hash_table,
}
use gst_playd.GstUtil.Values.{value_text-buffer}

-- A buffer is one of bytes whose text has a length that fits an `int`.
abbrev pub HasRoom : {Double Date : Type 0} → GValue Double Date → Type 0
HasRoom (string s) = Unit {0}
HasRoom (uint n) = Unit {0}
HasRoom (uint64 n) = Unit {0}
HasRoom (double d) = Unit {0}
HasRoom (boolean b) = Unit {0}
HasRoom (buffer buf) = AreBytes buf × (length buf ≤ 1610612733)
HasRoom (date d) = Unit {0}
HasRoom (other name) = Unit {0}

-- Each value of each tag has.
abbrev pub HaveRoom : {Double Date : Type 0} → List (Bytes × List (GValue Double Date)) → Type 0
HaveRoom tags = All (λ tag. All HasRoom tag.1) tags

module _ {Double Date : Type 0} (format_double : Double → Bytes) (format_date : Date → Bytes) where
  value_text-HasRoom :
      (val : GValue Double Date)
      → HasRoom val
      → (text : Bytes) × (value_text format_double format_date val ≡ some text)
  unfolding value_text
  value_text-HasRoom (string s) room = (_, refl)
  value_text-HasRoom (uint n) room = (_, refl)
  value_text-HasRoom (uint64 n) room = (_, refl)
  value_text-HasRoom (double d) room = (_, refl)
  value_text-HasRoom (boolean b) room = (_, refl)
  value_text-HasRoom (buffer buf) (bytes, fits) =
      let (text, e, back) = value_text-buffer format_double format_date buf bytes fits in (text, e)
  value_text-HasRoom (date d) room = (_, refl)
  value_text-HasRoom (other name) room = (_, refl)

  module _ (table : HashTable Bytes) where
    insert_values-HasRoom :
        (tag : Bytes) (i : ℕ) (vals : List (GValue Double Date)) (t : table.Table)
        → All HasRoom vals
        → (t' : table.Table) × (insert_values format_double format_date table tag i vals t
            ≡ some t')
    unfolding insert_values
    insert_values-HasRoom tag i [] t rooms = (t, refl)
    insert_values-HasRoom tag i (val ∷ vals) t (room, rooms) =
        let (text, has) = value_text-HasRoom val room in
        let (t', e) =
          insert_values-HasRoom tag (i + 1) vals (table.insert (tag_key tag i) text t) rooms in
        (t', rw (has, ◌>>=◌) e)

    pub gsu_tags_to_hash_table-HaveRoom :
        (tags : List (Bytes × List (GValue Double Date))) (t : table.Table)
        → HaveRoom tags
        → (t' : table.Table) × (gsu_tags_to_hash_table format_double format_date table tags t
            ≡ some t')
    unfolding gsu_tags_to_hash_table tag_to_hash_table
    gsu_tags_to_hash_table-HaveRoom [] t rooms = (t, refl)
    gsu_tags_to_hash_table-HaveRoom ((tag, vals) ∷ tags) t (room, rooms) =
        let (t1, first) = insert_values-HasRoom tag 0 vals t room in
        let (t', e) = gsu_tags_to_hash_table-HaveRoom tags t1 rooms in (t', rw (first, ◌>>=◌) e)
