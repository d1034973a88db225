-- ===== src/Examples/Tables.antt =====
-- src/utility.c and src/gst-util.c with an association list as the hash table.
use gst_playd.Base.{
  ℕ, ◌≡◌, ◌≢◌, refl, arith, some, none, List, [], ◌∷◌, ◌++◌, codes, Bytes, str_equal, get_elem?,
}
use gst_playd.Glib.HashTable.{HashTable, assoc_table}
use gst_playd.GstUtil.{
  GValue, string, uint, buffer, value_text, tag_key, insert_values, tag_to_hash_table,
}
use gst_playd.GstUtil.Keys.{lookup-tag_to_hash_table}
use gst_playd.GstUtil.Values.{value_text-buffer}
use gst_playd.Uuencode.Decode.{decode_base64}
use gst_playd.Utility.{util_hash_table_as_string}
use gst_playd.Utility.Text.{lines_of, util_hash_table_as_string-lines_of}

abbrev table : HashTable Bytes
table = assoc_table Bytes

abbrev two_entries : table.Table
two_entries =
    table.insert (codes "title") (codes "x") (table.insert (codes "artist") (codes "y") table.new)

util_hash_table_as_string-lines_of_example :
    (rest : Bytes) × (util_hash_table_as_string table two_entries
      ≡ some (lines_of (table.entries two_entries) ++ 0 ∷ rest))
unfolding str_equal
util_hash_table_as_string-lines_of_example =
    util_hash_table_as_string-lines_of table two_entries (omega arith)

abbrev no_text : ℕ → Bytes
no_text n = []

value_text-buffer_example :
    (text : Bytes) × (value_text {Date = ℕ} no_text no_text (buffer (1 ∷ 2 ∷ [])) ≡ some text)
    × (decode_base64 text ≡ some (1 ∷ 2 ∷ [], []))
value_text-buffer_example =
    value_text-buffer no_text no_text (1 ∷ 2 ∷ []) (omega arith) (omega arith)

abbrev values : List (GValue ℕ ℕ)
values = string (codes "rock") ∷ uint 7 ∷ []

abbrev tagged_table : table.Table
tagged_table = elim (tag_to_hash_table no_text no_text table (codes "genre") values table.new) [
  | none ↦ table.new
  | some t ↦ t
]

values_stored :
    tag_to_hash_table no_text no_text table (codes "genre") values table.new ≡ some tagged_table
unfolding tag_to_hash_table insert_values value_text
values_stored = refl

lookup-tag_to_hash_table_example :
    ((j : ℕ) (val : GValue ℕ ℕ) (text : Bytes)
      → get_elem? values j ≡ some val
      → value_text no_text no_text val ≡ some text
      → table.lookup (tag_key (codes "genre") j) tagged_table ≡ some text)
    × ((k : Bytes)
        → ((j : ℕ) → tag_key (codes "genre") j ≢ k)
        → table.lookup k tagged_table ≡ table.lookup k table.new)
lookup-tag_to_hash_table_example =
    lookup-tag_to_hash_table no_text no_text table (codes "genre") values table.new tagged_table
      values_stored
