-- ===== src/GstUtil.antt =====
-- src/gst-util.c: a GStreamer tag list stored in a hash table. A tag list is the list of its tags,
-- each with its values; dates and doubles are of types of their own, since `g_date_strftime` and
-- the `%f` of `g_strdup_printf` are not in the source.
pub mod Values
pub mod Keys
pub mod Stored
use gst_playd.Base.{ℕ, ◌+◌, Bool, true, false, Option, some, List, [], ◌∷◌, ◌++◌, Bytes}
use gst_playd.Base.{codes, length, replicate, c_string, if◌then◌else◌, ◌>>=◌}
use gst_playd.Base.Decimal.{format_unsigned}
use gst_playd.Glib.HashTable.{HashTable}
use gst_playd.Uuencode.{uuenc_tbl_base64, uuencode_get_length}
use gst_playd.Uuencode.Encode.{uuencode}

-- The types that a `GValue` is asked for, in the order of the tests.
pub data GValue (Double Date : Type 0) : Type 0 where
  string : Bytes → GValue Double Date
  uint : ℕ → GValue Double Date
  uint64 : ℕ → GValue Double Date
  double : Double → GValue Double Date
  boolean : Bool → GValue Double Date
  buffer : Bytes → GValue Double Date
  date : Date → GValue Double Date
  other : Bytes → GValue Double Date

-- The buffer of a base64 text: allocated from the length, then filled.
unfoldable pub buffer_text : Bytes → Option Bytes
buffer_text buf = uuencode_get_length (length buf) >>= λ size.
    uuencode (replicate (size + 1) 0) buf (length buf) uuenc_tbl_base64

-- "tag of type ’%s’"; the quotation marks are three bytes each in UTF-8.
unfoldable pub type_text : Bytes → Bytes
type_text name = codes "tag of type " ++ (0xe2 ∷ 0x80 ∷ 0x99 ∷ name ++ 0xe2 ∷ 0x80 ∷ 0x99 ∷ [])

-- "%s_%d"
unfoldable pub tag_key : Bytes → ℕ → Bytes
tag_key tag i = tag ++ (b'_' ∷ format_unsigned i)

module _ {Double Date : Type 0} (format_double : Double → Bytes) (format_date : Date → Bytes) where
  -- The text of a value; `none` where the code would write outside its buffer.
  unfoldable pub value_text : GValue Double Date → Option Bytes
  unfolding buffer_text type_text
  value_text (string s) = some s
  value_text (uint n) = some (format_unsigned n)
  value_text (uint64 n) = some (format_unsigned n ++ codes "64")
  value_text (double d) = some (format_double d)
  value_text (boolean b) = some (if b then codes "true" else codes "false")
  value_text (buffer buf) = buffer_text buf >>= λ value. some (c_string value)
  value_text (date d) = some (format_date d)
  value_text (other name) = some (type_text name)

  module _ (table : HashTable Bytes) where
    -- The loop over the values of a tag, from index `i`.
    unfoldable pub insert_values :
        Bytes → ℕ → List (GValue Double Date) → table.Table → Option table.Table
    insert_values tag i [] t = some t
    insert_values tag i (val ∷ vals) t = value_text val >>= λ value.
        insert_values tag (i + 1) vals (table.insert (tag_key tag i) value t)

    unfoldable pub tag_to_hash_table :
        Bytes → List (GValue Double Date) → table.Table → Option table.Table
    unfolding insert_values
    tag_to_hash_table tag vals t = insert_values tag 0 vals t

    -- `gst_tag_list_foreach`
    unfoldable pub gsu_tags_to_hash_table :
        List (Bytes × List (GValue Double Date)) → table.Table → Option table.Table
    gsu_tags_to_hash_table [] t = some t
    gsu_tags_to_hash_table ((tag, vals) ∷ tags) t =
        tag_to_hash_table tag vals t >>= λ t. gsu_tags_to_hash_table tags t
