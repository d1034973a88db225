-- ===== src/GstUtil/Keys.antt =====
-- The keys under which src/gst-util.c stores the values of a tag.
use gst_playd.Base.{ℕ, zero, suc, ◌+◌, ◌≤◌, ◌≡◌, ◌≢◌, ap, ◌∙◌, arith, some}
use gst_playd.Base.{List, [], ◌∷◌, Bytes, get_elem?, str_equal_iff, str_equal_refl}
use gst_playd.Base.{>>=-some, sym}
use native.Mathlib.Nat.{add-zero, zero-add}
use mathlib.Core.List.{append_cancel_left}
use gst_playd.Base.Decimal.{format_unsigned, format_unsigned-injective}
use gst_playd.Glib.HashTable.{HashTable}
use gst_playd.GstUtil.{GValue, value_text, tag_key, insert_values, tag_to_hash_table}

tag_key-injective : (tag : Bytes) (i j : ℕ) → tag_key tag i ≡ tag_key tag j → i ≡ j
unfolding tag_key
tag_key-injective tag i j e =
    format_unsigned-injective i j
      (cc (append_cancel_left tag (b'_' ∷ format_unsigned i) (b'_' ∷ format_unsigned j) e))

module _ {Double Date : Type 0} (format_double : Double → Bytes) (format_date : Date → Bytes)
    (table : HashTable Bytes) where
  lookup-insert_values_ne :
      (tag : Bytes) (i : ℕ) (vals : List (GValue Double Date)) (t t' : table.Table) (k : Bytes)
      → insert_values format_double format_date table tag i vals t ≡ some t'
      → ((m : ℕ) → i ≤ m → tag_key tag m ≢ k)
      → table.lookup k t' ≡ table.lookup k t
  unfolding insert_values
  lookup-insert_values_ne tag i [] t t' k e other = ap (table.lookup k) (cc)
  lookup-insert_values_ne tag i (val ∷ vals) t t' k e other =
      let (value, found, rest) = >>=-some (value_text format_double format_date val) _ e in
      lookup-insert_values_ne tag (i + 1) vals (table.insert (tag_key tag i) value t) t' k rest
        (λ m le. other m (omega arith))
      ∙ ground (
        arith,
        table.lookup-insert (tag_key tag i) k value t,
        str_equal_iff (tag_key tag i) k,
        other i (omega arith),
      )

  lookup-insert_values :
      (tag : Bytes) (i : ℕ) (vals : List (GValue Double Date)) (t t' : table.Table) (j : ℕ)
      (val : GValue Double Date) (text : Bytes)
      → insert_values format_double format_date table tag i vals t ≡ some t'
      → get_elem? vals j ≡ some val
      → value_text format_double format_date val ≡ some text
      → table.lookup (tag_key tag (i + j)) t' ≡ some text
  unfolding insert_values
  lookup-insert_values tag i [] t t' j val text e at is_text = cc
  lookup-insert_values tag i (v ∷ vals) t t' zero val text e at is_text =
      let (value, found, rest) = >>=-some (value_text format_double format_date v) _ e in
      let key = tag_key tag i in
      let same : v ≡ val = cc in
      let same_text : value ≡ text = cc (ap (value_text format_double format_date) same) in
      ap (λ m. table.lookup (tag_key tag m) t') (add-zero i)
      ∙ lookup-insert_values_ne tag (i + 1) vals (table.insert key value t) t' key rest
          (λ m le e. absurd (omega (arith, tag_key-injective tag m i e)))
      ∙ table.lookup-insert key key value t
      ∙ rw (str_equal_refl key) (ap some same_text)
  lookup-insert_values tag i (v ∷ vals) t t' (suc j) val text e at is_text =
      let (value, found, rest) = >>=-some (value_text format_double format_date v) _ e in
      ap (λ m. table.lookup (tag_key tag m) t') (omega arith)
      ∙ lookup-insert_values tag (i + 1) vals (table.insert (tag_key tag i) value t) t' j val text
          rest at is_text

  -- When the values of a tag have been stored, each of them is found, as its text, under the tag
  -- and its index, and every key that is not the tag with an index has what it had before.
  pub lookup-tag_to_hash_table :
      (tag : Bytes) (vals : List (GValue Double Date)) (t t' : table.Table)
      → tag_to_hash_table format_double format_date table tag vals t ≡ some t'
      → ((j : ℕ) (val : GValue Double Date) (text : Bytes)
          → get_elem? vals j ≡ some val
          → value_text format_double format_date val ≡ some text
          → table.lookup (tag_key tag j) t' ≡ some text)
        × ((k : Bytes) → ((j : ℕ) → tag_key tag j ≢ k) → table.lookup k t' ≡ table.lookup k t)
  unfolding tag_to_hash_table
  lookup-tag_to_hash_table tag vals t t' e = (
    λ j val text at is_text.
        ap (λ m. table.lookup (tag_key tag m) t') (sym (zero-add j))
        ∙ lookup-insert_values tag 0 vals t t' j val text e at is_text,
    λ k other. lookup-insert_values_ne tag 0 vals t t' k e (λ m le. other m),
  )
