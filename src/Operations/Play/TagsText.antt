-- ===== src/Operations/Play/TagsText.antt =====
-- The reply to TAGS in src/operations/play.c holds no NUL.
use gst_playd.Base.{
  ◌≡◌, sym, subst, ap, ◌∙◌, arith, Option, none, some, List, [], ◌∷◌, ◌++◌, Bytes, codes,
}
use gst_playd.Base.{
  All, IsText, append-IsText, c_string, IsText-c_string, Bool-cases, inl, inr, length, ltb,
  if◌then◌else◌, >>=-some, ◌>>=◌,
}
use gst_playd.Operations.Play.Tags.{
  BusMessage, async_done, tag, error, pop_loop, tags_reply, read_tags,
}
use gst_playd.GstUtil.{gsu_tags_to_hash_table}
use gst_playd.Utility.{util_hash_table_as_string}
use gst_playd.Glib.HashTable.{HashTable}

-- A text, where there is one, is a C string.
abbrev pub IsParam : Option Bytes → Type 0
IsParam none = Unit {0}
IsParam (some s) = IsText s

-- The text of an error on a bus is a C string.
abbrev pub HasText : {Double Date : Type 0} → BusMessage Double Date → Type 0
HasText (error text) = IsText text
HasText async_done = Unit {0}
HasText (tag tags) = Unit {0}

module _ {Double Date : Type 0} (format_double : Double → Bytes) (format_date : Date → Bytes)
    (table : HashTable Bytes) where
  pop_loop-IsParam :
      (msgs : List (BusMessage Double Date)) (t t' : table.Table) (ret : Option Bytes)
      → All HasText msgs
      → pop_loop format_double format_date table msgs t ≡ some (ret, t')
      → IsParam ret
  unfolding pop_loop
  pop_loop-IsParam [] t t' ret texts e = absurd (cc)
  pop_loop-IsParam (async_done ∷ msgs) t t' ret texts e =
      let same : none ≡ ret = cc in subst IsParam same tt
  pop_loop-IsParam (error text ∷ msgs) t t' ret (is_text, texts) e =
      let same : some (codes "FAIL " ++ text) ≡ ret = cc in
      subst IsParam same (append-IsText (codes "FAIL ") text (omega arith) is_text)
  pop_loop-IsParam (tag tags ∷ msgs) t t' ret (h, texts) e =
      let (t1, stored, rest) =
        >>=-some (gsu_tags_to_hash_table format_double format_date table tags t) _ e in
      pop_loop-IsParam msgs t1 t' ret texts rest

  table_reply-IsText :
      (t : table.Table) (reply : Bytes)
      → (util_hash_table_as_string table t >>= λ text. some (codes "OK\n" ++ c_string text))
        ≡ some reply
      → IsText reply
  table_reply-IsText t reply e =
      let (text, made, rest) = >>=-some (util_hash_table_as_string table t) _ e in
      let same : codes "OK\n" ++ c_string text ≡ reply = cc in
      subst IsText same
        (append-IsText (codes "OK\n") (c_string text) (omega arith) (IsText-c_string text))

  tags_reply-IsText :
      (ret : Option Bytes) (t : table.Table) (reply : Bytes)
      → IsParam ret
      → tags_reply format_double format_date table ret t ≡ some reply
      → IsText reply
  unfolding tags_reply
  tags_reply-IsText none t reply text e = table_reply-IsText t reply e
  tags_reply-IsText (some s) t reply text e =
      let table_reply =
        util_hash_table_as_string table t >>= λ text. some (codes "OK\n" ++ c_string text) in
      elim (Bool-cases (ltb 0 (length (table.entries t)))) [
        | inl tagged ↦
            table_reply-IsText t reply
              (sym (ap (λ b. if b then table_reply else some s) tagged) ∙ e)
        | inr empty ↦
            let same : some s ≡ some reply =
              sym (ap (λ b. if b then table_reply else some s) empty) ∙ e in
            subst IsParam same text
      ]

  pub read_tags-IsText :
      (msgs : List (BusMessage Double Date)) (reply : Bytes)
      → All HasText msgs
      → read_tags format_double format_date table msgs ≡ some reply
      → IsText reply
  unfolding read_tags
  read_tags-IsText msgs reply texts e =
      let ((ret, t), popped, rest) =
        >>=-some (pop_loop format_double format_date table msgs table.new) _ e in
      tags_reply-IsText ret t reply (pop_loop-IsParam msgs table.new t ret texts popped) rest
