-- ===== src/Utility.antt =====
-- src/utility.c: the text of a hash table here and in the module of its proofs.
pub mod Text
pub mod Sockets
pub mod Exchange
use gst_playd.Base.{ℕ, ◌+◌, ◌%◌, ◌^◌, Option, none, some, List, [], ◌∷◌, ◌++◌, Bytes}
use gst_playd.Base.{length, replicate, set?, ltb, if◌then◌else◌, ◌>>=◌}
use gst_playd.Glib.HashTable.{HashTable}

-- `hash_foreach_calc_length` over the entries: a `size_t` sum, stored in an `int`.
unfoldable pub calc_length : List (Bytes × Bytes) → ℕ → ℕ
calc_length [] len = len
calc_length ((key, value) ∷ es) len =
    calc_length es ((len + length key + length value + 2) % 2 ^ 32)

-- `g_new0(char, n)`: a negative `int` is a size that GLib cannot allocate, which aborts.
unfoldable pub g_new0 : ℕ → Option Bytes
g_new0 n = if ltb n (2 ^ 31) then some (replicate n 0) else none

-- A C string and its NUL stored at `p`; no result outside the buffer.
unfoldable pub write_text : Bytes → ℕ → Bytes → Option Bytes
write_text buf p [] = set? buf p 0
write_text buf p (c ∷ s) = set? buf p c >>= λ buf. write_text buf (p + 1) s

abbrev pub entry_text : Bytes → Bytes → Bytes
entry_text key value = key ++ (b'\n' ∷ value ++ b'\n' ∷ [])

-- `hash_foreach_create_message` over the entries, each with `sprintf` at the advancing pointer.
unfoldable pub create_message : List (Bytes × Bytes) → Bytes → ℕ → Option Bytes
unfolding write_text
create_message [] buf p = some buf
create_message ((key, value) ∷ es) buf p = write_text buf p (entry_text key value) >>= λ buf.
    create_message es buf (p + length (entry_text key value))

-- The buffer that is returned.
module _ (table : HashTable Bytes) where
  unfoldable pub util_hash_table_as_string : table.Table → Option Bytes
  unfolding calc_length g_new0 create_message
  util_hash_table_as_string t =
      g_new0 (calc_length (table.entries t) 4) >>= λ ret. create_message (table.entries t) ret 0
