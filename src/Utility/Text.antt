-- ===== src/Utility/Text.antt =====
-- `util_hash_table_as_string` of src/utility.c: the computed size is enough.
use gst_playd.Base.{ℕ, suc, ◌+◌, ◌%◌, ◌^◌, ◌≤◌, ◌<◌, ◌≡◌, refl, ap, ◌∙◌, sym, arith, some}
use gst_playd.Base.{
  List, [], ◌∷◌, ◌++◌, append_assoc, Bytes, length, length-append, length-replicate,
}
use gst_playd.Base.{replicate, drop, length-drop, set?-append, lt→ltb, ◌>>=◌}
use gst_playd.Glib.HashTable.{HashTable}
use gst_playd.Utility.{
  calc_length, g_new0, write_text, entry_text, create_message, util_hash_table_as_string,
}

-- The lines of a table: each key and each value on a line of its own.
abbrev pub lines_of : List (Bytes × Bytes) → Bytes
lines_of [] = []
lines_of ((key, value) ∷ es) = entry_text key value ++ lines_of es

length-entry_text :
    (key value : Bytes) → length (entry_text key value) ≡ length key + length value + 2
length-entry_text key value =
    omega (arith, length-append key (b'\n' ∷ value ++ b'\n' ∷ []), length-append value (b'\n' ∷ []))

calc_length-lines_of :
    (es : List (Bytes × Bytes)) (len : ℕ)
    → len + length (lines_of es) < 2 ^ 32
    → calc_length es len ≡ len + length (lines_of es)
unfolding calc_length
calc_length-lines_of [] len h = omega arith
calc_length-lines_of ((key, value) ∷ es) len h =
    let size = length-entry_text key value in
    let parts = length-append (entry_text key value) (lines_of es) in
    let sum : (len + length key + length value + 2) % 2 ^ 32 ≡ len + length (entry_text key value) =
      omega arith in
    ap (calc_length es) sum
    ∙ calc_length-lines_of es (len + length (entry_text key value)) (omega arith)
    ∙ omega arith

write_text-append :
    (s pre room : Bytes) (p : ℕ)
    → p ≡ length pre
    → suc (length s) ≤ length room
    → write_text (pre ++ room) p s ≡ some (pre ++ (s ++ 0 ∷ drop (suc (length s)) room))
unfolding write_text
write_text-append [] pre [] p at fits = absurd (omega arith)
write_text-append [] pre (r ∷ room) p at fits = set?-append pre (r ∷ room) 0 p 0 (omega arith) refl
write_text-append (c ∷ s) pre [] p at fits = absurd (omega arith)
write_text-append (c ∷ s) pre (r ∷ room) p at fits =
    rw (set?-append pre (r ∷ room) 0 p c (omega arith) refl, ◌>>=◌)
      (ap (λ buf. write_text buf (p + 1) s) (sym (append_assoc pre (c ∷ []) room))
        ∙ write_text-append s (pre ++ c ∷ []) room (p + 1)
            (omega (arith, length-append pre (c ∷ []))) (omega arith)
        ∙ ap some (append_assoc pre (c ∷ []) _))

-- The bytes behind the written text that a further text may overwrite.
create_message-lines_of :
    (es : List (Bytes × Bytes)) (pre room : Bytes) (p : ℕ)
    → p ≡ length pre
    → suc (length (lines_of es)) ≤ length room
    → (rest : Bytes) × (create_message es (pre ++ 0 ∷ room) p
        ≡ some (pre ++ (lines_of es ++ 0 ∷ rest)))
unfolding create_message
create_message-lines_of [] pre room p at fits = (room, refl)
create_message-lines_of ((key, value) ∷ es) pre room p at fits =
    let line = entry_text key value in
    let parts = length-append line (lines_of es) in
    let room' = drop (length line) room in
    let (rest, e) =
      create_message-lines_of es (pre ++ line) room' (p + length line)
        (omega (arith, length-append pre line)) (omega (arith, length-drop (length line) room)) in
    (
      rest,
      rw (
        write_text-append line pre (0 ∷ room) p at (omega arith),
        ◌>>=◌,
        ← append_assoc pre line (0 ∷ room'),
        e,
        append_assoc pre line (lines_of es ++ 0 ∷ rest),
        append_assoc line (lines_of es) (0 ∷ rest),
      ),
    )

-- The buffer of the computed size.
filled-lines_of :
    (es : List (Bytes × Bytes))
    → (rest : Bytes) × (create_message es (replicate (suc (length (lines_of es) + 3)) 0) 0
        ≡ some (lines_of es ++ 0 ∷ rest))
filled-lines_of es =
    create_message-lines_of es [] (replicate (length (lines_of es) + 3) 0) 0 refl
      (omega (arith, length-replicate {A = ℕ} (length (lines_of es) + 3) 0))

-- A table whose lines come to less than 2 ^ 31 - 4 bytes is written into the buffer of the computed
-- size without running over its end, and the buffer then begins with a line for each key and each
-- value, in the order in which the table is visited, and a NUL.
pub util_hash_table_as_string-lines_of :
    (table : HashTable Bytes) (t : table.Table)
    → length (lines_of (table.entries t)) + 4 < 2 ^ 31
    → (rest : Bytes) × (util_hash_table_as_string table t
        ≡ some (lines_of (table.entries t) ++ 0 ∷ rest))
unfolding util_hash_table_as_string
util_hash_table_as_string-lines_of table t fits =
    let es = table.entries t in
    let total = length (lines_of es) in
    let size : calc_length es 4 ≡ suc (total + 3) =
      calc_length-lines_of es 4 (omega arith) ∙ omega arith in
    let (rest, e) = filled-lines_of es in
    (rest, rw (size, g_new0, lt→ltb (suc (total + 3)) (2 ^ 31) (omega arith), ◌>>=◌) e)
