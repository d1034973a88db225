-- ===== src/Glib/HashTable.antt =====
-- A `GHashTable` made by `g_hash_table_new_full(g_str_hash, g_str_equal, g_free, g_free)`.
use gst_playd.Base.{◌≡◌, refl, arith, Option, none, some, List, [], ◌∷◌}
use gst_playd.Base.{Bytes, str_equal, str_equal_iff, if◌then◌else◌}

-- The first value that a list of entries gives for a key.
abbrev pub find {ℓ} : {V : Type ℓ} → Bytes → List (Bytes × V) → Option V
find k [] = none
find k ((j, v) ∷ es) = if str_equal j k then some v else find k es

-- No key occurs twice.
abbrev pub Distinct : {V : Type 0} → List (Bytes × V) → Type 0
Distinct [] = Unit
Distinct ((k, v) ∷ es) = (find k es ≡ none) × Distinct es

-- The operations and what they promise. `entries` is the order in which `g_hash_table_foreach`
-- visits a table, which GLib leaves open.
pub record HashTable (V : Type 0) : Type 1 where
  pub Table : Type 0
  pub new : Table
  pub insert : Bytes → V → Table → Table
  pub lookup : Bytes → Table → Option V
  pub entries : Table → List (Bytes × V)
  pub lookup-new : (k : Bytes) → lookup k new ≡ none
  pub lookup-insert :
      (k j : Bytes) (v : V) (t : Table)
      → lookup j (insert k v t) ≡ (if str_equal k j then some v else lookup j t)
  pub find-entries : (k : Bytes) (t : Table) → find k (entries t) ≡ lookup k t
  pub entries-Distinct : (t : Table) → Distinct (entries t)

module _ {V : Type 0} where
  abbrev pub assoc_insert : Bytes → V → List (Bytes × V) → List (Bytes × V)
  assoc_insert k v [] = (k, v) ∷ []
  assoc_insert k v ((j, w) ∷ es) =
      if str_equal j k then (j, v) ∷ es else (j, w) ∷ assoc_insert k v es

  pub find-assoc_insert :
      (k j : Bytes) (v : V) (es : List (Bytes × V))
      → find j (assoc_insert k v es) ≡ (if str_equal k j then some v else find j es)
  find-assoc_insert k j v [] = refl
  find-assoc_insert k j v ((i, w) ∷ es) =
      ground
        (arith, str_equal_iff k j, str_equal_iff i k, str_equal_iff i j, find-assoc_insert k j v es)

  pub assoc_insert-Distinct :
      (k : Bytes) (v : V) (es : List (Bytes × V)) → Distinct es → Distinct (assoc_insert k v es)
  assoc_insert-Distinct k v [] h = (refl, tt)
  assoc_insert-Distinct k v ((j, w) ∷ es) h = ground (
    arith,
    str_equal_iff j k,
    str_equal_iff k j,
    find-assoc_insert k j v es,
    assoc_insert-Distinct k v es h.1,
  )

pub record DistinctEntries (V : Type 0) : Type 0 where
  pub list : List (Bytes × V)
  pub distinct : Distinct list

-- An association list as a hash table.
abbrev pub assoc_table : (V : Type 0) → HashTable V
assoc_table V = record {
  Table = DistinctEntries V;
  new = record { list = []; distinct = tt };
  insert = λ k v t. record {
    list = assoc_insert k v t.list;
    distinct = assoc_insert-Distinct k v t.list t.distinct;
  };
  lookup = λ k t. find k t.list;
  entries = λ t. t.list;
  lookup-new = λ k. refl;
  lookup-insert = λ k j v t. find-assoc_insert k j v t.list;
  find-entries = λ k t. refl;
  entries-Distinct = λ t. t.distinct;
}
