-- ===== src/Glib.antt =====
-- What the code uses of GLib, as interfaces: a hash table keyed by strings, and regular
-- expressions. Each has the operations that are called, the documented behaviour that the code
-- relies on, and an implementation that shows that it can be met.
pub mod HashTable
pub mod Regex
