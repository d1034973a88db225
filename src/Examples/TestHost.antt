-- ===== src/Examples/TestHost.antt =====
-- A host on which every call succeeds, and a world in which nothing has happened.
use gst_playd.Base.{ℕ, List, ◌∷◌, Bytes}
use gst_playd.GstUtil.{GValue, string}
use gst_playd.Glib.HashTable.{assoc_table}
use gst_playd.Operations.Play.Tags.{async_done, tag}
use gst_playd.Operations.Play.TagsPipeline.{TagReader}
use gst_playd.Base.{codes, ◌^◌, ◌%◌, arith, true, false, some, none, [], length}
use gst_playd.Base.Decimal.{format_unsigned}
use gst_playd.Host.{Host, World, message, null}

abbrev pub host : Host
host = record {
  cwd = λ calls. some (codes "/");
  options = λ calls argv.
      some (record { pubsub_listen = false; client_message = none; icecast_port = 8000 });
  new_context = λ calls. some (length calls);
  new_socket = λ calls kind. some (length calls);
  bind_ok = λ calls address. true;
  connect_ok = λ calls address. true;
  close_ok = λ calls. true;
  reply = λ calls. message [];
  new_element = λ calls name. some (length calls);
  new_address = λ calls. 4096;
  now = λ calls. 1000;
  link_ok = λ calls. true;
  state_ok = λ calls. true;
  state = λ calls. (null, null);
  pad = λ calls. some (length calls);
  format_pointer = λ p. format_unsigned p;
  g_str_hash = λ s. length s % 2 ^ 32;
  g_str_hash-lt = λ s. omega arith;
}

abbrev pub blank : World
blank = record {
  calls = [];
  should_quit = false;
  pub_sub = none;
  playback = record { pipeline = some 1; mux = some 2; audio_sink = some 3; sources = [] };
}

abbrev pub title : List (Bytes × List (GValue ℕ ℕ))
title = (codes "title", string (codes "a") ∷ []) ∷ []

-- Files of which each has a title.
abbrev pub titled : TagReader
titled = record {
  Double = ℕ;
  Date = ℕ;
  format_double = λ d. [];
  format_date = λ d. [];
  table = assoc_table Bytes;
  popped = λ calls. tag title ∷ async_done ∷ [];
}
