-- ===== src/Daemon/Playing.antt =====
-- PLAY and STOP as messages of src/gst_playd.c.
use gst_playd.Base.{
  ℕ, ◌<◌, ◌≤◌, ◌≡◌, refl, ◌∙◌, sym, arith, true, some, ◌∷◌, ◌++◌, Bytes, codes, length,
}
use gst_playd.Base.Decimal.{format_unsigned, format_unsigned-All, format_unsigned_some}
use gst_playd.Daemon.Main.{register_operations}
use gst_playd.Daemon.Registered.{register_operations-commands}
use gst_playd.Glib.HashTable.{HashTable}
use gst_playd.Glib.Regex.{Regex, IsPlain}
use gst_playd.Host.{Host, World, SourceItem}
use gst_playd.Operations.{
  OpContext, playback, Process, run_handler, run_handler-some, run_handler_lem,
}
use gst_playd.Operations.Play.Handlers.{op_play_parse, op_stop_parse, player_id, set_sources}
use gst_playd.Operations.Play.Stop.{unlinked, op_stop_parse-op_play_parse}
use gst_playd.Operations.Play.TagsPipeline.{TagReader}
use gst_playd.Parser.{RegEntryWithCtx, ParseCtx, parse_message}
use gst_playd.Parser.Dispatch.{call_registered, parse_message-spaced}

abbrev pub play_message : Bytes → Bytes
play_message uri = codes "PLAY" ++ b' ' ∷ uri

abbrev pub stop_message : ℕ → Bytes
stop_message id = codes "STOP" ++ b' ' ∷ format_unsigned id

module _ (host : Host) (tag_reader : TagReader)
    (table : HashTable (RegEntryWithCtx Process OpContext)) (regex : Regex)
    (parser : ParseCtx table) (u u' : World)
    (registers : register_operations host tag_reader table u ≡ some (parser, u')) where
  parse_message-play :
      (uri : Bytes) (w : World)
      → 0 < length uri
      → IsPlain (play_message uri)
      → parse_message table regex parser (play_message uri) (some w)
        ≡ run_handler (op_play_parse host (some uri) playback) (some w)
  unfolding call_registered
  parse_message-play uri w some_uri plain =
      let (ping, pubsub, quit, tags, play, stop, dumpgraph, rest) =
        register_operations-commands host tag_reader table parser u u' registers in
      parse_message-spaced table regex parser (codes "PLAY") uri (some w) (omega arith)
        (omega arith) some_uri plain
      ∙ rw (call_registered, play) refl

  parse_message-stop :
      (id : ℕ) (w : World)
      → parse_message table regex parser (stop_message id) (some w)
        ≡ run_handler (op_stop_parse host (some (format_unsigned id)) playback) (some w)
  unfolding call_registered
  parse_message-stop id w =
      let (ping, pubsub, quit, tags, play, stop, dumpgraph, rest) =
        register_operations-commands host tag_reader table parser u u' registers in
      let digits : IsPlain (format_unsigned id) =
        format_unsigned-All (λ c. (b' ' ≤ c) × (c < 127)) id (λ c digit. omega arith) in
      parse_message-spaced table regex parser (codes "STOP") (format_unsigned id) (some w)
        (omega arith) (omega arith) (format_unsigned_some id)
        (omega arith, (omega arith, (omega arith, (omega arith, (omega arith, digits)))))
      ∙ rw (call_registered, stop) refl

  -- With the plugins registered: "PLAY uri", of printable ASCII, that leaves the process running, has
  -- put a new source with its URI at the head of the list, and its reply is "OK player id: " and a
  -- number. "STOP number", as the next message, where GStreamer does not refuse to start the source's
  -- element, takes exactly that source out of the list and of the pipeline, in seven calls, and has the
  -- same reply.
  pub parse_message-play-stop :
      (uri reply : Bytes) (w w' : World)
      → 0 < length uri
      → IsPlain (play_message uri)
      → parse_message table regex parser (play_message uri) (some w) ≡ (reply, some w')
      → host.state_ok w'.calls ≡ true
      → (item : SourceItem) × (id : ℕ) × (item.uri ≡ uri)
        × (w'.playback ≡ record w.playback { sources = item ∷ w.playback.sources })
        × (reply ≡ player_id id)
        × (parse_message table regex parser (stop_message id) (some w') ≡ (
          reply,
          some (record (set_sources w.playback.sources w') {
            calls = unlinked host item w'.playback w'.calls;
          }),
        ))
  parse_message-play-stop uri reply w w' some_uri plain e ok =
      let played =
        run_handler-some (op_play_parse host (some uri) playback) w w' reply
          (sym (parse_message-play uri w some_uri plain) ∙ e) in
      let (item, id, same_uri, context, replied, stopped) =
        op_stop_parse-op_play_parse host uri reply w w' played ok in
      (
        item,
        id,
        same_uri,
        context,
        replied,
        parse_message-stop id w'
            ∙ run_handler_lem (op_stop_parse host (some (format_unsigned id)) playback) w' _ reply
                stopped,
      )
