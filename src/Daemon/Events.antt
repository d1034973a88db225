-- ===== src/Daemon/Events.antt =====
-- The events that the server of src/gst_playd.c publishes for PING.
use gst_playd.Base.{◌<◌, ◌≡◌, refl, ◌∙◌, arith, some, ◌∷◌, ◌++◌, Bytes, codes, length}
use gst_playd.Daemon.Main.{register_operations}
use gst_playd.Daemon.Registered.{register_operations-commands}
use gst_playd.Glib.HashTable.{HashTable}
use gst_playd.Glib.Regex.{Regex, IsPlain}
use gst_playd.Host.{Host, World, PubsubCtx, zmq_send}
use gst_playd.Operations.{OpContext, Process}
use gst_playd.Operations.Ping.{op_ping_parse}
use gst_playd.Operations.Play.TagsPipeline.{TagReader}
use gst_playd.Parser.{RegEntryWithCtx, ParseCtx, parse_message}
use gst_playd.Parser.Dispatch.{call_registered, parse_message-spaced}
use gst_playd.Pubsub.{pubsub_send_message}

module _ (host : Host) (tag_reader : TagReader)
    (table : HashTable (RegEntryWithCtx Process OpContext)) (regex : Regex) where
  -- With the plugins registered and a PUB socket, "PING text", with a text of printable ASCII that is not
  -- empty, publishes "OK Message was text", as its only call, and replies with the same text.
  pub parse_message-ping :
      (parser : ParseCtx table) (param : Bytes) (pub_ctx : PubsubCtx) (v w w' : World)
      → register_operations host tag_reader table w ≡ some (parser, w')
      → 0 < length param
      → IsPlain (codes "PING" ++ b' ' ∷ param)
      → v.pub_sub ≡ some pub_ctx
      → let reply = codes "OK Message was " ++ param in
        parse_message table regex parser (codes "PING" ++ b' ' ∷ param) (some v)
        ≡ (reply, some (record v { calls = zmq_send pub_ctx.sock reply ∷ v.calls }))
  unfolding call_registered op_ping_parse pubsub_send_message
  parse_message-ping parser param pub_ctx v w w' e some_param plain has =
      let (ping, pubsub, quit, tags, play, stop, dumpgraph, rest) =
        register_operations-commands host tag_reader table parser w w' e in
      parse_message-spaced table regex parser (codes "PING") param (some v) (omega arith)
        (omega arith) some_param plain
      ∙ rw (call_registered, ping, has) refl
