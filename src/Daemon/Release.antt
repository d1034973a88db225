-- ===== src/Daemon/Release.antt =====
-- What the server of src/gst_playd.c frees behind its main loop.
use gst_playd.Base.{◌≡◌, refl, ap, ◌∙◌, sym, Bool, true, false, none, some, List, [], ◌∷◌}
use gst_playd.Base.{reverse}
use gst_playd.Daemon.Commands.{announced, register_operations-start_playback}
use gst_playd.Daemon.Listener.{closing}
use gst_playd.Daemon.Main.{
  parser_operations, with_process, register_operations, free_parser, free_server, shut_down,
}
use gst_playd.Glib.HashTable.{HashTable}
use gst_playd.Glib.Regex.{Regex}
use gst_playd.Host.{Host, World, Pointer, PubsubCtx, PlaybackCtx, Call}
use gst_playd.Host.Actions.{lift, >>=-some}
use gst_playd.Operations.{
  print, OpContext, services, services_pub_sub, playback, Process, unless_aborted,
}
use gst_playd.Operations.Control.{op_control_free}
use gst_playd.Operations.Ping.{op_ping_free}
use gst_playd.Operations.Play.Handlers.{op_playback_register, free_playback, start_playback}
use gst_playd.Operations.Play.Release.{Accepts, released, op_playback_free_lem}
use gst_playd.Operations.Play.TagsPipeline.{TagReader}
use gst_playd.Parser.{RegEntryWithCtx, PluginEntryWithCtx, ParseCtx, parse_new, parse_free}
use gst_playd.Parser.Register.{register_all, registered, parse_free-register_all}
use gst_playd.Pubsub.{pubsub_free}
use gst_playd.Utility.Sockets.{util_close_socket}
use mathlib.Core.List.{foldl}

module _ (host : Host) (tag_reader : TagReader)
    (table : HashTable (RegEntryWithCtx Process OpContext)) where
  with_process-parser :
      (r : ParseCtx table × Process) (parser : ParseCtx table) (w' : World)
      → with_process host tag_reader table r ≡ some (parser, w')
      → r.0 ≡ parser
  with_process-parser (p, none) parser w' e = absurd (cc)
  with_process-parser (p, some v) parser w' e = cc

  plugin_frees : List (PluginEntryWithCtx Process OpContext) → Process → Process
  plugin_frees es p = foldl (λ v e. e.plugin_free e.ctx v) p es

  abbrev all_plugins : List (PluginEntryWithCtx Process OpContext)
  all_plugins =
      record { ctx = services; plugin_free = op_ping_free }
      ∷ record { ctx = services; plugin_free = op_control_free }
      ∷ record { ctx = playback; plugin_free = free_playback host }
      ∷ []

  registered-parser_operations :
      (w w1 : World)
      → start_playback host services (some (announced host tag_reader table w))
        ≡ (playback, some w1)
      → registered table print (parser_operations host tag_reader) (some w) ≡ all_plugins
  unfolding op_playback_register
  registered-parser_operations w w1 made =
      ap
        (λ c.
          record { ctx = services; plugin_free = op_ping_free }
          ∷ record { ctx = services; plugin_free = op_control_free }
          ∷ registered_with c)
        made
    where
      registered_with : OpContext × Process → List (PluginEntryWithCtx Process OpContext)
      registered_with (c, p) = elim (op_playback_register host tag_reader c) [
        | none ↦ []
        | some msgs ↦ record { ctx = c; plugin_free = free_playback host } ∷ []
      ]

  -- The parser of a server frees only the playback context.
  parse_free-playback :
      (parser : ParseCtx table) (w w' : World) (p : Process)
      → register_operations host tag_reader table w ≡ some (parser, w')
      → parse_free table parser p ≡ free_playback host playback p
  unfolding plugin_frees
  parse_free-playback parser w w' p e =
      let (v, new, made, left) =
        register_operations-start_playback host tag_reader table parser w w' e in
      let ops = parser_operations host tag_reader in
      let same =
        with_process-parser (register_all table print (parse_new table) ops (some w)) parser w' e in
      ap (λ c. parse_free table c p) (sym same)
      ∙ parse_free-register_all table print ops (some w) p
      ∙ ap (λ es. plugin_frees (reverse es) p) (registered-parser_operations w v made)

  free_playback_lem :
      (w : World)
      → Accepts host w.playback.sources w.playback w.calls
      → free_playback host playback (some w)
        ≡ some (record w { calls = released host w.playback w.calls })
  free_playback_lem w accepts = rw (free_playback, op_playback_free_lem host w accepts) refl

  module _ (regex : Regex) where
    -- The calls that free a server, on top of `calls`.
    abbrev pub server_freed : Pointer → PubsubCtx → PlaybackCtx → List Call → List Call
    server_freed sock pub_sub context calls =
        closing host sock (closing host pub_sub.sock (released host context calls))

    util_close_socket_lem :
        (sock : Pointer) (w : World)
        → (closed : Bool) × (util_close_socket host sock w
            ≡ some (closed, record w { calls = closing host sock w.calls }))
    unfolding util_close_socket
    util_close_socket_lem none w = (true, refl)
    util_close_socket_lem (some s) w = (host.close_ok w.calls, refl)

    pubsub_free_lem :
        (pub_sub : PubsubCtx) (w : World)
        → pubsub_free host pub_sub w
          ≡ some (tt, record w { calls = closing host pub_sub.sock w.calls })
    unfolding pubsub_free
    pubsub_free_lem pub_sub w =
        let (closed, e) = util_close_socket_lem pub_sub.sock w in
        >>=-some (util_close_socket host pub_sub.sock) _ e

    free_parser_lem :
        (parser : ParseCtx table) (w w' v : World)
        → register_operations host tag_reader table w ≡ some (parser, w')
        → Accepts host v.playback.sources v.playback v.calls
        → free_parser host tag_reader table regex parser v
          ≡ some (tt, record v { calls = released host v.playback v.calls })
    unfolding free_parser
    free_parser_lem parser w w' v e accepts =
        ap unless_aborted (parse_free-playback parser w w' (some v) e ∙ free_playback_lem v accepts)

    free_server_lem :
        (parser : ParseCtx table) (pub_sub : PubsubCtx) (w w' v : World)
        → register_operations host tag_reader table w ≡ some (parser, w')
        → v.pub_sub ≡ some pub_sub
        → Accepts host v.playback.sources v.playback v.calls
        → free_server host tag_reader table regex (some parser) v
          ≡ some (
            tt,
            record v { calls = closing host pub_sub.sock (released host v.playback v.calls) },
          )
    unfolding free_server
    free_server_lem parser pub_sub w w' v e has accepts =
        >>=-some (free_parser host tag_reader table regex parser) _
          (free_parser_lem parser w w' v e accepts)
        ∙ >>=-some services_pub_sub (pubsub_free host)
            (ap (λ p. lift p (record v { calls = released host v.playback v.calls })) has)
        ∙ (pubsub_free_lem pub_sub (record v { calls = released host v.playback v.calls }))

    -- A server whose plugins are registered and whose context of the events is made, when
    -- GStreamer refuses to start no element of a source, ends with 0: each source has been taken out
    -- of the pipeline, newest first, the pipeline has been released, and the socket of the events and
    -- then the server socket have been closed, in this order and with no other call.
    pub shut_down-server :
        (parser : ParseCtx table) (sock : Pointer) (pub_sub : PubsubCtx) (w w' v : World)
        → register_operations host tag_reader table w ≡ some (parser, w')
        → v.pub_sub ≡ some pub_sub
        → Accepts host v.playback.sources v.playback v.calls
        → shut_down host tag_reader table regex
            (record { zmq_socket = sock; parse_ctx = some parser; pubsub_mode = false })
            v
          ≡ some (0, record v { calls = server_freed sock pub_sub v.playback v.calls })
    unfolding shut_down
    shut_down-server parser sock pub_sub w w' v e has accepts =
        let freed = record v {
          calls = closing host pub_sub.sock (released host v.playback v.calls);
        } in
        let (closed, ran) = util_close_socket_lem sock freed in
        >>=-some (free_server host tag_reader table regex (some parser)) _
          (free_server_lem parser pub_sub w w' v e has accepts)
        ∙ >>=-some (util_close_socket host sock) _ ran
