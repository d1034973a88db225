-- ===== src/Daemon/Started.antt =====
-- The state in which the server of src/gst_playd.c enters its main loop.
use gst_playd.Base.{ℕ, ◌≡◌, refl, ap, ◌∙◌, sym, false, Option, none, some, []}
use gst_playd.Base.{inl, inr}
use gst_playd.Daemon.Commands.{announced, register_operations-start_playback}
use gst_playd.Daemon.Listener.{pubsub_new-calls}
use gst_playd.Daemon.Main.{register_operations, running, serve_events, start_server}
use gst_playd.Daemon.Messages.{TimerClosure}
use gst_playd.Daemon.Server.{create_server_socket-calls}
use gst_playd.Daemon.Sockets.{create_server_socket}
use gst_playd.Glib.HashTable.{HashTable}
use gst_playd.Glib.Regex.{Regex}
use gst_playd.Host.{Host, World, Pointer, PubsubCtx}
use gst_playd.Host.Frame.{OnlyCalls, OnlyCalls-left}
use gst_playd.Host.Actions.{some->>=}
use gst_playd.Operations.{OpContext, services, Process}
use gst_playd.Operations.Play.Created.{op_playback_new-world}
use gst_playd.Operations.Play.TagsPipeline.{TagReader}
use gst_playd.Parser.{RegEntryWithCtx, ParseCtx}
use gst_playd.Pubsub.{pubsub_new}

module _ (host : Host) where
  pubsub_new-OnlyCalls :
      (port : ℕ) (w w' : World) (made : Option PubsubCtx)
      → pubsub_new host port w ≡ some (made, w')
      → OnlyCalls w w'
  pubsub_new-OnlyCalls port w w' made e = elim (pubsub_new-calls host port w) [
    | inl (good, ran) ↦ OnlyCalls-left w ran e (_, refl)
    | inr (bad, ran) ↦ OnlyCalls-left w ran e (_, refl)
  ]

  create_server_socket-OnlyCalls :
      (port : ℕ) (w w' : World) (sock : Pointer)
      → create_server_socket host port w ≡ some (sock, w')
      → OnlyCalls w w'
  create_server_socket-OnlyCalls port w w' sock e = elim (create_server_socket-calls host port w) [
    | inl (missing, ran) ↦ OnlyCalls-left w ran e (_, refl)
    | inr (inl (good, ran)) ↦ OnlyCalls-left w ran e (_, refl)
    | inr (inr (bad, ran)) ↦ OnlyCalls-left w ran e (_, refl)
  ]

  module _ (tag_reader : TagReader) (table : HashTable (RegEntryWithCtx Process OpContext))
      (regex : Regex) where
    -- The closure of a server.
    abbrev pub server : Pointer → ParseCtx table → TimerClosure table regex
    server sock parser = record { zmq_socket = sock; parse_ctx = some parser; pubsub_mode = false }

    -- A server that goes on to its main loop from `w` in `v`.
    abbrev pub IsStarted : TimerClosure table regex → World → World → Type 0
    IsStarted closure w v =
        (pub_sub : PubsubCtx) × (parser : ParseCtx table) × (sock : Pointer) × (u : World)
        × (u' : World) × (register_operations host tag_reader table u ≡ some (parser, u'))
        × (closure ≡ server sock parser)
        × (v.pub_sub ≡ some pub_sub)
        × (v.should_quit ≡ w.should_quit)
        × (v.playback.sources ≡ [])

    serve_events-running :
        (port : ℕ) (made : Option PubsubCtx) (closure : TimerClosure table regex) (w v : World)
        → serve_events host tag_reader table regex port made w ≡ some (running closure, v)
        → IsStarted closure w v
    unfolding serve_events
    serve_events-running port none closure w v e = absurd (cc)
    serve_events-running port (some pub_sub) closure w v e =
        let u : World = record w { pub_sub = some pub_sub } in
        let (parser, u', registers, e2) =
          some->>= (register_operations host tag_reader table) _ e in
        let (sock, x, bound, e3) = some->>= (create_server_socket host port) _ e2 in
        let (u1, new, made, said) =
          register_operations-start_playback host tag_reader table parser u u' registers in
        let (is, quits, publishes, empty) =
          op_playback_new-world host services _ (announced host tag_reader table u) u1 new in
        let (calls, same) = create_server_socket-OnlyCalls port u' x sock bound in
        let last : x ≡ v = cc in
        let closed : server sock parser ≡ closure = cc in
        (
          pub_sub,
          parser,
          sock,
          u,
          u',
          registers,
          sym closed,
          ap (λ y. y.pub_sub) (sym last ∙ same) ∙ ap (λ y. y.pub_sub) said ∙ publishes,
          ap (λ y. y.should_quit) (sym last ∙ same) ∙ ap (λ y. y.should_quit) said ∙ quits,
          ap (λ y. y.playback.sources) (sym last ∙ same)
              ∙ ap (λ y. y.playback.sources) said
              ∙ empty,
        )

    pub start_server-running :
        (port : ℕ) (closure : TimerClosure table regex) (w v : World)
        → start_server host tag_reader table regex port w ≡ some (running closure, v)
        → IsStarted closure w v
    unfolding start_server
    start_server-running port closure w v e =
        let (made, w1, ran1, e1) = some->>= (pubsub_new host port) _ e in
        let (pub_sub, parser, sock, u, u', registers, is, publishes, quits, empty) =
          serve_events-running port made closure w1 v e1 in
        let (calls, same) = pubsub_new-OnlyCalls port w w1 made ran1 in
        (
          pub_sub,
          parser,
          sock,
          u,
          u',
          registers,
          is,
          publishes,
          quits ∙ ap (λ x. x.should_quit) same,
          empty,
        )
