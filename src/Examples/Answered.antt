-- ===== src/Examples/Answered.antt =====
-- A client of src/gst_playd.c that asks the server of the examples.
use gst_playd.Base.{◌≡◌, refl, arith, subst, false, some, none, [], ◌∷◌, codes, IsText}
use gst_playd.Daemon.Answered.{delivered, printed, main-handle_queued}
use gst_playd.Daemon.Main.{main}
use gst_playd.Daemon.Messages.{handle_queued}
use gst_playd.Daemon.Replies.{queue}
use gst_playd.Daemon.Started.{server}
use gst_playd.Base.{str_equal, c_string}
use gst_playd.Glib.Regex.Engine.Search.{run, backtracking}
use gst_playd.Host.{Host, World}
use gst_playd.Operations.Ping.{op_ping_parse}
use gst_playd.Operations.Texts.{HasAddress}
use gst_playd.Operations.Play.Handlers.{op_playback_new, op_playback_register}
use gst_playd.Parser.{parse_message, register_messages, parse_register_plugin, register_with}
use gst_playd.Parser.Register.{register_all}
use gst_playd.Pubsub.{pubsub_send_message}
use gst_playd.Examples.Events.{publishing}
use gst_playd.Examples.Run.{table, registered, operations_registered, events_socket}
use gst_playd.Examples.TestHost.{host, blank, titled}

publishing-HasAddress : HasAddress publishing
publishing-HasAddress ctx is =
    let same : events_socket ≡ ctx = cc in subst (λ c. IsText c.addr) same (omega arith)

abbrev has_answered : World
has_answered =
    elim (handle_queued table backtracking
      (server host titled table backtracking (some 9) registered.0) (queue (codes "PING x" ∷ []))
      publishing) [ none ↦ blank | some r ↦ r.1 ]

server_answers :
    handle_queued table backtracking
      (server host titled table backtracking (some 9) registered.0)
      (queue (codes "PING x" ∷ []))
      publishing
    ≡ some (some [], has_answered)
unfolding register_all parse_register_plugin register_with op_playback_new op_playback_register
    handle_queued parse_message str_equal run c_string register_messages op_ping_parse
    pubsub_send_message
server_answers = refl

-- The client's host has its options, and receives what the server has sent.
abbrev peer : Host
peer = record host {
  options = λ calls argv. some (record {
    pubsub_listen = false;
    client_message = some (codes "PING x");
    icecast_port = 8000;
  });
  reply = λ calls. delivered has_answered.calls;
}

main-handle_queued_example :
    main peer titled table backtracking [] [] blank
    ≡ some (
      some 0,
      printed peer titled table backtracking []
          (codes "/")
          (codes "PING x")
          8000
          4
          false
          blank
          (codes "OK Message was x"),
    )
unfolding register_all parse_register_plugin register_with op_playback_new op_playback_register
    parse_message str_equal run register_messages op_ping_parse
main-handle_queued_example =
    main-handle_queued host titled table backtracking registered.0 blank registered.1
      operations_registered peer [] (codes "/") (codes "PING x") 8000 4 9 false [] (some []) blank
      publishing has_answered (omega arith) (λ calls. (tt, (tt, tt))) publishing-HasAddress
      server_answers (record { finds = refl; parses = refl }) refl refl refl
