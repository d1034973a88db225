-- ===== src/Examples/Subscriber.antt =====
-- A listener of src/gst_playd.c that receives the reply of a server to PUBSUB.
use gst_playd.Base.{◌≡◌, refl, none, some, true, List, ◌∷◌, codes, Bytes}
use gst_playd.Base.Decimal.{format_int}
use gst_playd.Daemon.Sockets.{create_pubsub_socket, zeromq_address_from_port}
use gst_playd.Daemon.Subscriber.{Subscribes, create_pubsub_socket-op_pubsub_parse}
use gst_playd.Examples.TestHost.{host, blank}
use gst_playd.Host.{Host, World, PubsubCtx, Call, message, zmq_bind}
use gst_playd.Operations.{services}
use gst_playd.Operations.Control.{op_pubsub_parse}
use gst_playd.Pubsub.{localhost, pubsub_address_from_port, pubsub_new, bind_or_free}
use gst_playd.Utility.Sockets.{
  text_of, util_send_reqrep_msg, reqrep_on, exchange, util_close_socket,
}

abbrev reply : Bytes
reply = codes "OK tcp://127.0.0.1:18001"

abbrev listener : Host
listener = record host { reply = λ calls. message reply }

abbrev events : PubsubCtx
events = record { sock = some 0; addr = pubsub_address_from_port localhost 8000 }

abbrev bound : World
bound = elim (pubsub_new host 8000 blank) [ none ↦ blank | some r ↦ r.1 ]

server_bound : pubsub_new host 8000 blank ≡ some (some events, bound)
unfolding pubsub_new bind_or_free
server_bound = refl

abbrev publishing : World
publishing = record blank { pub_sub = some events }

server_replies : op_pubsub_parse none services publishing ≡ some (reply, publishing)
unfolding op_pubsub_parse pubsub_address_from_port format_int
server_replies = refl

abbrev received : World
received =
    elim (util_send_reqrep_msg listener (codes "PUBSUB ") (zeromq_address_from_port localhost 8000)
      blank) [ none ↦ blank | some r ↦ r.1 ]

listener_receives :
    util_send_reqrep_msg listener (codes "PUBSUB ") (zeromq_address_from_port localhost 8000) blank
    ≡ some (some (text_of (message reply)), received)
unfolding util_send_reqrep_msg reqrep_on exchange util_close_socket
listener_receives = refl

create_pubsub_socket-op_pubsub_parse_example :
    (address : Bytes) × ((calls : List Call) × (bound.calls
        ≡ zmq_bind (some 0) address true ∷ calls))
    × Subscribes listener (some 7) address received (create_pubsub_socket listener 8000 blank)
unfolding util_send_reqrep_msg reqrep_on exchange util_close_socket
create_pubsub_socket-op_pubsub_parse_example =
    create_pubsub_socket-op_pubsub_parse host listener 8000 events none reply blank bound publishing
      publishing blank received server_bound refl server_replies listener_receives
