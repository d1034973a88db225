-- ===== src/Examples/Sockets.antt =====
-- The sockets of src/utility.c, src/pubsub.c and src/gst_playd.c on the host on which every call
-- succeeds.
use gst_playd.Base.{
  arith, ◌%◌, ◌^◌, ◌+◌, ◌≡◌, refl, true, false, some, none, List, [], ◌∷◌, ◌++◌, codes, Bytes,
  c_string, ◌↔◌, ◌⊎◌,
}
use gst_playd.Daemon.Process.{prologue, context_of, destroyed}
use gst_playd.Daemon.Client.{client, main-client}
use gst_playd.Daemon.Listener.{pubsub_address_from_port-zeromq_address_from_port}
use gst_playd.Daemon.Main.{main}
use gst_playd.Daemon.Server.{create_server_socket-calls}
use gst_playd.Daemon.Sockets.{zeromq_address_from_port, create_server_socket}
use gst_playd.Examples.TestHost.{host, blank, titled}
use gst_playd.Glib.HashTable.{HashTable, assoc_table}
use gst_playd.Glib.Regex.Engine.Search.{backtracking}
use gst_playd.Host.{
  Host, Options, g_print, Pointer, World, Call, message, zmq_socket, zmq_req, zmq_rep, zmq_linger,
  zmq_bind, zmq_send, zmq_recv, zmq_connect,
}
use gst_playd.Operations.{OpContext, Process}
use gst_playd.Parser.{RegEntryWithCtx}
use gst_playd.Pubsub.{localhost, pubsub_address_from_port}
use gst_playd.Utility.Exchange.{util_send_reqrep_msg-calls, connecting, closed}
use gst_playd.Utility.Sockets.{text_of, util_send_reqrep_msg}

abbrev table : HashTable (RegEntryWithCtx Process OpContext)
table = assoc_table (RegEntryWithCtx Process OpContext)

pubsub_address_from_port-zeromq_address_from_port_example :
    (pubsub_address_from_port localhost 8000 ≡ zeromq_address_from_port localhost 8001)
    ↔ (8001 ≡ (8000 + 1) % 2 ^ 32)
pubsub_address_from_port-zeromq_address_from_port_example =
    pubsub_address_from_port-zeromq_address_from_port localhost 8000 8001 (omega arith)
      (omega arith)

abbrev sock : Pointer
sock = some 0

util_send_reqrep_msg-calls_example :
    let before = connecting host sock (codes "tcp://a") [] in
    let sent = zmq_send sock (codes "PING x") ∷ zmq_connect sock (codes "tcp://a") true ∷ before in
    ((sock ≡ none)
      × (util_send_reqrep_msg host (codes "PING x") (codes "tcp://a") blank
          ≡ some (none, record blank { calls = zmq_socket zmq_req sock ∷ [] })))
    ⊎ (((true ≡ false)
          × (util_send_reqrep_msg host (codes "PING x") (codes "tcp://a") blank
              ≡ some (
                none,
                record blank {
                  calls = closed host sock (zmq_connect sock (codes "tcp://a") false ∷ before);
                },
              )))
        ⊎ ((true ≡ true)
            × (util_send_reqrep_msg host (codes "PING x") (codes "tcp://a") blank
                ≡ some (
                  some [],
                  record blank { calls = closed host sock (zmq_recv sock (message []) ∷ sent) },
                ))))
unfolding c_string
util_send_reqrep_msg-calls_example =
    util_send_reqrep_msg-calls host (codes "PING x") (codes "tcp://a") blank

abbrev server_address : Bytes
server_address = zeromq_address_from_port localhost 8000

create_server_socket-calls_example :
    let made = zmq_socket zmq_rep sock ∷ [] in
    let before = zmq_linger sock 5000 ∷ made in
    ((sock ≡ none)
      × (create_server_socket host 8000 blank ≡ some (none, record blank { calls = made })))
    ⊎ (((true ≡ true)
          × (create_server_socket host 8000 blank
              ≡ some (sock, record blank { calls = zmq_bind sock server_address true ∷ before })))
        ⊎ ((true ≡ false)
            × (create_server_socket host 8000 blank
                ≡ some
                    (none, record blank { calls = zmq_bind sock server_address false ∷ before }))))
create_server_socket-calls_example = create_server_socket-calls host 8000 blank

-- A host that reads a client's options.
abbrev client_options : Options
client_options = client host titled table backtracking (codes "PING x") 8000 false

abbrev client_host : Host
client_host = record host { options = λ calls argv. some client_options }

abbrev begun : List Call
begun = prologue client_host [] (codes "/") client_options []

abbrev client_sock : Pointer
client_sock = client_host.new_socket begun zmq_req

main-client_example :
    let before = connecting client_host client_sock server_address begun in
    let sent =
      zmq_send client_sock (codes "PING x")
      ∷ zmq_connect client_sock server_address true
      ∷ before in
    let printed =
      g_print (text_of (message []) ++ codes "\n")
      ∷ closed client_host client_sock (zmq_recv client_sock (message []) ∷ sent) in
    let ran = main client_host titled table backtracking [] [] blank in
    (((client_sock ≡ none) ⊎ (true ≡ false)) × ((v : World) × (ran ≡ some (some 1, v))))
    ⊎ ((true ≡ true)
        × (ran
            ≡ some (
              some 0,
              record blank {
                calls =
                    destroyed client_host
                      (context_of client_host [] (codes "/") client_options [])
                      printed;
              },
            )))
main-client_example =
    main-client client_host titled table backtracking [] (codes "/") (codes "PING x") 8000 false []
      blank (record { finds = refl; parses = refl })
