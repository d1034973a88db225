-- ===== src/Daemon/Kept/Sockets.antt =====
-- What the making of a listener's socket, in src/gst_playd.c and src/utility.c, leaves alone.
use gst_playd.Base.{Bool, true, false, Option, none, some, Bytes, codes, ◌++◌, ℕ}
use gst_playd.Base.{if◌then◌else◌}
use gst_playd.Daemon.Sockets.{
  PubsubReply, not_ok, past_end, at_address, read_reply, zeromq_address_from_port, connect_listener,
  listen_at, create_pubsub_socket,
}
use gst_playd.Host.{
  Host, World, Pointer, zmq_req, zmq_sub, zmq_linger, zmq_subscribe, zmq_send, g_print, zmq_close,
  zmq_connect, zmq_recv, zmq_socket,
}
use gst_playd.Host.Actions.{Action, pure, perform, new_socket, connect, receive, ◌>>=◌, ◌>>◌}
use gst_playd.Host.Frame.{
  Frame, Keeps, pure-Keeps, abort-Keeps, perform-Keeps, ask-Keeps, >>=-Keeps,
}
use gst_playd.Pubsub.{localhost}
use gst_playd.Utility.Sockets.{
  text_of, util_close_socket, exchange, reqrep_on, util_send_reqrep_msg,
}

module _ {R : World → World → Type 0} (frame : Frame R) (host : Host) where
  util_close_socket-Keeps : (sock : Pointer) → Keeps R (util_close_socket host sock)
  unfolding util_close_socket
  util_close_socket-Keeps none = pure-Keeps frame true
  util_close_socket-Keeps (some s) = ask-Keeps frame host.close_ok (zmq_close (some s))

  exchange-Keeps :
      (sock : Pointer) (text address : Bytes) → Keeps R (exchange host sock text address)
  unfolding exchange
  exchange-Keeps sock text address =
      >>=-Keeps frame (connect host sock address) _
        (ask-Keeps frame (λ h. host.connect_ok h address) (zmq_connect sock address)) go
    where
      go :
          (connected : Bool)
          → Keeps R (
              if connected
              then (perform (zmq_send sock text)
                  >> (receive host sock >>= λ rep_msg. pure (some (text_of rep_msg))))
              else pure none)
      go true =
          >>=-Keeps frame (perform (zmq_send sock text)) _
            (perform-Keeps frame (zmq_send sock text))
            (λ t.
              >>=-Keeps frame (receive host sock) _ (ask-Keeps frame host.reply (zmq_recv sock))
                (λ rep_msg. pure-Keeps frame (some (text_of rep_msg))))
      go false = pure-Keeps frame none

  reqrep_on-Keeps :
      (sock : Pointer) (text address : Bytes) → Keeps R (reqrep_on host sock text address)
  unfolding reqrep_on
  reqrep_on-Keeps none text address = pure-Keeps frame none
  reqrep_on-Keeps (some s) text address =
      >>=-Keeps frame (perform (zmq_linger (some s) 15000)) _ (perform-Keeps frame _) (λ t.
        >>=-Keeps frame (perform (g_print (codes "Connecting to " ++ address ++ codes "\n"))) _
          (perform-Keeps frame _)
          (λ t.
            >>=-Keeps frame (exchange host (some s) text address) _
              (exchange-Keeps (some s) text address)
              (λ ret.
                >>=-Keeps frame (util_close_socket host (some s)) _
                  (util_close_socket-Keeps (some s)) (λ closed. pure-Keeps frame ret))))

  util_send_reqrep_msg-Keeps :
      (text address : Bytes) → Keeps R (util_send_reqrep_msg host text address)
  unfolding util_send_reqrep_msg
  util_send_reqrep_msg-Keeps text address =
      >>=-Keeps frame (new_socket host zmq_req) _
        (ask-Keeps frame (λ h. host.new_socket h zmq_req) (zmq_socket zmq_req))
        (λ sock. reqrep_on-Keeps sock text address)

  connect_listener-Keeps :
      (address : Bytes) (sock : Pointer) → Keeps R (connect_listener host address sock)
  unfolding connect_listener
  connect_listener-Keeps address none = pure-Keeps frame none
  connect_listener-Keeps address (some s) =
      >>=-Keeps frame (perform (zmq_linger (some s) 5000)) _ (perform-Keeps frame _) (λ t.
        >>=-Keeps frame (perform (zmq_subscribe (some s))) _ (perform-Keeps frame _) (λ t.
          >>=-Keeps frame (connect host (some s) address) _
            (ask-Keeps frame (λ h. host.connect_ok h address) (zmq_connect (some s) address))
            (λ connected. pure-Keeps frame (if connected then some s else none))))

  listen_at-Keeps : (reply : PubsubReply) → Keeps R (listen_at host reply)
  unfolding listen_at
  listen_at-Keeps not_ok = pure-Keeps frame none
  listen_at-Keeps past_end = abort-Keeps frame
  listen_at-Keeps (at_address address) =
      >>=-Keeps frame (new_socket host zmq_sub) _
        (ask-Keeps frame (λ h. host.new_socket h zmq_sub) (zmq_socket zmq_sub))
        (connect_listener-Keeps address)

  pub create_pubsub_socket-Keeps :
      (icecast_port : ℕ) → Keeps R (create_pubsub_socket host icecast_port)
  unfolding create_pubsub_socket
  create_pubsub_socket-Keeps icecast_port =
      >>=-Keeps frame
        (util_send_reqrep_msg host (codes "PUBSUB ")
          (zeromq_address_from_port localhost icecast_port))
        _ (util_send_reqrep_msg-Keeps _ _) go
    where
      go :
          (reply : Option Bytes)
          → Keeps R (elim reply as (λ x. Action Pointer) [
            | none ↦ pure none
            | some text ↦ listen_at host (read_reply text)
          ])
      go none = pure-Keeps frame none
      go (some text) = listen_at-Keeps (read_reply text)
