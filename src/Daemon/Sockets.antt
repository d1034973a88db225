-- ===== src/Daemon/Sockets.antt =====
-- The sockets that src/gst_playd.c makes. A port is the bit pattern of an `int`.
use gst_playd.Base.{ℕ, ◌+◌, ◌%◌, ◌^◌, none, some, [], ◌∷◌, ◌++◌, Bytes, codes}
use gst_playd.Base.{if◌then◌else◌, ◌==◌, ◌&&◌}
use gst_playd.Base.Decimal.{format_int}
use gst_playd.Host.{Pointer, zmq_rep, zmq_sub, zmq_linger, zmq_subscribe, Host}
use gst_playd.Host.Actions.{Action, pure, abort, ◌>>=◌, ◌>>◌, perform, new_socket, bind, connect}
use gst_playd.Pubsub.{localhost}
use gst_playd.Utility.Sockets.{util_send_reqrep_msg}

-- "tcp://%s:%d"; a sum that overflows an `int` wraps around.
unfoldable pub zeromq_address_from_port : Bytes → ℕ → Bytes
zeromq_address_from_port address port =
    codes "tcp://" ++ (address ++ b':' ∷ format_int ((port + 10000) % 2 ^ 32))

-- The address in a reply, `pubsub_addr+3`: outside the text of the reply there is none, which is
-- not the same as no reply beginning with "OK".
pub data PubsubReply : Type 0 where
  not_ok : PubsubReply
  past_end : PubsubReply
  at_address : Bytes → PubsubReply

unfoldable pub read_reply : Bytes → PubsubReply
read_reply (o ∷ k ∷ []) = if o == b'O' && k == b'K' then past_end else not_ok
read_reply (o ∷ k ∷ c ∷ address) = if o == b'O' && k == b'K' then at_address address else not_ok
read_reply reply = not_ok

module _ (host : Host) where
  -- The code once the server socket is made.
  unfoldable pub bind_server : Bytes → Pointer → Action Pointer
  bind_server address none = pure none
  bind_server address (some s) = do
    perform (zmq_linger (some s) 5000)
    bound ← bind host (some s) address
    pure (if bound then some s else none)

  unfoldable pub create_server_socket : ℕ → Action Pointer
  unfolding bind_server
  create_server_socket icecast_port = do
    sock ← new_socket host zmq_rep
    bind_server (zeromq_address_from_port localhost icecast_port) sock

  -- The code once the SUB socket is made.
  unfoldable pub connect_listener : Bytes → Pointer → Action Pointer
  connect_listener address none = pure none
  connect_listener address (some s) = do
    perform (zmq_linger (some s) 5000)
    perform (zmq_subscribe (some s))
    connected ← connect host (some s) address
    pure (if connected then some s else none)

  -- The code once the reply is read; a read past its end leaves no result.
  unfoldable pub listen_at : PubsubReply → Action Pointer
  unfolding connect_listener
  listen_at not_ok = pure none
  listen_at past_end = abort
  listen_at (at_address address) = do sock ← new_socket host zmq_sub; connect_listener address sock

  unfoldable pub create_pubsub_socket : ℕ → Action Pointer
  unfolding read_reply listen_at util_send_reqrep_msg
  create_pubsub_socket icecast_port = do
    reply ←
        util_send_reqrep_msg host (codes "PUBSUB ")
          (zeromq_address_from_port localhost icecast_port)
    elim reply [ none ↦ pure none | some text ↦ listen_at (read_reply text) ]
