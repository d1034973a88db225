-- ===== src/Pubsub.antt =====
-- src/pubsub.c: the PUB socket on which the daemon sends its events. The warnings are not modelled.
use gst_playd.Base.{
  ℕ, ◌+◌, ◌%◌, ◌^◌, Bool, true, Option, none, some, ◌∷◌, ◌++◌, Bytes, codes, if◌then◌else◌,
}
use gst_playd.Base.Decimal.{format_int}
use gst_playd.Host.{zmq_pub, zmq_linger, zmq_send, Host, PubsubCtx}
use gst_playd.Host.Actions.{Action, pure, ◌>>=◌, ◌>>◌, perform, new_socket, bind}
use gst_playd.Utility.Sockets.{util_close_socket}

-- "tcp://%s:%d"; a sum that overflows an `int` wraps around.
unfoldable pub pubsub_address_from_port : Bytes → ℕ → Bytes
pubsub_address_from_port address port =
    codes "tcp://" ++ (address ++ b':' ∷ format_int ((port + 10001) % 2 ^ 32))

abbrev pub localhost : Bytes
localhost = codes "127.0.0.1"

module _ (host : Host) where
  unfoldable pub pubsub_free : PubsubCtx → Action (Unit {0})
  unfolding util_close_socket
  pubsub_free ctx = do closed ← util_close_socket host ctx.sock; pure tt

  -- The code from the bind on.
  unfoldable pub bind_or_free : PubsubCtx → Action (Option PubsubCtx)
  unfolding pubsub_free
  bind_or_free ctx = do
    bound ← bind host ctx.sock ctx.addr
    if bound then pure (some ctx) else (do pubsub_free ctx; pure none)

  unfoldable pub pubsub_new : ℕ → Action (Option PubsubCtx)
  unfolding bind_or_free
  pubsub_new icecast_port = do
    sock ← new_socket host zmq_pub
    perform (zmq_linger sock 15000)
    bind_or_free (record { sock = sock; addr = pubsub_address_from_port localhost icecast_port })

abbrev pub pubsub_get_address : PubsubCtx → Bytes
pubsub_get_address ctx = ctx.addr

-- `strlen(message)` bytes are sent.
unfoldable pub pubsub_send_message : PubsubCtx → Bytes → Action Bool
pubsub_send_message ctx text = do perform (zmq_send ctx.sock text); pure true
