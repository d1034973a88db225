-- ===== src/Utility/Sockets.antt =====
-- The socket helpers of src/utility.c. The warnings are not modelled.
use gst_playd.Base.{Bool, true, Option, none, some, [], ◌++◌, Bytes, codes, c_string, if◌then◌else◌}
use gst_playd.Host.{
  Pointer, zmq_req, Received, message, failed, zmq_linger, zmq_send, g_print, Host,
}
use gst_playd.Host.Actions.{Action, pure, ◌>>=◌, ◌>>◌, perform, new_socket, connect, close, receive}

-- The bytes of a received message with a NUL behind them; a receive that fails leaves it empty.
abbrev pub text_of : Received → Bytes
text_of (message m) = c_string m
text_of (failed e) = []

module _ (host : Host) where
  unfoldable pub util_close_socket : Pointer → Action Bool
  util_close_socket none = pure true
  util_close_socket (some s) = close host (some s)

  -- The code from the connect on; both ways lead to `out`, where the socket is closed.
  unfoldable pub exchange : Pointer → Bytes → Bytes → Action (Option Bytes)
  exchange sock text address = do
    connected ← connect host sock address
    if connected
        then (do
          perform (zmq_send sock text)
          rep_msg ← receive host sock
          pure (some (text_of rep_msg)))
        else pure none

  unfoldable pub reqrep_on : Pointer → Bytes → Bytes → Action (Option Bytes)
  unfolding exchange util_close_socket
  reqrep_on none text address = pure none
  reqrep_on (some s) text address = do
    perform (zmq_linger (some s) 15000)
    perform (g_print (codes "Connecting to " ++ address ++ codes "\n"))
    ret ← exchange (some s) text address
    closed ← util_close_socket (some s)
    pure ret

  unfoldable pub util_send_reqrep_msg : Bytes → Bytes → Action (Option Bytes)
  unfolding reqrep_on
  util_send_reqrep_msg text address = do sock ← new_socket host zmq_req; reqrep_on sock text address
