-- ===== src/Daemon/Server.antt =====
-- The server socket of src/gst_playd.c.
use gst_playd.Base.{
  ℕ, ◌≡◌, refl, Bool, true, false, none, some, ◌∷◌, Bytes, Bool-cases, inl, inr, ◌⊎◌, if◌then◌else◌,
}
use gst_playd.Daemon.Sockets.{zeromq_address_from_port, bind_server, create_server_socket}
use gst_playd.Host.{Host, World, Pointer, zmq_rep, zmq_socket, zmq_linger, zmq_bind}
use gst_playd.Pubsub.{localhost}

module _ (host : Host) where
  bind_server_lem :
      (s : ℕ) (address : Bytes) (w : World) (ok : Bool)
      → host.bind_ok (zmq_linger (some s) 5000 ∷ w.calls) address ≡ ok
      → bind_server host address (some s) w
        ≡ some (
          if ok then some s else none,
          record w { calls = zmq_bind (some s) address ok ∷ zmq_linger (some s) 5000 ∷ w.calls },
        )
  unfolding bind_server
  bind_server_lem s address w ok e = rw (e) refl

  bind_server-cases :
      (sock : Pointer) (address : Bytes) (w : World)
      → let before = zmq_linger sock 5000 ∷ w.calls in
        ((sock ≡ none) × (bind_server host address sock w ≡ some (none, w)))
        ⊎ (((host.bind_ok before address ≡ true)
              × (bind_server host address sock w
                  ≡ some (sock, record w { calls = zmq_bind sock address true ∷ before })))
            ⊎ ((host.bind_ok before address ≡ false)
                × (bind_server host address sock w
                    ≡ some (none, record w { calls = zmq_bind sock address false ∷ before }))))
  unfolding bind_server
  bind_server-cases none address w = inl (refl, refl)
  bind_server-cases (some s) address w =
      elim (Bool-cases (host.bind_ok (zmq_linger (some s) 5000 ∷ w.calls) address)) [
        | inl good ↦ inr (inl (good, bind_server_lem s address w true good))
        | inr bad ↦ inr (inr (bad, bind_server_lem s address w false bad))
      ]

  -- The server socket is NULL where there is no socket; it is the socket where the bind to the address
  -- of the port succeeds; and where the bind fails it is NULL and the socket stays open: the bind is
  -- the last call.
  pub create_server_socket-calls :
      (port : ℕ) (w : World)
      → let sock = host.new_socket w.calls zmq_rep in
        let address = zeromq_address_from_port localhost port in
        let made = zmq_socket zmq_rep sock ∷ w.calls in
        let before = zmq_linger sock 5000 ∷ made in
        ((sock ≡ none)
          × (create_server_socket host port w ≡ some (none, record w { calls = made })))
        ⊎ (((host.bind_ok before address ≡ true)
              × (create_server_socket host port w
                  ≡ some (sock, record w { calls = zmq_bind sock address true ∷ before })))
            ⊎ ((host.bind_ok before address ≡ false)
                × (create_server_socket host port w
                    ≡ some (none, record w { calls = zmq_bind sock address false ∷ before }))))
  unfolding create_server_socket
  create_server_socket-calls port w =
      let sock = host.new_socket w.calls zmq_rep in
      bind_server-cases sock (zeromq_address_from_port localhost port)
        (record w { calls = zmq_socket zmq_rep sock ∷ w.calls })
