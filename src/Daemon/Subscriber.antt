-- ===== src/Daemon/Subscriber.antt =====
-- How a listener of src/gst_playd.c connects to the events of a server.
use gst_playd.Base.{
  ℕ, ◌+◌, ◌%◌, ◌^◌, ◌≡◌, refl, ap, ◌∙◌, sym, subst, arith, Bool, true, false, Option, none, some,
  List, ◌∷◌, ◌++◌, Bytes, codes,
}
use gst_playd.Base.{
  Bool-cases, inl, inr, ◌⊎◌, c_string, c_string-IsText, IsText, append-IsText, if◌then◌else◌,
}
use gst_playd.Base.Decimal.{format_int, format_int-IsText}
use gst_playd.Daemon.Listener.{pubsub_new-bound}
use gst_playd.Daemon.Sockets.{
  zeromq_address_from_port, at_address, read_reply, connect_listener, listen_at,
  create_pubsub_socket,
}
use gst_playd.Host.{
  Host, Call, Pointer, World, PubsubCtx, message, zmq_sub, zmq_socket, zmq_linger, zmq_subscribe,
  zmq_connect, zmq_bind,
}
use gst_playd.Host.Actions.{>>=-some}
use gst_playd.Operations.{services}
use gst_playd.Operations.Control.{op_pubsub_parse}
use gst_playd.Pubsub.{localhost, pubsub_address_from_port, pubsub_new}
use gst_playd.Utility.Sockets.{text_of, util_send_reqrep_msg}

-- The reply to PUBSUB holds no NUL.
pub reply-IsText : (port : ℕ) → IsText (codes "OK " ++ pubsub_address_from_port localhost port)
unfolding pubsub_address_from_port
reply-IsText port =
    append-IsText (codes "OK tcp://127.0.0.1:") (format_int ((port + 10001) % 2 ^ 32)) (omega arith)
      (format_int-IsText ((port + 10001) % 2 ^ 32))

module _ (host : Host) where
  -- The calls up to the connect of a SUB socket.
  abbrev pub subscribing : Pointer → List Call → List Call
  subscribing sub calls = zmq_subscribe sub ∷ zmq_linger sub 5000 ∷ zmq_socket zmq_sub sub ∷ calls

  -- How a SUB socket is connected to an address, in each case.
  abbrev pub Subscribes : Pointer → Bytes → World → Option (Pointer × World) → Type 0
  Subscribes sub address w result =
      let before = subscribing sub w.calls in
      ((sub ≡ none) × (result ≡ some (none, record w { calls = zmq_socket zmq_sub sub ∷ w.calls })))
      ⊎ (((host.connect_ok before address ≡ true)
            × (result ≡ some (sub, record w { calls = zmq_connect sub address true ∷ before })))
          ⊎ ((host.connect_ok before address ≡ false)
              × (result
                  ≡ some (none, record w { calls = zmq_connect sub address false ∷ before }))))

  connect_listener-connected :
      (address : Bytes) (s : ℕ) (ok : Bool) (w : World)
      → host.connect_ok (zmq_subscribe (some s) ∷ zmq_linger (some s) 5000 ∷ w.calls) address ≡ ok
      → connect_listener host address (some s) w
        ≡ some (
          if ok then some s else none,
          record w {
            calls =
                zmq_connect (some s) address ok
                ∷ zmq_subscribe (some s)
                ∷ zmq_linger (some s) 5000
                ∷ w.calls;
          },
        )
  unfolding connect_listener
  connect_listener-connected address s ok w e = rw (e) refl

  connect_listener-Subscribes :
      (address : Bytes) (sub : Pointer) (w : World)
      → Subscribes sub address w (
          connect_listener host address sub (record w { calls = zmq_socket zmq_sub sub ∷ w.calls }))
  unfolding connect_listener
  connect_listener-Subscribes address none w = inl (refl, refl)
  connect_listener-Subscribes address (some s) w =
      let made = record w { calls = zmq_socket zmq_sub (some s) ∷ w.calls } in
      elim (Bool-cases (host.connect_ok (subscribing (some s) w.calls) address)) [
        | inl good ↦ inr (inl (good, connect_listener-connected address s true made good))
        | inr bad ↦ inr (inr (bad, connect_listener-connected address s false made bad))
      ]

  -- A listener that has received the address of a server goes on to its SUB socket.
  create_pubsub_socket-Subscribes :
      (port : ℕ) (address text : Bytes) (w w1 : World)
      → util_send_reqrep_msg host (codes "PUBSUB ") (zeromq_address_from_port localhost port) w
        ≡ some (some text, w1)
      → read_reply text ≡ at_address address
      → Subscribes (host.new_socket w1.calls zmq_sub) address w1 (create_pubsub_socket host port w)
  unfolding create_pubsub_socket listen_at
  create_pubsub_socket-Subscribes port address text w w1 ran reads =
      let sub = host.new_socket w1.calls zmq_sub in
      let at : create_pubsub_socket host port w
          ≡ connect_listener host address sub
              (record w1 { calls = zmq_socket zmq_sub sub ∷ w1.calls }) =
        >>=-some
          (util_send_reqrep_msg host (codes "PUBSUB ") (zeromq_address_from_port localhost port)) _
          ran
        ∙ ap (λ r. listen_at host r w1) reads in
      subst (Subscribes sub address w1) (sym at) (connect_listener-Subscribes address sub w1)

-- A listener that has received what a server replies to PUBSUB, from the address of its port: the
-- server has bound its PUB socket to an address, and the listener connects its SUB socket to this
-- address. It has the socket where the connect succeeds, and none where there is no socket, or where
-- the connect fails and the socket stays open.
pub create_pubsub_socket-op_pubsub_parse :
    (server listener : Host) (port : ℕ) (ctx : PubsubCtx) (param : Option Bytes) (reply : Bytes)
    (u u' v v' w w1 : World)
    → pubsub_new server port u ≡ some (some ctx, u')
    → v.pub_sub ≡ some ctx
    → op_pubsub_parse param services v ≡ some (reply, v')
    → util_send_reqrep_msg listener (codes "PUBSUB ") (zeromq_address_from_port localhost port) w
      ≡ some (some (text_of (message reply)), w1)
    → (address : Bytes) × ((calls : List Call) × (u'.calls
          ≡ zmq_bind ctx.sock address true ∷ calls))
      × Subscribes listener
          (listener.new_socket w1.calls zmq_sub)
          address
          w1
          (create_pubsub_socket listener port w)
unfolding op_pubsub_parse read_reply
create_pubsub_socket-op_pubsub_parse server listener port ctx param reply u u' v v' w w1 made has
      replies received =
    let addr = pubsub_address_from_port localhost port in
    let (same, bound) = pubsub_new-bound server port ctx u u' made in
    let answered : op_pubsub_parse param services v ≡ some (codes "OK " ++ ctx.addr, v) =
      rw (has) refl in
    let is : reply ≡ codes "OK " ++ addr =
      cc (sym answered ∙ replies, ap (λ a. codes "OK " ++ a) same) in
    let reads : read_reply (c_string reply) ≡ at_address addr =
      ap (λ r. read_reply (c_string r)) is
      ∙ ap read_reply (c_string-IsText (codes "OK " ++ addr) (reply-IsText port)) in
    (
      addr,
      bound,
      create_pubsub_socket-Subscribes listener port addr (c_string reply) w w1 received reads,
    )
