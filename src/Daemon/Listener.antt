-- ===== src/Daemon/Listener.antt =====
-- The addresses of src/pubsub.c and src/gst_playd.c, and how a listener learns the one that the
-- server has bound.
use gst_playd.Base.{
  ℕ, ◌+◌, ◌%◌, ◌^◌, ◌<◌, ◌≡◌, refl, ap, ◌∙◌, sym, arith, true, false, Option, none, some, List, ◌∷◌,
  ◌++◌, Bytes, codes,
}
use gst_playd.Base.{Bool-cases, inl, inr, ◌⊎◌, ◌↔◌}
use gst_playd.Base.Decimal.{format_int, format_int-injective}
use mathlib.Core.List.{append_cancel_left}
use gst_playd.Daemon.Sockets.{zeromq_address_from_port, at_address, read_reply}
use gst_playd.Host.{
  Pointer, zmq_pub, Call, zmq_socket, zmq_linger, zmq_bind, zmq_close, Host, PubsubCtx, World,
}
use gst_playd.Operations.{services}
use gst_playd.Operations.Control.{op_pubsub_parse}
use gst_playd.Pubsub.{localhost, pubsub_address_from_port, bind_or_free, pubsub_new, pubsub_free}
use gst_playd.Utility.Sockets.{util_close_socket}

-- On one address, the PUB socket of a daemon has the address of the server socket of another exactly
-- when the other's port is one higher, as an `int` that wraps around.
pub pubsub_address_from_port-zeromq_address_from_port :
    (address : Bytes) (p q : ℕ)
    → p < 2 ^ 32
    → q < 2 ^ 32
    → (pubsub_address_from_port address p ≡ zeromq_address_from_port address q)
      ↔ (q ≡ (p + 1) % 2 ^ 32)
unfolding pubsub_address_from_port zeromq_address_from_port
pubsub_address_from_port-zeromq_address_from_port address p q hp hq = (
  λ e.
      let tails : b':' ∷ format_int ((p + 10001) % 2 ^ 32)
          ≡ b':' ∷ format_int ((q + 10000) % 2 ^ 32) =
        append_cancel_left address _ _ (append_cancel_left (codes "tcp://") _ _ e) in
      let same : (p + 10001) % 2 ^ 32 ≡ (q + 10000) % 2 ^ 32 =
        format_int-injective ((p + 10001) % 2 ^ 32) ((q + 10000) % 2 ^ 32) (omega arith)
          (omega arith) (cc tails) in
      omega arith,
  λ e.
      let same : (p + 10001) % 2 ^ 32 ≡ (q + 10000) % 2 ^ 32 = omega arith in
      ap (λ n. codes "tcp://" ++ (address ++ b':' ∷ format_int n)) same,
)

module _ (host : Host) where
  bind_or_free-made :
      (sock : Pointer) (addr : Bytes) (w : World)
      → host.bind_ok w.calls addr ≡ true
      → bind_or_free host (record { sock = sock; addr = addr }) w
        ≡ some (
          some (record { sock = sock; addr = addr }),
          record w { calls = zmq_bind sock addr true ∷ w.calls },
        )
  unfolding bind_or_free
  bind_or_free-made sock addr w good = rw (good) refl

  -- The calls that close a socket, on top of `calls`.
  abbrev pub closing : Pointer → List Call → List Call
  closing none calls = calls
  closing (some s) calls = zmq_close (some s) (host.close_ok calls) ∷ calls

  bind_or_free-refused :
      (sock : Pointer) (addr : Bytes) (w : World)
      → host.bind_ok w.calls addr ≡ false
      → bind_or_free host (record { sock = sock; addr = addr }) w
        ≡ some (none, record w { calls = closing sock (zmq_bind sock addr false ∷ w.calls) })
  unfolding bind_or_free pubsub_free util_close_socket
  bind_or_free-refused none addr w bad = rw (bad) refl
  bind_or_free-refused (some s) addr w bad = rw (bad) refl

  -- `pubsub_new` binds the address of the port: it gives a context with the socket and this address,
  -- or, where the bind fails, no context, and then a socket that was made has been closed.
  pub pubsub_new-calls :
      (icecast_port : ℕ) (w : World)
      → let sock = host.new_socket w.calls zmq_pub in
        let addr = pubsub_address_from_port localhost icecast_port in
        let before = zmq_linger sock 15000 ∷ zmq_socket zmq_pub sock ∷ w.calls in
        ((host.bind_ok before addr ≡ true)
          × (pubsub_new host icecast_port w
              ≡ some (
                some (record { sock = sock; addr = addr }),
                record w { calls = zmq_bind sock addr true ∷ before },
              )))
        ⊎ ((host.bind_ok before addr ≡ false)
            × (pubsub_new host icecast_port w
                ≡ some
                    (none, record w { calls = closing sock (zmq_bind sock addr false ∷ before) })))
  unfolding pubsub_new
  pubsub_new-calls icecast_port w =
      let sock = host.new_socket w.calls zmq_pub in
      let addr = pubsub_address_from_port localhost icecast_port in
      let before = zmq_linger sock 15000 ∷ zmq_socket zmq_pub sock ∷ w.calls in
      elim (Bool-cases (host.bind_ok before addr)) [
        | inl good ↦ inl (good, bind_or_free-made sock addr (record w { calls = before }) good)
        | inr bad ↦ inr (bad, bind_or_free-refused sock addr (record w { calls = before }) bad)
      ]

  pub pubsub_new-bound :
      (icecast_port : ℕ) (ctx : PubsubCtx) (w w' : World)
      → pubsub_new host icecast_port w ≡ some (some ctx, w')
      → let addr = pubsub_address_from_port localhost icecast_port in
        (ctx.addr ≡ addr) × ((calls : List Call) × (w'.calls ≡ zmq_bind ctx.sock addr true ∷ calls))
  pubsub_new-bound icecast_port ctx w w' e =
      let sock = host.new_socket w.calls zmq_pub in
      let addr = pubsub_address_from_port localhost icecast_port in
      let before = zmq_linger sock 15000 ∷ zmq_socket zmq_pub sock ∷ w.calls in
      let made : PubsubCtx = record { sock = sock; addr = addr } in
      let left : World = record w { calls = zmq_bind sock addr true ∷ before } in
      elim (pubsub_new-calls icecast_port w) [
        | inl (good, ran) ↦
            let same : made ≡ ctx = cc in
            let world : left ≡ w' = cc in
            (
              ap (λ c. c.addr) (sym same),
              (
                before,
                ap (λ u. u.calls) (sym world) ∙ ap (λ c. zmq_bind c.sock addr true ∷ before) same,
              ),
            )
        | inr (bad, ran) ↦ absurd (cc)
      ]

  -- A context that `pubsub_new` gave for a port has bound the address that a listener reads in the
  -- reply to PUBSUB, in any world with this context; PUBSUB changes nothing.
  pub read_reply-op_pubsub_parse :
      (icecast_port : ℕ) (ctx : PubsubCtx) (param : Option Bytes) (w w' v : World)
      → pubsub_new host icecast_port w ≡ some (some ctx, w')
      → v.pub_sub ≡ some ctx
      → let addr = pubsub_address_from_port localhost icecast_port in
        (reply : Bytes) × (op_pubsub_parse param services v ≡ some (reply, v))
        × (read_reply reply ≡ at_address addr)
        × ((calls : List Call) × (w'.calls ≡ zmq_bind ctx.sock addr true ∷ calls))
  unfolding op_pubsub_parse read_reply
  read_reply-op_pubsub_parse icecast_port ctx param w w' v e has =
      let (same, bound) = pubsub_new-bound icecast_port ctx w w' e in
      (codes "OK " ++ ctx.addr, rw (has) refl, ap at_address same, bound)
