-- ===== src/Utility/Exchange.antt =====
-- `util_send_reqrep_msg` of src/utility.c: the calls it makes.
use gst_playd.Base.{
  ℕ, ◌≡◌, refl, true, false, Option, none, some, List, ◌∷◌, ◌++◌, Bytes, codes, Bool-cases, inl,
  inr, ◌⊎◌,
}
use gst_playd.Host.{
  Pointer, zmq_req, Call, zmq_socket, zmq_linger, zmq_connect, zmq_send, zmq_recv, zmq_close,
  g_print, Host, World,
}
use gst_playd.Host.Actions.{>>=-some}
use gst_playd.Utility.Sockets.{
  text_of, util_close_socket, exchange, reqrep_on, util_send_reqrep_msg,
}

module _ (host : Host) where
  -- The calls up to the connect, on top of `calls`.
  abbrev pub connecting : Pointer → Bytes → List Call → List Call
  connecting sock address calls =
      g_print (codes "Connecting to " ++ address ++ codes "\n")
      ∷ zmq_linger sock 15000
      ∷ zmq_socket zmq_req sock
      ∷ calls

  abbrev pub closed : Pointer → List Call → List Call
  closed sock calls = zmq_close sock (host.close_ok calls) ∷ calls

  exchange_refused :
      (sock : Pointer) (text address : Bytes) (w : World)
      → host.connect_ok w.calls address ≡ false
      → exchange host sock text address w
        ≡ some (none, record w { calls = zmq_connect sock address false ∷ w.calls })
  unfolding exchange
  exchange_refused sock text address w bad = rw (bad) refl

  exchange_made :
      (sock : Pointer) (text address : Bytes) (w : World)
      → host.connect_ok w.calls address ≡ true
      → let sent = zmq_send sock text ∷ zmq_connect sock address true ∷ w.calls in
        exchange host sock text address w
        ≡ some (
          some (text_of (host.reply sent)),
          record w { calls = zmq_recv sock (host.reply sent) ∷ sent },
        )
  unfolding exchange
  exchange_made sock text address w good = rw (good) refl

  -- What follows `zmq_socket`.
  reqrep_on-exchange :
      (s : ℕ) (text address : Bytes) (w v : World) (ret : Option Bytes)
      → exchange host (some s) text address (record w {
        calls =
            g_print (codes "Connecting to " ++ address ++ codes "\n")
            ∷ zmq_linger (some s) 15000
            ∷ w.calls;
      })
        ≡ some (ret, v)
      → reqrep_on host (some s) text address w
        ≡ some (ret, record v { calls = closed (some s) v.calls })
  unfolding reqrep_on util_close_socket
  reqrep_on-exchange s text address w v ret e = >>=-some (exchange host (some s) text address) _ e

  reqrep_on-calls :
      (sock : Pointer) (text address : Bytes) (w : World)
      → let before =
          g_print (codes "Connecting to " ++ address ++ codes "\n")
          ∷ zmq_linger sock 15000
          ∷ w.calls in
        let sent = zmq_send sock text ∷ zmq_connect sock address true ∷ before in
        let rep_msg = host.reply sent in
        ((sock ≡ none) × (reqrep_on host sock text address w ≡ some (none, w)))
        ⊎ (((host.connect_ok before address ≡ false)
              × (reqrep_on host sock text address w
                  ≡ some (
                    none,
                    record w { calls = closed sock (zmq_connect sock address false ∷ before) },
                  )))
            ⊎ ((host.connect_ok before address ≡ true)
                × (reqrep_on host sock text address w
                    ≡ some (
                      some (text_of rep_msg),
                      record w { calls = closed sock (zmq_recv sock rep_msg ∷ sent) },
                    ))))
  unfolding reqrep_on
  reqrep_on-calls none text address w = inl (refl, refl)
  reqrep_on-calls (some s) text address w =
      let before =
        g_print (codes "Connecting to " ++ address ++ codes "\n")
        ∷ zmq_linger (some s) 15000
        ∷ w.calls in
      elim (Bool-cases (host.connect_ok before address)) [
        | inl good ↦ inr (
            inr (
              good,
              reqrep_on-exchange s text address w _ _
                  (exchange_made (some s) text address (record w { calls = before }) good),
            ))
        | inr bad ↦ inr (
            inl (
              bad,
              reqrep_on-exchange s text address w _ _
                  (exchange_refused (some s) text address (record w { calls = before }) bad),
            ))
      ]

  -- A request to an address: without a socket there is no reply; where the connect fails there is
  -- none either, and nothing is sent; else the text is sent and what is received is the reply. A
  -- socket that was made is closed, last, on both ways.
  pub util_send_reqrep_msg-calls :
      (text address : Bytes) (w : World)
      → let sock = host.new_socket w.calls zmq_req in
        let before = connecting sock address w.calls in
        let sent = zmq_send sock text ∷ zmq_connect sock address true ∷ before in
        let rep_msg = host.reply sent in
        ((sock ≡ none)
          × (util_send_reqrep_msg host text address w
              ≡ some (none, record w { calls = zmq_socket zmq_req sock ∷ w.calls })))
        ⊎ (((host.connect_ok before address ≡ false)
              × (util_send_reqrep_msg host text address w
                  ≡ some (
                    none,
                    record w { calls = closed sock (zmq_connect sock address false ∷ before) },
                  )))
            ⊎ ((host.connect_ok before address ≡ true)
                × (util_send_reqrep_msg host text address w
                    ≡ some (
                      some (text_of rep_msg),
                      record w { calls = closed sock (zmq_recv sock rep_msg ∷ sent) },
                    ))))
  unfolding util_send_reqrep_msg
  util_send_reqrep_msg-calls text address w =
      reqrep_on-calls (host.new_socket w.calls zmq_req) text address
        (record w { calls = zmq_socket zmq_req (host.new_socket w.calls zmq_req) ∷ w.calls })
