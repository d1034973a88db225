-- ===== src/Daemon/Client.antt =====
-- `--send-message` in `main` of src/gst_playd.c.
use gst_playd.Base.{
  ℕ, ◌≡◌, Bool, true, false, none, some, List, ◌∷◌, ◌++◌, Bytes, codes, inl, inr, ◌⊎◌,
}
use gst_playd.Daemon.Main.{Event, send_client_message, start, run_and_end, run_options, main}
use gst_playd.Daemon.Process.{StartsWith, prologue, context_of, destroyed, main-run_options}
use gst_playd.Daemon.Sockets.{zeromq_address_from_port}
use gst_playd.Glib.HashTable.{HashTable}
use gst_playd.Glib.Regex.{Regex}
use gst_playd.Host.{Host, Options, World, zmq_req, zmq_connect, zmq_send, zmq_recv, g_print}
use gst_playd.Host.Actions.{>>=-some}
use gst_playd.Operations.{OpContext, Process}
use gst_playd.Operations.Play.TagsPipeline.{TagReader}
use gst_playd.Parser.{RegEntryWithCtx}
use gst_playd.Pubsub.{localhost}
use gst_playd.Utility.Exchange.{connecting, closed, util_send_reqrep_msg-calls}
use gst_playd.Utility.Sockets.{text_of, util_send_reqrep_msg}

module _ (host : Host) (tag_reader : TagReader)
    (table : HashTable (RegEntryWithCtx Process OpContext)) (regex : Regex) where
  abbrev pub client : Bytes → ℕ → Bool → Options
  client text icecast_port pubsub_listen = record {
    pubsub_listen = pubsub_listen;
    client_message = some text;
    icecast_port = icecast_port;
  }

  client_fails :
      (text : Bytes) (port : ℕ) (listen : Bool) (events : List Event) (w v : World)
      → util_send_reqrep_msg host text
          (zeromq_address_from_port localhost port)
          (record w { should_quit = false })
        ≡ some (none, v)
      → run_options host tag_reader table regex (client text port listen) events w
        ≡ some (some 1, v)
  unfolding run_options start send_client_message run_and_end
  client_fails text port listen events w v e =
      >>=-some (send_client_message host tag_reader table regex text port)
        (run_and_end host tag_reader table regex events)
        (>>=-some (util_send_reqrep_msg host text (zeromq_address_from_port localhost port)) _ e)

  client_replies :
      (text reply : Bytes) (port : ℕ) (listen : Bool) (events : List Event) (w v : World)
      → util_send_reqrep_msg host text
          (zeromq_address_from_port localhost port)
          (record w { should_quit = false })
        ≡ some (some reply, v)
      → run_options host tag_reader table regex (client text port listen) events w
        ≡ some (some 0, record v { calls = g_print (reply ++ codes "\n") ∷ v.calls })
  unfolding run_options start send_client_message run_and_end
  client_replies text reply port listen events w v e =
      >>=-some (send_client_message host tag_reader table regex text port)
        (run_and_end host tag_reader table regex events)
        (>>=-some (util_send_reqrep_msg host text (zeromq_address_from_port localhost port)) _ e)

  -- A process that finds its directory and parses its options sends the message of the options to the
  -- address of the port, whether or not it was asked to listen too. It exits with 1 where there is no
  -- socket or the connect fails; else it prints what it has received, destroys its context, and exits
  -- with 0.
  pub main-client :
      (argv : List Bytes) (dir text : Bytes) (port : ℕ) (listen : Bool) (events : List Event)
      (w : World)
      → StartsWith host argv dir (client text port listen) w
      → let begun = prologue host argv dir (client text port listen) w.calls in
        let sock = host.new_socket begun zmq_req in
        let address = zeromq_address_from_port localhost port in
        let before = connecting host sock address begun in
        let sent = zmq_send sock text ∷ zmq_connect sock address true ∷ before in
        let printed =
          g_print (text_of (host.reply sent) ++ codes "\n")
          ∷ closed host sock (zmq_recv sock (host.reply sent) ∷ sent) in
        let ran = main host tag_reader table regex argv events w in
        (((sock ≡ none) ⊎ (host.connect_ok before address ≡ false))
          × ((v : World) × (ran ≡ some (some 1, v))))
        ⊎ ((host.connect_ok before address ≡ true)
            × (ran
                ≡ some (
                  some 0,
                  record w {
                    should_quit = false;
                    calls =
                        destroyed host
                          (context_of host argv dir (client text port listen) w.calls)
                          printed;
                  },
                )))
  main-client argv dir text port listen events w starts =
      let begun = record w {
        calls = prologue host argv dir (client text port listen) w.calls;
        should_quit = false;
      } in
      let parsed = record w { calls = prologue host argv dir (client text port listen) w.calls } in
      let whole = λ (code : ℕ) (v : World).
        main-run_options host tag_reader table regex argv dir (client text port listen) events w v
          code starts in
      elim (util_send_reqrep_msg-calls host text (zeromq_address_from_port localhost port) begun) [
        | inl (missing, e) ↦
            inl (inl missing, (_, whole 1 _ (client_fails text port listen events parsed _ e)))
        | inr (inl (refused, e)) ↦
            inl (inr refused, (_, whole 1 _ (client_fails text port listen events parsed _ e)))
        | inr (inr (connected, e)) ↦
            inr (connected, whole 0 _ (client_replies text _ port listen events parsed _ e))
      ]
