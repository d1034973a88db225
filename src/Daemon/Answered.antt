-- ===== src/Daemon/Answered.antt =====
-- A client and a server of src/gst_playd.c: what `--send-message` prints is the server's reply.
use gst_playd.Base.{
  ℕ, ◌≡◌, refl, ap, ◌∙◌, sym, subst, Bool, true, false, Option, none, some, List, [], ◌∷◌, ◌++◌,
  Bytes, codes, inl, inr,
}
use gst_playd.Base.{All, c_string, c_string-IsText}
use gst_playd.Daemon.Client.{client, main-client}
use gst_playd.Daemon.Main.{Event, register_operations, main}
use gst_playd.Daemon.Messages.{handle_queued}
use gst_playd.Daemon.Process.{StartsWith, prologue, context_of, destroyed}
use gst_playd.Daemon.Received.{replied, receiving, left_on, handle_queued-attend}
use gst_playd.Daemon.Replies.{queue}
use gst_playd.Daemon.Sockets.{zeromq_address_from_port}
use gst_playd.Daemon.Started.{server}
use gst_playd.Daemon.Texts.{parse_message-IsText}
use gst_playd.Glib.HashTable.{HashTable}
use gst_playd.Glib.Regex.{Regex, IsPlain}
use gst_playd.Glib.Regex.Facts.{IsPlain-IsText}
use gst_playd.Host.{
  Host, Options, World, Call, Received, message, failed, eagain, zmq_req, zmq_connect, zmq_send,
  zmq_recv, g_print,
}
use gst_playd.Host.Frame.{left_world}
use gst_playd.Operations.{OpContext, Process}
use gst_playd.Operations.Play.TagsPipeline.{TagReader}
use gst_playd.Operations.Play.TagsText.{HasText}
use gst_playd.Operations.Texts.{HasAddress}
use gst_playd.Parser.{RegEntryWithCtx, ParseCtx, parse_message}
use gst_playd.Pubsub.{localhost}
use gst_playd.Utility.Exchange.{connecting, closed}

-- What ZeroMQ passes on to the peer: the newest message that was sent.
abbrev pub delivered : List Call → Received
delivered [] = failed eagain
delivered (zmq_send sock text ∷ calls) = message text
delivered (call ∷ calls) = delivered calls

module _ (peer : Host) (tag_reader : TagReader)
    (table : HashTable (RegEntryWithCtx Process OpContext)) (regex : Regex) (argv : List Bytes)
    (dir text : Bytes) (port k : ℕ) (listen : Bool) (w : World) where
  -- The options of the client, and its calls up to the connect and up to the receive.
  abbrev pub options : Options
  options = client peer tag_reader table regex text port listen

  abbrev pub client_address : Bytes
  client_address = zeromq_address_from_port localhost port

  abbrev pub before_connect : List Call
  before_connect = connecting peer (some k) client_address (prologue peer argv dir options w.calls)

  abbrev pub asked_for : List Call
  asked_for = zmq_send (some k) text ∷ zmq_connect (some k) client_address true ∷ before_connect

  -- The end of the client that has received `reply`.
  abbrev pub printed : Bytes → World
  printed reply = record w {
    should_quit = false;
    calls = destroyed peer (context_of peer argv dir options w.calls) (
        g_print (reply ++ codes "\n")
        ∷ closed peer (some k) (zmq_recv (some k) (message reply) ∷ asked_for));
  }

  client_prints :
      (events : List Event) (reply : Bytes)
      → StartsWith peer argv dir options w
      → peer.new_socket (prologue peer argv dir options w.calls) zmq_req ≡ some k
      → peer.connect_ok before_connect client_address ≡ true
      → peer.reply asked_for ≡ message reply
      → c_string reply ≡ reply
      → main peer tag_reader table regex argv events w ≡ some (some 0, printed reply)
  client_prints events reply starts socket connects replies whole =
      elim (main-client peer tag_reader table regex argv dir text port listen events w starts) [
        | inl (inl missing, rest) ↦ absurd (cc)
        | inl (inr refused, rest) ↦
            let not : peer.connect_ok before_connect client_address ≡ false =
              rw socket at refused in
            absurd (cc)
        | inr (connected, ran) ↦ rw (socket, replies, whole) at ran
      ]

module _ (host : Host) (tag_reader : TagReader)
    (table : HashTable (RegEntryWithCtx Process OpContext)) (regex : Regex)
    (parser : ParseCtx table) (u u' : World)
    (registers : register_operations host tag_reader table u ≡ some (parser, u')) where
  -- A tick that has received one text has sent the reply last.
  handle_queued-delivered :
      (s : ℕ) (text : Bytes) (left : Option (List Received)) (v v' : World)
      → handle_queued table regex
          (server host tag_reader table regex (some s) parser)
          (queue (text ∷ []))
          v
        ≡ some (left, v')
      → let ran =
          parse_message table regex parser
            (c_string text)
            (some (receiving table regex s (message text) v)) in
        (w1 : World) × (ran ≡ (ran.0, some w1)) × (delivered v'.calls ≡ message ran.0)
  handle_queued-delivered s text left v v' e =
      go _ (sym (handle_queued-attend table regex s parser (queue (text ∷ [])) v) ∙ e)
    where
      go :
          (r : Bytes × Process)
          → left_on table regex (elim (replied s r) as (λ x. Option (List Received × World)) [
            | none ↦ none
            | some (done, w') ↦ some ([], receiving table regex s (failed eagain) w')
          ])
            ≡ some (left, v')
          → (w1 : World) × (r ≡ (r.0, some w1)) × (delivered v'.calls ≡ message r.0)
      go (reply, none) e = absurd (cc)
      go (reply, some w1) e = (w1, refl, ap (λ x. delivered x.calls) (left_world e refl))

  -- What a client prints is the server's reply, whole. A server whose plugins are registered finds
  -- the text of a client, of printable ASCII, as the only message of a tick, and does not abort; the
  -- client has found its directory, its options and a socket and connects, and ZeroMQ passes the last
  -- message that the server has sent on to it. Then the client prints the reply of the server to the
  -- text and a newline, closes its socket, destroys its context, and exits with 0.
  pub main-handle_queued :
      (peer : Host) (argv : List Bytes) (dir text : Bytes) (port k s : ℕ) (listen : Bool)
      (events : List Event) (left : Option (List Received)) (w v v' : World)
      → IsPlain text
      → ((calls : List Call) → All HasText (tag_reader.popped calls))
      → HasAddress v
      → handle_queued table regex
          (server host tag_reader table regex (some s) parser)
          (queue (text ∷ []))
          v
        ≡ some (left, v')
      → let chosen = client peer tag_reader table regex text port listen in
        StartsWith peer argv dir chosen w
        → peer.new_socket (prologue peer argv dir chosen w.calls) zmq_req ≡ some k
        → peer.connect_ok
            (before_connect peer tag_reader table regex argv dir text port k listen w)
            (zeromq_address_from_port localhost port)
          ≡ true
        → peer.reply (asked_for peer tag_reader table regex argv dir text port k listen w)
          ≡ delivered v'.calls
        → let reply =
            (parse_message table regex parser text
              (some (receiving table regex s (message text) v))).0 in
          main peer tag_reader table regex argv events w
          ≡ some (some 0, printed peer tag_reader table regex argv dir text port k listen w reply)
  main-handle_queued peer argv dir text port k s listen events left w v v' plain texts address e
        starts socket connects passes =
      let got = receiving table regex s (message text) v in
      let same = c_string-IsText text (IsPlain-IsText text plain) in
      let reply = (parse_message table regex parser text (some got)).0 in
      let (w1, ran, sends) =
        subst
          (λ t.
            let r = parse_message table regex parser t (some got) in
            (w1 : World) × (r ≡ (r.0, some w1)) × (delivered v'.calls ≡ message r.0))
          same (handle_queued-delivered s text left v v' e) in
      client_prints peer tag_reader table regex argv dir text port k listen w events reply starts
        socket connects (passes ∙ sends)
        (c_string-IsText reply (
          parse_message-IsText host tag_reader table regex parser u u' got text reply (some w1)
            registers texts address plain ran))
