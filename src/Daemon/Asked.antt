-- ===== src/Daemon/Asked.antt =====
-- When the main loop of the server in src/gst_playd.c ends: a machine that knows only whether the
-- daemon has been asked to quit.
pub mod Loop
use gst_playd.Base.{
  ℕ, ◌≡◌, ◌≢◌, refl, ap, ◌∙◌, sym, Bool, true, false, Option, none, some, List, [], ◌∷◌, Bytes,
  codes,
}
use gst_playd.Base.{Bool-cases, inl, inr, str_equal, str_equal_iff, c_string, if◌then◌else◌}
use gst_playd.Daemon.Kept.{send_reply-Keeps, parse_message-Keeps}
use gst_playd.Daemon.Main.{Event, timer, signal, bus, register_operations}
use gst_playd.Daemon.Messages.{handle_queued}
use gst_playd.Daemon.Received.{
  send_reply-replied, serve_one, receiving, attend, left_on, handle_queued-attend,
}
use gst_playd.Daemon.Registered.{register_operations-commands}
use gst_playd.Daemon.Started.{server}
use gst_playd.Glib.HashTable.{HashTable}
use gst_playd.Glib.Regex.{Regex}
use gst_playd.Host.{Host, World, eagain, eintr, other, Received, message, failed}
use gst_playd.Host.Frame.{SameFlag-frame, left_world}
use gst_playd.Operations.{OpContext, Process}
use gst_playd.Operations.Control.{op_quit_parse}
use gst_playd.Operations.Play.TagsPipeline.{TagReader}
use gst_playd.Parser.{RegEntryWithCtx, ParseCtx, parse_message}
use gst_playd.Parser.Dispatch.{command_word, parse_message_word}

-- Whether the command word is QUIT.
abbrev pub is_quit : Option Bytes → Bool
is_quit none = false
is_quit (some word) = str_equal (codes "QUIT") word

module _ (regex : Regex) where
  -- Whether the daemon has been asked to quit after a tick that has received `rs`.
  abbrev pub asked : Bool → List Received → Bool
  asked flag [] = flag
  asked flag (message m ∷ rs) =
      asked (if is_quit (command_word regex (c_string m)) then true else flag) rs
  asked flag (failed eintr ∷ rs) = asked flag rs
  asked flag (failed e ∷ rs) = flag

  -- Whether the events make the main loop end: a tick that finds that the daemon was asked to quit
  -- ends it, a tick before that receives, and a signal asks.
  abbrev pub ends : Bool → List Event → Bool
  ends flag [] = false
  ends flag (timer rs ∷ es) = elim flag [ true ↦ true | false ↦ ends (asked false rs) es ]
  ends flag (signal ∷ es) = ends true es
  ends flag (bus m ∷ es) = ends flag es

module _ (host : Host) (tag_reader : TagReader)
    (table : HashTable (RegEntryWithCtx Process OpContext)) (regex : Regex)
    (parser : ParseCtx table) (u u' : World)
    (registers : register_operations host tag_reader table u ≡ some (parser, u')) where
  -- A message whose command word is QUIT sets the flag, and every other leaves it alone.
  parse_message-flag :
      (text reply : Bytes) (w v : World)
      → parse_message table regex parser text (some w) ≡ (reply, some v)
      → v.should_quit ≡ (if is_quit (command_word regex text) then true else w.should_quit)
  unfolding op_quit_parse
  parse_message-flag text reply w v e = go (command_word regex text) refl
    where
      quits : command_word regex text ≡ some (codes "QUIT") → v.should_quit ≡ true
      quits word =
          let (ping, pubsub, quit, tags, play, stop, dumpgraph, rest) =
            register_operations-commands host tag_reader table parser u u' registers in
          let ran = parse_message_word table regex parser text _ _ word quit in
          ap (λ r. elim r.1 as (λ x. Bool) [ none ↦ true | some x ↦ x.should_quit ])
            (sym e ∙ ran (some w))

      stays : (command_word regex text ≡ some (codes "QUIT") → ⊥) → v.should_quit ≡ w.should_quit
      stays not =
          parse_message-Keeps SameFlag-frame host tag_reader table regex parser u u' w v text reply
            registers (λ word. absurd (not word)) (λ word w items. refl) (λ word w items. refl) e

      go :
          (o : Option Bytes)
          → command_word regex text ≡ o
          → v.should_quit ≡ (if is_quit o then true else w.should_quit)
      go none word = stays (λ is. cc)
      go (some k) word = elim (Bool-cases (str_equal (codes "QUIT") k)) [
        | inl is ↦ rw is (quits (rw ((str_equal_iff (codes "QUIT") k).0 is) word))
        | inr not ↦
            let differs : codes "QUIT" ≢ k =
              λ same. cc (not, (str_equal_iff (codes "QUIT") k).1 same) in
            rw not (stays (λ is. differs (cc)))
      ]

  serve_one-flag :
      (s : ℕ) (m : Bytes) (w v : World) (t : Unit {0})
      → serve_one table regex s parser m w ≡ some (t, v)
      → v.should_quit ≡ (if is_quit (command_word regex (c_string m)) then true else w.should_quit)
  serve_one-flag s m w v t e =
      let (w1, ran, kept) =
        send_reply-Keeps SameFlag-frame (some s) _ v t (send_reply-replied s _ ∙ e) in
      kept ∙ parse_message-flag (c_string m) _ (receiving table regex s (message m) w) w1 ran

  -- After a tick the flag is what the machine says.
  attend-asked :
      (s : ℕ) (rs rest : List Received) (w v : World)
      → attend table regex s parser rs w ≡ some (rest, v)
      → v.should_quit ≡ asked regex w.should_quit rs
  attend-asked s [] rest w v e = sym (ap (λ x. x.should_quit) (left_world refl e))
  attend-asked s (failed eintr ∷ rs) rest w v e =
      attend-asked s rs rest (receiving table regex s (failed eintr) w) v e
  attend-asked s (failed eagain ∷ rs) rest w v e = ap (λ x. x.should_quit) (left_world e refl)
  attend-asked s (failed (other n) ∷ rs) rest w v e = ap (λ x. x.should_quit) (left_world e refl)
  attend-asked s (message m ∷ rs) rest w v e =
      go (serve_one table regex s parser m w) refl (λ w1. attend-asked s rs rest w1 v) e
    where
      go :
          (r : Option (Unit {0} × World))
          → serve_one table regex s parser m w ≡ r
          → ((w1 : World)
              → attend table regex s parser rs w1 ≡ some (rest, v)
              → v.should_quit ≡ asked regex w1.should_quit rs)
          → (elim r as (λ x. Option (List Received × World)) [
            | none ↦ none
            | some (t, w1) ↦ attend table regex s parser rs w1
          ])
            ≡ some (rest, v)
          → v.should_quit ≡ asked regex w.should_quit (message m ∷ rs)
      go none ran ih e = absurd (cc)
      go (some (t, w1)) ran ih e =
          ih w1 e ∙ ap (λ flag. asked regex flag rs) (serve_one-flag s m w w1 t ran)

  pub handle_queued-asked :
      (s : ℕ) (rs : List Received) (left : Option (List Received)) (w v : World)
      → handle_queued table regex (server host tag_reader table regex (some s) parser) rs w
        ≡ some (left, v)
      → v.should_quit ≡ asked regex w.should_quit rs
  handle_queued-asked s rs left w v e =
      go (attend table regex s parser rs w) refl
        (sym (handle_queued-attend table regex s parser rs w) ∙ e)
    where
      go :
          (r : Option (List Received × World))
          → attend table regex s parser rs w ≡ r
          → left_on table regex r ≡ some (left, v)
          → v.should_quit ≡ asked regex w.should_quit rs
      go none ran e = absurd (cc)
      go (some (rest, w1)) ran e =
          ap (λ x. x.should_quit) (sym (left_world {u = w1} refl e))
          ∙ attend-asked s rs rest w w1 ran
