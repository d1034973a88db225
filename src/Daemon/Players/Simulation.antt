-- ===== src/Daemon/Players/Simulation.antt =====
-- The messages of src/gst_playd.c keep what PLAY and STOP promise of the players.
use gst_playd.Base.{
  ◌≡◌, ◌≢◌, refl, ap, ◌∙◌, sym, subst, true, false, Option, none, some, List, Bytes, codes,
}
use gst_playd.Base.{◌⊎◌, Bool-cases, Option-cases, inl, inr, str_equal, str_equal_iff}
use gst_playd.Daemon.Kept.{parse_message-Keeps}
use gst_playd.Daemon.Main.{register_operations}
use gst_playd.Daemon.Registered.{register_operations-commands}
use gst_playd.Glib.HashTable.{HashTable}
use gst_playd.Glib.Regex.{Regex}
use gst_playd.Host.{Host, World}
use gst_playd.Host.Actions.{Action}
use gst_playd.Host.Frame.{SameSources, SameSources-frame}
use gst_playd.Operations.{OpContext, playback, Process, run_handler, run_handler-some}
use gst_playd.Operations.Play.Handlers.{op_play_parse, op_stop_parse}
use gst_playd.Operations.Play.Invariant.{HasDistinctAddresses, Step-HasDistinctAddresses}
use gst_playd.Operations.Play.Players.{Player, Request, play_uri, stop_player, ArePlayers, respond}
use gst_playd.Operations.Play.Players.Simulation.{respond-Answers, respond-Step}
use gst_playd.Operations.Play.TagsPipeline.{TagReader}
use gst_playd.Parser.{RegEntryWithCtx, ParseCtx, parse_message}
use gst_playd.Parser.Dispatch.{command_word, command_param, parse_message_word}
use gst_playd.Daemon.Players.{
  request_of, request, Tells, silent, asked, unasked, IsServed, Serves, idle, served,
}

request_of-other :
    (word : Bytes) (param : Option Bytes)
    → str_equal (codes "PLAY") word ≡ false
    → str_equal (codes "STOP") word ≡ false
    → request_of (some word) param ≡ none
request_of-other word none not_play not_stop = refl
request_of-other word (some param) not_play not_stop = rw (not_play, not_stop) refl

module _ (regex : Regex) (host : Host) (tag_reader : TagReader)
    (table : HashTable (RegEntryWithCtx Process OpContext)) (parser : ParseCtx table) (u u' : World)
    (registers : register_operations host tag_reader table u ≡ some (parser, u')) where
  -- A handler that does not run without an argument has run on the argument of the message.
  argued :
      (op : Option Bytes → Action Bytes) (text reply : Bytes) (w v : World)
      → op none w ≡ none
      → parse_message table regex parser text (some w)
        ≡ run_handler (op (command_param regex text)) (some w)
      → parse_message table regex parser text (some w) ≡ (reply, some v)
      → (param : Bytes) × (command_param regex text ≡ some param)
        × (op (some param) w ≡ some (reply, v))
  argued op text reply w v aborts ran e =
      let made = run_handler-some (op (command_param regex text)) w v reply (sym ran ∙ e) in
      elim (Option-cases (command_param regex text)) [
        | inl missing ↦
            let none_is = sym aborts ∙ ap (λ p. op p w) (sym missing) ∙ made in absurd (cc)
        | inr (param, is) ↦ (param, is, ap (λ p. op p w) (sym is) ∙ made)
      ]

  plays :
      (text reply : Bytes) (w v : World)
      → command_word regex text ≡ some (codes "PLAY")
      → parse_message table regex parser text (some w) ≡ (reply, some v)
      → (uri : Bytes) × (command_param regex text ≡ some uri)
        × (respond host (play_uri uri) w ≡ some (reply, v))
  unfolding op_play_parse
  plays text reply w v word =
      let (ping, pubsub, quit, tags, play, stop, dumpgraph, rest) =
        register_operations-commands host tag_reader table parser u u' registers in
      argued (λ p. op_play_parse host p playback) text reply w v refl
        (parse_message_word table regex parser text _ _ word play (some w))

  stops :
      (text reply : Bytes) (w v : World)
      → command_word regex text ≡ some (codes "STOP")
      → parse_message table regex parser text (some w) ≡ (reply, some v)
      → (param : Bytes) × (command_param regex text ≡ some param)
        × (respond host (stop_player param) w ≡ some (reply, v))
  unfolding op_stop_parse
  stops text reply w v word =
      let (ping, pubsub, quit, tags, play, stop, dumpgraph, rest) =
        register_operations-commands host tag_reader table parser u u' registers in
      argued (λ p. op_stop_parse host p playback) text reply w v refl
        (parse_message_word table regex parser text _ _ word stop (some w))

  leaves :
      (text reply : Bytes) (w v : World)
      → command_word regex text ≢ some (codes "PLAY")
      → command_word regex text ≢ some (codes "STOP")
      → parse_message table regex parser text (some w) ≡ (reply, some v)
      → SameSources w v
  leaves text reply w v not_play not_stop e =
      parse_message-Keeps SameSources-frame host tag_reader table regex parser u u' w v text reply
        registers (λ word w. refl) (λ word. absurd (not_play word)) (λ word. absurd (not_stop word))
        e

  -- A message does what it asks of the players, or leaves the sources alone.
  parse_message-request :
      (text reply : Bytes) (w v : World)
      → parse_message table regex parser text (some w) ≡ (reply, some v)
      → ((request regex text ≡ none) × SameSources w v)
        ⊎ ((r : Request) × (request regex text ≡ some r) × (respond host r w ≡ some (reply, v)))
  parse_message-request text reply w v e = elim (Option-cases (command_word regex text)) [
    | inl missing ↦ inl (
      ap (λ o. request_of o (command_param regex text)) missing,
      leaves text reply w v (λ is. cc) (λ is. cc) e,
    )
    | inr (k, word) ↦ go k word
  ]
    where
      asks :
          (k : Bytes) (r : Option Request) (p : Option Bytes)
          → command_word regex text ≡ some k
          → command_param regex text ≡ p
          → request_of (some k) p ≡ r
          → request regex text ≡ r
      asks k r p word param is =
          ap (λ o. request_of o (command_param regex text)) word
          ∙ ap (request_of (some k)) param
          ∙ is

      go :
          (k : Bytes)
          → command_word regex text ≡ some k
          → ((request regex text ≡ none) × SameSources w v)
            ⊎ ((r : Request) × (request regex text ≡ some r) × (respond host r w ≡ some (reply, v)))
      go k word =
          let same : (s : Bytes) → str_equal s k ≡ true → command_word regex text ≡ some s =
            λ s is. word ∙ ap (λ x. some x) (sym ((str_equal_iff s k).0 is)) in
          let other : (s : Bytes) → str_equal s k ≡ false → command_word regex text ≢ some s =
            λ s not is. let k_is : s ≡ k = cc in cc (not, (str_equal_iff s k).1 k_is) in
          elim (Bool-cases (str_equal (codes "PLAY") k)) [
            | inl is ↦
                let (uri, param, ran) = plays text reply w v (same _ is) e in
                inr (play_uri uri, asks k _ _ word param (rw is refl), ran)
            | inr not_play ↦ elim (Bool-cases (str_equal (codes "STOP") k)) [
              | inl is ↦
                  let (id, param, ran) = stops text reply w v (same _ is) e in
                  inr (stop_player id, asks k _ _ word param (rw (not_play, is) refl), ran)
              | inr not_stop ↦ inl (
                asks k none _ word refl (request_of-other k _ not_play not_stop),
                leaves text reply w v (other _ not_play) (other _ not_stop) e,
              )
            ]
          ]

  -- Whatever messages a server of the registered plugins is sent, and as long as no handler aborts,
  -- when each PLAY is given memory that no source uses, from sources at distinct addresses that are
  -- some players: the replies to PLAY and STOP are the answers of the list of players to these
  -- requests, whatever the replies to all other messages, which leave the list alone, and the
  -- sources that remain are the players that remain.
  pub Serves-Tells :
      (w w' : World) (players : List Player) (exchanged : List (Bytes × Bytes))
      → Serves regex host tag_reader table parser w exchanged w'
      → ArePlayers host w.playback.sources players
      → HasDistinctAddresses w.playback.sources
      → (last : List Player) × Tells regex players exchanged last
        × ArePlayers host w'.playback.sources last
  Serves-Tells w w' players exchanged idle are distinct = (players, silent, are)
  Serves-Tells w w' players exchanged (served {v} {text} {reply} e fresh more) are distinct =
      elim (parse_message-request text reply w v e) [
        | inl (nothing, same) ↦
            let (last, tells, finally) =
              Serves-Tells v w' players _ more
                (subst (λ xs. ArePlayers host xs players) (sym same) are)
                (subst HasDistinctAddresses (sym same) distinct) in
            (last, unasked nothing tells, finally)
        | inr (r, asks, ran) ↦
            let free = subst (λ o. IsServed regex host tag_reader table parser o w) asks fresh in
            let (left, answer, now) = respond-Answers host r reply w v players are distinct ran in
            let (last, tells, finally) = Serves-Tells v w' left _ more now (
              Step-HasDistinctAddresses host w v (respond-Step host r reply w v ran free)
                distinct) in
            (last, asked r asks answer tells, finally)
      ]
