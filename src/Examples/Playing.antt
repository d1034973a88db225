-- ===== src/Examples/Playing.antt =====
-- PLAY and STOP as messages of src/gst_playd.c on the host on which every call succeeds.
use gst_playd.Base.{ℕ, ◌≡◌, refl, arith, some, none, [], ◌∷◌, Bytes, codes, str_equal}
use gst_playd.Base.Decimal.{format_unsigned}
use gst_playd.Daemon.Playing.{play_message, stop_message, parse_message-play-stop}
use gst_playd.Examples.Run.{table, registered, operations_registered}
use gst_playd.Examples.TestHost.{host, blank, titled}
use gst_playd.Glib.Regex.Engine.Search.{run, backtracking}
use gst_playd.Host.{World, SourceItem}
use gst_playd.Operations.{Process}
use gst_playd.Operations.Play.Handlers.{
  op_play_parse, op_playback_new, op_playback_register, player_id, set_sources,
}
use gst_playd.Operations.Play.Stop.{unlinked}
use gst_playd.Parser.{parse_message, register_messages, parse_register_plugin, register_with}
use gst_playd.Parser.Register.{register_all}

abbrev uri : Bytes
uri = codes "file:///a"

abbrev played : Bytes × Process
played = parse_message table backtracking registered.0 (play_message uri) (some blank)

abbrev after_play : World
after_play = elim played.1 [ none ↦ blank | some w ↦ w ]

play_replies :
    parse_message table backtracking registered.0 (play_message uri) (some blank)
    ≡ (codes "OK player id: 21", some after_play)
unfolding register_all parse_register_plugin register_with op_playback_new op_playback_register
    parse_message str_equal run register_messages op_play_parse format_unsigned
play_replies = refl

parse_message-play-stop_example :
    (item : SourceItem) × (id : ℕ) × (item.uri ≡ uri)
    × (after_play.playback ≡ record blank.playback { sources = item ∷ [] })
    × (codes "OK player id: 21" ≡ player_id id)
    × (parse_message table backtracking registered.0 (stop_message id) (some after_play) ≡ (
      codes "OK player id: 21",
      some (record (set_sources [] after_play) {
        calls = unlinked host item after_play.playback after_play.calls;
      }),
    ))
parse_message-play-stop_example =
    parse_message-play-stop host titled table backtracking registered.0 blank registered.1
      operations_registered uri (codes "OK player id: 21") blank after_play (omega arith)
      (omega arith) play_replies refl
