-- ===== src/Examples/Asked.antt =====
-- Messages to a server of src/gst_playd.c, of which some ask for players.
use gst_playd.Base.{refl, none, some, List, [], ◌∷◌, codes, Bytes, str_equal}
use gst_playd.Base.Decimal.{format_unsigned, atoll, to_guint}
use gst_playd.Daemon.Players.{Tells, Serves, idle, served}
use gst_playd.Daemon.Players.Simulation.{Serves-Tells}
use gst_playd.Examples.Events.{publishing}
use gst_playd.Examples.Run.{table, registered, operations_registered}
use gst_playd.Examples.TestHost.{host, blank, titled}
use gst_playd.Glib.Regex.Engine.Search.{run, backtracking}
use gst_playd.Host.{World}
use gst_playd.Operations.Ping.{op_ping_parse}
use gst_playd.Operations.Play.Handlers.{
  op_play_parse, op_stop_parse, stop_source, op_playback_new, op_playback_register,
}
use gst_playd.Operations.Play.Players.{Player, ArePlayers}
use gst_playd.Operations.Play.Sources.{
  source_new_and_link, source_item_to_id, source_item_from_id, remove_source,
  source_free_and_unlink,
}
use gst_playd.Parser.{parse_message, register_messages, parse_register_plugin, register_with}
use gst_playd.Parser.Register.{register_all}
use gst_playd.Pubsub.{pubsub_send_message}

abbrev after : Bytes → World → World
after text w = elim (parse_message table backtracking registered.0 text (some w)).1 [
  | none ↦ blank
  | some v ↦ v
]

abbrev last_world : World
last_world =
    after (codes "STOP 21")
      (after (codes "STOP 21") (after (codes "PING x") (after (codes "PLAY file:///a") publishing)))

-- One that plays, one that asks for no player, one that stops it, and one that finds none.
abbrev exchanged : List (Bytes × Bytes)
exchanged =
    (codes "PLAY file:///a", codes "OK player id: 21")
    ∷ (codes "PING x", codes "OK Message was x")
    ∷ (codes "STOP 21", codes "OK player id: 21")
    ∷ (codes "STOP 21", codes "FAIL id is invalid")
    ∷ []

exchanged-Serves :
    Serves backtracking host titled table registered.0 publishing exchanged last_world
unfolding register_all parse_register_plugin register_with op_playback_new op_playback_register
    parse_message str_equal run register_messages op_play_parse op_stop_parse source_new_and_link
    source_item_to_id format_unsigned atoll to_guint stop_source source_item_from_id remove_source
    source_free_and_unlink op_ping_parse pubsub_send_message
exchanged-Serves = served refl tt (served refl tt (served refl tt (served refl tt idle)))

Serves-Tells_example :
    (last : List Player) × Tells backtracking [] exchanged last
    × ArePlayers host last_world.playback.sources last
unfolding register_all parse_register_plugin op_playback_register op_playback_new
Serves-Tells_example =
    Serves-Tells backtracking host titled table registered.0 blank registered.1
      operations_registered publishing last_world [] exchanged exchanged-Serves tt tt
