-- ===== src/Operations/Play/Players.antt =====
-- What PLAY and STOP of src/operations/play.c promise: a list of players, newest first, each with
-- its number and its URI. The sources, their addresses and the pipeline are forgotten.
pub mod Simulation
use gst_playd.Base.{ℕ, ◌≡◌, Option, none, some, List, [], ◌∷◌, Bytes, codes, if◌then◌else◌, ◌==◌}
use gst_playd.Base.Decimal.{atoll, to_guint}
use gst_playd.Host.{Host, SourceItem, World}
use gst_playd.Host.Actions.{Action}
use gst_playd.Operations.{playback}
use gst_playd.Operations.Play.Handlers.{op_play_parse, op_stop_parse, player_id}
use gst_playd.Operations.Play.Invariant.{IsFree}
use gst_playd.Operations.Play.Sources.{source_item_to_id}

abbrev pub Player : Type 0
Player = ℕ × Bytes

pub data Request : Type 0 where
  play_uri : Bytes → Request
  stop_player : Bytes → Request

abbrev pub keep : Player → Option (List Player) → Option (List Player)
keep player none = none
keep player (some players) = some (player ∷ players)

-- The players without the newest one that has the number, if one has it.
unfoldable pub without : ℕ → List Player → Option (List Player)
without id [] = none
without id (player ∷ players) =
    let rest = without id players in if player.0 == id then some players else keep player rest

-- The answer to a request, and the players that it leaves. The number of a new player is free.
pub data Answers : List Player → Request → Bytes → List Player → Type 0 where
  plays :
      {players : List Player} {uri : Bytes} (id : ℕ)
      → Answers players (play_uri uri) (player_id id) ((id, uri) ∷ players)
  stops :
      {players left : List Player} {param : Bytes}
      → without (to_guint (atoll param)) players ≡ some left
      → Answers players (stop_player param) (player_id (to_guint (atoll param))) left
  refuses :
      {players : List Player} {param : Bytes}
      → without (to_guint (atoll param)) players ≡ none
      → Answers players (stop_player param) (codes "FAIL id is invalid") players

-- The answers to a list of requests.
pub data Conversation : List Player → List (Request × Bytes) → List Player → Type 0 where
  silent : {players : List Player} → Conversation players [] players
  answered :
      {players left last : List Player} {request : Request} {reply : Bytes}
      {more : List (Request × Bytes)}
      → Answers players request reply left
      → Conversation left more last
      → Conversation players ((request, reply) ∷ more) last

module _ (host : Host) where
  -- The player that a source is.
  abbrev pub IsPlayer : SourceItem → Player → Type 0
  IsPlayer item player = (source_item_to_id host item ≡ some player.0) × (item.uri ≡ player.1)

  abbrev pub ArePlayers : List SourceItem → List Player → Type 0
  ArePlayers [] [] = Unit {0}
  ArePlayers (item ∷ items) (player ∷ players) = IsPlayer item player × ArePlayers items players
  ArePlayers items players = ⊥

  abbrev pub respond : Request → Action Bytes
  respond (play_uri uri) = op_play_parse host (some uri) playback
  respond (stop_player param) = op_stop_parse host (some param) playback

  -- A source is given memory that no other uses.
  abbrev pub IsFresh : Request → World → Type 0
  IsFresh (play_uri uri) w = IsFree (host.new_address w.calls) w.playback.sources
  IsFresh (stop_player param) w = Unit {0}

  -- The daemon has made the replies to the requests.
  pub data Responds : World → List (Request × Bytes) → World → Type 0 where
    idle : {w : World} → Responds w [] w
    responded :
        {w v w' : World} {request : Request} {reply : Bytes} {more : List (Request × Bytes)}
        → respond request w ≡ some (reply, v)
        → IsFresh request w
        → Responds v more w'
        → Responds w ((request, reply) ∷ more) w'
