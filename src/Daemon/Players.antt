-- ===== src/Daemon/Players.antt =====
-- What the messages of src/gst_playd.c ask of the players of src/operations/play.c, and what their
-- replies say of them.
pub mod Simulation
use gst_playd.Base.{◌≡◌, Option, none, some, List, [], ◌∷◌, Bytes, codes}
use gst_playd.Base.{str_equal, if◌then◌else◌}
use gst_playd.Glib.HashTable.{HashTable}
use gst_playd.Glib.Regex.{Regex}
use gst_playd.Host.{Host, World}
use gst_playd.Operations.{OpContext, Process}
use gst_playd.Operations.Play.Players.{Player, Request, play_uri, stop_player, Answers, IsFresh}
use gst_playd.Operations.Play.TagsPipeline.{TagReader}
use gst_playd.Parser.{RegEntryWithCtx, ParseCtx, parse_message}
use gst_playd.Parser.Dispatch.{command_word, command_param}

-- What a command word and its argument ask of the players.
abbrev pub request_of : Option Bytes → Option Bytes → Option Request
request_of none param = none
request_of (some word) none = none
request_of (some word) (some param) =
    if str_equal (codes "PLAY") word
    then some (play_uri param)
    else if str_equal (codes "STOP") word
    then some (stop_player param)
    else none

module _ (regex : Regex) where
  -- What a message asks of the players.
  abbrev pub request : Bytes → Option Request
  request text = request_of (command_word regex text) (command_param regex text)

  -- What the replies to some messages say of the players: a message that asks nothing of them may have
  -- any reply.
  pub data Tells : List Player → List (Bytes × Bytes) → List Player → Type 0 where
    silent : {players : List Player} → Tells players [] players
    asked :
        {players left last : List Player} {text reply : Bytes} {more : List (Bytes × Bytes)}
        (r : Request)
        → request text ≡ some r
        → Answers players r reply left
        → Tells left more last
        → Tells players ((text, reply) ∷ more) last
    unasked :
        {players last : List Player} {text reply : Bytes} {more : List (Bytes × Bytes)}
        → request text ≡ none
        → Tells players more last
        → Tells players ((text, reply) ∷ more) last

  module _ (host : Host) (tag_reader : TagReader)
      (table : HashTable (RegEntryWithCtx Process OpContext)) (parser : ParseCtx table) where
    -- A source is given memory that no other uses.
    abbrev pub IsServed : Option Request → World → Type 0
    IsServed none w = Unit {0}
    IsServed (some r) w = IsFresh host r w

    -- The daemon has made the replies to the messages.
    pub data Serves : World → List (Bytes × Bytes) → World → Type 0 where
      idle : {w : World} → Serves w [] w
      served :
          {w v w' : World} {text reply : Bytes} {more : List (Bytes × Bytes)}
          → parse_message table regex parser text (some w) ≡ (reply, some v)
          → IsServed (request text) w
          → Serves v more w'
          → Serves w ((text, reply) ∷ more) w'
