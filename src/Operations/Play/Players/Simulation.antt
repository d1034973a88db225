-- ===== src/Operations/Play/Players/Simulation.antt =====
-- PLAY and STOP of src/operations/play.c keep what they promise of the players.
use gst_playd.Base.{ℕ, ◌≡◌, ◌≢◌, refl, ap, ◌∙◌, sym, subst, arith, none, some, List, [], ◌∷◌, Bytes}
use gst_playd.Base.{Bool-cases, inl, inr, ◌⊎◌, ◌==◌, if◌then◌else◌}
use gst_playd.Base.Decimal.{atoll, to_guint}
use gst_playd.Host.{Host, SourceItem, World}
use gst_playd.Host.Actions.{lift->>=}
use gst_playd.Operations.{playback}
use gst_playd.Operations.Play.Handlers.{op_play_parse, op_stop_parse, stop_source}
use gst_playd.Operations.Play.Invariant.{
  IsFree, HasDistinctAddresses, Step, play, stop, Step-HasDistinctAddresses, stop_source-none,
  stop_source-some,
}
use gst_playd.Operations.Play.Players.{
  Player, Request, play_uri, stop_player, without, keep, Answers, plays, stops, refuses,
  Conversation, silent, answered, ArePlayers, IsFresh, respond, Responds, idle, responded,
}
use gst_playd.Operations.Play.Sources.{found_or, source_item_from_id, remove_source}
use gst_playd.Operations.Play.Stop.{remove_source-newest, op_play_parse-source}

remove_source-other :
    (x item : SourceItem) (items : List SourceItem)
    → x.address ≢ item.address
    → remove_source (x ∷ items) item ≡ x ∷ remove_source items item
unfolding remove_source
remove_source-other x item items ne = ground arith

module _ (host : Host) where
  -- What the search for a number finds among the sources of some players.
  Found : List SourceItem → List Player → ℕ → Type 0
  Found items players id =
      ((source_item_from_id host items id ≡ some none) × (without id players ≡ none))
      ⊎ ((item : SourceItem) × (left : List Player) × (source_item_from_id host items id
            ≡ some (some item))
          × (without id players ≡ some left)
          × ArePlayers host (remove_source items item) left
          × ((a : ℕ) → IsFree a items → item.address ≢ a))

  source_item_from_id-without :
      (items : List SourceItem) (players : List Player) (id : ℕ)
      → ArePlayers host items players
      → HasDistinctAddresses items
      → Found items players id
  unfolding source_item_from_id without remove_source Found
  source_item_from_id-without [] [] id are distinct = inl (refl, refl)
  source_item_from_id-without [] (player ∷ players) id are distinct = absurd are
  source_item_from_id-without (x ∷ items) [] id are distinct = absurd are
  source_item_from_id-without (x ∷ items) (player ∷ players) id ((has, same), are)
        (free, distinct) =
      elim (Bool-cases (player.0 == id)) [
        | inl this ↦ inr (
          x,
          players,
          ap (found_or id x (source_item_from_id host items id)) has
              ∙ ap (λ b. if b then some (some x) else source_item_from_id host items id) this,
          ap (λ b. if b then some players else keep player (without id players)) this,
          subst (λ xs. ArePlayers host xs players) (sym (remove_source-newest host x items)) are,
          λ a (ne, rest). ne,
        )
        | inr not_this ↦
            let next =
              ap (found_or id x (source_item_from_id host items id)) has
              ∙ ap (λ b. if b then some (some x) else source_item_from_id host items id) not_this in
            let skips =
              ap (λ b. if b then some players else keep player (without id players)) not_this in
            elim (source_item_from_id-without items players id are distinct) [
              | inl (absent, unknown) ↦ inl (next ∙ absent, skips ∙ ap (keep player) unknown)
              | inr (item, left, found, known, remain, apart) ↦ inr (
                item,
                player ∷ left,
                next ∙ found,
                skips ∙ ap (keep player) known,
                subst (λ xs. ArePlayers host xs (player ∷ left))
                    (sym (remove_source-other x item items (λ e. apart x.address free (sym e))))
                    ((has, same), remain),
                λ a (ne, rest). apart a rest,
              )
            ]
      ]

  stop_player-Answers :
      (param reply : Bytes) (w v : World) (players : List Player)
      → ArePlayers host w.playback.sources players
      → HasDistinctAddresses w.playback.sources
      → op_stop_parse host (some param) playback w ≡ some (reply, v)
      → (left : List Player) × Answers players (stop_player param) reply left
        × ArePlayers host v.playback.sources left
  unfolding op_stop_parse Found
  stop_player-Answers param reply w v players are distinct e =
      let id = to_guint (atoll param) in
      let (found, searched, rest) =
        lift->>= (source_item_from_id host w.playback.sources id) (stop_source host w.playback id) w
          e in
      elim (source_item_from_id-without w.playback.sources players id are distinct) [
        | inl (absent, unknown) ↦
            let nothing : found ≡ none = cc in
            let (failed, same) =
              stop_source-none host w.playback id w v reply
                (ap (λ f. stop_source host w.playback id f w) (sym nothing) ∙ rest) in
            (
              players,
              subst (λ r. Answers players (stop_player param) r players) (sym failed)
                  (refuses unknown),
              subst (λ u. ArePlayers host u.playback.sources players) (sym same) are,
            )
        | inr (item, left, is_found, known, remain, apart) ↦
            let this : found ≡ some item = cc in
            let (replied, removed) =
              stop_source-some host w.playback id item w v reply
                (ap (λ f. stop_source host w.playback id f w) (sym this) ∙ rest) in
            (
              left,
              subst (λ r. Answers players (stop_player param) r left) (sym replied) (stops known),
              subst (λ xs. ArePlayers host xs left) (sym removed) remain,
            )
      ]

  play_uri-Answers :
      (uri reply : Bytes) (w v : World) (players : List Player)
      → ArePlayers host w.playback.sources players
      → op_play_parse host (some uri) playback w ≡ some (reply, v)
      → (left : List Player) × Answers players (play_uri uri) reply left
        × ArePlayers host v.playback.sources left
  play_uri-Answers uri reply w v players are e =
      let (item, id, same_uri, at, has, context, replied) =
        op_play_parse-source host uri reply w v e in
      let sources : v.playback.sources ≡ item ∷ w.playback.sources = ap (λ c. c.sources) context in
      (
        (id, uri) ∷ players,
        subst (λ r. Answers players (play_uri uri) r ((id, uri) ∷ players)) (sym replied)
            (plays id),
        subst (λ xs. ArePlayers host xs ((id, uri) ∷ players)) (sym sources) ((has, same_uri), are),
      )

  pub respond-Answers :
      (request : Request) (reply : Bytes) (w v : World) (players : List Player)
      → ArePlayers host w.playback.sources players
      → HasDistinctAddresses w.playback.sources
      → respond host request w ≡ some (reply, v)
      → (left : List Player) × Answers players request reply left
        × ArePlayers host v.playback.sources left
  respond-Answers (play_uri uri) reply w v players are distinct e =
      play_uri-Answers uri reply w v players are e
  respond-Answers (stop_player param) reply w v players are distinct e =
      stop_player-Answers param reply w v players are distinct e

  pub respond-Step :
      (request : Request) (reply : Bytes) (w v : World)
      → respond host request w ≡ some (reply, v)
      → IsFresh host request w
      → Step host w v
  respond-Step (play_uri uri) reply w v e free = play uri reply e free
  respond-Step (stop_player param) reply w v e free = stop param reply e

  -- Whatever replies the daemon makes to PLAYs and STOPs, when each PLAY is given memory that no
  -- source uses, from sources at distinct addresses that are some players: they are the answers of
  -- the list of players to these requests, and the sources that remain are the players that remain.
  -- A PLAY adds a player with its URI and the number of the reply, a STOP takes out the newest
  -- player with its number, and fails, changing nothing, where no player has it.
  pub Responds-Conversation :
      (w w' : World) (players : List Player) (exchanged : List (Request × Bytes))
      → Responds host w exchanged w'
      → ArePlayers host w.playback.sources players
      → HasDistinctAddresses w.playback.sources
      → (last : List Player) × Conversation players exchanged last
        × ArePlayers host w'.playback.sources last
  Responds-Conversation w w' players exchanged idle are distinct = (players, silent, are)
  Responds-Conversation w w' players exchanged (responded {v} {request} {reply} e free more) are
        distinct =
      let (left, answer, now) = respond-Answers request reply w v players are distinct e in
      let (last, answers, finally) =
        Responds-Conversation v w' left _ more now
          (Step-HasDistinctAddresses host w v (respond-Step request reply w v e free) distinct) in
      (last, answered answer answers, finally)
