-- ===== src/Daemon/Entries.antt =====
-- What holds of the handlers in src/operations holds of every handler that src/gst_playd.c has
-- registered.
use gst_playd.Base.{
  ◌≡◌, refl, ap, ◌∙◌, sym, subst, Bool, true, false, Option, none, some, List, [], ◌∷◌, Bytes,
}
use gst_playd.Base.{All, str_equal, if◌then◌else◌}
use gst_playd.Daemon.Commands.{message_table-register_operations}
use gst_playd.Daemon.Main.{register_operations}
use gst_playd.Daemon.Registered.{lookup-all_messages}
use gst_playd.Glib.HashTable.{HashTable}
use gst_playd.Host.{Host, World}
use gst_playd.Operations.{OpContext, services, playback, Process}
use gst_playd.Operations.Control.{control_messages}
use gst_playd.Operations.Ping.{ping_messages}
use gst_playd.Operations.Play.Handlers.{playback_messages}
use gst_playd.Operations.Play.TagsPipeline.{TagReader}
use gst_playd.Parser.{MessageDispatchEntry, ParseHandlerCb, RegEntryWithCtx, ParseCtx}
use gst_playd.Parser.Register.{entry_of, or_else}

module _ (P : OpContext → ParseHandlerCb Process OpContext → Type 0)
    (table : HashTable (RegEntryWithCtx Process OpContext)) where
  abbrev Holds : RegEntryWithCtx Process OpContext → Type 0
  Holds e = P e.plugin_context e.parser

  entry_of-Holds :
      (ctx : OpContext) (k : Bytes) (msgs : List (MessageDispatchEntry Process OpContext))
      (e : RegEntryWithCtx Process OpContext)
      → All (λ msg. str_equal msg.prefix k ≡ true → P ctx msg.op_parse) msgs
      → entry_of table ctx k msgs ≡ some e
      → Holds e
  entry_of-Holds ctx k [] e holds is = absurd (cc)
  entry_of-Holds ctx k (msg ∷ msgs) e (holds, others) is =
      go (entry_of table ctx k msgs) (str_equal msg.prefix k)
        (λ later. entry_of-Holds ctx k msgs e others later) refl refl is
    where
      new : RegEntryWithCtx Process OpContext
      new = record { prefix = msg.prefix; plugin_context = ctx; parser = msg.op_parse }

      go :
          (o : Option (RegEntryWithCtx Process OpContext)) (b : Bool)
          → (entry_of table ctx k msgs ≡ some e → Holds e)
          → entry_of table ctx k msgs ≡ o
          → str_equal msg.prefix k ≡ b
          → (elim o as (λ x. Option (RegEntryWithCtx Process OpContext)) [
            | some e ↦ some e
            | none ↦ if b then some new else none
          ])
            ≡ some e
          → Holds e
      go (some f) b ih later test is = ih (later ∙ is)
      go none true ih later test is =
          let same : new ≡ e = cc in subst (λ x. P x.plugin_context x.parser) same (holds test)
      go none false ih later test is = absurd (cc)

  or_else-Holds :
      (o o' : Option (RegEntryWithCtx Process OpContext)) (e : RegEntryWithCtx Process OpContext)
      → (o ≡ some e → Holds e)
      → (o' ≡ some e → Holds e)
      → or_else table o o' ≡ some e
      → Holds e
  or_else-Holds none o' e first next is = next is
  or_else-Holds (some f) o' e first next is = first is

  pub lookup-Holds :
      (host : Host) (tag_reader : TagReader) (parser : ParseCtx table) (u u' : World) (k : Bytes)
      (e : RegEntryWithCtx Process OpContext)
      → register_operations host tag_reader table u ≡ some (parser, u')
      → All
          (λ msg. str_equal msg.prefix k ≡ true → P playback msg.op_parse)
          (playback_messages host tag_reader)
      → All (λ msg. str_equal msg.prefix k ≡ true → P services msg.op_parse) control_messages
      → All (λ msg. str_equal msg.prefix k ≡ true → P services msg.op_parse) ping_messages
      → table.lookup k parser.message_table ≡ some e
      → P e.plugin_context e.parser
  lookup-Holds host tag_reader parser u u' k e registers played controlled pinged found =
      or_else-Holds _ _ e (entry_of-Holds playback k (playback_messages host tag_reader) e played)
        (or_else-Holds _ _ e (entry_of-Holds services k control_messages e controlled) (
          or_else-Holds _ _ e (entry_of-Holds services k ping_messages e pinged)
            (λ nothing. absurd (cc))))
        (sym (lookup-all_messages host tag_reader table k)
          ∙ ap (table.lookup k)
              (sym (message_table-register_operations host tag_reader table parser u u' registers))
          ∙ found)
