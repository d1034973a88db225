-- ===== src/Daemon/Commands.antt =====
-- The commands that src/gst_playd.c registers.
use gst_playd.Base.{◌≡◌, refl, ap, ◌∙◌, sym, Option, none, some, [], ◌∷◌, Bytes}
use gst_playd.Base.{Option-cases, inl, inr}
use gst_playd.Daemon.Main.{
  ping_plugin, control_plugin, playback_plugin, with_process, register_operations,
}
use gst_playd.Glib.HashTable.{HashTable}
use gst_playd.Host.{Host, World}
use gst_playd.Host.Actions.{Action}
use gst_playd.Operations.{
  OpContext, no_context, services, playback, Process, handler, print, printed,
}
use gst_playd.Operations.Control.{control_messages}
use gst_playd.Operations.Ping.{ping_messages}
use gst_playd.Operations.Play.Created.{op_playback_new-world}
use gst_playd.Operations.Play.Handlers.{
  op_playback_new, playback_messages, op_playback_register, start_playback,
}
use gst_playd.Operations.Play.TagsPipeline.{TagReader}
use gst_playd.Parser.{
  RegEntryWithCtx, ParseCtx, parse_new, register_messages, register_with, parse_register_plugin,
  registered_text,
}
use gst_playd.Parser.Register.{register_all}

module _ (host : Host) (tag_reader : TagReader)
    (table : HashTable (RegEntryWithCtx Process OpContext)) where
  -- The entry of a command.
  abbrev pub entry :
      Bytes
      → OpContext
      → (Option Bytes → OpContext → Action Bytes)
      → RegEntryWithCtx Process OpContext
  entry prefix ctx op = record { prefix = prefix; plugin_context = ctx; parser = handler op }

  abbrev pub all_messages : table.Table
  all_messages = register_messages table playback (playback_messages host tag_reader) (
      register_messages table services control_messages
        (register_messages table services ping_messages table.new))

  start_playback-fails :
      (w : World)
      → op_playback_new host services w ≡ none
      → start_playback host services (some w) ≡ (no_context, none)
  start_playback-fails w e = rw (start_playback, e) refl

  start_playback_lem :
      (ctx : OpContext) (w w1 : World)
      → op_playback_new host services w ≡ some (ctx, w1)
      → start_playback host services (some w) ≡ (ctx, some w1)
  start_playback_lem ctx w w1 e = rw (start_playback, e) refl

  -- The registration of the third plugin, with what its `plugin_new` has left.
  abbrev register_playback : ParseCtx table → OpContext × Process → Option (ParseCtx table × World)
  register_playback parser made =
      let (done, parser', p) =
        register_with table print parser (playback_plugin host tag_reader) made.0 made.1 in
      with_process host tag_reader table (parser', p)

  register_playback-message_table :
      (parser parser' : ParseCtx table) (w w' : World)
      → register_playback parser (playback, some w) ≡ some (parser', w')
      → parser'.message_table
        ≡ register_messages table playback (playback_messages host tag_reader) parser.message_table
  unfolding register_with op_playback_register
  register_playback-message_table parser parser' w w' e =
      ap
        (λ r. elim r as (λ x. table.Table) [
          | none ↦ parser'.message_table
          | some (p, v) ↦ p.message_table
        ])
        (sym e)

  register_playback-fails :
      (parser parser' : ParseCtx table) (w' : World)
      → register_playback parser (no_context, none) ≡ some (parser', w')
      → ⊥
  unfolding register_with op_playback_register
  register_playback-fails parser parser' w' e = cc

  register_playback-world :
      (parser parser' : ParseCtx table) (w w' : World)
      → register_playback parser (playback, some w) ≡ some (parser', w')
      → printed (registered_text table (playback_plugin host tag_reader)) w ≡ w'
  unfolding register_with op_playback_register
  register_playback-world parser parser' w w' e =
      ap (λ r. elim r as (λ x. World) [ none ↦ w | some (p, v) ↦ v ]) e

  -- The world once the first two plugins are registered.
  abbrev pub announced : World → World
  announced w =
      printed (registered_text table (control_plugin host tag_reader))
        (printed (registered_text table (ping_plugin host tag_reader)) w)

  -- Registration has a result only where the playback plugin was made; it leaves what that left, and
  -- has said so.
  pub register_operations-start_playback :
      (parser : ParseCtx table) (w w' : World)
      → register_operations host tag_reader table w ≡ some (parser, w')
      → (v : World) × (op_playback_new host services (announced w) ≡ some (playback, v))
        × (start_playback host services (some (announced w)) ≡ (playback, some v))
        × (w' ≡ printed (registered_text table (playback_plugin host tag_reader)) v)
  unfolding register_all parse_register_plugin
  register_operations-start_playback parser w w' e =
      let two =
        (register_all table print (parse_new table)
          (ping_plugin host tag_reader ∷ control_plugin host tag_reader ∷ []) (some w)).0 in
      elim (Option-cases (op_playback_new host services (announced w))) [
        | inl aborted ↦
            let stopped = ap (register_playback two) (start_playback-fails (announced w) aborted) in
            absurd (register_playback-fails two parser w' (sym stopped ∙ e))
        | inr ((ctx, w1), ran) ↦
            let is : ctx ≡ playback =
              (op_playback_new-world host services ctx (announced w) w1 ran).0 in
            let new : op_playback_new host services (announced w) ≡ some (playback, w1) =
              ran ∙ ap {B = Option (OpContext × World)} (λ c. some (c, w1)) is in
            let made = start_playback_lem playback (announced w) w1 new in
            (
              w1,
              new,
              made,
              sym (
                  register_playback-world two parser w1 w'
                    (sym (ap (register_playback two) made) ∙ e)),
            )
      ]

  pub message_table-register_operations :
      (parser : ParseCtx table) (w w' : World)
      → register_operations host tag_reader table w ≡ some (parser, w')
      → parser.message_table ≡ all_messages
  unfolding register_all parse_register_plugin
  message_table-register_operations parser w w' e =
      let two =
        (register_all table print (parse_new table)
          (ping_plugin host tag_reader ∷ control_plugin host tag_reader ∷ []) (some w)).0 in
      let (v, new, made, left) = register_operations-start_playback parser w w' e in
      register_playback-message_table two parser v w' (sym (ap (register_playback two) made) ∙ e)
