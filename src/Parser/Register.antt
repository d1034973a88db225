-- ===== src/Parser/Register.antt =====
-- Registration in src/parser.c: what the table and the list of plugins hold afterwards.
use gst_playd.Base.{
  ◌≡◌, refl, ap, ◌∙◌, sym, arith, Bool, true, false, Option, none, some, List, [], ◌∷◌, ◌++◌,
}
use gst_playd.Base.{
  Bytes, All, str_equal, if◌then◌else◌, Option-cases, inl, inr, reverse, append_assoc, append-nil,
}
use mathlib.Core.List.{foldl, reverse-cons}
use gst_playd.Glib.HashTable.{HashTable}
use gst_playd.Parser.{
  MessageDispatchEntry, ParserPluginEntry, RegEntryWithCtx, PluginEntryWithCtx, ParseCtx, parse_new,
  free_plugins, parse_free, register_messages, register_with, parse_register_plugin,
  registered_text,
}

module _ {World Ctx : Type 0} (table : HashTable (RegEntryWithCtx World Ctx)) where
  -- The entry that the messages of a plugin give for a prefix: the last of them counts.
  abbrev pub entry_of :
      Ctx → Bytes → List (MessageDispatchEntry World Ctx) → Option (RegEntryWithCtx World Ctx)
  entry_of ctx k [] = none
  entry_of ctx k (msg ∷ msgs) = elim (entry_of ctx k msgs) [
    | some e ↦ some e
    | none ↦
        if str_equal msg.prefix k
        then some (record { prefix = msg.prefix; plugin_context = ctx; parser = msg.op_parse })
        else none
  ]

  pub entry_of-none :
      (ctx : Ctx) (k : Bytes) (msgs : List (MessageDispatchEntry World Ctx))
      → All (λ msg. str_equal msg.prefix k ≡ false) msgs
      → entry_of ctx k msgs ≡ none
  entry_of-none ctx k [] others = refl
  entry_of-none ctx k (msg ∷ msgs) (other, others) =
      rw (entry_of-none ctx k msgs others, other) refl

  abbrev pub or_else : {A : Type 0} → Option A → Option A → Option A
  or_else none b = b
  or_else (some a) b = some a

  pub lookup-register_messages :
      (ctx : Ctx) (k : Bytes) (msgs : List (MessageDispatchEntry World Ctx)) (t : table.Table)
      → table.lookup k (register_messages table ctx msgs t)
        ≡ or_else (entry_of ctx k msgs) (table.lookup k t)
  unfolding register_messages
  lookup-register_messages ctx k [] t = refl
  lookup-register_messages ctx k (msg ∷ msgs) t =
      lookup-register_messages ctx k msgs _ ∙ go (entry_of ctx k msgs)
    where
      new : RegEntryWithCtx World Ctx
      new = record { prefix = msg.prefix; plugin_context = ctx; parser = msg.op_parse }

      go :
          (o : Option (RegEntryWithCtx World Ctx))
          → or_else o (table.lookup k (table.insert msg.prefix new t))
            ≡ or_else
                (elim o [
                  | some e ↦ some e
                  | none ↦ if str_equal msg.prefix k then some new else none
                ])
                (table.lookup k t)
      go (some e) = refl
      go none = ground (arith, table.lookup-insert msg.prefix k new t)

  -- What a plugin registers: nothing if it refuses.
  abbrev pub messages_of :
      Option (List (MessageDispatchEntry World Ctx)) → List (MessageDispatchEntry World Ctx)
  messages_of none = []
  messages_of (some msgs) = msgs

  module _ (print : Bytes → World → World) where
    -- What is registered for a prefix after `parse_register_plugin`, whose `plugin_new` made `ctx`:
    -- the last message of the plugin with this prefix, if it registers one, or else what was there
    -- before.
    pub lookup-parse_register_plugin :
        (parser : ParseCtx table) (plugin : ParserPluginEntry World Ctx) (k : Bytes) (w : World)
        → let ctx = (plugin.plugin_new plugin.context w).0 in
          table.lookup k (parse_register_plugin table print parser plugin w).1.message_table
          ≡ or_else
              (entry_of ctx k (messages_of (plugin.plugin_register ctx)))
              (table.lookup k parser.message_table)
    unfolding parse_register_plugin
    lookup-parse_register_plugin parser plugin k w =
        let ctx = (plugin.plugin_new plugin.context w).0 in
        elim (Option-cases (plugin.plugin_register ctx)) [
          | inl e ↦ rw (register_with, e)
          | inr (msgs, e) ↦
              rw (register_with, e) (lookup-register_messages ctx k msgs parser.message_table)
        ]

    -- A plugin that refuses is freed, and leaves no trace in the parser.
    pub parse_register_plugin-refused :
        (parser : ParseCtx table) (plugin : ParserPluginEntry World Ctx) (w : World)
        → let (ctx, w') = plugin.plugin_new plugin.context w in
          plugin.plugin_register ctx ≡ none
          → parse_register_plugin table print parser plugin w
            ≡ (false, parser, plugin.plugin_free ctx w')
    unfolding parse_register_plugin
    parse_register_plugin-refused parser plugin w e = rw (register_with, e)

    -- The loop of `main` over `parser_operations`.
    unfoldable pub register_all :
        ParseCtx table → List (ParserPluginEntry World Ctx) → World → ParseCtx table × World
    register_all parser [] w = (parser, w)
    register_all parser (op ∷ ops) w =
        let (done, parser', w') = parse_register_plugin table print parser op w in
        register_all parser' ops w'

    -- The plugins that register, oldest first, each with its context.
    abbrev pub registered :
        List (ParserPluginEntry World Ctx) → World → List (PluginEntryWithCtx World Ctx)
    registered [] w = []
    registered (op ∷ ops) w =
        let (ctx, w') = op.plugin_new op.context w in
        elim (op.plugin_register ctx) [
          | none ↦ registered ops (op.plugin_free ctx w')
          | some msgs ↦
              record { ctx = ctx; plugin_free = op.plugin_free }
              ∷ registered ops (print (registered_text table op) w')
        ]

    parse_register_plugin_accepted :
        (parser : ParseCtx table) (plugin : ParserPluginEntry World Ctx) (w : World)
        → let (ctx, w') = plugin.plugin_new plugin.context w in
          (msgs : List (MessageDispatchEntry World Ctx))
          → plugin.plugin_register ctx ≡ some msgs
          → parse_register_plugin table print parser plugin w ≡ (
            true,
            record {
              message_table = register_messages table ctx msgs parser.message_table;
              plugin_list =
                  record { ctx = ctx; plugin_free = plugin.plugin_free } ∷ parser.plugin_list;
            },
            print (registered_text table plugin) w',
          )
    unfolding parse_register_plugin
    parse_register_plugin_accepted parser plugin w msgs e = rw (register_with, e)

    -- What is left to register once the first plugin has been tried.
    rest_of : List (ParserPluginEntry World Ctx) → Bool × ParseCtx table × World → ParseCtx table
    rest_of ops r = (register_all r.1 ops r.2).0

    free_plugins-foldl :
        (es : List (PluginEntryWithCtx World Ctx)) (w : World)
        → free_plugins table es w ≡ foldl (λ v e. e.plugin_free e.ctx v) w es
    unfolding free_plugins
    free_plugins-foldl [] w = refl
    free_plugins-foldl (e ∷ es) w = free_plugins-foldl es (e.plugin_free e.ctx w)

    plugin_list-register_all :
        (ops : List (ParserPluginEntry World Ctx)) (parser : ParseCtx table) (w : World)
        → (register_all parser ops w).0.plugin_list
          ≡ reverse (registered ops w) ++ parser.plugin_list
    unfolding register_all rest_of
    plugin_list-register_all [] parser w = refl
    plugin_list-register_all (op ∷ ops) parser w =
        let (ctx, w') = op.plugin_new op.context w in
        let entry : PluginEntryWithCtx World Ctx = record {
          ctx = ctx;
          plugin_free = op.plugin_free;
        } in
        elim (Option-cases (op.plugin_register ctx)) [
          | inl e ↦
              ap (λ r. (rest_of ops r).plugin_list) (parse_register_plugin-refused parser op w e)
              ∙ plugin_list-register_all ops parser (op.plugin_free ctx w')
              ∙ rw (registered, e)
          | inr (msgs, e) ↦
              ap (λ r. (rest_of ops r).plugin_list)
                (parse_register_plugin_accepted parser op w msgs e)
              ∙ plugin_list-register_all ops _ (print (registered_text table op) w')
              ∙ sym (
                  append_assoc (reverse (registered ops (print (registered_text table op) w')))
                    (entry ∷ []) parser.plugin_list)
              ∙ ap (λ es. es ++ parser.plugin_list)
                  (sym (reverse-cons entry (registered ops (print (registered_text table op) w'))))
              ∙ rw (registered, e)
        ]

    -- After the plugins of a list are registered with a new parser, `parse_free` calls `plugin_free`
    -- for each of those that registered, once, newest first, and for no other.
    pub parse_free-register_all :
        (ops : List (ParserPluginEntry World Ctx)) (w end : World)
        → parse_free table (register_all (parse_new table) ops w).0 end
          ≡ foldl (λ v e. e.plugin_free e.ctx v) end (reverse (registered ops w))
    unfolding parse_free
    parse_free-register_all ops w end =
        ap (λ es. free_plugins table es end)
          (plugin_list-register_all ops (parse_new table) w
            ∙ append-nil (reverse (registered ops w)))
        ∙ free_plugins-foldl (reverse (registered ops w)) end
