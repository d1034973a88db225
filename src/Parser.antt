-- ===== src/Parser.antt =====
-- src/parser.c and src/parser.h: the plugins that are registered, the table of their messages,
-- and the dispatch of a message. `World` is all that the plugins' functions can change, and
-- `Ctx` is the `void*` that each of them is called with. A pointer to a function is the function;
-- the lists and strings that are freed are values here.
pub mod Register
pub mod Dispatch
use gst_playd.Base.{ℕ, Bool, true, false, Option, none, some, List, [], ◌∷◌, ◌++◌, Bytes, codes}
use gst_playd.Glib.HashTable.{HashTable}
use gst_playd.Glib.Regex.{Regex, message_pattern}

module _ (World Ctx : Type 0) where
  -- `parse_handler_cb`: the reply, and the world that the handler leaves; `none` is `NULL`.
  abbrev pub ParseHandlerCb : Type 0
  ParseHandlerCb = Option Bytes → Ctx → World → Bytes × World

  -- A `NULL` prefix ends a C array of these: here it is the end of a list.
  pub record MessageDispatchEntry : Type 0 where
    pub prefix : Bytes
    pub op_parse : ParseHandlerCb

  -- `plugin_register` stores the entries and returns TRUE, or returns FALSE: `none`.
  pub record ParserPluginEntry : Type 0 where
    pub friendly_name : Bytes
    pub context : Ctx
    pub plugin_new : Ctx → World → Ctx × World
    pub plugin_register : Ctx → Option (List MessageDispatchEntry)
    pub plugin_free : Ctx → World → World

  pub record RegEntryWithCtx : Type 0 where
    pub prefix : Bytes
    pub plugin_context : Ctx
    pub parser : ParseHandlerCb

  pub record PluginEntryWithCtx : Type 0 where
    pub ctx : Ctx
    pub plugin_free : Ctx → World → World

abbrev pub invalid_message : Bytes
invalid_message = codes "FAIL Message is Invalid"

module _ {World Ctx : Type 0} (table : HashTable (RegEntryWithCtx World Ctx)) where
  pub record ParseCtx : Type 0 where
    pub message_table : table.Table
    pub plugin_list : List (PluginEntryWithCtx World Ctx)

  abbrev pub parse_new : ParseCtx
  parse_new = record { message_table = table.new; plugin_list = [] }

  -- `plugin_entry_free` on each entry, from the head of the list.
  unfoldable pub free_plugins : List (PluginEntryWithCtx World Ctx) → World → World
  free_plugins [] w = w
  free_plugins (e ∷ es) w = free_plugins es (e.plugin_free e.ctx w)

  unfoldable pub parse_free : ParseCtx → World → World
  unfolding free_plugins
  parse_free parser w = free_plugins parser.plugin_list w

  -- The loop of `parse_register_plugin` over the plugin's messages.
  unfoldable pub register_messages :
      Ctx → List (MessageDispatchEntry World Ctx) → table.Table → table.Table
  register_messages ctx [] t = t
  register_messages ctx (msg ∷ msgs) t = register_messages ctx msgs (
      table.insert msg.prefix
        (record { prefix = msg.prefix; plugin_context = ctx; parser = msg.op_parse }) t)

  -- "Registered plugin: %s\n"
  abbrev pub registered_text : ParserPluginEntry World Ctx → Bytes
  registered_text plugin = codes "Registered plugin: " ++ (plugin.friendly_name ++ codes "\n")

  -- `print` is what `g_print` does to the world.
  module _ (print : Bytes → World → World) where
    -- The code once `plugin_new` has made `ctx`.
    unfoldable pub register_with :
        ParseCtx → ParserPluginEntry World Ctx → Ctx → World → Bool × ParseCtx × World
    register_with parser plugin ctx w = elim (plugin.plugin_register ctx) [
      | none ↦ (false, parser, plugin.plugin_free ctx w)
      | some msgs ↦ (
        true,
        record {
          message_table = register_messages ctx msgs parser.message_table;
          plugin_list = record { ctx = ctx; plugin_free = plugin.plugin_free } ∷ parser.plugin_list;
        },
        print (registered_text plugin) w,
      )
    ]

    unfoldable pub parse_register_plugin :
        ParseCtx → ParserPluginEntry World Ctx → World → Bool × ParseCtx × World
    unfolding register_with
    parse_register_plugin parser plugin w =
        let (ctx, w') = plugin.plugin_new plugin.context w in register_with parser plugin ctx w'

  -- The call of a handler with the second group.
  unfoldable pub call_handler :
      Option (RegEntryWithCtx World Ctx) → Option Bytes → World → Bytes × World
  call_handler none param w = (invalid_message, w)
  call_handler (some e) param w = e.parser param e.plugin_context w

  unfoldable pub dispatch : ParseCtx → (ℕ → Option Bytes) → World → Bytes × World
  unfolding call_handler
  dispatch parser group w = elim (group 1) [
    | none ↦ (invalid_message, w)
    | some prefix ↦ call_handler (table.lookup prefix parser.message_table) (group 2) w
  ]

  unfoldable pub parse_message : Regex → ParseCtx → Bytes → World → Bytes × World
  unfolding dispatch
  parse_message regex parser message w = elim (regex.match message_pattern message) [
    | none ↦ (invalid_message, w)
    | some group ↦ dispatch parser group w
  ]
