-- ===== src/Daemon/Main.antt =====
-- `main` of src/gst_playd.c: the start, the main loop on a list of what happens, and the end. The
-- option parser, the ZeroMQ context and the main loop of GLib are outside; the main loop calls the
-- timer, the signal handlers and the watch of the bus one at a time.
use gst_playd.Base.{ℕ, Bool, true, false, Option, none, some, List, [], ◌∷◌, ◌++◌, Bytes, codes}
use gst_playd.Base.{if◌then◌else◌}
use gst_playd.Daemon.Messages.{TimerClosure, handle_incoming_messages, handle_sigint}
use gst_playd.Daemon.Sockets.{zeromq_address_from_port, create_server_socket, create_pubsub_socket}
use gst_playd.Glib.HashTable.{HashTable}
use gst_playd.Glib.Regex.{Regex}
use gst_playd.Host.{
  Options, Pointer, zmq_ctx_destroy, setenv, PubsubCtx, Received, Host, World, g_print,
}
use gst_playd.Host.Actions.{
  current_directory, parse_options, new_context, lift, Action, pure, modify, ◌>>=◌, ◌>>◌, perform,
}
use gst_playd.Operations.{OpContext, services, Process, print, unless_aborted, services_pub_sub}
use gst_playd.Operations.Control.{op_control_new, op_control_register, op_control_free}
use gst_playd.Operations.Ping.{op_ping_new, op_ping_register, op_ping_free}
use gst_playd.Operations.Play.Handlers.{
  PipelineMessage, playback_bus_callback, start_playback, free_playback, op_playback_register,
}
use gst_playd.Operations.Play.TagsPipeline.{TagReader}
use gst_playd.Parser.{ParserPluginEntry, RegEntryWithCtx, ParseCtx, parse_new, parse_free}
use gst_playd.Parser.Register.{register_all}
use gst_playd.Pubsub.{localhost, pubsub_new, pubsub_free}
use gst_playd.Utility.Sockets.{util_send_reqrep_msg, util_close_socket}

-- What the main loop reacts to: the timer, with what has come in on the polled socket by then, a
-- signal, or a message on the bus of the playback pipeline.
pub data Event : Type 0 where
  timer : List Received → Event
  signal : Event
  bus : PipelineMessage → Event

module _ (host : Host) (tag_reader : TagReader) where
  abbrev pub ping_plugin : ParserPluginEntry Process OpContext
  ping_plugin = record {
    friendly_name = codes "Ping";
    context = services;
    plugin_new = op_ping_new;
    plugin_register = op_ping_register;
    plugin_free = op_ping_free;
  }

  abbrev pub control_plugin : ParserPluginEntry Process OpContext
  control_plugin = record {
    friendly_name = codes "Control";
    context = services;
    plugin_new = op_control_new;
    plugin_register = op_control_register;
    plugin_free = op_control_free;
  }

  abbrev pub playback_plugin : ParserPluginEntry Process OpContext
  playback_plugin = record {
    friendly_name = codes "Playback";
    context = services;
    plugin_new = start_playback host;
    plugin_register = op_playback_register host tag_reader;
    plugin_free = free_playback host;
  }

  -- Each `context` is set to the services before the plugins are registered.
  abbrev pub parser_operations : List (ParserPluginEntry Process OpContext)
  parser_operations = ping_plugin ∷ control_plugin ∷ playback_plugin ∷ []

  module _ (table : HashTable (RegEntryWithCtx Process OpContext)) where
    abbrev pub with_process : ParseCtx table × Process → Option (ParseCtx table × World)
    with_process (parser, none) = none
    with_process (parser, some w) = some (parser, w)

    abbrev pub register_operations : Action (ParseCtx table)
    register_operations w =
        with_process (register_all table print (parse_new table) parser_operations (some w))

  module _ (table : HashTable (RegEntryWithCtx Process OpContext)) (regex : Regex) where
    -- `main` returns with a code, or goes on to the main loop.
    pub data Started : Type 0 where
      exit : ℕ → Started
      running : TimerClosure table regex → Started

    unfoldable pub send_client_message : Bytes → ℕ → Action Started
    unfolding util_send_reqrep_msg
    send_client_message text icecast_port = do
      msg ← util_send_reqrep_msg host text (zeromq_address_from_port localhost icecast_port)
      elim msg [
        | none ↦ pure (exit 1)
        | some m ↦ do perform (g_print (m ++ codes "\n")); pure (exit 0)
      ]

    unfoldable pub start_listener : ℕ → Action Started
    unfolding create_pubsub_socket
    start_listener icecast_port = do
      sock ← create_pubsub_socket host icecast_port
      elim sock [
        | none ↦ pure (exit 0)
        | some s ↦
            pure (running (record { zmq_socket = some s; parse_ctx = none; pubsub_mode = true }))
      ]

    -- The code once the context of the events is made, or not.
    unfoldable pub serve_events : ℕ → Option PubsubCtx → Action Started
    unfolding create_server_socket
    serve_events icecast_port none = pure (exit 0)
    serve_events icecast_port (some pub_sub) = do
      modify (λ w. record w { pub_sub = some pub_sub })
      parser ← register_operations table
      sock ← create_server_socket host icecast_port
      pure (running (record { zmq_socket = sock; parse_ctx = some parser; pubsub_mode = false }))

    unfoldable pub start_server : ℕ → Action Started
    unfolding pubsub_new serve_events
    start_server icecast_port = pubsub_new host icecast_port >>= serve_events icecast_port

    unfoldable pub start : Options → Action Started
    unfolding send_client_message start_listener start_server
    start options = elim options.client_message [
      | some text ↦ send_client_message text options.icecast_port
      | none ↦
          if options.pubsub_listen
          then start_listener options.icecast_port
          else start_server options.icecast_port
    ]

    -- One dispatch of the main loop: whether it goes on.
    unfoldable pub dispatch_event : TimerClosure table regex → Event → Action Bool
    unfolding handle_incoming_messages handle_sigint playback_bus_callback
    dispatch_event closure (timer rs) = do
      (stays, left) ← handle_incoming_messages table regex closure rs
      pure stays
    dispatch_event closure signal = handle_sigint
    dispatch_event closure (bus m) = playback_bus_callback m

    -- Whether the loop has been quit when the events are used up.
    unfoldable pub g_main_loop_run : TimerClosure table regex → List Event → Action Bool
    unfolding dispatch_event
    g_main_loop_run closure [] = pure false
    g_main_loop_run closure (e ∷ es) = dispatch_event closure e >>= λ goes_on.
        if goes_on then g_main_loop_run closure es else pure true

    -- `parse_free` frees the plugins, which run in the process.
    unfoldable pub free_parser : ParseCtx table → Action (Unit {0})
    free_parser parser w = unless_aborted (parse_free table parser (some w))

    -- The parser and the PUB socket of a server are freed.
    unfoldable pub free_server : Option (ParseCtx table) → Action (Unit {0})
    unfolding free_parser pubsub_free
    free_server none = pure tt
    free_server (some parser) = do
      free_parser parser
      pub_sub ← services_pub_sub
      pubsub_free host pub_sub

    -- From the end of the main loop to the return.
    unfoldable pub shut_down : TimerClosure table regex → Action ℕ
    unfolding free_server util_close_socket
    shut_down closure = do
      free_server closure.parse_ctx
      closed ← util_close_socket host closure.zmq_socket
      pure 0

    -- The main loop on the events, and the end once it has been quit.
    unfoldable pub run_and_end : List Event → Started → Action (Option ℕ)
    unfolding g_main_loop_run shut_down
    run_and_end events (exit code) = pure (some code)
    run_and_end events (running closure) = do
      quit ← g_main_loop_run closure events
      if quit then (do code ← shut_down closure; pure (some code)) else pure none

    -- The code once the ZeroMQ context is made, up to its end; the closure of the timer is set up first.
    unfoldable pub run_options : Options → List Event → Action (Option ℕ)
    unfolding start run_and_end
    run_options options events =
        modify (λ w. record w { should_quit = false })
        >> (start options >>= λ started. run_and_end events started)

    -- The ZeroMQ context, where there is one, is destroyed before the process exits with a code.
    unfoldable pub end_process : Pointer → Option ℕ → Action (Option ℕ)
    end_process zmq_ctx none = pure none
    end_process none (some code) = pure (some code)
    end_process (some c) (some code) = do perform (zmq_ctx_destroy (some c)); pure (some code)

    -- The code that the process exits with; `none` while it still waits for events. A directory that
    -- does not fit its buffer leaves the buffer unset, which is then read; options that cannot be
    -- parsed end in `g_error`.
    unfoldable pub main : List Bytes → List Event → Action (Option ℕ)
    unfolding run_options end_process
    main argv events = do
      cwd ← current_directory host
      dot_dir ← lift cwd
      perform (setenv (codes "GST_DEBUG_DUMP_DOT_DIR") dot_dir false)
      parsed ← parse_options host argv
      options ← lift parsed
      zmq_ctx ← new_context host
      code ← run_options options events
      end_process zmq_ctx code
