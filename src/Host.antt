-- ===== src/Host.antt =====
-- What is outside the source: the calls of ZeroMQ, GStreamer and GLib that it makes, in the order
-- in which they are made, and a host that chooses their results from the calls before. The state
-- of the daemon, and the actions on it.
pub mod Actions
pub mod Frame
use gst_playd.Base.{ℕ, ◌^◌, ◌<◌, Bool, Option, List, Bytes}

-- A pointer to an object of a library; `none` is NULL.
abbrev pub Pointer : Type 0
Pointer = Option ℕ

pub data SocketKind : Type 0 where
  zmq_req zmq_rep zmq_pub zmq_sub : SocketKind

pub data GstState : Type 0 where
  void_pending null ready paused playing : GstState

-- `other` holds the remaining values of errno.
pub data Errno : Type 0 where
  eagain eintr : Errno
  other : ℕ → Errno

pub data Received : Type 0 where
  message : Bytes → Received
  failed : Errno → Received

-- The options of `main`. The port is the bit pattern of an `int`; `--verbose` is set and never read.
pub record Options : Type 0 where
  pub pubsub_listen : Bool
  pub client_message : Option Bytes
  pub icecast_port : ℕ

-- A call with its arguments and its result, where the code has a use for it.
pub data Call : Type 0 where
  getcwd : Option Bytes → Call
  setenv : Bytes → Bytes → Bool → Call
  g_option_context_parse : List Bytes → Option Options → Call
  zmq_ctx_new : Pointer → Call
  zmq_ctx_destroy : Pointer → Call
  zmq_socket : SocketKind → Pointer → Call
  zmq_linger : Pointer → ℕ → Call
  zmq_subscribe : Pointer → Call
  zmq_bind : Pointer → Bytes → Bool → Call
  zmq_connect : Pointer → Bytes → Bool → Call
  zmq_send : Pointer → Bytes → Call
  zmq_recv : Pointer → Received → Call
  zmq_close : Pointer → Bool → Call
  g_print : Bytes → Call
  g_main_loop_quit : Call
  gst_element_factory_make : Bytes → Pointer → Call
  gst_pipeline_new : Pointer → Call
  gst_bin_add : Pointer → Pointer → Call
  gst_bin_add_many : Pointer → Pointer → Pointer → Pointer → Call
  gst_bin_remove : Pointer → Pointer → Call
  gst_element_link : Pointer → Pointer → Bool → Call
  gst_element_link_many : Pointer → Pointer → Pointer → Bool → Call
  gst_element_unlink_many : Pointer → Pointer → Pointer → Call
  gst_element_set_uri : Pointer → Option Bytes → Call
  gst_element_on_pad_added : Pointer → Pointer → Call
  gst_element_get_state : Pointer → GstState → GstState → Call
  gst_element_set_state : Pointer → GstState → Bool → Call
  gst_element_get_static_pad : Pointer → Pointer → Call
  gst_pad_get_peer : Pointer → Pointer → Call
  gst_element_release_request_pad : Pointer → Pointer → Call
  gst_pad_is_linked : Pointer → Bool → Call
  gst_pad_link : Pointer → Pointer → Bool → Call
  gst_pipeline_get_bus : Pointer → Pointer → Call
  gst_bus_add_watch : Pointer → Call
  gst_debug_bin_to_dot_file : Pointer → Option Bytes → Call
  gst_object_unref : Pointer → Call

-- The choices of the host. A call that reports failure has `false`. `format_pointer` is the `%p`
-- of the C library, `g_str_hash` the hash of GLib, which is a `guint`.
pub record Host : Type 0 where
  pub cwd : List Call → Option Bytes
  pub options : List Call → List Bytes → Option Options
  pub new_context : List Call → Pointer
  pub new_socket : List Call → SocketKind → Pointer
  pub bind_ok : List Call → Bytes → Bool
  pub connect_ok : List Call → Bytes → Bool
  pub close_ok : List Call → Bool
  pub reply : List Call → Received
  pub new_element : List Call → Bytes → Pointer
  pub new_address : List Call → ℕ
  pub now : List Call → ℕ
  pub link_ok : List Call → Bool
  pub state_ok : List Call → Bool
  pub state : List Call → GstState × GstState
  pub pad : List Call → Pointer
  pub format_pointer : ℕ → Bytes
  pub g_str_hash : Bytes → ℕ
  pub g_str_hash-lt : (s : Bytes) → g_str_hash s < 2 ^ 32

-- `struct pubsub_ctx`
pub record PubsubCtx : Type 0 where
  pub sock : Pointer
  pub addr : Bytes

-- `struct source_item`, at its address; `created_at` in seconds of Unix time.
pub record SourceItem : Type 0 where
  pub address : ℕ
  pub uri : Bytes
  pub created_at : ℕ
  pub element : Pointer
  pub ac : Pointer

-- `struct playback_ctx`; its `services` are those of the world.
pub record PlaybackCtx : Type 0 where
  pub pipeline : Pointer
  pub mux : Pointer
  pub audio_sink : Pointer
  pub sources : List SourceItem

-- What the process can change: the calls made, newest first; `closure.should_quit` with
-- `services.pub_sub`; and the playback context.
pub record World : Type 0 where
  pub calls : List Call
  pub should_quit : Bool
  pub pub_sub : Option PubsubCtx
  pub playback : PlaybackCtx
