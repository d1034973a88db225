-- ===== src/Daemon/Process.antt =====
-- `main` of src/gst_playd.c around the code that the options choose.
use gst_playd.Base.{
  ℕ, ◌≡◌, refl, ◌∙◌, Bool, true, false, Option, none, some, List, ◌∷◌, Bytes, codes,
}
use gst_playd.Daemon.Main.{Event, run_options, end_process, main}
use gst_playd.Glib.HashTable.{HashTable}
use gst_playd.Glib.Regex.{Regex}
use gst_playd.Host.{
  Host, World, Options, Pointer, Call, getcwd, setenv, g_option_context_parse, zmq_ctx_new,
  zmq_ctx_destroy,
}
use gst_playd.Host.Actions.{>>=-some}
use gst_playd.Operations.{OpContext, Process}
use gst_playd.Operations.Play.TagsPipeline.{TagReader}
use gst_playd.Parser.{RegEntryWithCtx}

-- The code of a process whose main loop has ended, or not yet.
abbrev pub exit_code : Bool → Option ℕ
exit_code true = some 0
exit_code false = none

module _ (host : Host) where
  -- The calls up to the parsing of the options, in the directory `dir`, on top of `calls`.
  abbrev pub in_directory : Bytes → List Call → List Call
  in_directory dir calls =
      setenv (codes "GST_DEBUG_DUMP_DOT_DIR") dir false ∷ getcwd (some dir) ∷ calls

  -- The calls up to the ZeroMQ context.
  abbrev pub prologue : List Bytes → Bytes → Options → List Call → List Call
  prologue argv dir options calls =
      let parsed = g_option_context_parse argv (some options) ∷ in_directory dir calls in
      zmq_ctx_new (host.new_context parsed) ∷ parsed

  abbrev pub context_of : List Bytes → Bytes → Options → List Call → Pointer
  context_of argv dir options calls =
      host.new_context (g_option_context_parse argv (some options) ∷ in_directory dir calls)

  -- The calls that end the process.
  abbrev pub destroyed : Pointer → List Call → List Call
  destroyed none calls = calls
  destroyed (some c) calls = zmq_ctx_destroy (some c) ∷ calls

  -- What such a process leaves.
  abbrev pub ended : Bool → Pointer → World → World
  ended true zmq_ctx v = record v { calls = destroyed zmq_ctx v.calls }
  ended false zmq_ctx v = v

  -- The process finds its directory and its options.
  pub record StartsWith (argv : List Bytes) (dir : Bytes) (options : Options) (w : World)
      : Type 0 where
    pub finds : host.cwd w.calls ≡ some dir
    pub parses : host.options (in_directory dir w.calls) argv ≡ some options

  module _ (tag_reader : TagReader) (table : HashTable (RegEntryWithCtx Process OpContext))
      (regex : Regex) where
    end_process-some :
        (zmq_ctx : Pointer) (code : ℕ) (v : World)
        → end_process host tag_reader table regex zmq_ctx (some code) v
          ≡ some (some code, record v { calls = destroyed zmq_ctx v.calls })
    unfolding end_process
    end_process-some none code v = refl
    end_process-some (some c) code v = refl

    pub main-run_options :
        (argv : List Bytes) (dir : Bytes) (options : Options) (events : List Event) (w v : World)
        (code : ℕ)
        → StartsWith argv dir options w
        → run_options host tag_reader table regex options events
            (record w { calls = prologue argv dir options w.calls })
          ≡ some (some code, v)
        → main host tag_reader table regex argv events w
          ≡ some (
            some code,
            record v { calls = destroyed (context_of argv dir options w.calls) v.calls },
          )
    unfolding main
    main-run_options argv dir options events w v code start e =
        rw (start.finds, start.parses)
          (>>=-some (run_options host tag_reader table regex options events) _
              {w = record w { calls = prologue argv dir options w.calls }} e
            ∙ end_process-some (context_of argv dir options w.calls) code v)

    pub main-exits :
        (argv : List Bytes) (dir : Bytes) (options : Options) (events : List Event) (w v : World)
        (quit : Bool)
        → StartsWith argv dir options w
        → run_options host tag_reader table regex options events
            (record w { calls = prologue argv dir options w.calls })
          ≡ some (exit_code quit, v)
        → main host tag_reader table regex argv events w
          ≡ some (exit_code quit, ended quit (context_of argv dir options w.calls) v)
    unfolding main end_process
    main-exits argv dir options events w v true start e =
        main-run_options argv dir options events w v 0 start e
    main-exits argv dir options events w v false start e =
        rw (start.finds, start.parses)
          (>>=-some (run_options host tag_reader table regex options events)
            (end_process host tag_reader table regex (context_of argv dir options w.calls))
            {w = record w { calls = prologue argv dir options w.calls }} e)
