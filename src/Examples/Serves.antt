-- ===== src/Examples/Serves.antt =====
-- The server of the examples, which never aborts.
use gst_playd.Base.{
  false, codes, ◌≡◌, refl, arith, some, none, [], ◌∷◌, inl, subst, length, ◌+◌, ◌<◌, ◌^◌, IsText,
}
use gst_playd.Base.Decimal.{format_unsigned}
use gst_playd.Daemon.Asked.{ends}
use gst_playd.Daemon.Main.{main, start_server, serve_events}
use gst_playd.Daemon.Exits.{main-ends}
use gst_playd.Daemon.Process.{exit_code}
use gst_playd.Daemon.Sockets.{create_server_socket, bind_server}
use gst_playd.Pubsub.{pubsub_new, bind_or_free}
use gst_playd.Examples.Events.{until_quit}
use gst_playd.Examples.Run.{table, closure, entered, server_starts}
use gst_playd.Examples.TestHost.{host, blank, title, titled}
use gst_playd.Glib.Regex.Engine.Search.{backtracking}
use gst_playd.Host.{World}
use gst_playd.Operations.Play.Handlers.{op_playback_new, op_playback_register}
use gst_playd.GstUtil.{gsu_tags_to_hash_table, tag_to_hash_table, value_text, tag_key}
use gst_playd.Operations.Play.TagsReply.{stored}
use gst_playd.Utility.Text.{lines_of}
use gst_playd.Operations.Returns.{RefusesNothing}
use gst_playd.Parser.{parse_register_plugin, register_with}
use gst_playd.Parser.Register.{register_all}

-- The table of the title.
abbrev title_table : titled.table.Table
title_table =
    elim (stored titled.format_double titled.format_date titled.table (title ∷ [])
      titled.table.new) [ none ↦ titled.table.new | some t ↦ t ]

host-RefusesNothing : RefusesNothing host titled 1500
unfolding format_unsigned gsu_tags_to_hash_table tag_to_hash_table value_text tag_key
host-RefusesNothing = record {
  accepts = λ calls. refl;
  fits = λ calls. omega arith;
  prerolls = λ calls. record {
    tags = title ∷ [];
    rest = [];
    ends = inl refl;
    rooms = ((((tt, tt), tt), tt));
    fits = λ t has.
        let same : title_table ≡ t = cc in
        subst
          (λ t.
            (length (lines_of (titled.table.entries t)) + 4 < 2 ^ 31)
            × IsText (lines_of (titled.table.entries t)))
          same (omega arith, omega arith);
  };
}

main-ends_example :
    (end : World) × (main host titled table backtracking [] until_quit blank
      ≡ some (exit_code (ends backtracking false until_quit), end))
unfolding start_server serve_events pubsub_new bind_or_free register_all parse_register_plugin
    register_with op_playback_new op_playback_register create_server_socket bind_server
main-ends_example =
    main-ends host titled 1500 host-RefusesNothing table backtracking [] (codes "/") 8000 19
      until_quit closure blank entered.1 (record { finds = refl; parses = refl }) server_starts refl
      (omega arith)
