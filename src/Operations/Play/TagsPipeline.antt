-- ===== src/Operations/Play/TagsPipeline.antt =====
-- `op_tags_parse` of src/operations/play.c: its pipeline, which is asked to pause, and the messages
-- on its bus.
use gst_playd.Base.{true, Option, List, Bytes, codes, if◌then◌else◌}
use gst_playd.Glib.HashTable.{HashTable}
use gst_playd.Host.{
  Pointer, paused, Host, Call, gst_bin_add, gst_element_set_uri, gst_element_on_pad_added,
  gst_object_unref,
}
use gst_playd.Host.Actions.{
  Action, pure, abort, lift, gets, ◌>>=◌, ◌>>◌, perform, make, pipeline_new, set_state,
  get_static_pad, is_linked, link_pads,
}
use gst_playd.Operations.{OpContext}
use gst_playd.Operations.Play.Tags.{BusMessage, read_tags}

unfoldable pub on_new_pad_tags : Host → Pointer → Pointer → Action (Unit {0})
on_new_pad_tags host pad fakesink = do
  sinkpad ← get_static_pad host fakesink
  linked ← is_linked host sinkpad
  joined ← if linked then pure true else link_pads host pad sinkpad
  if joined then perform (gst_object_unref sinkpad) else abort

-- What the reading of tags takes from outside: doubles and dates with their printing, a hash table,
-- and the messages that the bus of the pipeline holds after some calls, in order.
pub record TagReader : Type 1 where
  pub Double : Type 0
  pub Date : Type 0
  pub format_double : Double → Bytes
  pub format_date : Date → Bytes
  pub table : HashTable Bytes
  pub popped : List Call → List (BusMessage Double Date)

module _ (host : Host) (tag_reader : TagReader) where
  -- The code up to the loop; the pops of the loop take the messages off the bus.
  unfoldable pub paused_messages :
      Option Bytes → Action (List (BusMessage tag_reader.Double tag_reader.Date))
  paused_messages param = do
    pipe ← pipeline_new host
    dec ← make host (codes "uridecodebin")
    perform (gst_element_set_uri dec param)
    perform (gst_bin_add pipe dec)
    sink ← make host (codes "fakesink")
    perform (gst_bin_add pipe sink)
    perform (gst_element_on_pad_added dec sink)
    moved ← set_state host pipe paused
    gets (λ w. tag_reader.popped w.calls)

  unfoldable pub op_tags_parse : Option Bytes → OpContext → Action Bytes
  unfolding paused_messages read_tags
  op_tags_parse param ctx = do
    msgs ← paused_messages param
    lift (read_tags tag_reader.format_double tag_reader.format_date tag_reader.table msgs)
