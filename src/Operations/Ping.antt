-- ===== src/Operations/Ping.antt =====
-- src/operations/ping.c. With a context that is not the services a handler has no result.
use gst_playd.Base.{Option, none, some, List, [], ◌∷◌, ◌++◌, Bytes, codes}
use gst_playd.Host.Actions.{Action, pure, abort, ◌>>=◌}
use gst_playd.Parser.{MessageDispatchEntry}
use gst_playd.Pubsub.{pubsub_send_message}
use gst_playd.Operations.{OpContext, services, Process, handler, services_pub_sub}

abbrev pub param_text : Option Bytes → Bytes
param_text none = codes "(none)"
param_text (some param) = param

unfoldable pub op_ping_parse : Option Bytes → OpContext → Action Bytes
unfolding pubsub_send_message
op_ping_parse param services = do
  pub_sub ← services_pub_sub
  sent ← pubsub_send_message pub_sub (codes "OK Message was " ++ param_text param)
  pure (codes "OK Message was " ++ param_text param)
op_ping_parse param other = abort

abbrev pub ping_messages : List (MessageDispatchEntry Process OpContext)
ping_messages = record { prefix = codes "PING"; op_parse = handler op_ping_parse } ∷ []

abbrev pub op_ping_new : OpContext → Process → OpContext × Process
op_ping_new ctx p = (ctx, p)

abbrev pub op_ping_register : OpContext → Option (List (MessageDispatchEntry Process OpContext))
op_ping_register ctx = some ping_messages

abbrev pub op_ping_free : OpContext → Process → Process
op_ping_free dontcare p = p
