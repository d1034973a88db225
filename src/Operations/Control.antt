-- ===== src/Operations/Control.antt =====
-- src/operations/control.c. With a context that is not the services a handler has no result.
use gst_playd.Base.{true, Option, some, List, [], ◌∷◌, ◌++◌, Bytes, codes}
use gst_playd.Host.Actions.{Action, pure, abort, modify, ◌>>=◌, ◌>>◌}
use gst_playd.Parser.{MessageDispatchEntry}
use gst_playd.Pubsub.{pubsub_get_address}
use gst_playd.Operations.{OpContext, services, Process, handler, services_pub_sub}

unfoldable pub op_pubsub_parse : Option Bytes → OpContext → Action Bytes
op_pubsub_parse param services = do
  pub_sub ← services_pub_sub
  pure (codes "OK " ++ pubsub_get_address pub_sub)
op_pubsub_parse param other = abort

unfoldable pub op_quit_parse : Option Bytes → OpContext → Action Bytes
op_quit_parse param services = do modify (λ w. record w { should_quit = true }); pure (codes "OK")
op_quit_parse param other = abort

abbrev pub control_messages : List (MessageDispatchEntry Process OpContext)
control_messages =
    record { prefix = codes "PUBSUB"; op_parse = handler op_pubsub_parse }
    ∷ record { prefix = codes "QUIT"; op_parse = handler op_quit_parse }
    ∷ []

abbrev pub op_control_new : OpContext → Process → OpContext × Process
op_control_new ctx p = (ctx, p)

abbrev pub op_control_register : OpContext → Option (List (MessageDispatchEntry Process OpContext))
op_control_register ctx = some control_messages

abbrev pub op_control_free : OpContext → Process → Process
op_control_free dontcare p = p
