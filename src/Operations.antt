-- ===== src/Operations.antt =====
-- The plugins of src/operations: what their handlers have in common. A plugin's `void*` is NULL,
-- the `struct op_services` of the daemon, or its playback context; both are in the world.
pub mod Ping
pub mod Control
pub mod Play
pub mod Kept
pub mod Texts
pub mod Returns
use gst_playd.Base.{refl, ap, sym, ◌∙◌, ◌≡◌, ◌⊎◌, inl, inr, Option, none, some, [], ◌∷◌, Bytes}
use gst_playd.Host.{PubsubCtx, World, g_print}
use gst_playd.Host.Actions.{Action, gets, lift, ◌>>=◌}
use gst_playd.Parser.{ParseHandlerCb}

pub data OpContext : Type 0 where
  no_context services playback : OpContext

-- The process that runs the daemon; `none` once it has aborted.
abbrev pub Process : Type 0
Process = Option World

-- `g_print`, while the process runs.
abbrev pub printed : Bytes → World → World
printed text w = record w { calls = g_print text ∷ w.calls }

abbrev pub print : Bytes → Process → Process
print text none = none
print text (some w) = some (printed text w)

abbrev pub unless_aborted : Process → Option (Unit {0} × World)
unless_aborted none = none
unless_aborted (some w) = some (tt, w)

abbrev pub run_handler : Action Bytes → Process → Bytes × Process
run_handler op none = ([], none)
run_handler op (some w) = elim (op w) [ none ↦ ([], none) | some (reply, w') ↦ (reply, some w') ]

-- What a handler has done, by what a process that runs it has left.
pub run_handler_cases :
    (op : Action Bytes) (w : World) (reply : Bytes) (p : Process)
    → run_handler op (some w) ≡ (reply, p)
    → ((reply ≡ []) × (p ≡ none)) ⊎ ((v : World) × (op w ≡ some (reply, v)) × (p ≡ some v))
run_handler_cases op w reply p e = go (op w) refl e
  where
    go :
        (r : Option (Bytes × World))
        → op w ≡ r
        → (elim r as (λ x. Bytes × Process) [
          | none ↦ ([], none)
          | some (reply, w') ↦ (reply, some w')
        ])
          ≡ (reply, p)
        → ((reply ≡ []) × (p ≡ none)) ⊎ ((v : World) × (op w ≡ some (reply, v)) × (p ≡ some v))
    go none ran e = inl (ap (λ r. r.0) (sym e), ap (λ r. r.1) (sym e))
    go (some (b, u)) ran e =
        let same : b ≡ reply = ap (λ r. r.0) e in
        inr
          (u, ran ∙ ap {B = Option (Bytes × World)} (λ t. some (t, u)) same, ap (λ r. r.1) (sym e))

pub run_handler-some :
    (op : Action Bytes) (w v : World) (reply : Bytes)
    → run_handler op (some w) ≡ (reply, some v)
    → op w ≡ some (reply, v)
run_handler-some op w v reply e = elim (run_handler_cases op w reply (some v) e) [
  | inl (empty, aborted) ↦ absurd (cc)
  | inr (u, ran, same) ↦
      let left : u ≡ v = cc in ran ∙ ap {B = Option (Bytes × World)} (λ x. some (reply, x)) left
]

-- The process of a handler that has a result.
pub run_handler_lem :
    (op : Action Bytes) (w v : World) (reply : Bytes)
    → op w ≡ some (reply, v)
    → run_handler op (some w) ≡ (reply, some v)
run_handler_lem op w v reply ran =
    ap
      (λ r. elim r as (λ x. Bytes × Process) [
        | none ↦ ([], none)
        | some (reply, w') ↦ (reply, some w')
      ])
      ran

abbrev pub handler : (Option Bytes → OpContext → Action Bytes) → ParseHandlerCb Process OpContext
handler op param ctx p = run_handler (op param ctx) p

-- `services->pub_sub`, dereferenced.
abbrev pub services_pub_sub : Action PubsubCtx
services_pub_sub = gets (λ w. w.pub_sub) >>= λ p. lift p
