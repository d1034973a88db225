-- ===== src/Host/Actions.antt =====
-- Actions of the daemon, and the single calls. An action has no result where the process does not
-- go on: `g_error` aborts it, and so does memory used out of its range.
use gst_playd.Base.{
  refl, Option-cases, inl, inr, sym, ◌∙◌, ◌≡◌, ap, Bool, Option, none, some, List, [], ◌∷◌, Bytes,
}
use gst_playd.Host.{
  Pointer, SocketKind, GstState, Errno, eagain, other, Received, failed, Call, zmq_socket, zmq_bind,
  zmq_connect, zmq_recv, zmq_close, gst_element_factory_make, gst_element_link,
  gst_element_get_state, gst_element_set_state, gst_element_get_static_pad, gst_pad_get_peer,
  gst_pipeline_new, gst_element_link_many, gst_pad_is_linked, gst_pad_link, gst_pipeline_get_bus,
  Host, World, Options, getcwd, g_option_context_parse, zmq_ctx_new,
}

abbrev pub Action : Type 0 → Type 0
Action A = World → Option (A × World)

abbrev pub pure : {A : Type 0} → A → Action A
pure a w = some (a, w)

abbrev pub abort : {A : Type 0} → Action A
abort w = none

infixl 5 ◌>>=◌ ◌>>◌
abbrev pub ◌>>=◌ : {A B : Type 0} → Action A → (A → Action B) → Action B
◌>>=◌ m f w = elim (m w) [ none ↦ none | some (a, w') ↦ f a w' ]

abbrev pub ◌>>◌ : {B : Type 0} → Action (Unit {0}) → Action B → Action B
m >> k = m >>= λ _. k

-- What follows an action that has a result.
pub >>=-some :
    {A B : Type 0} (m : Action A) (k : A → Action B) {a : A} {w w' : World}
    → m w ≡ some (a, w')
    → (m >>= k) w ≡ k a w'
>>=-some {A} {B} m k e =
    ap (λ r. elim r as (λ x. Option (B × World)) [ none ↦ none | some (a, w') ↦ k a w' ]) e

-- An action that has a result did its first part with a result.
pub some->>= :
    {A B : Type 0} (m : Action A) (k : A → Action B) {w : World} {r : B × World}
    → (m >>= k) w ≡ some r
    → (a : A) × (w' : World) × (m w ≡ some (a, w')) × (k a w' ≡ some r)
some->>= m k {w} e = elim (Option-cases (m w)) [
  | inl missing ↦ cc
  | inr ((a, w'), ran) ↦ (a, w', ran, sym (>>=-some m k ran) ∙ e)
]

-- A value that may be missing because memory was used out of range.
abbrev pub lift : {A : Type 0} → Option A → Action A
lift none w = none
lift (some a) w = some (a, w)

pub lift->>= :
    {A B : Type 0} (o : Option A) (k : A → Action B) (w : World) {r : B × World}
    → (lift o >>= k) w ≡ some r
    → (a : A) × (o ≡ some a) × (k a w ≡ some r)
lift->>= none k w e = absurd (cc)
lift->>= (some a) k w e = (a, refl, e)

pub lift-pure :
    {A B : Type 0} (o : Option A) (f : A → B) (w w' : World) (r : B)
    → (lift o >>= λ a. pure (f a)) w ≡ some (r, w')
    → (a : A) × (o ≡ some a) × (r ≡ f a) × (w' ≡ w)
lift-pure none f w w' r e = absurd (cc)
lift-pure (some a) f w w' r e = (a, refl, cc, cc)

abbrev pub gets : {A : Type 0} → (World → A) → Action A
gets f w = some (f w, w)

abbrev pub modify : (World → World) → Action (Unit {0})
modify f w = some (tt, f w)

-- A call is made.
abbrev pub perform : Call → Action (Unit {0})
perform c w = some (tt, record w { calls = c ∷ w.calls })

-- A call whose result the host chooses.
abbrev pub ask : {A : Type 0} → (List Call → A) → (A → Call) → Action A
ask choose c w = let a = choose w.calls in some (a, record w { calls = c a ∷ w.calls })

module _ (host : Host) where
  abbrev pub current_directory : Action (Option Bytes)
  current_directory = ask host.cwd getcwd

  abbrev pub parse_options : List Bytes → Action (Option Options)
  parse_options argv = ask (λ h. host.options h argv) (g_option_context_parse argv)

  abbrev pub new_context : Action Pointer
  new_context = ask host.new_context zmq_ctx_new

  abbrev pub new_socket : SocketKind → Action Pointer
  new_socket kind = ask (λ h. host.new_socket h kind) (zmq_socket kind)

  abbrev pub bind : Pointer → Bytes → Action Bool
  bind sock address = ask (λ h. host.bind_ok h address) (zmq_bind sock address)

  abbrev pub connect : Pointer → Bytes → Action Bool
  connect sock address = ask (λ h. host.connect_ok h address) (zmq_connect sock address)

  abbrev pub close : Pointer → Action Bool
  close sock = ask host.close_ok (zmq_close sock)

  -- A blocking receive.
  abbrev pub receive : Pointer → Action Received
  receive sock = ask host.reply (zmq_recv sock)

  abbrev pub make : Bytes → Action Pointer
  make name = ask (λ h. host.new_element h name) (gst_element_factory_make name)

  abbrev pub pipeline_new : Action Pointer
  pipeline_new = ask (λ h. host.new_element h []) gst_pipeline_new

  abbrev pub link : Pointer → Pointer → Action Bool
  link src dst = ask host.link_ok (gst_element_link src dst)

  abbrev pub get_state : Pointer → Action (GstState × GstState)
  get_state e = ask host.state (λ s. gst_element_get_state e s.0 s.1)

  abbrev pub set_state : Pointer → GstState → Action Bool
  set_state e s = ask host.state_ok (gst_element_set_state e s)

  abbrev pub link_many : Pointer → Pointer → Pointer → Action Bool
  link_many a b c = ask host.link_ok (gst_element_link_many a b c)

  abbrev pub is_linked : Pointer → Action Bool
  is_linked p = ask host.link_ok (gst_pad_is_linked p)

  abbrev pub link_pads : Pointer → Pointer → Action Bool
  link_pads p q = ask host.link_ok (gst_pad_link p q)

  abbrev pub get_bus : Pointer → Action Pointer
  get_bus pipeline = ask host.pad (gst_pipeline_get_bus pipeline)

  abbrev pub get_static_pad : Pointer → Action Pointer
  get_static_pad e = ask host.pad (gst_element_get_static_pad e)

  abbrev pub get_peer : Pointer → Action Pointer
  get_peer p = ask host.pad (gst_pad_get_peer p)

-- `ENOTSOCK`, for a receive on NULL.
abbrev pub enotsock : Errno
enotsock = other 88

-- `zmq_msg_recv` with ZMQ_DONTWAIT on the polled socket: the next of what comes in, or EAGAIN.
abbrev pub next_incoming : Pointer → List Received → Received × List Received
next_incoming none rs = (failed enotsock, rs)
next_incoming (some s) [] = (failed eagain, [])
next_incoming (some s) (r ∷ rs) = (r, rs)

abbrev pub receive_nowait : Pointer → List Received → Action (Received × List Received)
receive_nowait sock rs w =
    let next = next_incoming sock rs in
    some (next, record w { calls = zmq_recv sock next.0 ∷ w.calls })
