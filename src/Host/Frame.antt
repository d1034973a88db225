-- ===== src/Host/Frame.antt =====
-- Actions that make calls and change nothing else of the state.
use gst_playd.Base.{subst, ◌≡◌, refl, ap, ◌∙◌, sym, Option, none, some, true, List, ◌∷◌}
use gst_playd.Host.{Call, World, SourceItem}
use gst_playd.Host.Actions.{Action, pure, abort, lift, gets, perform, ask, ◌>>=◌, some->>=}

-- Only calls have been made from `w` to `v`.
abbrev pub OnlyCalls : World → World → Type 0
OnlyCalls w v = (calls : List Call) × (v ≡ record w { calls = calls })

pub OnlyCalls-trans : (u v w : World) → OnlyCalls u v → OnlyCalls v w → OnlyCalls u w
OnlyCalls-trans u v w (first, e) (calls, e') =
    (calls, e' ∙ ap {A = World} {B = World} (λ x. record x { calls = calls }) e)

-- An action leaves one world.
pub left_world :
    {A : Type 0} {r : Option (A × World)} {a b : A} {u v : World}
    → r ≡ some (a, u)
    → r ≡ some (b, v)
    → u ≡ v
left_world {u} e e' = ap (λ r. elim r as (λ x. World) [ none ↦ u | some (p, x) ↦ x ]) (sym e ∙ e')

pub OnlyCalls-left :
    {A : Type 0} {r : Option (A × World)} {a b : A} {u v : World} (w : World)
    → r ≡ some (a, u)
    → r ≡ some (b, v)
    → OnlyCalls w u
    → OnlyCalls w v
OnlyCalls-left w e e' (calls, same) = (calls, sym (left_world e e') ∙ same)

-- A relation between the world before and the world after that calls and their composition keep:
-- what a part of the daemon leaves alone.
pub record Frame (R : World → World → Type 0) : Type 0 where
  pub calls : (w v : World) → OnlyCalls w v → R w v
  pub trans : (u v w : World) → R u v → R v w → R u w

-- The relation holds whatever the list of sources becomes, and where `should_quit` is set.
abbrev pub SetsSources : (World → World → Type 0) → Type 0
SetsSources R =
    (w : World) (items : List SourceItem)
    → R w (record w { playback = record w.playback { sources = items } })

abbrev pub SetsFlag : (World → World → Type 0) → Type 0
SetsFlag R = (w : World) → R w (record w { should_quit = true })

-- Whatever result an action has, the relation holds.
abbrev pub Keeps : (World → World → Type 0) → {A : Type 0} → Action A → Type 0
Keeps R {A} m = (w v : World) (a : A) → m w ≡ some (a, v) → R w v

module _ {R : World → World → Type 0} (frame : Frame R) where
  pub same : (w v : World) → w ≡ v → R w v
  same w v e = frame.calls w v (w.calls, sym e)

  -- A world in which calls were made, and one with other sources.
  pub called : (w v : World) (calls : List Call) → record w { calls = calls } ≡ v → R w v
  called w v calls e = frame.calls w v (calls, sym e)

  pub moved :
      (w v : World) (items : List SourceItem)
      → SetsSources R
      → record w { playback = record w.playback { sources = items } } ≡ v
      → R w v
  moved w v items sources e = subst (λ u. R w u) e (sources w items)

  pub pure-Keeps : {A : Type 0} (a : A) → Keeps R (pure a)
  pure-Keeps a w v b e = same w v (left_world {a = a} refl e)

  pub abort-Keeps : {A : Type 0} → Keeps R (abort {A = A})
  abort-Keeps w v a e = absurd (cc)

  pub lift-Keeps : {A : Type 0} (o : Option A) → Keeps R (lift o)
  lift-Keeps none = abort-Keeps
  lift-Keeps (some a) = pure-Keeps a

  pub gets-Keeps : {A : Type 0} (f : World → A) → Keeps R (gets f)
  gets-Keeps f w v a e = same w v (left_world {a = f w} refl e)

  pub perform-Keeps : (call : Call) → Keeps R (perform call)
  perform-Keeps call w v a e = called w v (call ∷ w.calls) (left_world {a = tt} refl e)

  pub ask-Keeps :
      {A : Type 0} (choose : List Call → A) (call : A → Call) → Keeps R (ask choose call)
  ask-Keeps choose call w v a e =
      called w v (call (choose w.calls) ∷ w.calls) (left_world {a = choose w.calls} refl e)

  pub >>=-Keeps :
      {A B : Type 0} (m : Action A) (k : A → Action B)
      → Keeps R m
      → ((a : A) → Keeps R (k a))
      → Keeps R (m >>= k)
  >>=-Keeps m k first next w v b e =
      let (a, u, ran, rest) = some->>= m k e in
      frame.trans w u v (first w u a ran) (next a u v b rest)

-- The contexts are those of before: the socket of the events, the pipeline and its mixer.
abbrev pub Kept : World → World → Type 0
Kept w v =
    (v.pub_sub ≡ w.pub_sub)
    × (v.playback.pipeline ≡ w.playback.pipeline)
    × (v.playback.mux ≡ w.playback.mux)

pub Kept-frame : Frame Kept
Kept-frame = record {
  calls = λ w v (calls, e).
      (ap (λ u. u.pub_sub) e, ap (λ u. u.playback.pipeline) e, ap (λ u. u.playback.mux) e);
  trans = λ u v w (a, b, c) (a', b', c'). (a' ∙ a, b' ∙ b, c' ∙ c);
}

-- `should_quit` is that of before.
abbrev pub SameFlag : World → World → Type 0
SameFlag w v = v.should_quit ≡ w.should_quit

pub SameFlag-frame : Frame SameFlag
SameFlag-frame = record {
  calls = λ w v (calls, e). ap (λ u. u.should_quit) e;
  trans = λ u v w e e'. e' ∙ e;
}

-- The sources are those of before.
abbrev pub SameSources : World → World → Type 0
SameSources w v = v.playback.sources ≡ w.playback.sources

pub SameSources-frame : Frame SameSources
SameSources-frame = record {
  calls = λ w v (calls, e). ap (λ u. u.playback.sources) e;
  trans = λ u v w e e'. e' ∙ e;
}
