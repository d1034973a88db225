-- ===== src/Operations/Play/Balance/Held.antt =====
-- src/operations/play.c: what the sources of a list hold, with one of them taken out.
use gst_playd.Base.{ℕ, ◌+◌, ◌≡◌, ap, ◌∙◌, sym, subst, arith, some, List, [], ◌∷◌, ◌++◌}
use gst_playd.Base.{Bool-cases, Option-cases, inl, inr, ◌==◌, if◌then◌else◌}
use gst_playd.Host.{Host, Pointer, SourceItem}
use gst_playd.Operations.Play.Balance.{hits, held}
use gst_playd.Operations.Play.Invariant.{HasDistinctAddresses}
use gst_playd.Operations.Play.Sources.{
  found_or, source_item_to_id, source_item_from_id, remove_source,
}
use gst_playd.Operations.Play.StopAny.{remove_source-append}

module _ (host : Host) where
  source_item_from_id-split :
      (items : List SourceItem) (id : ℕ) (item : SourceItem)
      → source_item_from_id host items id ≡ some (some item)
      → (before : List SourceItem) × (after : List SourceItem) × (items ≡ before ++ item ∷ after)
  unfolding source_item_from_id
  source_item_from_id-split [] id item e = absurd (cc)
  source_item_from_id-split (x ∷ items) id item e =
      let rest = source_item_from_id host items id in
      elim (Option-cases (source_item_to_id host x)) [
        | inl missing ↦ absurd (cc)
        | inr (k, has) ↦
            let opened = sym (ap (found_or id x rest) has) ∙ e in
            elim (Bool-cases (k == id)) [
              | inl this ↦
                  let same : x ≡ item =
                    cc (sym (ap (λ b. if b then some (some x) else rest) this) ∙ opened) in
                  ([], items, ap (λ i. i ∷ items) same)
              | inr not_this ↦
                  let (before, after, split) =
                    source_item_from_id-split items id item
                      (sym (ap (λ b. if b then some (some x) else rest) not_this) ∙ opened) in
                  (x ∷ before, after, ap (λ xs. x ∷ xs) split)
            ]
      ]

module _ (bin element : Pointer) where
  held-append :
      (pipeline : Pointer) (before after : List SourceItem)
      → held bin element pipeline (before ++ after)
        ≡ held bin element pipeline before + held bin element pipeline after
  unfolding held
  held-append pipeline [] after = omega arith
  held-append pipeline (item ∷ before) after = omega (arith, held-append pipeline before after)

  pub held-remove_source :
      (host : Host) (pipeline : Pointer) (items : List SourceItem) (id : ℕ) (item : SourceItem)
      → source_item_from_id host items id ≡ some (some item)
      → HasDistinctAddresses items
      → held bin element pipeline items
        ≡ hits bin element pipeline item.element
          + hits bin element pipeline item.ac
          + held bin element pipeline (remove_source items item)
  unfolding held
  held-remove_source host pipeline items id item found distinct =
      let (before, after, split) = source_item_from_id-split host items id item found in
      let gone : remove_source items item ≡ before ++ after =
        ap (λ xs. remove_source xs item) split
        ∙ remove_source-append before after item (subst HasDistinctAddresses split distinct) in
      omega (
        arith,
        ap (held bin element pipeline) split,
        ap (held bin element pipeline) gone,
        held-append pipeline before (item ∷ after),
        held-append pipeline before after,
      )
