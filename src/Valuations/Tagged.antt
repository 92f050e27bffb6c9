-- ===== src/Valuations/Tagged.antt =====
-- Which tags an item gets.
use cmnw.Prelude.{
  ◌||◌, Option, none, some, List, [], ◌∷◌, any-append, ◌++◌, any, truthy_text, false, map, Text,
  ◌≡◌, refl, ap, ◌∙◌, arith, Bool-cases, inl, inr, same_text, same_text_iff, Bool,
}
use cmnw.Valuations.Items.{Item, includes, classes_of}
use cmnw.Valuations.Tags.{
  add_tag, add_tags, old_tags, set_fields, ticker_parts, tag_sources, build_tags_for_item,
}
use cmnw.Valuations.Growth.{IsDistinct, IsDistinct-append}

includes-add_tag :
    (u t : Text) (ts : List Text) → includes u (add_tag t ts) ≡ (same_text u t || includes u ts)
includes-add_tag u t ts = elim (Bool-cases (same_text u t)) [
  | inl same ↦
      let e = (same_text_iff u t).0 same in
      ground (arith, any-append (same_text u) ts (t ∷ []), ap (λ v. includes v ts) e)
  | inr other ↦ ground (arith, any-append (same_text u) ts (t ∷ []))
]

includes-add_tags :
    (u : Text) (ns ts : List Text) → includes u (add_tags ns ts) ≡ (includes u ns || includes u ts)
unfolding add_tags
includes-add_tags u [] ts = refl
includes-add_tags u (n ∷ ns) ts =
    ground (arith, includes-add_tags u ns (add_tag n ts), includes-add_tag u n ts)

add_tag-IsDistinct : (t : Text) (ts : List Text) → IsDistinct ts → IsDistinct (add_tag t ts)
add_tag-IsDistinct t ts d = elim (Bool-cases (includes t ts)) [
  | inl old ↦ rw old d
  | inr new ↦ rw new (IsDistinct-append t ts d new)
]

add_tags-IsDistinct : (ns ts : List Text) → IsDistinct ts → IsDistinct (add_tags ns ts)
unfolding add_tags
add_tags-IsDistinct [] ts d = d
add_tags-IsDistinct (n ∷ ns) ts d =
    add_tags-IsDistinct ns (add_tag n ts) (add_tag-IsDistinct n ts d)

abbrev pub tags_or_nil : Option (List Text) → List Text
tags_or_nil none = []
tags_or_nil (some ts) = ts

includes-old_tags :
    (u : Text) (o : Option (List Text)) → includes u (old_tags o) ≡ includes u (tags_or_nil o)
unfolding old_tags
includes-old_tags u none = refl
includes-old_tags u (some ts) = ground (arith, includes-add_tags u ts [])

old_tags-IsDistinct : (o : Option (List Text)) → IsDistinct (old_tags o)
unfolding old_tags
old_tags-IsDistinct none = tt
old_tags-IsDistinct (some ts) = add_tags-IsDistinct ts [] tt

any-map :
    (lower : Text → Text) (u : Text) (ts : List Text)
    → includes u (map lower ts) ≡ any (λ t. same_text u (lower t)) ts
any-map lower u [] = refl
any-map lower u (t ∷ ts) = ground (arith, any-map lower u ts)

module _ (lower : Text → Text) (u : Text) where
  -- A text in lower case is that of a field that is set.
  abbrev pub is_text_of : Option Text → Bool
  is_text_of f = elim (truthy_text f) [ none ↦ false | some t ↦ same_text u (lower t) ]

  includes-set_fields :
      (f : Option Text) (fs : List (Option Text))
      → any (λ t. same_text u (lower t)) (set_fields (f ∷ fs))
        ≡ (is_text_of f || any (λ t. same_text u (lower t)) (set_fields fs))
  unfolding set_fields
  includes-set_fields f fs = ground arith

  includes-tag_sources :
      (x : Item)
      → includes u (map lower (tag_sources x)) ≡ (
          is_text_of x.expansion
          || (is_text_of x.profession_class
              || (is_text_of x.item_class
                  || (is_text_of x.item_sub_class
                      || (is_text_of x.quality
                          || (any (λ c. same_text u (lower c)) (classes_of x)
                              || any (λ p. same_text u (lower p)) (ticker_parts x)))))))
  unfolding tag_sources set_fields
  includes-tag_sources x =
      any-map lower u (tag_sources x)
      ∙ any-append (λ t. same_text u (lower t))
          (set_fields
            (x.expansion ∷ x.profession_class ∷ x.item_class ∷ x.item_sub_class ∷ x.quality ∷ []))
          (classes_of x ++ ticker_parts x)
      ∙ ground (
        arith,
        includes-set_fields x.expansion
            (x.profession_class ∷ x.item_class ∷ x.item_sub_class ∷ x.quality ∷ []),
        includes-set_fields x.profession_class (x.item_class ∷ x.item_sub_class ∷ x.quality ∷ []),
        includes-set_fields x.item_class (x.item_sub_class ∷ x.quality ∷ []),
        includes-set_fields x.item_sub_class (x.quality ∷ []),
        includes-set_fields x.quality [],
        any-append (λ t. same_text u (lower t)) (classes_of x) (ticker_parts x),
      )

-- The tags that are built for an item are, in lower case, its expansion, profession class, class,
-- sub-class and quality where they are set, its asset classes and the parts of its ticker, and its old
-- tags as they are; these and no others, and none is there twice.
pub build_tags_for_item-includes :
    (lower : Text → Text) (x : Item)
    → IsDistinct (build_tags_for_item lower x)
      × ((u : Text)
          → includes u (build_tags_for_item lower x) ≡ (
              (is_text_of lower u x.expansion
                || (is_text_of lower u x.profession_class
                    || (is_text_of lower u x.item_class
                        || (is_text_of lower u x.item_sub_class
                            || (is_text_of lower u x.quality
                                || (any (λ c. same_text u (lower c)) (classes_of x)
                                    || any (λ p. same_text u (lower p)) (ticker_parts x)))))))
              || includes u (tags_or_nil x.tags)))
unfolding build_tags_for_item
build_tags_for_item-includes lower x = (
  add_tags-IsDistinct (map lower (tag_sources x)) (old_tags x.tags) (old_tags-IsDistinct x.tags),
  λ u.
      includes-add_tags u (map lower (tag_sources x)) (old_tags x.tags)
      ∙ rw (includes-tag_sources lower u x, includes-old_tags u x.tags) refl,
)
