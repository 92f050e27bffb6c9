-- ===== src/Valuations/Classes.antt =====
-- What the adding of a class does to the item under each id.
use cmnw.Prelude.{
  ℕ, Bool, true, false, not, ◌==◌, Option, none, some, List, [], ◌∷◌, ◌++◌, any, any-append,
  any-keep, length, if◌then◌else◌, Text, same_text, same_text_iff, ◌≡◌, refl, sym, ap, ◌∙◌, arith,
  Bool-cases, inl, inr, ==_iff,
}
use cmnw.Valuations.Items.{
  Item, Run, done, threw, ◌>>=◌, classes_of, includes, unique, for_each, find_item, update_item,
  add_to_found, add_asset_class_to_item, batch_add_asset_class, lacks, append_class, append_where,
}
use cmnw.Valuations.Chunks.{for_chunks-for_each}

abbrev pub on_some : (Item → Item) → Option Item → Option Item
on_some f none = none
on_some f (some x) = some (f x)

-- An item with a class, at most once more than before.
abbrev pub with_class : Text → Item → Item
with_class cls x = if includes cls (classes_of x) then x else append_class cls x

-- What is found under an id, once a list of ids has been given a class.
abbrev pub classified : List ℕ → Text → ℕ → Option Item → Option Item
classified ids cls j o = if any (λ i. i == j) ids then on_some (with_class cls) o else o

pub find_item-update_item :
    (j i : ℕ) (f : Item → Item) (xs : List Item)
    → ((x : Item) → (f x).id ≡ x.id)
    → find_item j (update_item i f xs)
      ≡ (if i == j then on_some f (find_item j xs) else find_item j xs)
unfolding find_item update_item
find_item-update_item j i f [] keeps = ground arith
find_item-update_item j i f (x ∷ xs) keeps =
    ground (arith, keeps x, find_item-update_item j i f xs keeps)

includes-append_self : (t : Text) (xs : List Text) → includes t (xs ++ t ∷ []) ≡ true
includes-append_self t xs =
    ground (arith, any-append (same_text t) xs (t ∷ []), (same_text_iff t t).1 refl)

with_class_twice : (cls : Text) (x : Item) → with_class cls (with_class cls x) ≡ with_class cls x
with_class_twice cls x = ground (arith, includes-append_self cls (classes_of x))

pub >>=-eq-done :
    {S : Type 0} (r : Run S) (f : S → Run S) {t : S}
    → (r >>= f) ≡ done t
    → (s : S) × (r ≡ done s) × (f s ≡ done t)
>>=-eq-done (done s) f e = (s, refl, e)
>>=-eq-done (threw s) f e = cc

pub any-unique : (j : ℕ) (is : List ℕ) → any (λ i. i == j) (unique is) ≡ any (λ i. i == j) is
unfolding unique
any-unique j [] = refl
any-unique j (i ∷ is) =
    ground
      (arith, any-keep (λ k. not (k == i)) (unique is) j, any-unique j is, ==_iff i j, ==_iff j i)

module _ (refuses : ℕ → Text → Bool) (cls : Text) where
  added_to_found :
      (j i : ℕ) (o : Option Item) (xs : List Item) {ys : List Item}
      → find_item i xs ≡ o
      → add_to_found refuses i cls o xs ≡ done ys
      → find_item j ys ≡ classified (i ∷ []) cls j (find_item j xs)
  unfolding add_to_found
  added_to_found j i none xs h e = ground arith
  added_to_found j i (some x) xs h e = ground (
    arith,
    find_item-update_item j i (λ y. record y { asset_class = some (classes_of x ++ cls ∷ []) }) xs
        (λ y. refl),
  )

  added-find :
      (j i : ℕ) (xs ys : List Item)
      → add_asset_class_to_item refuses cls i xs ≡ done ys
      → find_item j ys ≡ classified (i ∷ []) cls j (find_item j xs)
  unfolding add_asset_class_to_item
  added-find j i xs ys e = added_to_found j i (find_item i xs) xs refl e

  classified-cons :
      (j i : ℕ) (is : List ℕ) (o : Option Item)
      → classified is cls j (classified (i ∷ []) cls j o) ≡ classified (i ∷ is) cls j o
  classified-cons j i is none = ground arith
  classified-cons j i is (some x) = ground (arith, with_class_twice cls x)

  all_added-find :
      (j : ℕ) (is : List ℕ) (xs ys : List Item)
      → for_each (add_asset_class_to_item refuses cls) is xs ≡ done ys
      → find_item j ys ≡ classified is cls j (find_item j xs)
  unfolding for_each
  all_added-find j [] xs ys e = ground arith
  all_added-find j (i ∷ is) xs ys e =
      let (zs, e', f) = >>=-eq-done (add_asset_class_to_item refuses cls i xs) _ e in
      all_added-find j is zs ys f
      ∙ ap (classified is cls j) (added-find j i xs zs e')
      ∙ classified-cons j i is (find_item j xs)

  module _ (accepts : (i : ℕ) (c : Text) → refuses i c ≡ false) where
    added_to_found-done :
        (i : ℕ) (o : Option Item) (xs : List Item)
        → (ys : List Item) × (add_to_found refuses i cls o xs ≡ done ys)
    unfolding add_to_found
    added_to_found-done i none xs = (xs, refl)
    added_to_found-done i (some x) xs = elim (Bool-cases (includes cls (classes_of x))) [
      | inl old ↦ (xs, rw old refl)
      | inr new ↦ (
        update_item i (λ y. record y { asset_class = some (classes_of x ++ cls ∷ []) }) xs,
        rw (new, accepts i cls) refl,
      )
    ]

    all_added-done :
        (is : List ℕ) (xs : List Item)
        → (ys : List Item) × (for_each (add_asset_class_to_item refuses cls) is xs ≡ done ys)
    unfolding for_each add_asset_class_to_item
    all_added-done [] xs = (xs, refl)
    all_added-done (i ∷ is) xs =
        let (zs, e) = added_to_found-done i (find_item i xs) xs in
        let (ys, f) = all_added-done is zs in (ys, rw e f)

    -- Where no update is refused, the batches come to their end.
    pub batch_add_asset_class-done :
        (ids : List ℕ) (xs : List Item)
        → (ys : List Item) × (batch_add_asset_class refuses ids cls xs ≡ done ys)
    unfolding batch_add_asset_class
    batch_add_asset_class-done ids xs =
        let (ys, e) = all_added-done (unique ids) xs in
        (ys, for_chunks-for_each (length (unique ids)) 499 _ (unique ids) xs (omega arith) ∙ e)

  -- Where no update was refused, the item under an id has the class afterwards if its id is in the
  -- list, once and behind the classes that it had, and is otherwise what it was.
  pub batch_add_asset_class-find :
      (ids : List ℕ) (xs ys : List Item) (j : ℕ)
      → batch_add_asset_class refuses ids cls xs ≡ done ys
      → find_item j ys ≡ classified ids cls j (find_item j xs)
  unfolding batch_add_asset_class
  batch_add_asset_class-find ids xs ys j e =
      all_added-find j (unique ids) xs ys
        (sym (for_chunks-for_each (length (unique ids)) 499 _ (unique ids) xs (omega arith)) ∙ e)
      ∙ ap (λ b. if b then on_some (with_class cls) (find_item j xs) else find_item j xs)
          (any-unique j ids)

-- The update by one statement gives the class to the items of the list, except where the column is
-- null.
pub find_item-append_where :
    (cls : Text) (ids : List ℕ) (j : ℕ) (xs : List Item)
    → find_item j (append_where cls ids xs) ≡ (
        if any (λ i. i == j) ids
        then on_some
            (λ x. if lacks cls x.asset_class then append_class cls x else x)
            (find_item j xs)
        else find_item j xs)
unfolding find_item append_where
find_item-append_where cls ids j [] = ground arith
find_item-append_where cls ids j (x ∷ xs) = elim (Bool-cases (x.id == j)) [
  | inl same ↦ ground (
    arith,
    ap (λ k. any (λ i. i == k) ids) ((==_iff x.id j).0 same),
    find_item-append_where cls ids j xs,
  )
  | inr other ↦ ground (arith, find_item-append_where cls ids j xs)
]
