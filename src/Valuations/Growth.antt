-- ===== src/Valuations/Growth.antt =====
-- Classes are only added: no stage takes one away, or adds one that is there.
use cmnw.Prelude.{
  ℕ, Bool, true, false, ◌==◌, Option, none, some, List, [], ◌∷◌, ◌++◌, any, any-append, length,
  if◌then◌else◌, Text, same_text, same_text_iff, ◌≡◌, refl, sym, ap, ◌∙◌, arith, Bool-cases, inl,
  inr, ==_iff,
}
use cmnw.Valuations.Items.{
  Item, Run, done, threw, ◌>>=◌, classes_of, includes, unique, batch_size, for_each, for_chunks,
  find_item, add_to_found, add_asset_class_to_item, batch_add_asset_class, lacks, append_class,
  append_where,
}
use cmnw.Valuations.Chunks.{for_chunks-for_each}
use cmnw.Valuations.Classes.{on_some, find_item-update_item, find_item-append_where}
use cmnw.Prelude.{subst}
use cmnw.Valuations.Items.{state_of}
use cmnw.Valuations.Stages.{update_tags}

-- No text is twice in a list.
abbrev pub IsDistinct : List Text → Type 0
IsDistinct [] = Unit
IsDistinct (t ∷ ts) = (includes t ts ≡ false) × IsDistinct ts

-- An item that another replaces: under the same id, with every class and no class twice if there was
-- none.
pub record Extends (x y : Item) : Type 0 where
  pub same_id : y.id ≡ x.id
  pub keeps : (t : Text) → includes t (classes_of x) ≡ true → includes t (classes_of y) ≡ true
  pub distinct : IsDistinct (classes_of x) → IsDistinct (classes_of y)

abbrev pub Grows : Option Item → Option Item → Type 0
Grows none none = Unit
Grows none (some y) = ⊥
Grows (some x) none = ⊥
Grows (some x) (some y) = Extends x y

-- Each item of a table is still there, and has at least its classes.
pub Extended : List Item → List Item → Type 0
Extended xs ys = (j : ℕ) → Grows (find_item j xs) (find_item j ys)

Extends-refl : (x : Item) → Extends x x
Extends-refl x = record { same_id = refl; keeps = λ t h. h; distinct = λ h. h }

Extends-trans : (x y z : Item) → Extends x y → Extends y z → Extends x z
Extends-trans x y z e f = record {
  same_id = f.same_id ∙ e.same_id;
  keeps = λ t h. f.keeps t (e.keeps t h);
  distinct = λ h. f.distinct (e.distinct h);
}

Grows-refl : (o : Option Item) → Grows o o
Grows-refl none = tt
Grows-refl (some x) = Extends-refl x

Grows-trans : (o p q : Option Item) → Grows o p → Grows p q → Grows o q
Grows-trans none none none e f = tt
Grows-trans (some x) (some y) (some z) e f = Extends-trans x y z e f
Grows-trans none none (some z) e f = f
Grows-trans none (some y) q e f = elim e [ ]
Grows-trans (some x) none q e f = elim e [ ]
Grows-trans (some x) (some y) none e f = f

pub Extended-refl : (xs : List Item) → Extended xs xs
unfolding Extended
Extended-refl xs j = Grows-refl (find_item j xs)

pub Extended-trans : (xs ys zs : List Item) → Extended xs ys → Extended ys zs → Extended xs zs
unfolding Extended
Extended-trans xs ys zs e f j = Grows-trans _ _ _ (e j) (f j)

on_some-Grows :
    (f : Item → Item) → ((x : Item) → Extends x (f x)) → (o : Option Item) → Grows o (on_some f o)
on_some-Grows f h none = tt
on_some-Grows f h (some x) = h x

pub IsDistinct-append :
    (t : Text) (cs : List Text) → IsDistinct cs → includes t cs ≡ false → IsDistinct (cs ++ t ∷ [])
IsDistinct-append t [] d h = (refl, tt)
IsDistinct-append t (c ∷ cs) d h = (
  ground (arith, any-append (same_text c) cs (t ∷ []), same_text_iff c t, same_text_iff t c),
  IsDistinct-append t cs d.1 (ground arith),
)

append_class-Extends :
    (t : Text) (x : Item) → includes t (classes_of x) ≡ false → Extends x (append_class t x)
append_class-Extends t x h = record {
  same_id = refl;
  keeps = λ c i. ground (arith, any-append (same_text c) (classes_of x) (t ∷ []));
  distinct = λ d. IsDistinct-append t (classes_of x) d h;
}

found-Extended :
    (refuses : ℕ → Text → Bool) (cls : Text) (i : ℕ) (o : Option Item) (xs : List Item)
    → find_item i xs ≡ o
    → Extended xs (state_of (add_to_found refuses i cls o xs))
unfolding add_to_found Extended
found-Extended refuses cls i none xs h j = Grows-refl (find_item j xs)
found-Extended refuses cls i (some x) xs h j = elim (Bool-cases (includes cls (classes_of x))) [
  | inl old ↦ rw old (Grows-refl (find_item j xs))
  | inr new ↦ elim (Bool-cases (refuses i cls)) [
    | inl bad ↦ rw (new, bad) (Grows-refl (find_item j xs))
    | inr good ↦
        rw (new, good)
          (rw
            (find_item-update_item j i
              (λ y. record y { asset_class = some (classes_of x ++ cls ∷ []) }) xs (λ y. refl))
            (elim (Bool-cases (i == j)) [
              | inl same ↦ rw same (
                  rw (ap (λ k. find_item k xs) (sym ((==_iff i j).0 same)) ∙ h)
                    (append_class-Extends cls x new))
              | inr other ↦ rw other (Grows-refl (find_item j xs))
            ]))
  ]
]

add-Extended :
    (refuses : ℕ → Text → Bool) (cls : Text) (i : ℕ) (xs : List Item)
    → Extended xs (state_of (add_asset_class_to_item refuses cls i xs))
unfolding add_asset_class_to_item
add-Extended refuses cls i xs = found-Extended refuses cls i (find_item i xs) xs refl

-- A step of a run that keeps the classes, where `items` is the table in a state.
pub record IsGrowing {S : Type 0} (items : S → List Item) (f : S → Run S) : Type 0 where
  pub grows : (s : S) → Extended (items s) (items (state_of (f s)))

abbrev pub table : List Item → List Item
table xs = xs

module _ {S : Type 0} (items : S → List Item) where
  bind-Extended :
      (s : S) (r : Run S) (f : S → Run S)
      → Extended (items s) (items (state_of r))
      → IsGrowing items f
      → Extended (items s) (items (state_of (r >>= f)))
  bind-Extended s (done t) f h k = Extended-trans _ _ _ h (k.grows t)
  bind-Extended s (threw t) f h k = h

  pub then-IsGrowing :
      {f g : S → Run S} → IsGrowing items f → IsGrowing items g → IsGrowing items (λ s. f s >>= g)
  then-IsGrowing {f} {g} h k = record { grows = λ s. bind-Extended s (f s) g (h.grows s) k }

  for_each-IsGrowing :
      {A : Type 0} (body : A → S → Run S)
      → ((a : A) → IsGrowing items (body a))
      → (list : List A) → IsGrowing items (for_each body list)
  unfolding for_each
  for_each-IsGrowing body h [] = record { grows = λ s. Extended-refl (items s) }
  for_each-IsGrowing body h (a ∷ list) = record {
    grows = λ s.
        bind-Extended s (body a s) (for_each body list) ((h a).grows s)
          (for_each-IsGrowing body h list);
  }

pub add-IsGrowing :
    (refuses : ℕ → Text → Bool) (cls : Text) (i : ℕ)
    → IsGrowing table (add_asset_class_to_item refuses cls i)
add-IsGrowing refuses cls i = record { grows = add-Extended refuses cls i }

-- The batches of a loop over a list.
pub batched-IsGrowing :
    {A : Type 0} (body : A → List Item → Run (List Item))
    → ((a : A) → IsGrowing table (body a))
    → (list : List A) → IsGrowing table (for_chunks (length list) batch_size body list)
batched-IsGrowing body h list = record {
  grows = λ xs.
      subst (λ r. Extended xs (state_of r))
        (sym (for_chunks-for_each (length list) 499 body list xs (omega arith)))
        ((for_each-IsGrowing table body h list).grows xs);
}

pub batch-IsGrowing :
    (refuses : ℕ → Text → Bool) (ids : List ℕ) (cls : Text)
    → IsGrowing table (batch_add_asset_class refuses ids cls)
unfolding batch_add_asset_class
batch-IsGrowing refuses ids cls =
    batched-IsGrowing (add_asset_class_to_item refuses cls) (add-IsGrowing refuses cls) (unique ids)

where-Extends :
    (cls : Text) (x : Item) → Extends x (if lacks cls x.asset_class then append_class cls x else x)
where-Extends cls x = elim (Bool-cases (lacks cls x.asset_class)) [
  | inl lacking ↦ rw lacking (append_class-Extends cls x (ground arith))
  | inr other ↦ rw other (Extends-refl x)
]

pub append_where-Extended :
    (cls : Text) (ids : List ℕ) (xs : List Item) → Extended xs (append_where cls ids xs)
unfolding Extended
append_where-Extended cls ids xs j =
    rw (find_item-append_where cls ids j xs) (elim (Bool-cases (any (λ i. i == j) ids)) [
      | inl listed ↦ rw listed (
          on_some-Grows (λ x. if lacks cls x.asset_class then append_class cls x else x)
            (where-Extends cls) (find_item j xs))
      | inr other ↦ rw other (Grows-refl (find_item j xs))
    ])

update_tags-Extended :
    (lower : Text → Text) (refuses_tags : ℕ → Bool) (u : ℕ × List Text) (xs : List Item)
    → Extended xs (state_of (update_tags lower refuses_tags u xs))
unfolding update_tags Extended
update_tags-Extended lower refuses_tags (i, ts) xs j = elim (Bool-cases (refuses_tags i)) [
  | inl bad ↦ rw bad (Grows-refl (find_item j xs))
  | inr good ↦ rw good (
      rw (find_item-update_item j i (λ y. record y { tags = some ts }) xs (λ y. refl))
        (elim (Bool-cases (i == j)) [
          | inl same ↦ rw same (
              on_some-Grows (λ y. record y { tags = some ts })
                (λ x. record { same_id = refl; keeps = λ t h. h; distinct = λ h. h })
                (find_item j xs))
          | inr other ↦ rw other (Grows-refl (find_item j xs))
        ]))
]

pub update_tags-IsGrowing :
    (lower : Text → Text) (refuses_tags : ℕ → Bool) (u : ℕ × List Text)
    → IsGrowing table (update_tags lower refuses_tags u)
update_tags-IsGrowing lower refuses_tags u = record {
  grows = update_tags-Extended lower refuses_tags u;
}
