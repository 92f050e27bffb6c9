-- ===== src/Recipes/Indexing.antt =====
-- The table of recipes after an indexing.
use cmnw.Prelude.{
  ℕ, Bool, true, some, List, ◌++◌, any, Memᴰ, Text, same_text, same_text_iff, ◌≡◌, ◌⊎◌, inl, inr,
  refl, arith, ==_refl,
}
use cmnw.Prelude.Missing.{
  AreDifferent, put_all_missing-append, put_all_missing-All, put_all_missing-AreDifferent,
}
use cmnw.Recipes.Named.{IsNamed, IsNamed-looked_up, looked_up-IsNamed}
use cmnw.Recipes.Pricings.{Recipe, Profession, same_recipe, recipes_of, index_pricing}

same_text_refl : (t : Text) → same_text t t ≡ true
same_text_refl t = (same_text_iff t t).1 refl

same_text_sym : (s t : Text) → same_text s t ≡ same_text t s
same_text_sym s t = ground (arith, same_text_iff s t, same_text_iff t s, same_text_refl s)

same_recipe_refl : (r : Recipe) → same_recipe r r ≡ true
same_recipe_refl r =
    ground (arith, ==_refl r.recipe_id, same_text_refl r.expansion, same_text_refl r.profession)

same_recipe_sym : (a b : Recipe) → same_recipe a b ≡ same_recipe b a
same_recipe_sym a b =
    ground (arith, same_text_sym a.expansion b.expansion, same_text_sym a.profession b.profession)

-- An indexing of recipes keeps every row in its place and adds rows behind them, each for a recipe
-- that the responses name, under the id of its profession and the expansion of its tier; never a
-- second row for a recipe, expansion and profession if there was none. Afterwards every recipe that
-- the responses name has a row, unless one that they name was refused.
pub index_pricing_lem :
    (column : ℕ → ℕ) (refuses : Recipe → Bool) (ps : List Profession) (rows : List Recipe)
    → let after = index_pricing column refuses true (some ps) rows in
      ((new : List Recipe) × (after ≡ rows ++ new)
        × ((r : Recipe) → Memᴰ r new → IsNamed column ps r))
      × (AreDifferent same_recipe rows → AreDifferent same_recipe after)
      × (((r : Recipe) → IsNamed column ps r → any (same_recipe r) after ≡ true)
          ⊎ ((r : Recipe) × IsNamed column ps r × (refuses r ≡ true)))
unfolding index_pricing
index_pricing_lem column refuses ps rows =
    let rs = recipes_of column ps in
    let (new, e, origin) = put_all_missing-append same_recipe refuses rs rows in
    (
      (new, e, (λ r m. looked_up-IsNamed column ps r (origin r m))),
      put_all_missing-AreDifferent same_recipe same_recipe_sym refuses rs rows,
      elim (put_all_missing-All same_recipe refuses same_recipe_refl rs rows) [
        | inl (done, all) ↦ inl (λ r n. all r (IsNamed-looked_up column ps r n))
        | inr (stopped, r, m, refused) ↦ inr (r, looked_up-IsNamed column ps r m, refused)
      ],
    )
