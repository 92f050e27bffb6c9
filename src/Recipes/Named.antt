-- ===== src/Recipes/Named.antt =====
-- The recipes that the responses of the server name are those that an indexing looks up.
use cmnw.Prelude.{
  ℕ, Bool, true, false, Option, none, some, List, [], ◌∷◌, ◌++◌, Memᴰ, Text, show, ◌≡◌, inl, inr,
  refl, arith, Option-cases, subst, sym, ap,
}
use cmnw.Prelude.Memberships.{
  Memᴰ-append_left, Memᴰ-append_right, Memᴰ-append_cases, Memᴰ-map, Memᴰ-map_origin,
}
use cmnw.Recipes.Pricings.{
  Recipe, Tier, Profession, expansion_of, indexed_recipe, recipes_of_categories, recipes_of_tiers,
  recipes_of,
}

module _ (column : ℕ → ℕ) where
  -- The responses name the recipe: a profession of the index has a tier that has a category that has
  -- the recipe's id; the profession's id and the tier's name say its profession and expansion.
  pub record IsNamed (ps : List Profession) (r : Recipe) : Type 0 where
    pub profession : Profession
    pub tiers : List Tier
    pub tier : Tier
    pub categories : List (Option (List ℕ))
    pub recipes : List ℕ
    pub number : ℕ
    pub of_index : Memᴰ profession ps
    pub has_tiers : profession.tiers ≡ some tiers
    pub of_profession : Memᴰ tier tiers
    pub has_categories : tier.categories ≡ some categories
    pub of_tier : Memᴰ (some recipes) categories
    pub of_category : Memᴰ number recipes
    pub is_recipe : r ≡ indexed_recipe column (show profession.id) (expansion_of tier.name) number

  abbrev or_empty : Option (List ℕ) → List ℕ
  or_empty none = []
  or_empty (some is) = is

  abbrev is_there : Option (List ℕ) → Bool
  is_there none = false
  is_there (some is) = true

  categories-named :
      (p e : Text) (cs : List (Option (List ℕ))) (is : List ℕ) (i : ℕ)
      → Memᴰ (some is) cs
      → Memᴰ i is
      → Memᴰ (indexed_recipe column p e i) (recipes_of_categories column p e cs)
  unfolding recipes_of_categories
  categories-named p e [] is i k m = elim k [ ]
  categories-named p e (none ∷ cs) is i (Memᴰ.head h) m = ground (arith, ap is_there h)
  categories-named p e (none ∷ cs) is i (Memᴰ.tail k) m = categories-named p e cs is i k m
  categories-named p e (some js ∷ cs) is i (Memᴰ.head h) m =
      Memᴰ-append_left _ _
        (Memᴰ-map (indexed_recipe column p e) i js (subst (λ o. Memᴰ i (or_empty o)) h m))
  categories-named p e (some js ∷ cs) is i (Memᴰ.tail k) m =
      Memᴰ-append_right _ _ (categories-named p e cs is i k m)

  categories-origin :
      (p e : Text) (cs : List (Option (List ℕ))) (r : Recipe)
      → Memᴰ r (recipes_of_categories column p e cs)
      → (is : List ℕ) × (i : ℕ) × Memᴰ (some is) cs × Memᴰ i is × (r ≡ indexed_recipe column p e i)
  unfolding recipes_of_categories
  categories-origin p e [] r k = elim k [ ]
  categories-origin p e (none ∷ cs) r k =
      let (is, i, a, b, c) = categories-origin p e cs r k in (is, i, Memᴰ.tail a, b, c)
  categories-origin p e (some js ∷ cs) r k = elim (Memᴰ-append_cases _ _ k) [
    | inl l ↦
        let (i, m, h) = Memᴰ-map_origin (indexed_recipe column p e) r js l in
        (js, i, Memᴰ.head refl, m, h)
    | inr l ↦ let (is, i, a, b, c) = categories-origin p e cs r l in (is, i, Memᴰ.tail a, b, c)
  ]

  tiers-none :
      (p : Text) (t : Tier) (ts : List Tier)
      → t.categories ≡ none
      → recipes_of_tiers column p (t ∷ ts) ≡ recipes_of_tiers column p ts
  unfolding recipes_of_tiers
  tiers-none p t ts h = rw h refl

  tiers-some :
      (p : Text) (t : Tier) (ts : List Tier) (cs : List (Option (List ℕ)))
      → t.categories ≡ some cs
      → recipes_of_tiers column p (t ∷ ts)
        ≡ recipes_of_categories column p (expansion_of t.name) cs ++ recipes_of_tiers column p ts
  unfolding recipes_of_tiers
  tiers-some p t ts cs h = rw h refl

  tiers-named :
      (p : Text) (ts : List Tier) (t : Tier) (cs : List (Option (List ℕ))) (r : Recipe)
      → Memᴰ t ts
      → t.categories ≡ some cs
      → Memᴰ r (recipes_of_categories column p (expansion_of t.name) cs)
      → Memᴰ r (recipes_of_tiers column p ts)
  tiers-named p [] t cs r k h m = elim k [ ]
  tiers-named p (u ∷ ts) t cs r (Memᴰ.head e) h m =
      subst (λ v. Memᴰ r (recipes_of_tiers column p (v ∷ ts))) e
        (subst (λ xs. Memᴰ r xs) (sym (tiers-some p t ts cs h)) (Memᴰ-append_left _ _ m))
  tiers-named p (u ∷ ts) t cs r (Memᴰ.tail k) h m =
      let later = tiers-named p ts t cs r k h m in
      elim (Option-cases u.categories) [
        | inl absent ↦ subst (λ xs. Memᴰ r xs) (sym (tiers-none p u ts absent)) later
        | inr (ds, has) ↦
            subst (λ xs. Memᴰ r xs) (sym (tiers-some p u ts ds has)) (Memᴰ-append_right _ _ later)
      ]

  tiers-origin :
      (p : Text) (ts : List Tier) (r : Recipe)
      → Memᴰ r (recipes_of_tiers column p ts)
      → (t : Tier) × (cs : List (Option (List ℕ))) × Memᴰ t ts
        × (t.categories ≡ some cs)
        × Memᴰ r (recipes_of_categories column p (expansion_of t.name) cs)
  unfolding recipes_of_tiers
  tiers-origin p [] r k = elim k [ ]
  tiers-origin p (u ∷ ts) r k = elim (Option-cases u.categories) [
    | inl absent ↦
        let (t, cs, a, b, c) =
          tiers-origin p ts r (subst (λ xs. Memᴰ r xs) (tiers-none p u ts absent) k) in
        (t, cs, Memᴰ.tail a, b, c)
    | inr (ds, has) ↦
        elim (Memᴰ-append_cases _ _ (subst (λ xs. Memᴰ r xs) (tiers-some p u ts ds has) k)) [
          | inl here ↦ (u, ds, Memᴰ.head refl, has, here)
          | inr later ↦
              let (t, cs, a, b, c) = tiers-origin p ts r later in (t, cs, Memᴰ.tail a, b, c)
        ]
  ]

  index-none :
      (p : Profession) (ps : List Profession)
      → p.tiers ≡ none
      → recipes_of column (p ∷ ps) ≡ recipes_of column ps
  unfolding recipes_of
  index-none p ps h = rw h refl

  index-some :
      (p : Profession) (ps : List Profession) (ts : List Tier)
      → p.tiers ≡ some ts
      → recipes_of column (p ∷ ps) ≡ recipes_of_tiers column (show p.id) ts ++ recipes_of column ps
  unfolding recipes_of
  index-some p ps ts h = rw h refl

  tiers_in-index :
      (ps : List Profession) (p : Profession) (ts : List Tier) (r : Recipe)
      → Memᴰ p ps
      → p.tiers ≡ some ts
      → Memᴰ r (recipes_of_tiers column (show p.id) ts)
      → Memᴰ r (recipes_of column ps)
  tiers_in-index [] p ts r k h m = elim k [ ]
  tiers_in-index (q ∷ ps) p ts r (Memᴰ.head e) h m =
      subst (λ v. Memᴰ r (recipes_of column (v ∷ ps))) e
        (subst (λ xs. Memᴰ r xs) (sym (index-some p ps ts h)) (Memᴰ-append_left _ _ m))
  tiers_in-index (q ∷ ps) p ts r (Memᴰ.tail k) h m =
      let later = tiers_in-index ps p ts r k h m in
      elim (Option-cases q.tiers) [
        | inl absent ↦ subst (λ xs. Memᴰ r xs) (sym (index-none q ps absent)) later
        | inr (us, has) ↦
            subst (λ xs. Memᴰ r xs) (sym (index-some q ps us has)) (Memᴰ-append_right _ _ later)
      ]

  -- A recipe that the responses name is looked up.
  pub IsNamed-looked_up :
      (ps : List Profession) (r : Recipe) → IsNamed ps r → Memᴰ r (recipes_of column ps)
  IsNamed-looked_up ps r n = tiers_in-index ps n.profession n.tiers r n.of_index n.has_tiers (
      tiers-named (show n.profession.id) n.tiers n.tier n.categories r n.of_profession
        n.has_categories
        (subst
          (λ x. Memᴰ x (
            recipes_of_categories column (show n.profession.id) (expansion_of n.tier.name)
              n.categories))
          (sym n.is_recipe)
          (categories-named (show n.profession.id) (expansion_of n.tier.name) n.categories n.recipes
            n.number n.of_tier n.of_category)))

  IsNamed-later :
      {p : Profession} {ps : List Profession} {r : Recipe} → IsNamed ps r → IsNamed (p ∷ ps) r
  IsNamed-later n = record {
    profession = n.profession;
    tiers = n.tiers;
    tier = n.tier;
    categories = n.categories;
    recipes = n.recipes;
    number = n.number;
    of_index = Memᴰ.tail n.of_index;
    has_tiers = n.has_tiers;
    of_profession = n.of_profession;
    has_categories = n.has_categories;
    of_tier = n.of_tier;
    of_category = n.of_category;
    is_recipe = n.is_recipe;
  }

  IsNamed-first :
      (p : Profession) (ps : List Profession) (ts : List Tier) (r : Recipe)
      → p.tiers ≡ some ts
      → Memᴰ r (recipes_of_tiers column (show p.id) ts)
      → IsNamed (p ∷ ps) r
  IsNamed-first p ps ts r h m =
      let (t, cs, of_ts, has, k) = tiers-origin (show p.id) ts r m in
      let (is, i, of_cs, of_is, e) = categories-origin (show p.id) (expansion_of t.name) cs r k in
      record {
        profession = p;
        tiers = ts;
        tier = t;
        categories = cs;
        recipes = is;
        number = i;
        of_index = Memᴰ.head refl;
        has_tiers = h;
        of_profession = of_ts;
        has_categories = has;
        of_tier = of_cs;
        of_category = of_is;
        is_recipe = e;
      }

  -- A recipe that is looked up is named by the responses.
  pub looked_up-IsNamed :
      (ps : List Profession) (r : Recipe) → Memᴰ r (recipes_of column ps) → IsNamed ps r
  unfolding recipes_of
  looked_up-IsNamed [] r k = elim k [ ]
  looked_up-IsNamed (p ∷ ps) r k = elim (Option-cases p.tiers) [
    | inl absent ↦
        IsNamed-later (looked_up-IsNamed ps r (subst (λ xs. Memᴰ r xs) (index-none p ps absent) k))
    | inr (ts, has) ↦
        elim (Memᴰ-append_cases _ _ (subst (λ xs. Memᴰ r xs) (index-some p ps ts has) k)) [
          | inl here ↦ IsNamed-first p ps ts r has here
          | inr later ↦ IsNamed-later (looked_up-IsNamed ps r later)
        ]
  ]
