-- ===== src/Evaluation/Table.antt =====
-- compareMarketVsCrafting, and what evaluateRealmProfitability does to the table of evaluations.
use cmnw.Prelude.{
  some_inj, none_ne_some, ℕ, ◌≡◌, ◌⊎◌, inl, inr, refl, sym, ap, ◌∙◌, subst, arith, Bool, true,
  false, not, Option, none, some, List, [], ◌∷◌, ◌==◌, length, All, any, Bool-cases, keep,
  Option-cases, Memᴰ,
}
use cmnw.Evaluation.Numbers.{Number, IsOrdered, truthy}
use cmnw.Evaluation.Prices.{get_market_price}
use cmnw.Evaluation.Methods.{Method, is_cheaper, best_of, gather_crafting_methods}
use cmnw.Evaluation.Item.{Item, Database}
use cmnw.Evaluation.Crafts.{
  Comparison, Row, compare_market_vs_crafting, rows_of, items_map, save_rows, TableCommands,
}
use cmnw.Evaluation.Ranking.{not_lt_trans}
use cmnw.Evaluation.Best.{IsBest, cheapest-IsBest}

any-Memᴰ :
    {A : Type 0} (p : A → Bool) (x : A) (xs : List A) → Memᴰ x xs → p x ≡ true → any p xs ≡ true
any-Memᴰ p x [] m h = elim m [ ]
any-Memᴰ p x (y ∷ xs) (Memᴰ.head e) h = rw (ap p (sym e) ∙ h) refl
any-Memᴰ p x (y ∷ xs) (Memᴰ.tail m) h = ground (arith, any-Memᴰ p x xs m h)

any_none : {A : Type 0} (p : A → Bool) (xs : List A) → All (λ x. p x ≡ false) xs → any p xs ≡ false
any_none p [] a = refl
any_none p (x ∷ xs) a = rw (a.0) (any_none p xs a.1)

module _ {N : Type 0} (num : Number N) (o : IsOrdered num) where
  open num use {of_ℕ, minus, lt}

  still_dear :
      (price : N) (m : Method N)
      → lt m.calculated_value price ≡ false
      → (ns : List (Method N)) → All (λ n. is_cheaper num n m ≡ false) ns
      → All (λ n. lt n.calculated_value price ≡ false) ns
  still_dear price m h [] a = tt
  still_dear price m h (n ∷ ns) a = (
    not_lt_trans num o n.calculated_value m.calculated_value price a.0 h,
    still_dear price m h ns a.1,
  )

  cheapest_tells :
      (price : N) (ms : List (Method N)) (m : Method N)
      → IsBest (is_cheaper num) ms (some m)
      → lt (of_ℕ 0) (minus price m.calculated_value) ≡ any (λ n. lt n.calculated_value price) ms
  cheapest_tells price ms m (k, a) =
      o.lt-minus price m.calculated_value ∙ elim (Bool-cases (lt m.calculated_value price)) [
        | inl h ↦ h ∙ sym (any-Memᴰ (λ n. lt n.calculated_value price) m ms k h)
        | inr h ↦
            h ∙ sym (any_none (λ n. lt n.calculated_value price) ms (still_dear price m h ms a))
      ]

  -- An item is profitable to craft exactly if some recipe makes it for less than its market price.
  pub compare_market_vs_crafting_iff :
      (db : Database N) (item_id : ℕ) {c : Comparison N}
      → compare_market_vs_crafting num db item_id ≡ some c
      → c.is_profitable
        ≡ any
            (λ m. lt m.calculated_value c.market_price)
            (gather_crafting_methods num db.market (db.producing item_id) item_id)
  unfolding compare_market_vs_crafting
  compare_market_vs_crafting_iff db item_id {c} e =
      let ms = gather_crafting_methods num db.market (db.producing item_id) item_id in
      elim (Option-cases (truthy num (get_market_price num db.market item_id))) [
        | inl n ↦ absurd (none_ne_some (rw (n, compare_market_vs_crafting) at e))
        | inr (price, h) ↦
            let e' = rw (h, compare_market_vs_crafting) at e in
            elim (Option-cases (best_of (is_cheaper num) ms)) [
              | inl n ↦ absurd (none_ne_some (rw n at e'))
              | inr (m, k) ↦
                  subst
                    (λ (w : Comparison N).
                      w.is_profitable ≡ any (λ n. lt n.calculated_value w.market_price) ms)
                    (some_inj (rw k at e'))
                    (cheapest_tells price ms m (rw k at (cheapest-IsBest num o ms)))
            ]
      ]

module _ {N : Type 0} (num : Number N) (db : Database N) (commands : TableCommands N)
    (realm now : ℕ) where
  abbrev pub of_realm : Row N → Bool
  of_realm r = r.connected_realm_id == realm

  abbrev pub elsewhere : Row N → Bool
  elsewhere r = not (r.connected_realm_id == realm)

  -- The rows of the other realms stay; the table stays if there are no crafts or the deletion fails;
  -- and otherwise the realm has as many rows as are counted.
  abbrev pub IsReplaced : List (Row N) → List (Comparison N) → List (Row N) → ℕ → Type 0
  IsReplaced table cs table' count =
      (keep elsewhere table' ≡ keep elsewhere table)
      × ((((cs ≡ []) ⊎ (commands.delete_fails ≡ true)) × (table' ≡ table) × (count ≡ 0))
          ⊎ ((commands.delete_fails ≡ false) × (length (keep of_realm table') ≡ count)))

  abbrev Replaces : List (Row N) → List (Comparison N) → List (Row N) × ℕ → Type 0
  Replaces table cs out = IsReplaced table cs out.0 out.1

  after_deletion : List (Row N) → List (Comparison N) → Option (List (Item N)) → List (Row N) × ℕ
  after_deletion left cs items = elim items [
    | none ↦ (left, 0)
    | some is ↦
        save_rows num commands.save_fails left (rows_of num db realm now (items_map num is) cs)
  ]
