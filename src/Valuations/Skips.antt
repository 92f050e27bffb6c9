-- ===== src/Valuations/Skips.antt =====
-- When a stage is run and when it is skipped, and what the stages of the prices and of the market do.
use cmnw.Prelude.{
  ℕ, Bool, true, false, Option, List, [], ◌∷◌, ◌++◌, any, map, keep, length, if◌then◌else◌, Text,
  codes, ◌≡◌, refl, ap, ◌∙◌, arith, subst, Bool-cases, inl, inr, same_text_iff, ◌==◌, some,
}
use cmnw.Valuations.Items.{
  Item, Run, done, ◌>>=◌, find_item, batch_add_asset_class, lacks, append_class,
}
use cmnw.Valuations.Store.{
  Json, Store, Stage, pricing, auctions, premium, currency, tags, vsp, state_data, stage_name,
  MarketRow, distinct_item_ids,
}
use cmnw.Valuations.Stages.{
  add_market_asset_class, stage_key, is_stage_processed, mark_stage_as_processed, run_stage,
  collect_ids, pricing_body, add_pricing_classes, build_asset_classes_from_pricing,
  build_asset_classes_for_premium,
}
use cmnw.Valuations.Classes.{
  >>=-eq-done, any-unique, classified, on_some, batch_add_asset_class-find,
  batch_add_asset_class-done, find_item-append_where,
}

done_inj : {S : Type 0} {s t : S} → done s ≡ done t → s ≡ t
done_inj e = cc

any_all :
    (j : ℕ) (rows : List MarketRow)
    → any (λ i. i == j) (map (λ r. r.item_id) (keep (λ r. true) rows))
      ≡ any (λ r. r.item_id == j) rows
any_all j [] = refl
any_all j (r ∷ rows) = ground (arith, any_all j rows)

state_data-mark :
    (md5 : Text → Text) (k j : Stage) (s : Store)
    → state_data k (mark_stage_as_processed md5 j s) ≡ state_data k s
unfolding state_data mark_stage_as_processed
state_data-mark md5 pricing j s = refl
state_data-mark md5 auctions j s = refl
state_data-mark md5 premium j s = refl
state_data-mark md5 currency j s = refl
state_data-mark md5 tags j s = refl
state_data-mark md5 vsp j s = refl

stage_key-mark :
    (md5 : Text → Text) (k j : Stage) (s : Store)
    → stage_key md5 k (mark_stage_as_processed md5 j s) ≡ stage_key md5 k s
unfolding stage_key
stage_key-mark md5 k j s =
    ap (λ d. codes "VALUATION_STAGE_PROCESSED:" ++ (stage_name k ++ (codes ":" ++ md5 d)))
      (state_data-mark md5 k j s)

marked :
    (md5 : Text → Text) (k : Stage) (s : Store)
    → is_stage_processed md5 k (mark_stage_as_processed md5 k s) ≡ true
unfolding is_stage_processed mark_stage_as_processed
marked md5 k s = ground (
  arith,
  (same_text_iff (stage_key md5 k (mark_stage_as_processed md5 k s)) (stage_key md5 k s)).1
      (stage_key-mark md5 k k s),
)

skips :
    (md5 : Text → Text) (k : Stage) (body : Store → Run Store) (s : Store)
    → is_stage_processed md5 k s ≡ true
    → run_stage md5 k body s ≡ done s
unfolding run_stage
skips md5 k body s h = rw h refl

run_stage-marked :
    (md5 : Text → Text) (k : Stage) (body : Store → Run Store) (s t : Store)
    → run_stage md5 k body s ≡ done t
    → is_stage_processed md5 k t ≡ true
unfolding run_stage
run_stage-marked md5 k body s t e = elim (Bool-cases (is_stage_processed md5 k s)) [
  | inl skip ↦ ground arith
  | inr go ↦
      let ran =
        >>=-eq-done (body s) (λ u. done (mark_stage_as_processed md5 k u)) {t = t} (rw go at e) in
      subst (λ u. is_stage_processed md5 k u ≡ true) (done_inj ran.2) (marked md5 k ran.0)
]

same_key-processed :
    (md5 : Text → Text) (t u : Store)
    → length u.items ≡ length t.items
    → u.processed ≡ t.processed
    → is_stage_processed md5 premium t ≡ true
    → is_stage_processed md5 premium u ≡ true
unfolding is_stage_processed stage_key state_data
same_key-processed md5 t u l p h = rw (l, p) h

-- A stage that has ended without a throw is skipped when it is run again.
pub run_stage-again :
    (md5 : Text → Text) (k : Stage) (body : Store → Run Store) (s t : Store)
    → run_stage md5 k body s ≡ done t
    → run_stage md5 k body t ≡ done t
run_stage-again md5 k body s t e = skips md5 k body t (run_stage-marked md5 k body s t e)

-- The key of the stage for premium items tells apart the numbers of items only: once it is there,
-- the stage does nothing in any state with as many items, whatever classes they have got.
pub build_asset_classes_for_premium-same_count :
    (md5 : Text → Text) (parse_json : Text → Option Json) (refuses : ℕ → Text → Bool)
    (lower : Text → Text) (refuses_tags : ℕ → Bool) (s t u : Store)
    → build_asset_classes_for_premium md5 parse_json refuses lower refuses_tags s ≡ done t
    → length u.items ≡ length t.items
    → u.processed ≡ t.processed
    → build_asset_classes_for_premium md5 parse_json refuses lower refuses_tags u ≡ done u
unfolding build_asset_classes_for_premium
build_asset_classes_for_premium-same_count md5 parse_json refuses lower refuses_tags s t u e l p =
    skips md5 premium _ u (same_key-processed md5 t u l p (run_stage-marked md5 premium _ s t e))

two_batches-find :
    (refuses : ℕ → Text → Bool) (is ks : List ℕ) (c d : Text) (xs ys : List Item) (j : ℕ)
    → (batch_add_asset_class refuses is c xs >>= batch_add_asset_class refuses ks d) ≡ done ys
    → find_item j ys ≡ classified ks d j (classified is c j (find_item j xs))
two_batches-find refuses is ks c d xs ys j e =
    let (zs, f, g) =
      >>=-eq-done (batch_add_asset_class refuses is c xs) (batch_add_asset_class refuses ks d)
        {t = ys} e in
    batch_add_asset_class-find refuses d ks zs ys j g
    ∙ ap (classified ks d j) (batch_add_asset_class-find refuses c is xs zs j f)

-- Where the queries, the commands of Redis and the reading of the two columns succeed and no update
-- is refused, a stage of the prices that is not skipped comes to its end and sets its key. Under each
-- id the item then has the class of derivatives if a price has it among its derivatives, and then that
-- of reagents if a price has it among its reagents, each once and behind the classes that it had; no
-- item appears or is lost.
pub build_asset_classes_from_pricing_total :
    (md5 : Text → Text) (parse_json : Text → Option Json) (refuses : ℕ → Text → Bool)
    (lower : Text → Text) (refuses_tags : ℕ → Bool) (s : Store) (ds rs : List ℕ)
    → collect_ids parse_json (λ p. p.derivatives) s.pricings ≡ some ds
    → collect_ids parse_json (λ p. p.reagents) s.pricings ≡ some rs
    → ((i : ℕ) (c : Text) → refuses i c ≡ false)
    → is_stage_processed md5 pricing s ≡ false
    → (t : Store) × (build_asset_classes_from_pricing md5 parse_json refuses lower refuses_tags s
        ≡ done t)
      × (is_stage_processed md5 pricing t ≡ true)
      × ((j : ℕ)
          → find_item j t.items
            ≡ classified rs
                (codes "REAGENT")
                j
                (classified ds (codes "DERIVATIVE") j (find_item j s.items)))
unfolding build_asset_classes_from_pricing run_stage pricing_body add_pricing_classes
    mark_stage_as_processed
build_asset_classes_from_pricing_total md5 parse_json refuses lower refuses_tags s ds rs hd hr
      accepts new =
    let (xs, e) = batch_add_asset_class-done refuses (codes "DERIVATIVE") accepts ds s.items in
    let (ys, f) = batch_add_asset_class-done refuses (codes "REAGENT") accepts rs xs in
    let u = record s { items = ys } in
    (
      mark_stage_as_processed md5 pricing u,
      rw (new, hd, hr, add_pricing_classes, e, f) refl,
      marked md5 pricing u,
      λ j.
          two_batches-find refuses ds rs (codes "DERIVATIVE") (codes "REAGENT") s.items ys j
            (rw e f),
    )

any-rows :
    (j : ℕ) (rows : List MarketRow)
    → any (λ i. i == j) (distinct_item_ids (λ r. true) rows) ≡ any (λ r. r.item_id == j) rows
unfolding distinct_item_ids
any-rows j rows = any-unique j (map (λ r. r.item_id) (keep (λ r. true) rows)) ∙ any_all j rows

-- The class of the market goes to the items with a row in the market that lack it, except to those
-- whose column of classes is null: they stay without classes.
pub add_market_asset_class-find :
    (s : Store) (j : ℕ)
    → find_item j (add_market_asset_class s).items ≡ (
        if any (λ r. r.item_id == j) s.market
        then on_some
            (λ x.
              if lacks (codes "MARKET") x.asset_class then append_class (codes "MARKET") x else x)
            (find_item j s.items)
        else find_item j s.items)
unfolding add_market_asset_class
add_market_asset_class-find s j =
    find_item-append_where (codes "MARKET") (distinct_item_ids (λ r. true) s.market) j s.items
    ∙ ap
        (λ b.
          if b
          then on_some
              (λ x.
                if lacks (codes "MARKET") x.asset_class then append_class (codes "MARKET") x else x)
              (find_item j s.items)
          else find_item j s.items)
        (any-rows j s.market)
