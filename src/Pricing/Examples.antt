-- ===== src/Pricing/Examples.antt =====
-- Edges at two, three and five gold, and prices between them.
use cmnw.Prelude.{ℕ, ◌+◌, ◌-◌, ◌*◌, ◌/◌, ◌≤◌, some, List, [], ◌∷◌, ◌≡◌, refl, arith}
use cmnw.Pricing.{build_linear_bins, search, assign_price_bucket}
use cmnw.Pricing.Bucket.{reached, assign_price_bucket-reached}
use cmnw.Pricing.Edges.{AreAscending, build_linear_bins-AreAscending}

abbrev more_edges : List ℕ
more_edges = 3000 ∷ 5000 ∷ []

assign_price_bucket-reached_example :
    assign_price_bucket 3500 (2000 ∷ more_edges) ≡ some (reached 3500 (2000 ∷ more_edges) - 1)
assign_price_bucket-reached_example =
    assign_price_bucket-reached 3500 2000 more_edges (ground arith)

bucket_of_3500 : assign_price_bucket 3500 (2000 ∷ more_edges) ≡ some 1
unfolding assign_price_bucket search
bucket_of_3500 = refl

-- To hundredths, half up.
abbrev hundredths : ℕ → ℕ
hundredths n = (n + 5) / 10 * 10

hundredths-monotone : (a b : ℕ) → a ≤ b → hundredths a ≤ hundredths b
hundredths-monotone a b h = ground arith

build_linear_bins-AreAscending_example :
    (edges : List ℕ) × (build_linear_bins hundredths 4000 4500 20 ≡ some edges) × AreAscending edges
build_linear_bins-AreAscending_example =
    build_linear_bins-AreAscending hundredths hundredths-monotone 4000 4500 20
