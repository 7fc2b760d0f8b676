-- ===== src/Udm/FieldRegistry/Summary.antt =====
-- The groups of the summary.
use tengen.Prelude.{
  ℕ, ◌+◌, String, List, [], ◌∷◌, ◌≡◌, refl, arith, Dict, length, lookup, insert, get_or,
}
use tengen.Udm.FieldRegistry.{Row, counts_by, summary}

unfoldable pub sum_of : Dict ℕ → ℕ
sum_of [] = 0
sum_of ((_, n) ∷ d) = n + sum_of d

sum_of-insert :
    (k : String) (d : Dict ℕ) → sum_of (insert k (get_or (lookup k d) 0 + 1) d) ≡ sum_of d + 1
unfolding sum_of insert lookup
sum_of-insert k [] = omega arith
sum_of-insert k ((j, n) ∷ d) = ground (arith, sum_of-insert k d)

sum_of-counts_by :
    (column : Row → String) (rows : List Row) → sum_of (counts_by column rows) ≡ length rows
unfolding counts_by
sum_of-counts_by column [] = unfold sum_of in refl
sum_of-counts_by column (r ∷ rows) =
    omega (arith, sum_of-insert (column r) (counts_by column rows), sum_of-counts_by column rows)

-- The counts by status add up to the number of rows, and so do those by source.
pub summary-sums :
    (rows : List Row)
    → (sum_of (summary rows).by_status ≡ (summary rows).total)
      × (sum_of (summary rows).by_source ≡ (summary rows).total)
unfolding summary
summary-sums rows = (sum_of-counts_by _ rows, sum_of-counts_by _ rows)
