-- ===== src/HotspotParsers/Depths.antt =====
-- src/lib/hotspotParsers.js: the rows that `extractRows` finds, by their depth.
use relay_cerebro_infra.Base.{ℕ, zero, suc, List, [], ◌∷◌, ◌++◌}
use relay_cerebro_infra.HotspotParsers.{
  Item, Items, falsy, scalar, array, with_data, with_row, plain, nil, next, Argument, nothing,
  an_array, an_object,
}

-- The rows of a value at a depth: an object without a `data` array is a row at depth 0, itself or its
-- `data` object, and the values of an array, or of a `data` array, are one deeper.
unfoldable mutual
  pub row_at : {R : Type 0} → ℕ → Item R → List R
  row_at d falsy = []
  row_at d scalar = []
  row_at zero (array xs) = []
  row_at (suc d) (array xs) = rows_deep d xs
  row_at zero (with_data xs) = []
  row_at (suc d) (with_data xs) = rows_deep d xs
  row_at zero (with_row r) = r ∷ []
  row_at (suc d) (with_row r) = []
  row_at zero (plain r) = r ∷ []
  row_at (suc d) (plain r) = []

  pub rows_deep : {R : Type 0} → ℕ → Items R → List R
  rows_deep d nil = []
  rows_deep d (next x q) = row_at d x ++ rows_deep d q

module _ {R : Type 0} where
  -- Of the whole argument: of an object, the values of its `results`, and then those of its `data`
  -- array or else the object itself.
  abbrev pub own_at : ℕ → Item R → List R
  own_at d (with_data xs) = rows_deep d xs
  own_at d falsy = row_at d falsy
  own_at d scalar = row_at d scalar
  own_at d (array xs) = row_at d (array xs)
  own_at d (with_row r) = row_at d (with_row r)
  own_at d (plain r) = row_at d (plain r)

  abbrev pub result_at : ℕ → Argument R → List R
  result_at d nothing = []
  result_at d (an_array xs) = rows_deep d xs
  result_at d (an_object results self) = rows_deep d results ++ own_at d self

  -- All of them, from depth 0 on, down to a depth.
  abbrev pub by_depth : ℕ → (ℕ → List R) → List R
  by_depth zero f = []
  by_depth (suc n) f = f 0 ++ by_depth n (λ d. f (suc d))
