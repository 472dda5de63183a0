-- ===== src/HotspotParsers/Levels.antt =====
-- src/lib/hotspotParsers.js: the rows that `extractRows` finds, level by level.
use relay_cerebro_infra.Base.{
  ℕ, zero, suc, ◌+◌, ◌-◌, ◌≤◌, List, [], ◌++◌, append_assoc, append-nil, ◌≡◌, refl, arith, ap, sym,
  ◌∙◌,
}
use relay_cerebro_infra.HotspotParsers.{
  Item, Items, falsy, scalar, array, with_data, with_row, plain, nil, next, push, queued, rows_of,
  drain, size, size_items, Argument, first_queue, extract_rows,
}

module _ {R : Type 0} where
  abbrev pub count : Items R → ℕ
  count nil = 0
  count (next x q) = suc (count q)

  -- The rows among the values of one level, and the values of the next.
  abbrev pub rows_at : Items R → List R
  rows_at nil = []
  rows_at (next x q) = rows_of x ++ rows_at q

  abbrev pub below : Items R → Items R
  below nil = nil
  below (next x q) = push (queued x) (below q)

  -- All rows, level by level, down to a depth.
  unfoldable pub levels : ℕ → Items R → List R
  unfolding push
  levels zero q = []
  levels (suc d) nil = []
  levels (suc d) (next x q) = rows_at (next x q) ++ levels d (below (next x q))

  push_assoc : (a b c : Items R) → push (push a b) c ≡ push a (push b c)
  unfolding push
  push_assoc nil b c = refl
  push_assoc (next x a) b c = ap (next x) (push_assoc a b c)

  pub push_nil : (a : Items R) → push a nil ≡ a
  unfolding push
  push_nil nil = refl
  push_nil (next x a) = ap (next x) (push_nil a)

  size_items-push : (a b : Items R) → size_items (push a b) ≡ size_items a + size_items b
  unfolding push size_items
  size_items-push nil b = omega arith
  size_items-push (next x a) b = omega (arith, size_items-push a b)

  size-queued : (x : Item R) → size x ≡ suc (size_items (queued x))
  unfolding size_items size
  size-queued falsy = refl
  size-queued scalar = refl
  size-queued (array xs) = refl
  size-queued (with_data xs) = refl
  size-queued (with_row r) = refl
  size-queued (plain r) = refl

  size_items-below : (q : Items R) → size_items (below q) + count q ≡ size_items q
  unfolding size_items
  size_items-below nil = omega arith
  size_items-below (next x q) =
      omega (arith, size_items-push (queued x) (below q), size-queued x, size_items-below q)

  drain-nil : (fuel : ℕ) (rows : List R) → drain fuel nil rows ≡ rows
  unfolding drain
  drain-nil zero rows = refl
  drain-nil (suc fuel) rows = refl

  -- The rounds that take one level from the front of the queue.
  drain-level :
      (q more : Items R) (fuel : ℕ) (rows : List R)
      → drain (count q + fuel) (push q more) rows
        ≡ drain fuel (push more (below q)) (rows ++ rows_at q)
  unfolding drain push
  drain-level nil more fuel rows =
      let none_left : 0 + fuel ≡ fuel = omega arith in
      ap (λ f. drain f more rows) none_left
      ∙ ap (λ m. drain fuel m rows) (sym (push_nil more))
      ∙ ap (drain fuel (push more nil)) (sym (append-nil rows))
  drain-level (next x q) more fuel rows =
      let one_less : suc (count q) + fuel ≡ suc (count q + fuel) = omega arith in
      ap (λ f. drain f (next x (push q more)) rows) one_less
      ∙ ap (λ m. drain (count q + fuel) m (rows ++ rows_of x)) (push_assoc q more (queued x))
      ∙ drain-level q (push more (queued x)) fuel (rows ++ rows_of x)
      ∙ ap (λ m. drain fuel m ((rows ++ rows_of x) ++ rows_at q))
          (push_assoc more (queued x) (below q))
      ∙ ap (drain fuel (push more (push (queued x) (below q))))
          (append_assoc rows (rows_of x) (rows_at q))

  pub drain-levels :
      (d fuel : ℕ) (q : Items R) (rows : List R)
      → size_items q ≤ fuel
      → size_items q ≤ d
      → drain fuel q rows ≡ rows ++ levels d q
  unfolding levels
  drain-levels zero fuel nil rows h k = drain-nil fuel rows ∙ sym (append-nil rows)
  drain-levels (suc d) fuel nil rows h k = drain-nil fuel rows ∙ sym (append-nil rows)
  drain-levels zero fuel (next x q) rows h k = absurd (omega (arith, size_items-below (next x q)))
  drain-levels (suc d) fuel (next x q) rows h k =
      let all = next x q in
      let smaller = size_items-below all in
      let split : fuel ≡ count all + (fuel - count all) = omega (arith, smaller) in
      ap (λ f. drain f all rows) split
      ∙ ap (λ m. drain (count all + (fuel - count all)) m rows) (sym (push_nil all))
      ∙ drain-level all nil (fuel - count all) rows
      ∙ drain-levels d (fuel - count all) (below all) (rows ++ rows_at all) (omega (arith, smaller))
          (omega (arith, smaller))
      ∙ append_assoc rows (rows_at all) (levels d (below all))

  -- `extractRows` takes the rows level by level.
  pub extract_rows-levels :
      (result : Argument R) (depth : ℕ)
      → size_items (first_queue result) ≤ depth
      → extract_rows result ≡ levels depth (first_queue result)
  unfolding extract_rows
  extract_rows-levels result depth h =
      drain-levels depth (size_items (first_queue result)) (first_queue result) [] (omega arith) h
