-- ===== src/HotspotParsers.antt =====
-- src/lib/hotspotParsers.js: `extractRows`, over JavaScript values as far as it tells them apart. `R` is
-- the type of the objects that become rows.
pub mod Levels
pub mod Depths
mod Tests
use relay_cerebro_infra.Base.{ℕ, zero, suc, ◌+◌, Option, none, some, List, [], ◌∷◌, ◌++◌}

-- A value: falsy, truthy but no object, an array, an object whose `data` is an array, an object whose
-- `data` is an object, and an object with neither.
mutual
  pub data Item (R : Type 0) : Type 0 where
    falsy scalar : Item R
    array : Items R → Item R
    with_data : Items R → Item R
    with_row : R → Item R
    plain : R → Item R

  pub data Items (R : Type 0) : Type 0 where
    nil : Items R
    next : Item R → Items R → Items R

module _ {R : Type 0} where
  unfoldable pub push : Items R → Items R → Items R
  push nil more = more
  push (next x q) more = next x (push q more)

  -- What the loop does with an item: the values that it appends to the queue, and its rows.
  abbrev pub queued : Item R → Items R
  queued falsy = nil
  queued scalar = nil
  queued (array xs) = xs
  queued (with_data xs) = xs
  queued (with_row r) = nil
  queued (plain r) = nil

  abbrev pub rows_of : Item R → List R
  rows_of falsy = []
  rows_of scalar = []
  rows_of (array xs) = []
  rows_of (with_data xs) = []
  rows_of (with_row r) = r ∷ []
  rows_of (plain r) = r ∷ []

  -- `while (queue.length > 0)`, for at most as many rounds as there is fuel.
  unfoldable pub drain : ℕ → Items R → List R → List R
  unfolding push
  drain zero queue rows = rows
  drain (suc fuel) nil rows = rows
  drain (suc fuel) (next x queue) rows = drain fuel (push queue (queued x)) (rows ++ rows_of x)

unfoldable mutual
  pub size : {R : Type 0} → Item R → ℕ
  size falsy = 1
  size scalar = 1
  size (array xs) = suc (size_items xs)
  size (with_data xs) = suc (size_items xs)
  size (with_row r) = 1
  size (plain r) = 1

  pub size_items : {R : Type 0} → Items R → ℕ
  size_items nil = 0
  size_items (next x xs) = size x + size_items xs

-- What `extractRows` is given: a falsy value, an array, or anything else, by its array `results`, where
-- it has one, and itself.
pub data Argument (R : Type 0) : Type 0 where
  nothing : Argument R
  an_array : Items R → Argument R
  an_object : Items R → Item R → Argument R

module _ {R : Type 0} where
  -- `if (Array.isArray(result.data)) queue.push(...result.data); else queue.push(result);`
  abbrev pub own_queue : Item R → Items R
  own_queue (with_data xs) = xs
  own_queue falsy = next falsy nil
  own_queue scalar = next scalar nil
  own_queue (array xs) = next (array xs) nil
  own_queue (with_row r) = next (with_row r) nil
  own_queue (plain r) = next (plain r) nil

  unfoldable pub first_queue : Argument R → Items R
  unfolding push
  first_queue nothing = nil
  first_queue (an_array xs) = xs
  first_queue (an_object results self) = push results (own_queue self)

  unfoldable pub extract_rows : Argument R → List R
  unfolding first_queue drain size_items
  extract_rows result = drain (size_items (first_queue result)) (first_queue result) []
