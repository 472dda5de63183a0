-- ===== src/HotspotParsers/Tests.antt =====
-- src/lib/hotspotParsers.js on the result of a print command.
use relay_cerebro_infra.Base.{ℕ, [], ◌∷◌, ◌≡◌, refl}
use relay_cerebro_infra.HotspotParsers.{
  Argument, an_object, with_data, with_row, array, plain, nil, next, extract_rows,
}

-- `{ ok, results: [{ data: [1, [2]] }, { data: [3] }] }`, where the numbers stand for objects and 9 for
-- the whole.
abbrev printed : Argument ℕ
printed =
    an_object
      (next (with_data (next (plain 1) (next (array (next (plain 2) nil)) nil)))
        (next (with_data (next (plain 3) nil)) nil))
      (plain 9)

-- The same with `{ data: { ... } }` for the second object.
abbrev wrapped : Argument ℕ
wrapped =
    an_object
      (next (with_data (next (plain 1) (next (array (next (with_row 2) nil)) nil)))
        (next (with_data (next (plain 3) nil)) nil))
      (plain 9)

printed_rows : extract_rows printed ≡ 9 ∷ 1 ∷ 3 ∷ 2 ∷ []
unfolding extract_rows
printed_rows = refl
