-- ===== src/Sampler/Convert/RoundTrip.antt =====
-- What a worker collects comes back as it was: one dict for each value, in order.
use umash.Prelude.{
  max, ◌≡◌, refl, ap, ap₂, ◌∙◌, Bool, List, [], ◌∷◌, ◌++◌, map, length, length-map, arith,
}
use umash.Python.{ok}
use umash.Python.Dict.{dict_set}
use umash.Python.Dict.Groups.{DistinctKeys}
use umash.Sampler.Convert.{
  convert_result_arrays_to_proto, longest, max_length, empty_dicts, set_values, set_results,
  convert_proto_to_result_dicts,
}
use umash.Sampler.Convert.Columns.{
  Column, dict_of, arrays_of, collected, Fresh, Clear, Clear-nil, Clear-snoc, Fresh-dict_of,
  dict_set_fresh,
}

-- All arrays are as long as there are rows.
longest-arrays_of :
    {Name V Row : Type 0} (columns : List (Column Name V Row)) (rows : List Row)
    → longest (length rows) (convert_result_arrays_to_proto (arrays_of columns rows)) ≡ length rows
unfolding longest convert_result_arrays_to_proto
longest-arrays_of [] rows = refl
longest-arrays_of (c ∷ columns) rows =
    let same_length : max (length rows) (length (map c.1 rows)) ≡ length rows =
      omega (arith, length-map c.1 rows) in
    ap (λ l. longest l (convert_result_arrays_to_proto (arrays_of columns rows))) same_length
    ∙ longest-arrays_of columns rows

empty_dicts-dict_of :
    {Name V Row : Type 0} (rows : List Row)
    → empty_dicts {Name = Name} {V = V} (length rows) ≡ map (dict_of []) rows
unfolding empty_dicts
empty_dicts-dict_of [] = refl
empty_dicts-dict_of (row ∷ rows) = ap (λ t. [] ∷ t) (empty_dicts-dict_of rows)

map_ext : {A B : Type 0} (f g : A → B) (xs : List A) → ((x : A) → f x ≡ g x) → map f xs ≡ map g xs
map_ext f g [] h = refl
map_ext f g (x ∷ xs) h = ap₂ (λ y ys. y ∷ ys) (h x) (map_ext f g xs h)

module _ {Name V Row : Type 0} (same : Name → Name → Bool) where
  dict_of-snoc :
      (c : Column Name V Row) (pre : List (Column Name V Row)) (row : Row)
      → dict_of pre row ++ (c.0, c.1 row) ∷ [] ≡ dict_of (pre ++ c ∷ []) row
  dict_of-snoc c [] row = refl
  dict_of-snoc c (d ∷ pre) row = ap (λ t. (d.0, d.1 row) ∷ t) (dict_of-snoc c pre row)

  set_values-dict_of :
      (c : Column Name V Row) (pre : List (Column Name V Row)) (rows : List Row)
      → Fresh same c.0 pre
      → set_values same c.0 (map c.1 rows) (map (dict_of pre) rows)
        ≡ ok (map (dict_of (pre ++ c ∷ [])) rows)
  unfolding set_values
  set_values-dict_of c pre [] h = refl
  set_values-dict_of c pre (row ∷ rows) h =
      let set : dict_set same c.0 (c.1 row) (dict_of pre row) ≡ dict_of (pre ++ c ∷ []) row =
        dict_set_fresh same c.0 (c.1 row) (dict_of pre row) (Fresh-dict_of same c.0 pre row h)
        ∙ dict_of-snoc c pre row in
      rw (set_values-dict_of c pre rows h, set) refl

  append_columns :
      (c : Column Name V Row) (pre columns : List (Column Name V Row)) (row : Row)
      → dict_of ((pre ++ c ∷ []) ++ columns) row ≡ dict_of (pre ++ c ∷ columns) row
  append_columns c [] columns row = refl
  append_columns c (d ∷ pre) columns row =
      ap (λ t. (d.0, d.1 row) ∷ t) (append_columns c pre columns row)

  dict_of-nil :
      (pre : List (Column Name V Row)) (row : Row) → dict_of pre row ≡ dict_of (pre ++ []) row
  dict_of-nil [] row = refl
  dict_of-nil (c ∷ pre) row = ap (λ t. (c.0, c.1 row) ∷ t) (dict_of-nil pre row)

  set_results-arrays_of :
      (rows : List Row) (pre columns : List (Column Name V Row))
      → Clear same pre columns
      → DistinctKeys same columns
      → set_results same
          (convert_result_arrays_to_proto (arrays_of columns rows))
          (map (dict_of pre) rows)
        ≡ ok (map (dict_of (pre ++ columns)) rows)
  unfolding set_results convert_result_arrays_to_proto DistinctKeys
  set_results-arrays_of rows pre [] h k =
      ap ok (map_ext (dict_of pre) (dict_of (pre ++ [])) rows (dict_of-nil pre))
  set_results-arrays_of rows pre (c ∷ columns) h k = rw (set_values-dict_of c pre rows (h.0)) (
      set_results-arrays_of rows (pre ++ c ∷ []) columns (Clear-snoc same c pre columns (h.1) (k.0))
        (k.1)
      ∙ ap ok (
          map_ext (dict_of ((pre ++ c ∷ []) ++ columns)) (dict_of (pre ++ c ∷ columns)) rows
            (append_columns c pre columns)))

  -- The arrays of some rows are read back as the dicts of the rows.
  pub convert-arrays_of :
      (c : Column Name V Row) (columns : List (Column Name V Row)) (rows : List Row)
      → DistinctKeys same (c ∷ columns)
      → convert_proto_to_result_dicts same
          (convert_result_arrays_to_proto (arrays_of (c ∷ columns) rows))
        ≡ ok (map (dict_of (c ∷ columns)) rows)
  unfolding convert_proto_to_result_dicts max_length convert_result_arrays_to_proto
  convert-arrays_of c columns rows h =
      let n : longest (length (map c.1 rows))
            (convert_result_arrays_to_proto (arrays_of columns rows))
          ≡ length rows =
        ap (λ l. longest l (convert_result_arrays_to_proto (arrays_of columns rows)))
          (length-map c.1 rows)
        ∙ longest-arrays_of columns rows in
      rw (n, empty_dicts-dict_of rows)
        (set_results-arrays_of rows [] (c ∷ columns) (Clear-nil same (c ∷ columns)) h)

  pub collected-snoc :
      (columns : List (Column Name V Row)) (rows : List Row) (row : Row)
      → collected columns (rows ++ row ∷ []) ≡ arrays_of columns (rows ++ row ∷ [])
  collected-snoc columns [] row = refl
  collected-snoc columns (r ∷ rows) row = refl
