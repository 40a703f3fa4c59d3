-- ===== src/Sampler/Convert/Worker.antt =====
-- _generate_in_parallel_worker: the batch that it returns.
use umash.Prelude.{
  ℕ, suc, ◌≤◌, ◌<◌, ◌≡◌, refl, ap, inl, inr, Bool, true, Bool-cases, ◌||◌, leb, Option, none, some,
  List, [], ◌∷◌, ◌++◌, map, length, length-append, arith,
}
use umash.Python.{ok}
use umash.Python.Dict.Groups.{DistinctKeys}
use umash.Sampler.Convert.{
  StatisticValues, convert_result_arrays_to_proto, convert_proto_to_result_dicts, append_values,
  worker_loop, generate_in_parallel_worker,
}
use umash.Sampler.Convert.Columns.{Column, dict_of, arrays_of, collected, Clear-nil, append_row}
use umash.Sampler.Convert.RoundTrip.{convert-arrays_of, collected-snoc}

module _ {Name V Row : Type 0} (same : Name → Name → Bool)
    (same_self : (a : Name) → same a a ≡ true) (c : Column Name V Row)
    (columns : List (Column Name V Row)) (max_results : ℕ) (expired : ℕ → Bool) where
  -- The dicts of a batch at the front of the rows: not empty, and at most one more than max_results.
  pub record IsBatch (rows : List Row) (result_set : List (StatisticValues Name V)) : Type 0 where
    pub batch : List Row
    pub rest : List Row
    pub front : batch ++ rest ≡ rows
    pub not_empty : 0 < length batch
    pub at_most : length batch ≤ suc max_results
    pub read_back :
        convert_proto_to_result_dicts same result_set ≡ ok (map (dict_of (c ∷ columns)) batch)

  abbrev all_columns : List (Column Name V Row)
  all_columns = c ∷ columns

  snoc_append : (xs ys : List Row) (x : Row) → (xs ++ x ∷ []) ++ ys ≡ xs ++ x ∷ ys
  snoc_append [] ys x = refl
  snoc_append (z ∷ xs) ys x = ap (λ t. z ∷ t) (snoc_append xs ys x)

  IsBatch-returned :
      (done todo : List Row) (row : Row)
      → DistinctKeys same all_columns
      → length done ≤ max_results
      → IsBatch
          (done ++ row ∷ todo)
          (convert_result_arrays_to_proto (arrays_of all_columns (done ++ row ∷ [])))
  IsBatch-returned done todo row keys place = record {
    batch = done ++ row ∷ [];
    rest = todo;
    front = snoc_append done todo row;
    not_empty = omega (arith, length-append done (row ∷ []));
    at_most = omega (arith, length-append done (row ∷ []));
    read_back = convert-arrays_of same c columns (done ++ row ∷ []) keys;
  }

  -- The worker returned a batch, or the generator ended.
  pub IsReturned : List Row → Option (List (StatisticValues Name V)) → Type 0
  IsReturned rows none = length rows ≤ max_results
  IsReturned rows (some result_set) = IsBatch rows result_set

  worker_from :
      (todo done : List Row)
      → DistinctKeys same all_columns
      → length done ≤ max_results
      → IsReturned (done ++ todo) (
          worker_loop same max_results expired
            (length done)
            (map (dict_of all_columns) todo)
            (collected all_columns done))
  unfolding worker_loop IsReturned
  worker_from [] done keys place = omega (arith, length-append done [])
  worker_from (row ∷ todo) done keys place =
      let next : append_values same (dict_of all_columns row) (collected all_columns done)
          ≡ arrays_of all_columns (done ++ row ∷ []) =
        append_row same same_self done row [] all_columns (Clear-nil same all_columns) keys in
      elim (Bool-cases (leb max_results (length done) || expired (length done))) [
        | inl h ↦ rw (next, h) (IsBatch-returned done todo row keys place)
        | inr h ↦
            let more : length (done ++ row ∷ []) ≡ suc (length done) =
              omega (arith, length-append done (row ∷ [])) in
            let rest = worker_from todo (done ++ row ∷ []) keys (ground arith) in
            rw (next, h)
              (rw (more, collected-snoc same all_columns done row, snoc_append done todo row) at
                rest)
      ]

  -- For values that give the same, different names a value each, in one order, the worker returns a
  -- ResultSet that is read back as the first values, at least one of them and at most one more than
  -- max_results, or the generator ended with at most max_results values.
  pub generate_in_parallel_worker-IsReturned :
      (rows : List Row)
      → DistinctKeys same all_columns
      → IsReturned rows
          (generate_in_parallel_worker same max_results expired (map (dict_of all_columns) rows))
  unfolding generate_in_parallel_worker
  generate_in_parallel_worker-IsReturned rows keys = worker_from rows [] keys (omega arith)
