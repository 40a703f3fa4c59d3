-- ===== src/Sampler/Convert/Columns.antt =====
-- What a worker has collected: the arrays of the columns, one more value for each row.
use umash.Prelude.{
  ◌≡◌, refl, sym, ap, ◌∙◌, Bool, true, false, List, [], ◌∷◌, ◌++◌, map, All, All-append,
}
use umash.Python.Dict.{dict_change, dict_set}
use umash.Python.Dict.Groups.{DistinctKeys}
use umash.Sampler.Convert.{append_values}

module _ {K V : Type 0} (same : K → K → Bool) where
  -- A key that is not there is put at the end.
  pub dict_set_fresh :
      (k : K) (v : V) (d : List (K × V))
      → All (λ e. same k e.0 ≡ false) d
      → dict_set same k v d ≡ d ++ (k, v) ∷ []
  unfolding dict_set
  dict_set_fresh k v [] h = refl
  dict_set_fresh k v (e ∷ d) h = rw (h.0) (ap (λ t. e ∷ t) (dict_set_fresh k v d (h.1)))

  dict_change_fresh :
      (k : K) (missing : V) (change : V → V) (d rest : List (K × V))
      → All (λ e. same k e.0 ≡ false) d
      → dict_change same k missing change (d ++ rest) ≡ d ++ dict_change same k missing change rest
  unfolding dict_change
  dict_change_fresh k missing change [] rest h = refl
  dict_change_fresh k missing change (e ∷ d) rest h =
      rw (h.0) (ap (λ t. e ∷ t) (dict_change_fresh k missing change d rest (h.1)))

-- Dicts with one set of keys: each column is a key, with the value for it of each row.
abbrev pub Column : Type 0 → Type 0 → Type 0 → Type 0
Column Name V Row = Name × (Row → V)

-- The dict of a row.
abbrev pub dict_of : {Name V Row : Type 0} → List (Column Name V Row) → Row → List (Name × V)
dict_of [] row = []
dict_of (c ∷ columns) row = (c.0, c.1 row) ∷ dict_of columns row

-- The arrays of some rows.
abbrev pub arrays_of :
    {Name V Row : Type 0} → List (Column Name V Row) → List Row → List (Name × List V)
arrays_of [] rows = []
arrays_of (c ∷ columns) rows = (c.0, map c.1 rows) ∷ arrays_of columns rows

-- The arrays of the defaultdict: none before the first row.
abbrev pub collected :
    {Name V Row : Type 0} → List (Column Name V Row) → List Row → List (Name × List V)
collected columns [] = []
collected columns (row ∷ rows) = arrays_of columns (row ∷ rows)

pub map_snoc :
    {A B : Type 0} (f : A → B) (xs : List A) (x : A) → map f xs ++ f x ∷ [] ≡ map f (xs ++ x ∷ [])
map_snoc f [] x = refl
map_snoc f (y ∷ ys) x = ap (λ t. f y ∷ t) (map_snoc f ys x)

module _ {Name V Row : Type 0} (same : Name → Name → Bool) where
  -- The name is none of the columns'.
  abbrev pub Fresh : Name → List (Column Name V Row) → Type 0
  Fresh name columns = All (λ e. same name e.0 ≡ false) columns

  Fresh-arrays_of :
      (name : Name) (columns : List (Column Name V Row)) (rows : List Row)
      → Fresh name columns
      → All (λ e. same name e.0 ≡ false) (arrays_of columns rows)
  Fresh-arrays_of name [] rows h = tt
  Fresh-arrays_of name (c ∷ columns) rows h = (h.0, Fresh-arrays_of name columns rows (h.1))

  pub Fresh-dict_of :
      (name : Name) (columns : List (Column Name V Row)) (row : Row)
      → Fresh name columns
      → All (λ e. same name e.0 ≡ false) (dict_of columns row)
  Fresh-dict_of name [] row h = tt
  Fresh-dict_of name (c ∷ columns) row h = (h.0, Fresh-dict_of name columns row (h.1))

  -- No key of the second list is one of the first.
  abbrev pub Clear : List (Column Name V Row) → List (Column Name V Row) → Type 0
  Clear pre columns = All (λ c. Fresh c.0 pre) columns

  pub Clear-snoc :
      (c : Column Name V Row) (pre columns : List (Column Name V Row))
      → Clear pre columns
      → All (λ d. same d.0 c.0 ≡ false) columns
      → Clear (pre ++ c ∷ []) columns
  Clear-snoc c pre [] h k = tt
  Clear-snoc c pre (d ∷ columns) h k = (
    All-append (λ e. same d.0 e.0 ≡ false) pre (c ∷ []) (h.0) (k.0, tt),
    Clear-snoc c pre columns (h.1) (k.1),
  )

  pub Clear-nil : (columns : List (Column Name V Row)) → Clear [] columns
  Clear-nil [] = tt
  Clear-nil (c ∷ columns) = (tt, Clear-nil columns)

  arrays_of-snoc :
      (c : Column Name V Row) (pre : List (Column Name V Row)) (rows : List Row)
      (rest : List (Name × List V))
      → arrays_of (pre ++ c ∷ []) rows ++ rest ≡ arrays_of pre rows ++ (c.0, map c.1 rows) ∷ rest
  arrays_of-snoc c [] rows rest = refl
  arrays_of-snoc c (d ∷ pre) rows rest =
      ap (λ t. (d.0, map d.1 rows) ∷ t) (arrays_of-snoc c pre rows rest)

module _ {Name V Row : Type 0} (same : Name → Name → Bool)
    (same_self : (a : Name) → same a a ≡ true) where
  -- One item more, at the first column that is left.
  change_head :
      (c : Column Name V Row) (columns : List (Column Name V Row)) (rows : List Row) (row : Row)
      → dict_change same c.0 [] (λ vs. vs ++ c.1 row ∷ []) (collected (c ∷ columns) rows)
        ≡ (c.0, map c.1 (rows ++ row ∷ [])) ∷ collected columns rows
  unfolding dict_change
  change_head c columns [] row = refl
  change_head c columns (r ∷ rows) row =
      rw (same_self c.0)
        (ap (λ t. (c.0, c.1 r ∷ t) ∷ arrays_of columns (r ∷ rows)) (map_snoc c.1 rows row))

  -- One more row, from the columns after `pre` on.
  pub append_row :
      (rows : List Row) (row : Row) (pre columns : List (Column Name V Row))
      → Clear same pre columns
      → DistinctKeys same columns
      → append_values same
          (dict_of columns row)
          (arrays_of pre (rows ++ row ∷ []) ++ collected columns rows)
        ≡ arrays_of pre (rows ++ row ∷ []) ++ arrays_of columns (rows ++ row ∷ [])
  unfolding append_values DistinctKeys
  append_row [] row pre [] h k = refl
  append_row (r ∷ rows) row pre [] h k = refl
  append_row rows row pre (c ∷ columns) h k =
      let all = rows ++ row ∷ [] in
      ap (append_values same (dict_of columns row)) (
        dict_change_fresh same c.0 [] (λ vs. vs ++ c.1 row ∷ []) (arrays_of pre all)
          (collected (c ∷ columns) rows) (Fresh-arrays_of same c.0 pre all (h.0))
        ∙ ap (λ t. arrays_of pre all ++ t) (change_head c columns rows row)
        ∙ sym (arrays_of-snoc same c pre all (collected columns rows)))
      ∙ append_row rows row (pre ++ c ∷ []) columns (Clear-snoc same c pre columns (h.1) (k.0))
          (k.1)
      ∙ arrays_of-snoc same c pre all (arrays_of columns all)
