-- ===== src/Exact/Plan/Grouping.antt =====
-- The plan holds every statistic once, under its probability and its offsets, each of which is a
-- key once.
use mathlib.Core.List.Perm
use mathlib.Core.List.{Perm, perm_middle, append-nil, append_assoc}
use umash.Prelude.{ℕ, ◌≡◌, refl, true, List, [], ◌∷◌, ◌++◌, All, All-append, arith}
use umash.Python.Dict.{dict_change}
use umash.Python.Dict.Groups.{
  all_items, all_items-dict_change, DistinctKeys, All-dict_change, DistinctKeys-dict_change,
}
use umash.Exact.Statistic.{Floats}
use umash.Exact.Plan.{
  Stat, Offsets, same_offsets, Plan, plan_append, plan_loop, group_statistics_in_plan,
}

module _ (floats : Floats) (Name : Type 0) where
  -- The statistics of a plan, in the order of its nested loops.
  pub plan_statistics : Plan floats Name → List (Stat floats Name)
  plan_statistics plan = all_items (λ groups. all_items (λ stats. stats) groups) plan

  same_offsets_self : (a b : ℕ) → same_offsets floats Name (a, b) (a, b) ≡ true
  same_offsets_self a b = ground arith

  abbrev Group : Type 0
  Group = List (Offsets floats Name × List (Stat floats Name))

  -- A group under a probability: its statistics have that probability, and the offsets of their
  -- place, and no offsets are twice a key.
  pub record IsGroup (p : floats.Float) (groups : Group) : Type 0 where
    pub placed :
        All
          (λ g.
            All
              (λ s.
                (floats.same_key s.probability_a_lower p ≡ true)
                × (same_offsets floats Name (s.a_offset, s.b_offset) g.0 ≡ true))
              g.1)
          groups
    pub distinct : DistinctKeys (same_offsets floats Name) groups

  pub record IsPlan (statistics : List (Stat floats Name)) (plan : Plan floats Name) : Type 0 where
    pub complete : Perm (plan_statistics plan) statistics
    pub grouped : All (λ e. IsGroup e.0 e.1) plan
    pub distinct : DistinctKeys floats.same_key plan

  snoc :
      (s : Stat floats Name) (stats : List (Stat floats Name)) → Perm (stats ++ s ∷ []) (s ∷ stats)
  snoc s stats = rw (append-nil stats) at (perm_middle {a = s} stats [])

  plan_append-complete :
      (s : Stat floats Name) (plan : Plan floats Name)
      → Perm (plan_statistics (plan_append floats Name s plan)) (s ∷ plan_statistics plan)
  unfolding plan_append plan_statistics all_items
  plan_append-complete s plan =
      all_items-dict_change floats.same_key (all_items (λ stats. stats)) s.probability_a_lower []
        (dict_change (same_offsets floats Name) (s.a_offset, s.b_offset) []
          (λ stats. stats ++ s ∷ []))
        s refl
        (all_items-dict_change (same_offsets floats Name) (λ stats. stats) (s.a_offset, s.b_offset)
          [] (λ stats. stats ++ s ∷ []) s refl (λ stats. snoc s stats))
        plan

  IsGroup-append :
      (s : Stat floats Name) (p : floats.Float) (groups : Group)
      → floats.same_key s.probability_a_lower p ≡ true
      → IsGroup p groups
      → IsGroup p (
          dict_change
            (same_offsets floats Name)
            (s.a_offset, s.b_offset)
            []
            (λ stats. stats ++ s ∷ [])
            groups)
  IsGroup-append s p groups here h = record {
    placed =
        All-dict_change (same_offsets floats Name) _ (s.a_offset, s.b_offset) []
          (λ stats. stats ++ s ∷ []) ((here, same_offsets_self s.a_offset s.b_offset), tt)
          (λ l stats found all. All-append _ stats (s ∷ []) all ((here, found), tt)) groups
          h.placed;
    distinct = DistinctKeys-dict_change (same_offsets floats Name) _ _ _ groups h.distinct;
  }

  plan_append-IsGroup :
      (s : Stat floats Name) (plan : Plan floats Name)
      → All (λ e. IsGroup e.0 e.1) plan
      → All (λ e. IsGroup e.0 e.1) (plan_append floats Name s plan)
  unfolding plan_append DistinctKeys
  plan_append-IsGroup s plan h =
      let p = s.probability_a_lower in
      let empty : IsGroup p [] = record { placed = tt; distinct = tt } in
      All-dict_change floats.same_key IsGroup p [] _
        (IsGroup-append s p [] (floats.same_key_self p) empty)
        (λ l groups found. IsGroup-append s l groups found) plan h

  plan_append-DistinctKeys :
      (s : Stat floats Name) (plan : Plan floats Name)
      → DistinctKeys floats.same_key plan
      → DistinctKeys floats.same_key (plan_append floats Name s plan)
  unfolding plan_append
  plan_append-DistinctKeys s plan h = DistinctKeys-dict_change floats.same_key _ _ _ plan h

  IsPlan-append :
      (s : Stat floats Name) (before : List (Stat floats Name)) (plan : Plan floats Name)
      → IsPlan before plan
      → IsPlan (before ++ s ∷ []) (plan_append floats Name s plan)
  IsPlan-append s before plan h = record {
    complete =
        Perm.trans (plan_append-complete s plan)
          (Perm.trans (Perm.cons s h.complete) (Perm.symm (snoc s before)));
    grouped = plan_append-IsGroup s plan h.grouped;
    distinct = plan_append-DistinctKeys s plan h.distinct;
  }

  plan_loop-IsPlan :
      (before after : List (Stat floats Name)) (plan : Plan floats Name)
      → IsPlan before plan
      → IsPlan (before ++ after) (plan_loop floats Name plan after)
  unfolding plan_loop
  plan_loop-IsPlan before [] plan h = rw (append-nil before) h
  plan_loop-IsPlan before (s ∷ after) plan h = rw (append_assoc before (s ∷ []) after) at (
      plan_loop-IsPlan (before ++ s ∷ []) after (plan_append floats Name s plan)
        (IsPlan-append s before plan h))

  -- The plan of a list of statistics holds each of them as often as the list does; each stands
  -- under a probability that is the same key as its own and under its own offsets; and no key
  -- occurs twice, at either level.
  pub group_statistics-IsPlan :
      (statistics : List (Stat floats Name))
      → IsPlan statistics (group_statistics_in_plan floats Name statistics)
  unfolding group_statistics_in_plan plan_statistics all_items DistinctKeys
  group_statistics-IsPlan statistics =
      plan_loop-IsPlan [] statistics []
        (record { complete = Perm.refl []; grouped = tt; distinct = tt })
