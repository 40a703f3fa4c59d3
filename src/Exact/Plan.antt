-- ===== src/Exact/Plan.antt =====
-- _group_statistics_in_plan: the statistics by probability_a_lower, then by offsets.

pub mod Grouping
use umash.Prelude.{
  ℕ, ◌≡◌, refl, sym, ap, ◌∙◌, Bool, true, false, ◌&&◌, ◌==◌, List, [], ◌∷◌, ◌++◌, All, arith,
}
use umash.Python.Dict.{dict_change}
use umash.Python.Dict.Groups.{
  all_items, all_items-dict_change, DistinctKeys, All-dict_change, DistinctKeys-dict_change,
}
use umash.Exact.Statistic.{Floats, Statistic}

module _ (floats : Floats) (Name : Type 0) where
  abbrev pub Stat : Type 0
  Stat = Statistic floats Name

  abbrev pub Offsets : Type 0
  Offsets = ℕ × ℕ

  abbrev pub same_offsets : Offsets → Offsets → Bool
  same_offsets x y = (x.0 == y.0) && (x.1 == y.1)

  abbrev pub Plan : Type 0
  Plan = List (floats.Float × List (Offsets × List Stat))

  -- plan[p_a_lower][offsets].append(stat)
  pub plan_append : Stat → Plan → Plan
  plan_append stat plan =
      let offsets : Offsets = (stat.a_offset, stat.b_offset) in
      dict_change floats.same_key stat.probability_a_lower []
        (dict_change same_offsets offsets [] (λ stats. stats ++ stat ∷ [])) plan

  -- for stat in statistics
  pub plan_loop : Plan → List Stat → Plan
  plan_loop plan [] = plan
  plan_loop plan (stat ∷ statistics) = plan_loop (plan_append stat plan) statistics

  pub group_statistics_in_plan : List Stat → Plan
  group_statistics_in_plan statistics = plan_loop [] statistics
