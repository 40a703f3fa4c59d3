-- ===== src/Umash/Finalize/Tests.antt =====
-- Runs of rotl and finalize.
use umash.Prelude.{◌+◌, ◌^◌, ◌<◌, ◌≡◌, refl, arith}
use umash.Umash.Finalize.{rotl_rounds, rotl, finalize}
use umash.Umash.Finalize.Inverse.{unfinalize, finalize_bijective}

rotl_of_top : rotl (2 ^ 63 + 1) 8 ≡ 2 ^ 7 + 2 ^ 8
unfolding rotl rotl_rounds
rotl_of_top = refl

finalize_of_one : finalize 1 ≡ 1 + 2 ^ 8 + 2 ^ 33
unfolding finalize rotl rotl_rounds
finalize_of_one = refl

finalize_bijective_example :
    (finalize 12345 < 2 ^ 64)
    × (unfinalize 12345 < 2 ^ 64)
    × (unfinalize (finalize 12345) ≡ 12345)
    × (finalize (unfinalize 12345) ≡ 12345)
finalize_bijective_example = finalize_bijective 12345 (omega arith)
