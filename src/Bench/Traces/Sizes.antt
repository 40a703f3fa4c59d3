-- ===== src/Bench/Traces/Sizes.antt =====
-- _full_call_sizes gives the sizes in range, grouped by thread.
use mathlib.Core.List.Perm
use mathlib.Core.List.{Perm}
use umash.Prelude.{ℕ, ◌&&◌, List, [], ◌∷◌, if◌then◌else◌}
use umash.Python.Integer.{ℤ, pos, ◌+ℤ◌, leb_ℤ, ltb_ℤ}
use umash.Python.Dict.Groups.{all_items}
use umash.Bench.Traces.{Call}

-- The sizes that _full_call_sizes keeps, in the order of the trace.
pub kept_sizes : List Call → ℤ → ℤ → ℤ → List ℤ
kept_sizes [] least limit length_fixup = []
kept_sizes (trace ∷ calls) least limit length_fixup =
    let size = pos trace.size +ℤ length_fixup in
    let rest = kept_sizes calls least limit length_fixup in
    if leb_ℤ least size && ltb_ℤ size limit then size ∷ rest else rest

-- All sizes of the traces.
abbrev sizes_in : List (ℕ × List ℤ) → List ℤ
sizes_in traces = all_items (λ sizes. sizes) traces
