-- ===== src/Bench/Traces.antt =====
-- The lengths of the traced calls (t/umash_bench.py).
pub mod Sizes
use umash.Prelude.{
  ℕ, zero, suc, ◌+◌, ◌-◌, ◌^◌, ◌==◌, ltb, leb, Bool, true, false, ◌&&◌, Option, none, some, List,
  [], ◌∷◌, ◌++◌, if◌then◌else◌,
}
use umash.Python.Integer.{ℤ, pos, negsuc, ◌+ℤ◌, leb_ℤ, ltb_ℤ}
use umash.Python.Dict.{dict_change}

-- A traced call, of which the code reads the thread and the number of bytes.
pub record Call : Type 0 where
  pub tid : ℕ
  pub size : ℕ

abbrev pub or_zero : Option ℤ → ℤ
or_zero none = pos 0
or_zero (some n) = n

-- The loop of _full_call_sizes over the trace; `least` is its argument min.
unfoldable pub thread_traces : List Call → ℤ → ℤ → ℤ → List (ℕ × List ℤ) → List (ℕ × List ℤ)
thread_traces [] least limit length_fixup traces = traces
thread_traces (trace ∷ calls) least limit length_fixup traces =
    let size = pos trace.size +ℤ length_fixup in
    thread_traces calls least limit length_fixup (
      if leb_ℤ least size && ltb_ℤ size limit
      then dict_change ◌==◌ trace.tid [] (λ sizes. sizes ++ size ∷ []) traces
      else traces)

-- itertools.chain.from_iterable(thread_traces.values())
unfoldable pub chained {ℓ} : {A : Type ℓ} → List (ℕ × List A) → List A
chained [] = []
chained (item ∷ traces) = item.1 ++ chained traces

unfoldable pub full_call_sizes : List Call → ℤ → ℤ → Option ℤ → List ℤ
full_call_sizes calls least limit length_fixup =
    chained (thread_traces calls least limit (or_zero length_fixup) [])
