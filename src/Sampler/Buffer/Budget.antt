-- ===== src/Sampler/Buffer/Budget.antt =====
-- A bound on what can be in the queue of a BufferedIterator while __exit__ takes values out.
use umash.Prelude.{ℕ, suc, ◌+◌, ◌*◌, ◌≤◌, ◌≡◌, ◌⊎◌, inl, inr, arith}
use umash.Sampler.Buffer.{capacity, ReaderPc, reading, closing, exiting, draining, joining}

-- How many entries can be in the queue or may yet come, with `left` calls of get_nowait to come: it is less by each of the n * n ones
-- that were made, or small since one of them has found the queue empty.
abbrev pub Within : ℕ → ℕ → ℕ → Type 0
Within n entries left = (entries + n * n ≤ capacity n + 2 * n + left) ⊎ (entries ≤ capacity n + 1)

abbrev pub Budget : ℕ → ReaderPc → ℕ → Type 0
Budget n reading entries = Unit
Budget n closing entries = Unit
Budget n (exiting k) entries = Within n entries (k * n)
Budget n (draining k j) entries = Within n entries (k * n + j)
Budget n (joining k) entries = Within n entries (k * n)

pub Within-mono :
    (n entries entries' left : ℕ)
    → entries' ≤ entries
    → Within n entries left
    → Within n entries' left
Within-mono n entries entries' left h (inl k) = inl (omega arith)
Within-mono n entries entries' left h (inr k) = inr (omega arith)

pub Budget-mono :
    (n : ℕ) (r : ReaderPc) (entries entries' : ℕ)
    → entries' ≤ entries
    → Budget n r entries
    → Budget n r entries'
Budget-mono n reading entries entries' h b = tt
Budget-mono n closing entries entries' h b = tt
Budget-mono n (exiting k) entries entries' h b = Within-mono n entries entries' (k * n) h b
Budget-mono n (draining k j) entries entries' h b = Within-mono n entries entries' (k * n + j) h b
Budget-mono n (joining k) entries entries' h b = Within-mono n entries entries' (k * n) h b

-- One entry less, and one call less to come.
pub drained_budget :
    (n left entries entries' : ℕ)
    → suc entries' ≡ entries
    → Within n entries (suc left)
    → Within n entries' left
drained_budget n left entries entries' h (inl k) = inl (omega arith)
drained_budget n left entries entries' h (inr k) = inr (omega arith)
