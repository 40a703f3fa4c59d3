-- ===== src/Umash/Poly/Split.antt =====
-- poly_reduce in parts: `initial` carries the hash of the values so far.
