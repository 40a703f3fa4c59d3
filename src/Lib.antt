-- ===== src/Lib.antt =====
-- UMASH: the reference implementation (umash_reference.py), and the tools of its benchmarks
-- (t/exact_test.py, t/csm.py, t/exact_test_sampler.py and its client, t/umash_bench.py).
--
-- umash hashes a byte string to 64 bits under a key and a seed. Inputs of at most 8 bytes go through
-- umash_short, a SplitMix64 mixer that adds one key word selected by the length. Longer ones go
-- through umash_long: chunk_bytes cuts them into 16-byte chunks, blockify_chunks joins up to 16 of
-- those into a block, oh_compress maps each block to a 128-bit value, poly_reduce reduces the values
-- to a word by a polynomial hash modulo 2 ** 61 - 1, and finalize mixes its bits. The `secondary`
-- argument selects the second compressor, and for short inputs a shifted key.
--
-- The files:
--   Umash/Params    W, CHUNK_SIZE, BLOCK_SIZE, TWISTING_COUNT, SHORT_KEY_SHIFT, UmashKey,
--                   is_acceptable_multiplier, generate_key; Keygen and Pigeonhole on its loops
--   Umash/Short     vec_to_u64 and umash_short; Decode and Mixer on their inverses, Laws
--   Umash/Gfmul     gfmul and the PH mixer; Digits, Linear, Field and Universal on their algebra
--   Umash/Chunks    chunk_bytes and blockify_chunks; Stream and Cut on the chunks, Blocks and
--                   Grouping on the blocks
--   Umash/Oh        oh_mix_one_block, shuffle, oh_compress_one_block and oh_compress; Mix and
--                   Compress on their formulas, Total, Tag, Universal, Shuffle
--   Umash/Poly      poly_reduce, with its closure `update`; Horner and Split
--   Umash/Finalize  rotl and finalize; Rotation and Inverse
--   Umash/Hash      umash_long and umash (called umash_hash here); Blocks, Long, Total
--   Umash/Samples   the key and the inputs that the tests share
--   Bits            binary digits of numbers, and the laws of `^`, `|` and `&` that follow
--   Python          exceptions as results, generators, indexing and slices, struct.unpack, dict
--   Prelude         shared names and lemmas
--
-- How the code is modelled. Integers are natural numbers, with every `%` of the source written out; no
-- subtraction of the source goes below 0, but for the shift count of shuffle, where the model raises
-- the ValueError that a negative shift raises. A byte string is a list of numbers, with IsBytes as a
-- hypothesis where it matters. A function that can raise returns a Result, with the exception. A
-- generator is the list of the values that it yields with an end that is normal or an exception, so
-- that a consumer sees the values in front of an exception as it does in the source. A loop over a
-- range or a list is a recursion on the number of rounds or on the list, with the variables of the
-- loop as arguments. A key is any UmashKey; IsKey says what generate_key ensures.
--
-- generate_key takes its random source as a parameter, which gives the k-bit numbers of its calls
-- in order. Its two loops run on fuel, which bounds the rounds of each: with a source that never
-- draws an acceptable number the source program does not return either, and the termination
-- theorem says which draws let it return.
--
-- t/exact_test.py is a significance test for benchmark results, which resamples its data until the
-- confidence sequence method csm decides about every statistic:
--   Exact/Statistic  Statistic and its constructors, over an interface of floats
--   Exact/Plan       _group_statistics_in_plan; Grouping
--   Exact/Count      the counting of a sample and _significance_test; Tally and Judge
--   Exact/Loop       one round of the loop of exact_test; Keeps and Returned
--   Exact/Driver     the set-up of exact_test and its loop; Settled
-- The floats are a record of the operations that the code uses, with the one law that a float is the
-- same dict key as itself. csm is a parameter here, a function that may raise: the theorems that need it to
-- return ask so for the arguments that its assertions allow. The log is left out, the samples are
-- whatever the sampler yields, a list that may end (there the function returns None), and the queue to
-- the sampler is the list of all plans put there.
--
-- t/csm.py is the confidence sequence method, which decides when a binomial test may stop:
--   Csm/Ulps     float_bits, bits_float, next, prev, and the one-sided logarithms; Bits and Steps
--   Csm/Sum      sum_update_up, sum_update_finish and sum_up; Upper, Finish, Rounding,
--                Dekker and Bound on the exact sum
--   Csm/Choose   robbins_log_choose
--   Csm/Level    csm
--   Csm/Incbeta  _incbeta
--   Csm/Icdf     _beta_icdf_lo and beta_icdf; Bracket on the lower end of the bisection
--   Csm/Driver   csm_driver, with its closures; First and Bounded on its loop
--   Csm/Power    csm_power
--   Csm/Samples  what its runs share
-- Its floats are IEEE 754 doubles with the arithmetic written out (Python/Float): a sign and a
-- magnitude, the exact value of which is an integer multiple of 2**-1074, and results that are rounded
-- to the nearest, ties to even. The payload of a NaN is left out. log, log1p and exp of the C library
-- are parameters. A count is a natural number. The loop of _incbeta is a recursion on the rounds that
-- are left, the bisection runs on a fuel of 2**63, and the loop of csm_driver on fuel that is an
-- argument, as the stream may not end; a run that uses the fuel up raises out_of_fuel, which stands
-- for no exception of the program. csm_driver returns the lines that it prints.
--
-- t/exact_test_sampler.py computes the statistics on resampled data, and its client finds the servers
-- that do so too:
--   Sampler/Statistics  actual_data_results and _resampled_data_results_1; Names
--   Sampler/Convert     the batches of a worker and their conversion to a ResultSet and back;
--                       Columns, RoundTrip and Worker
--   Sampler/Requests    ExactTestParameters and _update_test_params; Ready
--   Sampler/Simulate    simulate
--   Sampler/Parallel    _generate_in_parallel; Units, Limits and Clamp
--   Sampler/Buffer      BufferedIterator, its threads as steps; Log and Order, Winds, Budget and
--                       Exit, Lost
--   Sampler/Resample    resampled_data_results
--   Sampler/Servers     parse_sampler_servers and get_sampler_servers
-- The C functions are a record of functions on lists; the time and the random jitter of a worker are
-- parameters. Of the generator of resampled values there are the first values, as many as asked for.
-- The loops of the coordinator, of simulate and of resampled_data_results take as arguments what they
-- read from their surroundings (events, futures, queues, the clock), for as many rounds as are given.
-- A step of BufferedIterator is one access to its queue or its event, by any of its threads, each with
-- its place in the code.
--
-- t/umash_bench.py runs two builds on the lengths of traced calls:
--   Bench/Blocks   grouper, _update_results and the copy of a block; Grouper
--   Bench/Traces   _full_call_sizes; Sizes
--   Bench/Compare  compare_inputs and its two callers
-- The compiled runners and the random module are parameters.
--
-- Not modelled: the C library (umash.c, umash.h, umash_long.inc), which the tests compare with this
-- reference, and the benchmark runner of bench/; the pool of processes of the sampler
-- (ensure_pool), the pauses of its coordinator but for their length, and its gRPC server; the
-- download and the decoding of traces (t/umash_traces.py), the builds and bindings of t/bench_loader.py,
-- t/umash.py and t/cffi_util.py. Keys and seeds are not sampled: a statement about a random key is
-- given as the count of key words for which an event happens.
pub mod Prelude
pub mod Bits
pub mod Python
pub mod Umash
pub mod Exact
pub mod Csm
pub mod Sampler
pub mod Bench
