-- ===== src/Pool/RoundRobin.antt =====
-- include/io_context_pool.h: the constructor, and the order in which `getIoContext` hands the
-- contexts out.
use native.Mathlib.Nat.{mod-eq_of_lt, mul-mod_left, zero-add, add-zero, suc-add, add-suc}
use example.Base.{
  ℕ, zero, suc, ◌+◌, ◌*◌, ◌%◌, ◌<◌, ◌≡◌, sym, ap, ◌∙◌, false, Option, none, some, List, [], ◌∷◌,
  ◌++◌, map, append-nil, append_assoc, arith, ◌==◌, if◌then◌else◌, length-map, get_elem?-map,
  range_from, length-range_from, get_elem?-range_from, cycle, ring_next, count, count-cycle,
}
use example.Pool.{
  Thread, IoContext, IoContextPool, runtime_error, ok, throw, size_t, add_context, add_contexts,
  empty_pool, make_pool, get_io_context,
}

-- The context that the constructor's round i creates.
abbrev pub fresh : ℕ → IoContext
fresh i = record { id = i; outstanding_work = 1; stopped = false }

-- The pool of n fresh contexts, its cursor at `next`.
abbrev pub pool_of : ℕ → ℕ → IoContextPool
pool_of n next = record {
  io_contexts = map fresh (range_from 0 n);
  work = range_from 0 n;
  next_io_context = next;
  threads = [];
}

add_contexts_lem :
    (r i : ℕ) (p : IoContextPool)
    → add_contexts r i p ≡ record p {
      io_contexts = p.io_contexts ++ map fresh (range_from i r);
      work = p.work ++ range_from i r;
    }
unfolding add_contexts
add_contexts_lem zero i p = ground (arith, append-nil p.io_contexts, append-nil p.work)
add_contexts_lem (suc r) i p =
    add_contexts_lem r (suc i) (add_context i p)
    ∙ unfold add_context in
      ground (
        arith,
        append_assoc p.io_contexts (fresh i ∷ []) (map fresh (range_from (suc i) r)),
        append_assoc p.work (i ∷ []) (range_from (suc i) r),
      )

-- The constructor throws exactly for the size 0, and otherwise makes a pool of `n` contexts with
-- the identities 0 … n - 1, work tracked on each, the cursor at 0 and no thread.
pub make_pool_lem :
    (n : ℕ) → make_pool n ≡ (if n == 0 then throw runtime_error else ok (pool_of n 0))
unfolding make_pool
make_pool_lem n = rw (add_contexts_lem n 0 empty_pool)

pub make_pool-ok : (n : ℕ) (p : IoContextPool) → make_pool n ≡ ok p → (0 < n) × (p ≡ pool_of n 0)
make_pool-ok n p made = ground (arith, make_pool_lem n)

-- One call on a pool whose cursor stands at s modulo n.
pub get_io_context_ring :
    (n s : ℕ) (threads : List Thread)
    → 0 < n
    → n < size_t
    → get_io_context (record (pool_of n (s % n)) { threads = threads })
      ≡ some (fresh (s % n), record (pool_of n (suc s % n)) { threads = threads })
unfolding get_io_context
get_io_context_ring n s threads pos fits = rw (
  get_elem?-map (range_from 0 n) fresh (s % n) (s % n)
      (get_elem?-range_from 0 n (s % n) below ∙ ap some (zero-add (s % n))),
  get_io_context,
  length-map (range_from 0 n) fresh,
  length-range_from 0 n,
  mod-eq_of_lt {n = s % n + 1} {m = size_t} (omega arith),
  ring_next n s pos,
)
  where
    below : s % n < n
    below = omega arith

-- k calls of `getIoContext` in a row, with the identities of the contexts that they return.
unfoldable pub serve : ℕ → IoContextPool → Option (List ℕ × IoContextPool)
serve zero p = some ([], p)
serve (suc k) p = elim (get_io_context p) [
  | none ↦ none
  | some (c, q) ↦ elim (serve k q) [ none ↦ none | some (ids, r) ↦ some (c.id ∷ ids, r) ]
]

serve_ring :
    (n k s : ℕ)
    → 0 < n
    → n < size_t
    → serve k (pool_of n (s % n)) ≡ some (cycle n s k, pool_of n ((s + k) % n))
unfolding serve
serve_ring n zero s pos fits = rw add-zero
serve_ring n (suc k) s pos fits = rw (
  get_io_context_ring n s [] pos fits,
  serve,
  serve_ring n k (suc s) pos fits,
  suc-add,
  ← add-suc,
)

serve_start :
    (n k : ℕ) → 0 < n → n < size_t → serve k (pool_of n 0) ≡ some (cycle n 0 k, pool_of n (k % n))
serve_start n k pos fits =
    ap (λ t. serve k (pool_of n t)) (sym (mod-eq_of_lt pos))
    ∙ serve_ring n k 0 pos fits
    ∙ rw (zero-add k)

-- For a pool made with a size below 2 ^ 64, k calls of `getIoContext` in a row never read outside
-- the vector; call number j (from 0) returns the context j modulo the size, and the calls leave the
-- cursor at k modulo the size and the rest of the pool as it was.
pub round_robin :
    (n k : ℕ) (p : IoContextPool)
    → n < size_t
    → make_pool n ≡ ok p
    → serve k p ≡ some (cycle n 0 k, record p { next_io_context = k % n })
round_robin n k p fits made =
    let (pos, e) = make_pool-ok n p made in rw e (serve_start n k pos fits)

-- Over m turns each of the contexts is handed out m times.
pub fair_share :
    (n m i : ℕ) (p : IoContextPool)
    → n < size_t
    → make_pool n ≡ ok p
    → i < n
    → (ids : List ℕ) × (serve (m * n) p ≡ some (ids, p)) × (count i ids ≡ m)
fair_share n m i p fits made h = (
  cycle n 0 (m * n),
  (let (pos, e) = make_pool-ok n p made in
      rw e (serve_start n (m * n) pos fits ∙ rw (mul-mod_left m n))),
  count-cycle n m i h,
)
