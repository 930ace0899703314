-- ===== src/Pool/Lifecycle.antt =====
-- include/io_context_pool.h: `start`, `stop`, and any sequence of calls on one pool.
use native.Mathlib.Nat.{zero-add}
use example.Base.{
  ℕ, zero, suc, ◌+◌, ◌%◌, ◌≤◌, ◌<◌, ◌≡◌, refl, sym, ap, ◌∙◌, Bool, true, false, Option, none, some,
  List, [], ◌∷◌, ◌++◌, map, append-nil, append_assoc, arith, ◌==◌, if◌then◌else◌, length, get_elem?,
  length-map, get_elem?-map, get_elem?-lt, All, All-append, range_from, length-range_from,
  get_elem?-range_from,
}
use example.Pool.{
  IoContext, Thread, IoContextPool, ok, Asio, size_t, make_pool, spawn, start, stop_context,
  get_io_context, join, join_all, stop,
}
use example.Pool.RoundRobin.{fresh, make_pool-ok}

-- What holds of a pool between two calls.
pub record IsValid (p : IoContextPool) : Type 0 where
  pub cursor : p.next_io_context < length p.io_contexts
  pub sized : length p.io_contexts < size_t
  pub placed : All (λ th. th.context < length p.io_contexts) p.threads

-- The thread that runs the context at position i.
abbrev pub thread_at : ℕ → Thread
thread_at i = record { context = i; joinable = true }

spawn_lem :
    (i : ℕ) (cs : List IoContext) (threads : List Thread)
    → spawn i cs threads ≡ threads ++ map thread_at (range_from i (length cs))
unfolding spawn
spawn_lem i [] threads = sym (append-nil threads)
spawn_lem i (c ∷ cs) threads =
    spawn_lem (suc i) cs (threads ++ (thread_at i ∷ []))
    ∙ append_assoc threads (thread_at i ∷ []) (map thread_at (range_from (suc i) (length cs)))

placed_range : (n s k : ℕ) → s + k ≤ n → All (λ th. th.context < n) (map thread_at (range_from s k))
placed_range n s zero h = tt
placed_range n s (suc k) h = (omega arith, placed_range n (suc s) k (omega arith))

pool_length : (n : ℕ) → length (map fresh (range_from 0 n)) ≡ n
pool_length n = length-map (range_from 0 n) fresh ∙ length-range_from 0 n

make_pool-IsValid : (n : ℕ) (p : IoContextPool) → n < size_t → make_pool n ≡ ok p → IsValid p
make_pool-IsValid n p fits made =
    let (pos, e) = make_pool-ok n p made in
    rw e (record { cursor = rw (pool_length n) pos; sized = rw (pool_length n) fits; placed = tt })

start-IsValid : (p : IoContextPool) → IsValid p → IsValid (start p)
unfolding start
start-IsValid p v = record {
  cursor = v.cursor;
  sized = v.sized;
  placed = rw (spawn_lem 0 p.io_contexts p.threads) (
      All-append _ p.threads _ v.placed
        (placed_range (length p.io_contexts) 0 (length p.io_contexts) (omega arith)));
}

-- The pool after a call of `getIoContext`.
abbrev pub moved : IoContextPool → IoContextPool
moved p =
    let next = (p.next_io_context + 1) % size_t in
    record p { next_io_context = if next == length p.io_contexts then 0 else next }

moved-IsValid : (p : IoContextPool) → IsValid p → IsValid (moved p)
moved-IsValid p v = record {
  cursor =
      let room : (p.next_io_context + 1) % size_t ≤ length p.io_contexts = omega arith in
      ground (arith, room);
  sized = v.sized;
  placed = v.placed;
}

-- On a valid pool `getIoContext` reads inside the vector.
get_io_context_returns :
    (p : IoContextPool) → IsValid p → (c : IoContext) × (get_io_context p ≡ some (c, moved p))
unfolding get_io_context
get_io_context_returns p v =
    let (c, e) = get_elem?-lt p.io_contexts p.next_io_context v.cursor in
    (c, rw (e, get_io_context))

-- The pool after `stop`.
abbrev pub joined : Thread → Thread
joined th = record th { joinable = false }

abbrev pub stopped : IoContextPool → IoContextPool
stopped p = record p {
  io_contexts = map stop_context p.io_contexts;
  threads = map joined p.threads;
}

placed_joined :
    (n : ℕ) (threads : List Thread)
    → All (λ th. th.context < n) threads
    → All (λ th. th.context < n) (map joined threads)
placed_joined n [] h = tt
placed_joined n (th ∷ threads) h = (h.0, placed_joined n threads h.1)

stopped-IsValid : (p : IoContextPool) → IsValid p → IsValid (stopped p)
stopped-IsValid p v =
    let long : length (map stop_context p.io_contexts) ≡ length p.io_contexts =
      length-map p.io_contexts stop_context in
    record {
      cursor = rw long v.cursor;
      sized = rw long v.sized;
      placed = rw long (placed_joined (length p.io_contexts) p.threads v.placed);
    }

pub data Call : Type 0 where
  starts stops gets : Call

module _ (asio : Asio) where
  join_stopped :
      (cs : List IoContext) (th : Thread)
      → th.joinable ≡ true
      → th.context < length cs
      → join asio (map stop_context cs) th ≡ some (joined th)
  unfolding join
  join_stopped cs th up h =
      let (c, e) = get_elem?-lt cs th.context h in
      rw (
        get_elem?-map cs stop_context th.context c e,
        join,
        up,
        asio.returns_of_stopped (stop_context c) refl,
      )

  -- A thread is joined unless it was before.
  joined_once :
      (cs : List IoContext) (context : ℕ) (joinable : Bool)
      → context < length cs
      → let th : Thread = record { context = context; joinable = joinable } in
        (if joinable then join asio (map stop_context cs) th else some th) ≡ some (joined th)
  joined_once cs context true h =
      join_stopped cs (record { context = context; joinable = true }) refl h
  joined_once cs context false h = refl

  join_all_stopped :
      (cs : List IoContext) (threads : List Thread)
      → All (λ th. th.context < length cs) threads
      → join_all asio (map stop_context cs) threads ≡ some (map joined threads)
  unfolding join_all
  join_all_stopped cs [] h = refl
  join_all_stopped cs (th ∷ threads) h =
      ground (arith, joined_once cs th.context th.joinable h.0, join_all_stopped cs threads h.1)

  -- `stop` of a valid pool never waits for ever: it returns with each context stopped and each
  -- thread joined, and changes nothing else.
  pub stop_returns : (p : IoContextPool) → IsValid p → stop asio p ≡ some (stopped p)
  unfolding stop
  stop_returns p v = rw (stop, join_all_stopped p.io_contexts p.threads v.placed)

  -- The three public calls.
  call : Call → IoContextPool → Option IoContextPool
  call starts p = some (start p)
  call stops p = stop asio p
  call gets p = elim (get_io_context p) [ none ↦ none | some (c, q) ↦ some q ]

  unfoldable pub run_calls : List Call → IoContextPool → Option IoContextPool
  unfolding call
  run_calls [] p = some p
  run_calls (c ∷ cs) p = elim (call c p) [ none ↦ none | some q ↦ run_calls cs q ]

  call_returns :
      (c : Call) (p : IoContextPool)
      → IsValid p
      → (q : IoContextPool) × (call c p ≡ some q) × IsValid q
  unfolding call
  call_returns starts p v = (start p, refl, start-IsValid p v)
  call_returns stops p v = (stopped p, stop_returns p v, stopped-IsValid p v)
  call_returns gets p v =
      let (c, e) = get_io_context_returns p v in (moved p, rw (e, call), moved-IsValid p v)

  run_calls-IsValid :
      (cs : List Call) (p : IoContextPool)
      → IsValid p
      → (q : IoContextPool) × (run_calls cs p ≡ some q) × IsValid q
  unfolding run_calls
  run_calls-IsValid [] p v = (p, refl, v)
  run_calls-IsValid (c ∷ cs) p v =
      let (q, e, w) = call_returns c p v in
      let (r, f, u) = run_calls-IsValid cs q w in (r, rw (run_calls, e) f, u)

  -- A pool made with a size below 2 ^ 64 takes any sequence of `start`, `stop` and `getIoContext`
  -- calls, in any order: no read leaves the vector, each `stop` returns, and joins no thread a
  -- second time, which would throw; and the pool that results is valid, its cursor inside the vector and each thread on a context that exists.
  pub run_calls_total :
      (n : ℕ) (p : IoContextPool) (cs : List Call)
      → n < size_t
      → make_pool n ≡ ok p
      → (q : IoContextPool) × (run_calls cs p ≡ some q) × IsValid q
  run_calls_total n p cs fits made = run_calls-IsValid cs p (make_pool-IsValid n p fits made)

  waits_range :
      (n s k : ℕ)
      → s + k ≤ n
      → All
          (λ th. join asio (map fresh (range_from 0 n)) th ≡ none)
          (map thread_at (range_from s k))
  unfolding join
  waits_range n s zero h = tt
  waits_range n s (suc k) h = (
    rw (join, at_place, asio.blocked_of_work (fresh s) refl (omega arith)),
    waits_range n (suc s) k (omega arith),
  )
    where
      at_place : get_elem? (map fresh (range_from 0 n)) s ≡ some (fresh s)
      at_place =
          get_elem?-map (range_from 0 n) fresh s s
            (get_elem?-range_from 0 n s (omega arith) ∙ ap some (zero-add s))

  -- The work that the constructor tracks keeps the threads of a started pool alive: after `start`
  -- of a new pool of n contexts there are n threads, and to join any of them before `stop` would
  -- wait for ever.
  pub started_threads_wait :
      (n : ℕ) (p : IoContextPool)
      → make_pool n ≡ ok p
      → (length (start p).threads ≡ n)
        × All (λ th. join asio (start p).io_contexts th ≡ none) (start p).threads
  unfolding start
  started_threads_wait n p made =
      let (pos, e) = make_pool-ok n p made in
      rw e (
        rw (spawn_lem 0 (map fresh (range_from 0 n)) [], pool_length n)
          (
            length-map (range_from 0 n) thread_at ∙ length-range_from 0 n,
            waits_range n 0 n (omega arith),
          ))
