-- ===== src/Pool.antt =====
-- include/io_context_pool.h: a pool of I/O contexts, each run by a thread of its own.
-- A context is the part of a `boost::asio::io_context` that the pool touches; what `run` does is a
-- parameter (`Asio`). A thread holds the position of its context in the vector.
pub mod Lifecycle
mod Tests
pub mod RoundRobin
use example.Base.{
  ℕ, zero, suc, ◌+◌, ◌%◌, ◌^◌, ◌<◌, ◌≡◌, Bool, true, false, Option, none, some, List, [], ◌∷◌, ◌++◌,
  map, ◌==◌, if◌then◌else◌, length, get_elem?,
}

pub record IoContext : Type 0 where
  pub id : ℕ
  pub outstanding_work : ℕ
  pub stopped : Bool

pub record Thread : Type 0 where
  pub context : ℕ
  pub joinable : Bool

pub record IoContextPool : Type 0 where
  pub io_contexts : List IoContext
  pub work : List ℕ
  pub next_io_context : ℕ
  pub threads : List Thread

pub data Error : Type 0 where
  runtime_error : Error

pub data Result {ℓ} (A : Type ℓ) : Type ℓ where
  ok : A → Result A
  throw : Error → Result A

-- What the pool relies on of `io_context::run`: whether the call comes to its end.
pub record Asio : Type 0 where
  pub run_returns : IoContext → Bool
  -- A stopped context's `run` returns.
  pub returns_of_stopped : (c : IoContext) → c.stopped ≡ true → run_returns c ≡ true
  -- A context with outstanding work that is not stopped keeps its `run` blocked.
  pub blocked_of_work :
      (c : IoContext) → c.stopped ≡ false → 0 < c.outstanding_work → run_returns c ≡ false

-- The range of `std::size_t`.
abbrev pub size_t : ℕ
size_t = 2 ^ 64

-- One round of the constructor's loop: a new context, and an executor that tracks work on it.
unfoldable pub add_context : ℕ → IoContextPool → IoContextPool
add_context i p = record p {
  io_contexts = p.io_contexts ++ (record { id = i; outstanding_work = 1; stopped = false } ∷ []);
  work = p.work ++ (i ∷ []);
}

-- The loop over i, i + 1, …, with `rounds` left.
unfoldable pub add_contexts : ℕ → ℕ → IoContextPool → IoContextPool
add_contexts zero i p = p
add_contexts (suc rounds) i p = add_contexts rounds (suc i) (add_context i p)

abbrev pub empty_pool : IoContextPool
empty_pool = record { io_contexts = []; work = []; next_io_context = 0; threads = [] }

-- The constructor.
unfoldable pub make_pool : ℕ → Result IoContextPool
make_pool pool_size =
    if pool_size == 0 then throw runtime_error else ok (add_contexts pool_size 0 empty_pool)

-- `start`: a thread for each context, at the positions i, i + 1, ….
unfoldable pub spawn : ℕ → List IoContext → List Thread → List Thread
spawn i [] threads = threads
spawn i (c ∷ cs) threads =
    spawn (suc i) cs (threads ++ (record { context = i; joinable = true } ∷ []))

unfoldable pub start : IoContextPool → IoContextPool
unfolding spawn
start p = record p { threads = spawn 0 p.io_contexts p.threads }

abbrev pub stop_context : IoContext → IoContext
stop_context c = record c { stopped = true }

-- `getIoContext`: the context, and the pool with the cursor moved on. `none` is a read out of the
-- vector's bounds, which the code does not check.
unfoldable pub get_io_context : IoContextPool → Option (IoContext × IoContextPool)
get_io_context p = elim (get_elem? p.io_contexts p.next_io_context) [
  | none ↦ none
  | some c ↦
      let next = (p.next_io_context + 1) % size_t in
      some (c, record p { next_io_context = if next == length p.io_contexts then 0 else next })
]

module _ (asio : Asio) where
  -- `join` waits for the thread's `run` to return; `none` means that it waits for ever, that the
  -- thread's context is gone, or that it throws, as it does for a thread that is not joinable.
  unfoldable pub join : List IoContext → Thread → Option Thread
  join contexts th =
      if th.joinable
      then elim (get_elem? contexts th.context) [
        | none ↦ none
        | some c ↦ if asio.run_returns c then some (record th { joinable = false }) else none
      ]
      else none

  -- The second loop of `stop`.
  unfoldable pub join_all : List IoContext → List Thread → Option (List Thread)
  unfolding join
  join_all contexts [] = some []
  join_all contexts (th ∷ threads) = elim (if th.joinable then join contexts th else some th) [
    | none ↦ none
    | some th' ↦ elim (join_all contexts threads) [ none ↦ none | some rest ↦ some (th' ∷ rest) ]
  ]

  unfoldable pub stop : IoContextPool → Option IoContextPool
  unfolding join_all
  stop p =
      let contexts = map stop_context p.io_contexts in
      elim (join_all contexts p.threads) [
        | none ↦ none
        | some threads ↦ some (record p { io_contexts = contexts; threads = threads })
      ]
