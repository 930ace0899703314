-- ===== src/Pool/Tests.antt =====
-- Concrete pools: the theorems of this folder applied, and runs of the model.
use example.Base.{◌≡◌, Bool, true, false, some, [], ◌∷◌, arith, ◌||◌, ◌==◌, ◌≤◌}
use example.Pool.{IoContext, IoContextPool, Asio, ok, make_pool, start}
use example.Pool.RoundRobin.{pool_of, serve, make_pool_lem, round_robin}
use example.Pool.Lifecycle.{IsValid, starts, stops, gets, run_calls, run_calls_total}

-- A context's `run` returns when it is stopped or has no work.
abbrev idle_or_stopped : IoContext → Bool
idle_or_stopped c = c.stopped || (c.outstanding_work == 0)

returns_of_stopped_lem : (c : IoContext) → c.stopped ≡ true → idle_or_stopped c ≡ true
returns_of_stopped_lem c h = ground arith

blocked_of_work_lem :
    (c : IoContext) → c.stopped ≡ false → 1 ≤ c.outstanding_work → idle_or_stopped c ≡ false
blocked_of_work_lem c h k = ground arith

abbrev asio_model : Asio
asio_model = record {
  run_returns = idle_or_stopped;
  returns_of_stopped = returns_of_stopped_lem;
  blocked_of_work = blocked_of_work_lem;
}

made_three : make_pool 3 ≡ ok (pool_of 3 0)
made_three = make_pool_lem 3

three-IsValid : IsValid (start (pool_of 3 2))
unfolding start
three-IsValid = record { cursor = omega arith; sized = omega arith; placed = omega arith }

round_robin_example : serve 5 (pool_of 3 0) ≡ some (0 ∷ 1 ∷ 2 ∷ 0 ∷ 1 ∷ [], pool_of 3 2)
round_robin_example = round_robin 3 5 (pool_of 3 0) (omega arith) made_three

run_calls_total_example :
    (q : IoContextPool) × (run_calls asio_model
        (starts ∷ gets ∷ stops ∷ gets ∷ starts ∷ stops ∷ [])
        (pool_of 3 0)
      ≡ some q)
    × IsValid q
run_calls_total_example =
    run_calls_total asio_model 3 (pool_of 3 0) (starts ∷ gets ∷ stops ∷ gets ∷ starts ∷ stops ∷ [])
      (omega arith) made_three
