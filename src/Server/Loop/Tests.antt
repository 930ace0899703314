-- ===== src/Server/Loop/Tests.antt =====
-- A runtime that always completes the newest operation: the server serves, and is shut down.
use example.Base.{
  ℕ, suc, ◌+◌, ◌≤◌, ◌≡◌, refl, true, false, Bool, Option, none, some, List, [], ◌∷◌, arith,
  get_elem?, codes,
}
use example.Server.{ServerImpl, Operation, request_say_hello, finish_rpc, tag, initial}
use example.Server.Ops.{count_tag, count_requests}
use example.Server.Safety.{IsValid, alive, initial-IsValid}
use example.Server.Loop.{
  Next, completed, aborted, rounds, run, destroy, shutdown_server, shutdown_queue,
}
use example.Server.Loop.Serving.{
  OkWhileServing, Serves, Rounds, run_goes_on, Drains, OkOf, shutdown_aborts,
}

-- An address above all tags.
abbrev above : List Operation → ℕ
above [] = 0
above (op ∷ ops) = suc (tag op) + above ops

above_free : (ops : List Operation) (a : ℕ) → above ops ≤ a → count_tag a ops ≡ 0
above_free [] a h = refl
above_free (op ∷ ops) a h = ground (arith, above_free ops a)

dead_if : (o : Option example.Server.CallData) → alive o ≡ 0 → o ≡ none
dead_if none h = refl
dead_if (some c) h = absurd (omega (arith, h))

free_above : (s : ServerImpl) → IsValid s → s.heap (above s.outstanding) ≡ none
free_above s v = dead_if (s.heap (above s.outstanding)) (
    omega (
      arith,
      v.matched (above s.outstanding),
      above_free s.outstanding (above s.outstanding) (omega arith),
    ))

abbrev newest : ℕ → ServerImpl → Next × ℕ
newest st s = (completed 0 true (codes "world") (above s.outstanding), st)

first_op :
    (ops : List Operation) → count_requests ops ≡ 1 → (op : Operation) × (get_elem? ops 0 ≡ some op)
first_op [] h = absurd (omega (arith, h))
first_op (op ∷ ops) h = (op, refl)

some_left : (s : ServerImpl) → IsValid s → (op : Operation) × (get_elem? s.outstanding 0 ≡ some op)
some_left s v = first_op s.outstanding v.listening

newest_allowed : (op : Operation) → OkWhileServing op true
newest_allowed (request_say_hello a) = refl
newest_allowed (finish_rpc a m) = tt

newest-Serves : (st : ℕ) (s : ServerImpl) → IsValid s → Serves newest st s
newest-Serves st s v =
    let (op, there) = some_left s v in
    record {
      index = 0;
      op = op;
      ok = true;
      name = codes "world";
      address = above s.outstanding;
      there = there;
      free = free_above s v;
      allowed = newest_allowed op;
      returns = refl;
    }

run_goes_on_example :
    let (calls, pointers, loop) = run newest 4 (some 3) 7 5 0 in
    let (calls', pointers', loop') = run newest 4 none 7 5 0 in
    Rounds newest 5 0 (initial 7) loop
    × (destroy pointers ≡ some (shutdown_server 3 ∷ shutdown_queue 4 ∷ []))
    × (destroy pointers' ≡ none)
run_goes_on_example = run_goes_on newest 4 3 7 5 0 newest-Serves

-- The same after the shutdown: requests come back refused.
abbrev ok_for : Option Operation → Bool
ok_for none = true
ok_for (some (request_say_hello a)) = false
ok_for (some (finish_rpc a m)) = true

abbrev refusing : ℕ → ServerImpl → Next × ℕ
refusing st s =
    (completed 0 (ok_for (get_elem? s.outstanding 0)) (codes "world") (above s.outstanding), st)

refused_lem : (op : Operation) → OkOf op (ok_for (some op))
refused_lem (request_say_hello a) = refl
refused_lem (finish_rpc a m) = tt

refusing-Drains : (st : ℕ) (s : ServerImpl) → IsValid s → Drains refusing st s
refusing-Drains st s v =
    let (op, there) = some_left s v in
    record {
      index = 0;
      op = op;
      ok = ok_for (get_elem? s.outstanding 0);
      name = codes "world";
      address = above s.outstanding;
      there = there;
      free = free_above s v;
      refused = rw there (refused_lem op);
      returns = refl;
    }

shutdown_aborts_example : rounds refusing 1 0 (initial 7) ≡ aborted
unfolding initial
shutdown_aborts_example =
    shutdown_aborts refusing 1 0 (initial 7) refusing-Drains (initial-IsValid 7) (omega arith)
