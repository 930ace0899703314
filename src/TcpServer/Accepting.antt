-- ===== src/TcpServer/Accepting.antt =====
-- src/test_tcp_server.cpp: the accepting loop spreads its sockets over the pool.
use mathlib.Core.List.{map-append}
use native.Mathlib.Nat.{mod-eq_of_lt}
use example.Base.{
  Bool-cases, inl, inr, ℕ, ◌≡◌, refl, ap, some, List, [], ◌∷◌, ◌++◌, arith, if◌then◌else◌,
  Option-cases, Text, map, ◌<◌, sym, suc, ◌%◌, ◌⊎◌, zero, true,
}
use example.Coro.{◌>>=◌, Event, Outcome, Runtime, preceded, co_await, run, Task, run->>=, perform}
use example.Asio.{
  failed, Operation, Done, Executor, accept, post, ErrorCode, async_accept, add, open_socket, other,
  success, eof, listen, bind, reuse_address, open_acceptor,
}
use example.Pool.{Thread, size_t, IoContextPool, make_pool, ok, get_io_context}
use example.Pool.RoundRobin.{pool_of, get_io_context_ring, make_pool-ok}
use example.TcpServer.{
  start, find_executor, ensure_executor, accept_loop, accept_round, TcpServer, StartEnd, accepting,
  system_error, accept_again, or_throw, open_and_listen,
}

-- The sockets that were accepted.
abbrev pub accepted : List (Event Operation Done) → List ℕ
accepted [] = []
accepted ((accept acceptor socket, ec) ∷ es) =
    if failed ec then accepted es else socket ∷ accepted es
accepted (e ∷ es) = accepted es

-- The sessions that were posted: the context and the socket.
abbrev pub posted : List (Event Operation Done) → List (ℕ × ℕ)
posted [] = []
posted ((post context func, d) ∷ es) = (context, func) ∷ posted es
posted (e ∷ es) = posted es

pub accepted-append :
    (xs ys : List (Event Operation Done)) → accepted (xs ++ ys) ≡ accepted xs ++ accepted ys
accepted-append [] ys = refl
accepted-append ((accept acceptor socket, ec) ∷ xs) ys = ground (arith, accepted-append xs ys)
accepted-append (x ∷ xs) ys = accepted-append xs ys

pub posted-append :
    (xs ys : List (Event Operation Done)) → posted (xs ++ ys) ≡ posted xs ++ posted ys
posted-append [] ys = refl
posted-append ((post context func, d) ∷ xs) ys = ap (◌∷◌ (context, func)) (posted-append xs ys)
posted-append (x ∷ xs) ys = posted-append xs ys

-- Each entry of the map holds an executor for its own key.
abbrev pub Keyed : List (ℕ × Executor) → Type 0
Keyed [] = Unit {0}
Keyed ((key, e) ∷ m) = (e.io_context ≡ key) × Keyed m

find_executor-Keyed :
    (context : ℕ) (m : List (ℕ × Executor)) (e : Executor)
    → Keyed m
    → find_executor context m ≡ some e
    → e.io_context ≡ context
find_executor-Keyed context [] e k h = absurd (cc)
find_executor-Keyed context ((key, x) ∷ m) e k h =
    ground (arith, find_executor-Keyed context m e k.1)

-- After the map was asked to hold a context it does.
ensure_executor_finds :
    (context : ℕ) (m : List (ℕ × Executor))
    → Keyed m
    → Keyed (ensure_executor context m)
      × (find_executor context (ensure_executor context m) ≡ some (record { io_context = context }))
unfolding ensure_executor
ensure_executor_finds context m k = elim (Option-cases (find_executor context m)) [
  | inl e ↦ rw (e, ensure_executor) ((refl, k), ground arith)
  | inr (x, e) ↦ rw (e, ensure_executor) (k, ground (arith, e, find_executor-Keyed context m x k e))
]

-- Each session that was posted is that of an accepted socket, on the context that the rule gives.
abbrev pub Placed : {A S : Type 0} → (ℕ → ℕ) → Outcome (Event Operation Done) A S → Type 0
Placed place o = posted o.events ≡ map (λ i. (place i, i)) (accepted o.events)

module _ (message : ErrorCode → Text) {S : Type 0} (runtime : Runtime Operation Done S) where
  round_places :
      (acceptor socket : ℕ) (place : ℕ → ℕ) (m : List (ℕ × Executor)) (s : S)
      → find_executor (place socket) m ≡ some (record { io_context = place socket })
      → let o = run runtime (accept_round message acceptor (place socket) socket m) s in
        (o.result ≡ some tt) × Placed place o
  unfolding accept_round async_accept co_await add
  round_places acceptor socket place m s found =
      let t = (runtime s (open_socket (place socket) socket)).1 in
      elim (Bool-cases (failed (runtime t (accept acceptor socket)).0)) [
        | inl bad ↦ rw (bad, accept_round) (refl, refl)
        | inr good ↦ rw (good, found, accept_round) (refl, refl)
      ]

  Placed-append :
      {A B : Type 0} (place : ℕ → ℕ) (o : Outcome (Event Operation Done) A S)
      (q : Outcome (Event Operation Done) B S)
      → Placed place o
      → Placed place q
      → Placed place (preceded runtime o.events q)
  Placed-append place o q h k =
      rw (posted-append o.events q.events, accepted-append o.events q.events, h, k)
        (sym (map-append _ (accepted o.events) (accepted q.events)))

  loop_places :
      (n fuel acceptor socket : ℕ) (threads : List Thread) (m : List (ℕ × Executor)) (s : S)
      → 0 < n
      → n < size_t
      → Keyed m
      → let server : TcpServer = record {
        pool = record (pool_of n (suc socket % n)) { threads = threads };
        executor_map = m;
      } in
        let o = run runtime (accept_loop message fuel acceptor socket server) s in
        (o.result ≡ accepting) × Placed (λ i. suc i % n) o
  unfolding accept_loop
  loop_places n zero acceptor socket threads m s pos fits keyed = (refl, refl)
  loop_places n (suc fuel) acceptor socket threads m s pos fits keyed =
      let (keyed', found) = ensure_executor_finds (suc socket % n) m keyed in
      let m' = ensure_executor (suc socket % n) m in
      let server : TcpServer = record {
        pool = record (pool_of n (suc (suc socket) % n)) { threads = threads };
        executor_map = m';
      } in
      let round = accept_round message acceptor (suc socket % n) socket m' in
      let rest = accept_loop message fuel acceptor (suc socket) server in
      let o = run runtime round s in
      let (done, here) = round_places acceptor socket (λ i. suc i % n) m' s found in
      let (endless, there) =
        loop_places n fuel acceptor (suc socket) threads m' o.final pos fits keyed' in
      rw
        (
          get_io_context_ring n (suc socket) threads pos fits,
          accept_loop,
          run->>= runtime round (accept_again message rest) s,
          done,
        )
        (endless, Placed-append (λ i. suc i % n) o (run runtime rest o.final) here there)

  -- A task that goes on accepting or throws, and places its sessions.
  abbrev pub Starts : (ℕ → ℕ) → Task Operation Done StartEnd → Type 0
  Starts place m =
      (s : S)
      → (((run runtime m s).result ≡ accepting)
          ⊎ ((c : ErrorCode) × ((run runtime m s).result ≡ system_error c)))
        × Placed place (run runtime m s)

  or_throw-Starts :
      (place : ℕ → ℕ) (rest : Task Operation Done StartEnd) (ec : ErrorCode)
      → Starts place rest
      → Starts place (or_throw rest ec)
  or_throw-Starts place rest success h s = h s
  or_throw-Starts place rest eof h s = (inr (eof, refl), refl)
  or_throw-Starts place rest (other code) h s = (inr (other code, refl), refl)

  opening-Starts :
      (place : ℕ → ℕ) (acceptor context : ℕ) (rest : Task Operation Done StartEnd)
      → Starts place rest
      → Starts place (open_and_listen acceptor context rest)
  unfolding open_and_listen
  opening-Starts place acceptor context rest h =
      let m4 : Task Operation Done StartEnd = perform (listen acceptor) >>= or_throw rest in
      let h4 : Starts place m4 = λ t.
        or_throw-Starts place rest (runtime t (listen acceptor)).0 h
          (runtime t (listen acceptor)).1 in
      let m3 : Task Operation Done StartEnd = perform (bind acceptor 8848) >>= or_throw m4 in
      let h3 : Starts place m3 = λ t.
        or_throw-Starts place m4 (runtime t (bind acceptor 8848)).0 h4
          (runtime t (bind acceptor 8848)).1 in
      let m2 : Task Operation Done StartEnd =
        perform (reuse_address acceptor true) >>= or_throw m3 in
      let h2 : Starts place m2 = λ t.
        or_throw-Starts place m3 (runtime t (reuse_address acceptor true)).0 h3
          (runtime t (reuse_address acceptor true)).1 in
      λ t.
        or_throw-Starts place m2 (runtime t (open_acceptor acceptor context)).0 h2
          (runtime t (open_acceptor acceptor context)).1

  -- With a pool of n contexts, new but for its threads, the server takes no context outside the pool,
  -- never misses an executor and never leaves its accepting loop, unless opening the acceptor throws;
  -- each socket that is accepted, and no other, gets one session, in the order of acceptance, and
  -- socket number i (from 0) runs on context i + 1 modulo n.
  pub start_places :
      (n fuel acceptor : ℕ) (threads : List Thread) (p : IoContextPool) (s : S)
      → n < size_t
      → make_pool n ≡ ok p
      → let server : TcpServer = record {
        pool = record p { threads = threads };
        executor_map = [];
      } in
        let o = run runtime (start message fuel acceptor server) s in
        ((o.result ≡ accepting) ⊎ ((c : ErrorCode) × (o.result ≡ system_error c)))
        × Placed (λ i. suc i % n) o
  unfolding start
  start_places n fuel acceptor threads p s fits made =
      let (pos, e) = make_pool-ok n p made in
      rw
        (
          e,
          ap (λ t. get_io_context (record (pool_of n t) { threads = threads }))
              (sym (mod-eq_of_lt pos)),
          get_io_context_ring n 0 threads pos fits,
          start,
        )
        (opening-Starts (λ i. suc i % n) acceptor (0 % n) _
          (λ t.
            let (endless, placed) = loop_places n fuel acceptor 0 threads [] t pos fits tt in
            (inl endless, placed))
          s)
