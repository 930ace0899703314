-- ===== src/TcpServer/Fresh.antt =====
-- src/test_tcp_server.cpp: the accepting loop starts sessions on ever new sockets, and never reads or
-- writes one itself.
use example.Base.{
  ℕ, zero, suc, ◌≤◌, inl, inr, true, Option, none, some, List, arith, Bool-cases, Option-cases,
  Text,
}
use example.Coro.{co_return, suspended, co_await, ◌>>=◌, perform}
use example.Asio.{
  ErrorCode, failed, Operation, Done, AsioTask, read_some, write, post, Executor, add, async_accept,
  success, eof, other, reuse_address, bind, listen,
}
use example.Pool.{get_io_context}
use example.TcpServer.{
  StartEnd, TcpServer, start, accept_loop, accept_round, accept_again, or_throw, open_and_listen,
  schedule, find_executor, ensure_executor,
}
use example.TcpServer.Sessions.{Answer, resumed}

-- No socket below the number may be posted any more.
abbrev pub MayPost : ℕ → Operation → Type 0
MayPost n (post context socket) = n ≤ socket
MayPost n (read_some socket capacity) = ⊥
MayPost n (write socket bytes) = ⊥
MayPost n op = Unit {0}

abbrev pub next_free : ℕ → Operation → ℕ
next_free n (post context socket) = suc socket
next_free n op = n

abbrev pub Posts : {A : Type 0} → ℕ → AsioTask A → Type 0
Posts n (co_return a) = Unit {0}
Posts n (suspended op k) = MayPost n op × ((d : Done op) → Posts (next_free n op) (k d))

abbrev pub free_after : {A : Type 0} → ℕ → AsioTask A → ℕ
free_after n (co_return a) = n
free_after n (suspended op k) = next_free n op

pub resumed-Posts :
    {A : Type 0} (n : ℕ) (m : AsioTask A) (answer : Answer)
    → Posts n m
    → Posts (free_after n m) (resumed answer m)
resumed-Posts n (co_return a) answer h = tt
resumed-Posts n (suspended op k) answer h = h.1 (answer op)

module _ (message : ErrorCode → Text) where
  schedule-Posts :
      (n socket : ℕ) (e : Option Executor) (rest : AsioTask StartEnd)
      → n ≤ socket
      → Posts (suc socket) rest
      → Posts n (schedule message socket e >>= accept_again message rest)
  unfolding schedule add
  schedule-Posts n socket none rest le h = tt
  schedule-Posts n socket (some e) rest le h = (le, λ _. h)

  round-Posts :
      (n acceptor context socket : ℕ) (m : List (ℕ × Executor)) (rest : AsioTask StartEnd)
      → n ≤ socket
      → ((k : ℕ) → k ≤ suc socket → Posts k rest)
      → Posts n (accept_round message acceptor context socket m >>= accept_again message rest)
  unfolding accept_round async_accept co_await
  round-Posts n acceptor context socket m rest le h = (
    tt,
    λ _. (
      tt,
      λ ec. elim (Bool-cases (failed ec)) [
        | inl bad ↦ rw (bad, accept_round) (tt, λ _. h n (omega arith))
        | inr good ↦
            rw (good, accept_round)
              (schedule-Posts n socket (find_executor context m) rest le
                (h (suc socket) (omega arith)))
      ],
    ),
  )

  loop-Posts :
      (fuel n acceptor socket : ℕ) (server : TcpServer)
      → n ≤ socket
      → Posts n (accept_loop message fuel acceptor socket server)
  unfolding accept_loop
  loop-Posts zero n acceptor socket server le = tt
  loop-Posts (suc fuel) n acceptor socket server le =
      elim (Option-cases (get_io_context server.pool)) [
        | inl e ↦ rw (e, accept_loop) tt
        | inr ((context, pool), e) ↦
            rw (e, accept_loop)
              (round-Posts n acceptor context.id socket
                (ensure_executor context.id server.executor_map) _ le
                (λ k small. loop-Posts fuel k acceptor (suc socket) _ small))
      ]

  or_throw-Posts :
      (n : ℕ) (rest : AsioTask StartEnd) (ec : ErrorCode)
      → Posts n rest
      → Posts n (or_throw rest ec)
  or_throw-Posts n rest success h = h
  or_throw-Posts n rest eof h = tt
  or_throw-Posts n rest (other code) h = tt

  opening-Posts :
      (n acceptor context : ℕ) (rest : AsioTask StartEnd)
      → Posts n rest
      → Posts n (open_and_listen acceptor context rest)
  unfolding open_and_listen
  opening-Posts n acceptor context rest h =
      let m4 : AsioTask StartEnd = perform (listen acceptor) >>= or_throw rest in
      let m3 : AsioTask StartEnd = perform (bind acceptor 8848) >>= or_throw m4 in
      let m2 : AsioTask StartEnd = perform (reuse_address acceptor true) >>= or_throw m3 in
      (
        tt,
        λ a. or_throw-Posts n m2 a (
          tt,
          λ b.
              or_throw-Posts n m3 b
                (tt, λ c. or_throw-Posts n m4 c (tt, λ d. or_throw-Posts n rest d h)),
        ),
      )

  pub start-Posts :
      (fuel acceptor : ℕ) (server : TcpServer) → Posts 0 (start message fuel acceptor server)
  unfolding start
  start-Posts fuel acceptor server = elim (Option-cases (get_io_context server.pool)) [
    | inl e ↦ rw (e, start) tt
    | inr ((context, pool), e) ↦
        rw (e, start)
          (opening-Posts 0 acceptor context.id _
            (loop-Posts fuel 0 acceptor 0 (record server { pool = pool }) (omega arith)))
  ]
