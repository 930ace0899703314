-- ===== src/TcpClient/Budget.antt =====
-- src/test_tcp_client.cpp and src/test_tcp_server.cpp: how much the client writes at most, and how long
-- the session goes on at least.
use example.Base.{ℕ, zero, suc, ◌-◌, ◌*◌, ◌≡◌, ◌≤◌, ◌<◌, false, Text, length, arith}
use example.Base.Slices.{zeroed}
use example.Coro.{co_return, suspended, co_await, ◌>>=◌}
use example.Asio.{
  ErrorCode, success, eof, other, failed, Done, AsioTask, Received, Connected, returned, thrown,
  endpoints, throws, read_some, write, overlay, async_write, async_read_some, async_connect,
  after_resolve, Resolved, timeout,
}
use example.TcpServer.{echo_round, echo_loop, hang_up, session, test_timeout}
use example.TcpClient.{
  rounds, max_length, start, talk, talk_loop, after_read, after_connect, wind_up,
}

-- A task that writes no more than so many bytes.
abbrev pub Spends : {A : Type 0} → ℕ → AsioTask A → Type 0
Spends w (co_return a) = Unit {0}
Spends w (suspended (write s bytes) k) =
    (length bytes ≤ w) × ((d : Done (write s bytes)) → Spends (w - length bytes) (k d))
Spends w (suspended op k) = (d : Done op) → Spends w (k d)

-- A task that does not end before it has read more than so many bytes, while its reads succeed.
abbrev pub Lasts : {A : Type 0} → ℕ → AsioTask A → Type 0
Lasts b (co_return a) = ⊥
Lasts b (suspended (read_some s n) k) =
    (0 < n)
    × ((d : Received)
        → failed d.ec ≡ false
        → 0 < length d.bytes
        → length d.bytes ≤ b
        → Lasts (b - length d.bytes) (k d))
Lasts b (suspended op k) = (d : Done op) → Lasts b (k d)

module _ (message : ErrorCode → Text) (io_context socket : ℕ) where
  wind_up-Spends : (w : ℕ) → Spends w (wind_up message io_context socket)
  wind_up-Spends w = λ _ _ _. tt

  after_read-Spends :
      (w : ℕ) (ec : ErrorCode) (rest : AsioTask (Unit {0}))
      → Spends w (rest >>= λ _. wind_up message io_context socket)
      → Spends w (after_read message ec rest >>= λ _. wind_up message io_context socket)
  after_read-Spends w success rest h = h
  after_read-Spends w eof rest h = λ _. wind_up-Spends w
  after_read-Spends w (other code) rest h = λ _. wind_up-Spends w

  loop-Spends :
      (n w : ℕ) (buffer : Text)
      → n * 1024 ≤ w
      → Spends w (talk_loop message n socket buffer >>= λ _. wind_up message io_context socket)
  unfolding talk_loop async_write async_read_some co_await zeroed
  loop-Spends zero w buffer fits = wind_up-Spends w
  loop-Spends (suc n) w buffer fits = (
    omega arith,
    λ _ e.
        after_read-Spends _ e.ec (talk_loop message n socket (overlay buffer e.bytes))
          (loop-Spends n _ (overlay buffer e.bytes) (omega arith)),
  )

  module _ (host port : Text) where
    after_connect-Spends :
        (c : Connected) → Spends 102400 (after_connect message io_context socket host port c)
    unfolding talk
    after_connect-Spends (thrown ec) = tt
    after_connect-Spends (returned success) =
        λ _. loop-Spends rounds 102400 (zeroed max_length) (omega arith)
    after_connect-Spends (returned eof) = λ _. tt
    after_connect-Spends (returned (other code)) = λ _. tt

    resolved-Spends :
        (r : Resolved)
        → Spends 102400
            (after_resolve socket r >>= after_connect message io_context socket host port)
    unfolding after_resolve co_await
    resolved-Spends (throws ec) = tt
    resolved-Spends (endpoints eps) = λ ec. after_connect-Spends (returned ec)

    pub start-Spends : Spends 102400 (start message io_context socket host port)
    unfolding start async_connect
    start-Spends = λ _ r. resolved-Spends r

module _ (message : ErrorCode → Text) (sock : ℕ) where
  loop-Lasts :
      (fuel b : ℕ) → b < fuel → Lasts b (echo_loop message fuel sock >>= hang_up message sock)
  unfolding echo_loop echo_round async_read_some async_write co_await zeroed
  loop-Lasts zero b h = elim h [ ]
  loop-Lasts (suc fuel) b h = (
    omega arith,
    λ d good more few.
        rw (good, echo_round) (λ _. loop-Lasts fuel (b - length d.bytes) (omega arith)),
  )

  pub session-Lasts : (fuel timer b : ℕ) → b < fuel → Lasts b (session message fuel sock timer)
  unfolding session test_timeout timeout co_await
  session-Lasts fuel timer b h = λ _ _ _ _. loop-Lasts fuel b h
