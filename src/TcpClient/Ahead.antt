-- ===== src/TcpClient/Ahead.antt =====
-- src/test_tcp_client.cpp: the client never asks for more than it has written.
use example.Base.{ℕ, zero, suc, ◌+◌, ◌-◌, ◌≡◌, ◌≤◌, ◌<◌, ◌∙◌, Text, length, arith}
use example.Base.Slices.{zeroed, length-zeroed}
use example.Coro.{co_return, suspended, co_await, ◌>>=◌}
use example.Asio.{
  ErrorCode, success, eof, other, Operation, Done, AsioTask, Connected, returned, thrown, endpoints,
  throws, read_some, read, read_until, write, overlay, async_write, async_read_some, async_connect,
  after_resolve, Resolved,
}
use example.TcpClient.{
  max_length, rounds, start, talk, talk_loop, after_read, after_connect, wind_up,
}
use example.TcpClient.Talk.{length-overlay}

-- With so many bytes written and not asked for yet: what a client may ask for, and what is left.
abbrev pub MayAsk : ℕ → Operation → Type 0
MayAsk d (read_some socket capacity) = (0 < capacity) × (capacity ≤ d)
MayAsk d (read socket capacity) = ⊥
MayAsk d (read_until socket delim) = ⊥
MayAsk d op = Unit {0}

abbrev pub left : ℕ → Operation → ℕ
left d (read_some socket capacity) = d - capacity
left d (write socket bytes) = d + length bytes
left d op = d

abbrev pub Leads : {A : Type 0} → ℕ → AsioTask A → Type 0
Leads d (co_return a) = Unit {0}
Leads d (suspended op k) = MayAsk d op × ((e : Done op) → Leads (left d op) (k e))

module _ (message : ErrorCode → Text) (io_context socket : ℕ) where
  wind_up-Leads : (d : ℕ) → Leads d (wind_up message io_context socket)
  wind_up-Leads d = (tt, λ _. (tt, λ _. (tt, λ _. tt)))

  after_read-Leads :
      (d : ℕ) (ec : ErrorCode) (rest : AsioTask (Unit {0}))
      → Leads d (rest >>= λ _. wind_up message io_context socket)
      → Leads d (after_read message ec rest >>= λ _. wind_up message io_context socket)
  after_read-Leads d success rest h = h
  after_read-Leads d eof rest h = (tt, λ _. wind_up-Leads d)
  after_read-Leads d (other code) rest h = (tt, λ _. wind_up-Leads d)

  loop-Leads :
      (n d : ℕ) (buffer : Text)
      → length buffer ≡ max_length
      → Leads d (talk_loop message n socket buffer >>= λ _. wind_up message io_context socket)
  unfolding talk_loop async_write async_read_some co_await zeroed
  loop-Leads zero d buffer full = wind_up-Leads d
  loop-Leads (suc n) d buffer full = (
    tt,
    λ w. (
      rw full (omega arith, omega arith),
      λ e.
          after_read-Leads _ e.ec (talk_loop message n socket (overlay buffer e.bytes))
            (loop-Leads n _ (overlay buffer e.bytes) (length-overlay buffer e.bytes ∙ full)),
    ),
  )

  module _ (host port : Text) where
    after_connect-Leads :
        (d : ℕ) (c : Connected) → Leads d (after_connect message io_context socket host port c)
    unfolding talk
    after_connect-Leads d (thrown ec) = tt
    after_connect-Leads d (returned success) =
        (tt, λ _. loop-Leads rounds d (zeroed max_length) (length-zeroed max_length))
    after_connect-Leads d (returned eof) = (tt, λ _. tt)
    after_connect-Leads d (returned (other code)) = (tt, λ _. tt)

    resolved-Leads :
        (r : Resolved)
        → Leads 0 (after_resolve socket r >>= after_connect message io_context socket host port)
    unfolding after_resolve co_await
    resolved-Leads (throws ec) = tt
    resolved-Leads (endpoints eps) = (tt, λ ec. after_connect-Leads 0 (returned ec))

    pub start-Leads : Leads 0 (start message io_context socket host port)
    unfolding start async_connect
    start-Leads = (tt, λ _. (tt, λ r. resolved-Leads r))
