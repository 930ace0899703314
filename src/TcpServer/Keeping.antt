-- ===== src/TcpServer/Keeping.antt =====
-- src/test_tcp_server.cpp: a session does what it should on its socket.
use example.Base.{ℕ, zero, suc, refl, inl, inr, Bool, true, false, Option, none, Bool-cases, Text}
use example.Base.Slices.{zeroed}
use example.Coro.{co_return, suspended, co_await, ◌>>=◌}
use example.Asio.{ErrorCode, failed, AsioTask, async_read_some, async_write, timeout}
use example.TcpServer.{
  LoopEnd, broke, out_of_fuel, echo_round, echo_loop, hang_up, session, echo_again, test_timeout,
}
use example.TcpServer.Echo.{take-overlay}
use example.TcpServer.Owed.{Keeps, owes}

Keeps->>= :
    {A B : Type 0} (sock : ℕ) (owed : Option Text) (m : AsioTask A) (f : A → AsioTask B)
    → Keeps sock owed m
    → ((a : A) → Keeps sock none (f a))
    → Keeps sock owed (m >>= f)
Keeps->>= sock owed (co_return a) f h g = rw h (g a)
Keeps->>= sock owed (suspended op k) f (allowed, h) g =
    (allowed, λ d fits. Keeps->>= sock (owes owed op d) (k d) f (h d fits) g)

module _ (message : ErrorCode → Text) (sock : ℕ) where
  round-Keeps : Keeps sock none (echo_round message sock)
  unfolding echo_round async_read_some async_write co_await
  round-Keeps = (
    (refl, refl),
    λ d fits.
        let (sized, small) = fits in
        elim (Bool-cases (failed d.ec)) [
          | inl bad ↦ rw (bad, echo_round) (refl, λ _ _. refl)
          | inr good ↦
              rw (good, sized, take-overlay (zeroed 1024) d.bytes small, echo_round)
                ((refl, refl), λ _ _. refl)
        ],
  )

  again-Keeps :
      (fuel : ℕ) (going : Bool)
      → Keeps sock none (echo_loop message fuel sock)
      → Keeps sock none (echo_again message (echo_loop message fuel sock) going)
  again-Keeps fuel true h = h
  again-Keeps fuel false h = refl

  loop-Keeps : (fuel : ℕ) → Keeps sock none (echo_loop message fuel sock)
  unfolding echo_loop
  loop-Keeps zero = refl
  loop-Keeps (suc fuel) =
      Keeps->>= sock none (echo_round message sock)
        (echo_again message (echo_loop message fuel sock)) round-Keeps
        (λ going. again-Keeps fuel going (loop-Keeps fuel))

  hang_up-Keeps : (end : LoopEnd) → Keeps sock none (hang_up message sock end)
  unfolding hang_up
  hang_up-Keeps out_of_fuel = refl
  hang_up-Keeps broke = (refl, λ _ _. (refl, λ _ _. refl))

  timeout-Keeps : (timer : ℕ) → Keeps sock none (test_timeout message timer)
  unfolding test_timeout timeout co_await
  timeout-Keeps timer = (refl, λ _ _. (refl, λ _ _. (refl, λ _ _. (refl, λ _ _. refl))))

  pub session-Keeps : (fuel timer : ℕ) → Keeps sock none (session message fuel sock timer)
  unfolding session
  session-Keeps fuel timer =
      Keeps->>= sock none (test_timeout message timer)
        (λ _. echo_loop message fuel sock >>= hang_up message sock) (timeout-Keeps timer)
        (λ _.
          Keeps->>= sock none (echo_loop message fuel sock) (hang_up message sock) (loop-Keeps fuel)
            hang_up-Keeps)
