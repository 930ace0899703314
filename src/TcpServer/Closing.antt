-- ===== src/TcpServer/Closing.antt =====
-- src/test_tcp_server.cpp: a session ends when its peer does.
use example.Base.{
  ℕ, zero, suc, ◌<◌, ◌≡◌, refl, inl, inr, true, false, List, [], ◌∷◌, ◌++◌, arith, Bool-cases,
  length, Text, ◌⊎◌, sym, append_assoc,
}
use example.Base.Slices.{zeroed}
use example.Coro.{Runtime, Event, run, run->>=, co_await, ◌>>=◌}
use example.Asio.{
  ErrorCode, failed, Operation, Done, read_some, write, shutdown, close, async_read_some,
  async_write,
}
use example.TcpServer.{
  max_length, broke, echo_round, echo_again, echo_loop, hang_up, session, test_timeout,
}

-- A number that falls with each read that succeeds, the write that follows it included: the peer
-- sends only so often before it fails or closes.
abbrev pub Falls : {S : Type 0} → Runtime Operation Done S → (S → ℕ) → Type 0
Falls {S} runtime left =
    (s : S) (sock n : ℕ) (bytes : Text)
    → let (d, t) = runtime s (read_some sock n) in
      failed d.ec ≡ false → left (runtime t (write sock bytes)).1 < left s

module _ (message : ErrorCode → Text) {S : Type 0} (runtime : Runtime Operation Done S)
    (left : S → ℕ) (falls : Falls runtime left) where
  round_cases :
      (sock : ℕ) (s : S)
      → let o = run runtime (echo_round message sock) s in
        (o.result ≡ false) ⊎ ((o.result ≡ true) × (left o.final < left s))
  unfolding echo_round async_read_some async_write co_await
  round_cases sock s =
      let d = (runtime s (read_some sock (length (zeroed max_length)))).0 in
      elim (Bool-cases (failed d.ec)) [
        | inl bad ↦ rw (bad, echo_round) (inl refl)
        | inr good ↦ rw (good, echo_round) (inr (refl, falls s sock _ _ good))
      ]

  loop_breaks :
      (fuel sock : ℕ) (s : S)
      → left s < fuel
      → (run runtime (echo_loop message fuel sock) s).result ≡ broke
  unfolding echo_loop
  loop_breaks zero sock s h = elim h [ ]
  loop_breaks (suc fuel) sock s h =
      let o = run runtime (echo_round message sock) s in
      rw
        (run->>= runtime (echo_round message sock)
          (echo_again message (echo_loop message fuel sock)) s)
        (elim (round_cases sock s) [
          | inl stop ↦ rw stop refl
          | inr (go, less) ↦ rw go (loop_breaks fuel sock o.final (omega arith))
        ])

  -- When, from the end of its two seconds' wait on, the peer's reads can succeed fewer than `fuel`
  -- times more, a session leaves its loop by the `break`, and its last two operations shut the socket
  -- down and close it, in this order.
  pub session_closes :
      (fuel sock timer : ℕ) (s : S)
      → left (run runtime (test_timeout message timer) s).final < fuel
      → let o = run runtime (session message fuel sock timer) s in
        (o.result ≡ broke)
        × ((es : List (Event Operation Done)) × (a : ErrorCode) × (b : ErrorCode) × (o.events
              ≡ es ++ ((shutdown sock, a) ∷ (close sock, b) ∷ [])))
  unfolding session hang_up
  session_closes fuel sock timer s h =
      let before = run runtime (test_timeout message timer) s in
      let o = run runtime (echo_loop message fuel sock) before.final in
      rw
        (
          run->>= runtime (test_timeout message timer)
              (λ _. echo_loop message fuel sock >>= hang_up message sock) s,
          run->>= runtime (echo_loop message fuel sock) (hang_up message sock) before.final,
          loop_breaks fuel sock before.final h,
        )
        (
          refl,
          (
            before.events ++ o.events,
            (runtime o.final (shutdown sock)).0,
            (runtime (runtime o.final (shutdown sock)).1 (close sock)).0,
            sym (append_assoc before.events o.events _),
          ),
        )
