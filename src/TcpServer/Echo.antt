-- ===== src/TcpServer/Echo.antt =====
-- src/test_tcp_server.cpp: what a session sends back.
use example.Base.{
  ℕ, zero, suc, ◌≤◌, ◌≡◌, refl, ap, inl, inr, Bool, true, false, List, [], ◌∷◌, ◌++◌, arith,
  if◌then◌else◌, Bool-cases, length, Text,
}
use example.Base.Slices.{take, zeroed}
use example.Coro.{Runtime, Outcome, Event, run, run->>=, co_await, Task, ◌>>=◌}
use example.Asio.{
  ErrorCode, failed, Operation, Done, overlay, read_some, write, async_read_some, async_write,
  timeout,
}
use example.TcpServer.{
  max_length, LoopEnd, broke, out_of_fuel, echo_round, echo_loop, hang_up, session, echo_again,
  test_timeout,
}

pub take-overlay :
    (buffer bytes : Text)
    → length bytes ≤ length buffer
    → take (length bytes) (overlay buffer bytes) ≡ bytes
take-overlay buffer [] h = refl
take-overlay [] (b ∷ bytes) h = elim h [ ]
take-overlay (x ∷ buffer) (b ∷ bytes) h = ap (◌∷◌ b) (take-overlay buffer bytes (omega arith))

-- The bytes of the reads that succeeded, one entry for each.
abbrev pub received : List (Event Operation Done) → List Text
received [] = []
received ((read_some sock n, d) ∷ es) = if failed d.ec then received es else d.bytes ∷ received es
received (e ∷ es) = received es

-- The bytes of the writes.
abbrev pub sent : List (Event Operation Done) → List Text
sent [] = []
sent ((write sock bytes, d) ∷ es) = bytes ∷ sent es
sent (e ∷ es) = sent es

-- What Boost.Asio documents of `async_read_some`: it fills the buffer's front with the number of bytes
-- that it reports, which fits the buffer.
abbrev pub ReadsFit : {S : Type 0} → Runtime Operation Done S → Type 0
ReadsFit {S} runtime =
    (s : S) (sock n : ℕ)
    → ((runtime s (read_some sock n)).0.size ≡ length (runtime s (read_some sock n)).0.bytes)
      × (length (runtime s (read_some sock n)).0.bytes ≤ n)

pub received-append :
    (xs ys : List (Event Operation Done)) → received (xs ++ ys) ≡ received xs ++ received ys
received-append [] ys = refl
received-append ((read_some sock n, d) ∷ xs) ys = ground (arith, received-append xs ys)
received-append (x ∷ xs) ys = received-append xs ys

pub sent-append : (xs ys : List (Event Operation Done)) → sent (xs ++ ys) ≡ sent xs ++ sent ys
sent-append [] ys = refl
sent-append ((write sock bytes, d) ∷ xs) ys = ap (◌∷◌ bytes) (sent-append xs ys)
sent-append (x ∷ xs) ys = sent-append xs ys

-- A run that wrote back all that it read.
abbrev pub Echoes : {A S : Type 0} → Outcome (Event Operation Done) A S → Type 0
Echoes o = sent o.events ≡ received o.events

Echoes-preceded :
    {A S : Type 0} (es : List (Event Operation Done)) (o : Outcome (Event Operation Done) A S)
    → sent es ≡ received es
    → Echoes o
    → sent (es ++ o.events) ≡ received (es ++ o.events)
Echoes-preceded es o h k = rw (sent-append es o.events, received-append es o.events, h, k)

module _ {S : Type 0} (runtime : Runtime Operation Done S) where
  bind-Echoes :
      {A B : Type 0} (m : Task Operation Done A) (f : A → Task Operation Done B) (s : S)
      → Echoes (run runtime m s)
      → ((a : A) (t : S) → Echoes (run runtime (f a) t))
      → Echoes (run runtime (m >>= f) s)
  bind-Echoes m f s h k =
      let o = run runtime m s in
      rw (run->>= runtime m f s)
        (Echoes-preceded o.events (run runtime (f o.result) o.final) h (k o.result o.final))

module _ (message : ErrorCode → Text) {S : Type 0} (runtime : Runtime Operation Done S)
    (fits : ReadsFit runtime) where
  round-Echoes : (sock : ℕ) (s : S) → Echoes (run runtime (echo_round message sock) s)
  unfolding echo_round async_read_some async_write co_await
  round-Echoes sock s =
      let d = (runtime s (read_some sock (length (zeroed max_length)))).0 in
      let (sized, small) = fits s sock (length (zeroed max_length)) in
      elim (Bool-cases (failed d.ec)) [
        | inl bad ↦ rw (bad, echo_round)
        | inr good ↦ rw (good, sized, take-overlay (zeroed max_length) d.bytes small) refl
      ]

  again-Echoes :
      (fuel sock : ℕ) (going : Bool) (t : S)
      → ((u : S) → Echoes (run runtime (echo_loop message fuel sock) u))
      → Echoes (run runtime (echo_again message (echo_loop message fuel sock) going) t)
  again-Echoes fuel sock true t h = h t
  again-Echoes fuel sock false t h = refl

  loop-Echoes : (fuel sock : ℕ) (s : S) → Echoes (run runtime (echo_loop message fuel sock) s)
  unfolding echo_loop
  loop-Echoes zero sock s = refl
  loop-Echoes (suc fuel) sock s =
      bind-Echoes runtime (echo_round message sock)
        (echo_again message (echo_loop message fuel sock)) s (round-Echoes sock s)
        (λ going t. again-Echoes fuel sock going t (loop-Echoes fuel sock))

  hang_up-Echoes :
      (sock : ℕ) (end : LoopEnd) (s : S) → Echoes (run runtime (hang_up message sock end) s)
  unfolding hang_up
  hang_up-Echoes sock broke s = refl
  hang_up-Echoes sock out_of_fuel s = refl

  -- While the socket's reads fill the buffer as Boost.Asio documents, a session writes back, in order
  -- and however long it runs, exactly the bytes of each read that succeeded.
  pub session_echoes :
      (fuel sock timer : ℕ) (s : S)
      → let o = run runtime (session message fuel sock timer) s in sent o.events ≡ received o.events
  unfolding session test_timeout timeout co_await
  session_echoes fuel sock timer s =
      bind-Echoes runtime (echo_loop message fuel sock) (hang_up message sock) _
        (loop-Echoes fuel sock _) (hang_up-Echoes sock)
