-- ===== src/TcpClient/Finishing.antt =====
-- src/test_tcp_client.cpp and src/test_tcp_server.cpp: without errors, the talk of the client with its
-- session runs to its end.
use mathlib.Core.Path.{subst}
use mathlib.Core.WellFounded.{Acc}
use example.Base.{ℕ, ◌≡◌, ◌<◌, ◌⊎◌, inl, inr, refl, sym, true, Text, arith}
use example.Coro.{co_return, suspended}
use example.Asio.{ErrorCode, Done, AsioTask}
use example.TcpServer.{LoopEnd}
use example.TcpClient.{End}
use example.TcpClient.Budget.{start-Spends, session-Lasts}
use example.TcpClient.InOrder.{Goes-Sound}
use example.TcpClient.Echoed.{reached-Talking, length-Sound}
use example.TcpClient.Flowing.{Running, never_stuck}
use example.TcpClient.Connection.{
  Stream, Connection, Goes, quiet, writes, reads, fails, ConnectionStep, client_goes_on,
  server_goes_on, connection, ConnectionReach, begins, then_goes, empty_stream,
}
use example.TcpClient.Succeeding.{StepSucceeds, Succeeds-intact, CanGo-Next, Leads-HasRoom}
use example.TcpClient.Affording.{
  Affords, Stays, Goes-Affords, Goes-Stays, Lasts-HasRoom, Lasts-Running,
}

-- However the steps come, as long as they succeed: there is always a next one, until the client has
-- ended, and that after finitely many.
pub data Finishes : Connection → Type 0 where
  finished : (c : Connection) (end : End) → c.client ≡ co_return end → Finishes c
  goes_on :
      (c d : Connection) (step : ConnectionStep c d)
      → StepSucceeds step
      → ((e : Connection) (next : ConnectionStep c e) → StepSucceeds next → Finishes e)
      → Finishes c

-- What a task is after its next completion.
abbrev After : {A : Type 0} → AsioTask A → AsioTask A → Type 0
After n (co_return a) = ⊥
After n (suspended op k) = (d : Done op) × (n ≡ k d)

After-Acc : {A : Type 0} (m : AsioTask A) → Acc After m
After-Acc (co_return a) = Acc.intro (co_return a) (λ n h. absurd h)
After-Acc (suspended op k) =
    Acc.intro (suspended op k) (λ n (d, e). subst (Acc After) (sym e) (After-Acc (k d)))

Goes-After :
    {A : Type 0} {out inward q r : Stream} {m n : AsioTask A} → Goes out inward m q r n → After n m
Goes-After (quiet op k d h) = (d, refl)
Goes-After (writes s bytes k w q written) = (w, refl)
Goes-After (reads s n bytes k q more few taken) = (_, refl)
Goes-After (fails s n ec k bad) = (_, refl)

ended_or_runs : {A : Type 0} (m : AsioTask A) → ((a : A) × (m ≡ co_return a)) ⊎ Running m
ended_or_runs (co_return a) = inl (a, refl)
ended_or_runs (suspended op k) = inr tt

module _ (message : ErrorCode → Text) (fuel sock timer io_context socket : ℕ)
    (host port : Text) where
  record Good (c : Connection) : Type 0 where
    reached : ConnectionReach message fuel sock timer io_context socket host port c
    up : c.to_server.intact ≡ true
    down : c.to_client.intact ≡ true
    affords : Affords 102400 c.client c.to_server
    stays : Stays 102400 c.server c.to_server

  step-Good : {c e : Connection} (step : ConnectionStep c e) → StepSucceeds step → Good c → Good e
  step-Good {c} (client_goes_on q r m goes) ok h =
      let t = reached-Talking message fuel sock timer io_context socket host port h.reached in
      let (sq, sr, taken, handed) = Goes-Sound t.to_server_sound t.to_client_sound goes in
      let (b, lasts, le) = h.stays in
      let (up, down) = Succeeds-intact goes ok h.up h.down in
      record {
        reached = then_goes h.reached (client_goes_on q r m goes);
        up = up;
        down = down;
        affords = Goes-Affords h.affords goes;
        stays = (b, lasts, rw taken le);
      }
  step-Good {c} (server_goes_on q r m goes) ok h =
      let t = reached-Talking message fuel sock timer io_context socket host port h.reached in
      let (sq, sr, taken, handed) = Goes-Sound t.to_client_sound t.to_server_sound goes in
      let (w, spends, le) = h.affords in
      let (down, up) = Succeeds-intact goes ok h.down h.up in
      let whole = length-Sound c.to_server t.to_server_sound h.up in
      record {
        reached = then_goes h.reached (server_goes_on q r m goes);
        up = up;
        down = down;
        affords = (w, spends, rw handed le);
        stays = Goes-Stays goes ok (omega arith) h.stays;
      }

  next_step :
      (c : Connection)
      → Good c
      → Running c.client
      → (d : Connection) × (step : ConnectionStep c d) × StepSucceeds step
  next_step c h runs =
      let t = reached-Talking message fuel sock timer io_context socket host port h.reached in
      let (d, leads, le) = t.ahead in
      let (b, lasts, le') = h.stays in
      elim (never_stuck message fuel sock timer io_context socket host port c h.reached h.up h.down
        runs (Lasts-Running b c.server lasts)) [
          | inl can ↦
              let (q, r, n, goes, ok) =
                CanGo-Next c.to_server c.to_client c.client can (Leads-HasRoom d c.client leads) in
              (_, client_goes_on q r n goes, ok)
          | inr can ↦
              let (q, r, n, goes, ok) =
                CanGo-Next c.to_client c.to_server c.server can (Lasts-HasRoom b c.server lasts) in
              (_, server_goes_on q r n goes, ok)
        ]

  goes_on_Finishes :
      (c : Connection)
      → ((m : AsioTask End) (q r : Stream)
          → After m c.client
          → Good (record c { client = m; to_server = q; to_client = r })
          → Finishes (record c { client = m; to_server = q; to_client = r }))
      → ((n : AsioTask LoopEnd) (q r : Stream)
          → After n c.server
          → Good (record c { server = n; to_client = q; to_server = r })
          → Finishes (record c { server = n; to_client = q; to_server = r }))
      → Good c
      → (e : Connection) (step : ConnectionStep c e) → StepSucceeds step
      → Finishes e
  goes_on_Finishes c client server h e (client_goes_on q r m goes) ok =
      client m q r (Goes-After goes) (step-Good (client_goes_on q r m goes) ok h)
  goes_on_Finishes c client server h e (server_goes_on q r m goes) ok =
      server m q r (Goes-After goes) (step-Good (server_goes_on q r m goes) ok h)

  Good-Finishes :
      (m : AsioTask End) (n : AsioTask LoopEnd)
      → Acc After m
      → Acc After n
      → (q r : Stream) → Good (record { client = m; server = n; to_server = q; to_client = r })
      → Finishes (record { client = m; server = n; to_server = q; to_client = r })
  Good-Finishes m n (Acc.intro _ sooner) (Acc.intro _ sooner') q r h =
      let c : Connection = record { client = m; server = n; to_server = q; to_client = r } in
      elim (ended_or_runs m) [
        | inl (end, e) ↦ finished c end e
        | inr runs ↦
            let (d, step, ok) = next_step c h runs in
            goes_on c d step ok (
              goes_on_Finishes c
                (λ m' q' r' after good.
                  Good-Finishes m' n (sooner m' after) (Acc.intro n sooner') q' r' good)
                (λ n' q' r' after good.
                  Good-Finishes m n' (Acc.intro m sooner) (sooner' n' after) r' q' good)
                h)
      ]

  -- With fuel for each byte of the client and one more round, and as long as no read fails and no write is
  -- cut off: in whatever order the operations complete and however the streams cut the bytes up, the
  -- client and its session never come to a halt before the client's coroutine has ended, and that it does
  -- after finitely many operations.
  pub talk_finishes :
      102400 < fuel → Finishes (connection message fuel sock timer io_context socket host port)
  talk_finishes enough =
      Good-Finishes _ _ (After-Acc _) (After-Acc _) empty_stream empty_stream (record {
        reached = begins;
        up = refl;
        down = refl;
        affords = (102400, start-Spends message io_context socket host port, omega arith);
        stays = (102400, session-Lasts message sock fuel timer 102400 enough, omega arith);
      })
