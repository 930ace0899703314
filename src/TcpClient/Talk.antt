-- ===== src/TcpClient/Talk.antt =====
-- src/test_tcp_client.cpp: the rounds of the client, and the ways in which it ends.
use example.Base.{ℕ, zero, suc, ◌≡◌, refl, ap, ◌∙◌, List, [], ◌∷◌, ◌++◌, length, Text, codes}
use example.Base.Slices.{zeroed, length-zeroed}
use example.Coro.{Runtime, Outcome, Event, run, run->>=, co_await}
use example.Asio.{
  ErrorCode, success, eof, other, info, error, Operation, Done, AsioTask, overlay, Received,
  Written, Connected, returned, thrown, async_connect, async_write, async_read_some, open_socket,
  read_some, write, shutdown, stop_context, log,
}
use example.TcpClient.{
  max_length, rounds, write_buf, End, finished, gave_up, threw, after_read, talk_loop, talk,
  after_connect, start, wind_up,
}

pub length-overlay : (buffer bytes : Text) → length (overlay buffer bytes) ≡ length buffer
length-overlay [] bytes = refl
length-overlay (x ∷ buffer) [] = refl
length-overlay (x ∷ buffer) (b ∷ bytes) = ap suc (length-overlay buffer bytes)

module _ (message : ErrorCode → Text) (socket : ℕ) where
  abbrev pub Events : Type 0
  Events = List (Event Operation Done)

  -- What at most n rounds do: each writes the whole buffer and reads once. A read that fails is
  -- reported and is the last.
  pub data Exchanges : ℕ → Events → Type 0 where
    over : Exchanges 0 []
    replied :
        {n : ℕ} {es : Events} (w : Written) (d : Received)
        → d.ec ≡ success
        → Exchanges n es
        → Exchanges (suc n) ((write socket write_buf, w) ∷ (read_some socket max_length, d) ∷ es)
    closed :
        {n : ℕ} (w : Written) (d : Received)
        → d.ec ≡ eof
        → Exchanges (suc n) (
            (write socket write_buf, w)
            ∷ (read_some socket max_length, d)
            ∷ (log (error (codes "server close") []), tt)
            ∷ [])
    broken :
        {n : ℕ} (w : Written) (d : Received) (k : ℕ)
        → d.ec ≡ other k
        → Exchanges (suc n) (
            (write socket write_buf, w)
            ∷ (read_some socket max_length, d)
            ∷ (log (error (codes "error: {}") (message (other k) ∷ [])), tt)
            ∷ [])

  module _ {S : Type 0} (runtime : Runtime Operation Done S) where
    after_read-Exchanges :
        (n : ℕ) (ec : ErrorCode) (rest : AsioTask (Unit {0})) (w : Written) (d : Received) (t : S)
        → d.ec ≡ ec
        → Exchanges n (run runtime rest t).events
        → Exchanges (suc n) (
            (write socket write_buf, w)
            ∷ (read_some socket max_length, d)
            ∷ (run runtime (after_read message ec rest) t).events)
    after_read-Exchanges n success rest w d t e h = replied w d e h
    after_read-Exchanges n eof rest w d t e h = closed w d e
    after_read-Exchanges n (other k) rest w d t e h = broken w d k e

    loop-Exchanges :
        (n : ℕ) (buffer : Text) (s : S)
        → length buffer ≡ max_length
        → Exchanges n (run runtime (talk_loop message n socket buffer) s).events
    unfolding talk_loop async_write async_read_some co_await
    loop-Exchanges zero buffer s full = over
    loop-Exchanges (suc n) buffer s full =
        let (w, t) = runtime s (write socket write_buf) in
        let (d, u) = runtime t (read_some socket max_length) in
        let filled = overlay buffer d.bytes in
        rw full (
          after_read-Exchanges n d.ec (talk_loop message n socket filled) w d u refl
            (loop-Exchanges n filled u (length-overlay buffer d.bytes ∙ full)))

  -- How the client goes on from each outcome of `async_connect`.
  module _ (io_context : ℕ) (host port : Text) where
    abbrev pub Ends : {S : Type 0} → Connected → Outcome (Event Operation Done) End S → Type 0
    Ends (thrown ec) o = (o.result ≡ threw ec) × (o.events ≡ [])
    Ends (returned success) o =
        (o.result ≡ finished)
        × ((middle : Events) × (a : ErrorCode) × Exchanges rounds middle
            × (o.events
                ≡ (log (info (codes "Connect to {}:{} successfully") (host ∷ port ∷ [])), tt)
                  ∷ (middle
                      ++ ((log (info (codes "Finished send and recieve") []), tt)
                          ∷ (shutdown socket, a)
                          ∷ (stop_context io_context, tt)
                          ∷ []))))
    Ends (returned ec) o =
        (o.result ≡ gave_up)
        × (o.events ≡ (log (error (codes "Connect error: {}") (message ec ∷ [])), tt) ∷ [])

    module _ {S : Type 0} (runtime : Runtime Operation Done S) where
      talk-Ends :
          (s : S)
          → Ends (returned success) (run runtime (talk message io_context socket host port) s)
      unfolding talk
      talk-Ends s =
          let t =
            (runtime s (log (info (codes "Connect to {}:{} successfully") (host ∷ port ∷ [])))).1 in
          let talking = talk_loop message rounds socket (zeroed max_length) in
          let o = run runtime talking t in
          rw (run->>= runtime talking (λ _. wind_up message io_context socket) t) (
            refl,
            (
              o.events,
              _,
              loop-Exchanges runtime rounds (zeroed max_length) t (length-zeroed max_length),
              refl,
            ),
          )

      after_connect-Ends :
          (c : Connected) (s : S)
          → Ends c (run runtime (after_connect message io_context socket host port c) s)
      after_connect-Ends (thrown ec) s = (refl, refl)
      after_connect-Ends (returned success) s = talk-Ends s
      after_connect-Ends (returned eof) s = (refl, refl)
      after_connect-Ends (returned (other n)) s = (refl, refl)

      -- The client opens its socket and connects. A resolver that throws, it throws; an error of the
      -- connection it reports, and returns with the context still running. Once connected it does at
      -- most 100 rounds, each of which writes its 1024 bytes and reads once and the last of which is
      -- the first whose read fails; then it shuts the socket down and stops the context.
      pub start-Ends :
          (s : S)
          → let connected =
              run runtime
                (async_connect socket host port)
                (runtime s (open_socket io_context socket)).1 in
            let o = run runtime (start message io_context socket host port) s in
            (rest : Outcome (Event Operation Done) End S) × (o.result ≡ rest.result)
            × (o.events ≡ (open_socket io_context socket, tt) ∷ (connected.events ++ rest.events))
            × Ends connected.result rest
      unfolding start
      start-Ends s =
          let t = (runtime s (open_socket io_context socket)).1 in
          let connecting = async_connect socket host port in
          let go_on = after_connect message io_context socket host port in
          let o = run runtime connecting t in
          rw (run->>= runtime connecting go_on t)
            (run runtime (go_on o.result) o.final, refl, refl, after_connect-Ends o.result o.final)
