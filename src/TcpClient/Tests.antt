-- ===== src/TcpClient/Tests.antt =====
-- The theorem about the client, applied to the scripted runtime.
use example.Base.{ℕ, ◌≡◌, ◌∷◌, ◌++◌, Text, codes}
use example.Coro.{Runtime, co_await, run, Outcome, Event}
use example.Asio.{
  ErrorCode, other, throws, resolve, connect, Operation, Done, async_connect, open_socket,
}
use example.Asio.Scripted.{scripted}
use example.TcpClient.{End, start}
use example.Pool.{Asio}
use example.TcpClient.Main.{exits, joins_for_ever, terminates, main}
use example.TcpClient.Exits.{main_exits}
use example.TcpClient.Talk.{Ends, start-Ends}
use example.TcpClient.Connection.{
  Connection, connection, ConnectionReach, begins, then_goes, client_goes_on, server_goes_on, quiet,
  writes, reads, delivered, takes, empty_stream,
}
use example.TcpServer.{session, test_timeout, echo_loop, echo_round, hang_up}
use example.TcpClient.Echoed.{reads_back}
use example.TcpClient.Finishing.{Finishes, talk_finishes}
use example.Coro.{suspended, ◌>>=◌}
use example.Base.Slices.{zeroed}
use example.Base.{[], true, arith, refl}
use example.Asio.{
  Received, timeout, success, AsioTask, endpoints, overlay, read_some, after_resolve, async_write,
  async_read_some,
}
use example.TcpClient.{after_read, talk_loop, talk, wind_up, write_buf}

abbrev message : ErrorCode → Text
message ec = codes "error"

start-Ends_example :
    let connected = run scripted (async_connect 2 (codes "localhost") (codes "8848")) 3 in
    let o = run scripted (start message 1 2 (codes "localhost") (codes "8848")) 3 in
    (rest : Outcome (Event Operation Done) End ℕ) × (o.result ≡ rest.result)
    × (o.events ≡ (open_socket 1 2, tt) ∷ (connected.events ++ rest.events))
    × Ends message 2 1 (codes "localhost") (codes "8848") connected.result rest
start-Ends_example = start-Ends message 2 1 (codes "localhost") (codes "8848") scripted 3

-- A context's `run` returns when it is stopped.
abbrev asio_model : Asio
asio_model = record {
  run_returns = λ c. c.stopped;
  returns_of_stopped = λ c h. h;
  blocked_of_work = λ c h w. h;
}

-- A runtime whose resolver knows no name, or whose server cannot be reached.
abbrev no_name : Runtime Operation Done ℕ
no_name k (resolve host port) = (throws (other 5), k)
no_name k op = scripted k op

abbrev unreachable : Runtime Operation Done ℕ
unreachable k (connect socket eps) = (other 111, k)
unreachable k op = scripted k op

waits_without_server : main asio_model message unreachable 3 1 2 ≡ joins_for_ever
unfolding async_connect co_await
waits_without_server = main_exits asio_model message unreachable 3 1 2

ends_without_name : main asio_model message no_name 3 1 2 ≡ terminates
unfolding async_connect co_await
ends_without_name = main_exits asio_model message no_name 3 1 2

main_exits_example : main asio_model message scripted 3 1 2 ≡ exits
unfolding async_connect co_await
main_exits_example = main_exits asio_model message scripted 3 1 2

-- What the client does after its first read.
asking : Received → AsioTask End
unfolding talk_loop async_read_some co_await
asking d = after_read message d.ec (talk_loop message 99 2 (overlay (zeroed 1024) d.bytes)) >>= λ _.
    wind_up message 1 2

-- The client connects and writes, and waits for its first read.
abbrev asked : Connection
asked = record (connection message 5 4 6 1 2 (codes "localhost") (codes "8848")) {
  client = suspended (read_some 2 1024) asking;
  to_server = record empty_stream { handed_in = write_buf; under_way = write_buf };
}

asks : ConnectionReach message 5 4 6 1 2 (codes "localhost") (codes "8848") asked
unfolding start talk talk_loop async_connect after_resolve async_write async_read_some co_await
    zeroed asking
asks =
    then_goes
      (then_goes
        (then_goes
          (then_goes (then_goes begins (client_goes_on _ _ _ (quiet _ _ tt tt)))
            (client_goes_on _ _ _ (quiet _ _ (endpoints (7 ∷ [])) tt)))
          (client_goes_on _ _ _ (quiet _ _ success tt)))
        (client_goes_on _ _ _ (quiet _ _ tt tt)))
      (client_goes_on _ _ _
        (writes _ _ _ (record { ec = success; size = 1024 }) _ (delivered refl)))

talk_finishes_example :
    Finishes (connection message 102401 4 6 1 2 (codes "localhost") (codes "8848"))
talk_finishes_example =
    talk_finishes message 102401 4 6 1 2 (codes "localhost") (codes "8848") (omega arith)

-- The session has taken three bytes and written them back, and the client has got two of them.
abbrev got : Connection
got = record {
  client = asking (record { ec = success; size = 2; bytes = codes "he" });
  server = echo_loop message 4 4 >>= hang_up message 4;
  to_server = record {
    handed_in = write_buf;
    under_way = codes "lo" ++ zeroed 1019;
    taken_out = codes "hel";
    intact = true;
  };
  to_client = record {
    handed_in = codes "hel";
    under_way = codes "l";
    taken_out = codes "he";
    intact = true;
  };
}

gets : ConnectionReach message 5 4 6 1 2 (codes "localhost") (codes "8848") got
unfolding session test_timeout timeout echo_loop echo_round async_read_some async_write co_await
    zeroed
gets =
    then_goes
      (then_goes
        (then_goes
          (then_goes
            (then_goes
              (then_goes (then_goes asks (server_goes_on _ _ _ (quiet _ _ tt tt)))
                (server_goes_on _ _ _ (quiet _ _ tt tt)))
              (server_goes_on _ _ _ (quiet _ _ success tt)))
            (server_goes_on _ _ _ (quiet _ _ tt tt)))
          (server_goes_on _ _ _
            (reads _ _ (codes "hel") _ _ (omega arith) (omega arith) (takes _ refl))))
        (server_goes_on _ _ _
          (writes _ _ _ (record { ec = success; size = 3 }) _ (delivered refl))))
      (client_goes_on _ _ _ (reads _ _ (codes "he") _ _ (omega arith) (omega arith) (takes _ refl)))

reads_back_example : (rest : Text) × (got.to_server.handed_in ≡ got.to_client.taken_out ++ rest)
reads_back_example = reads_back message 5 4 6 1 2 (codes "localhost") (codes "8848") got gets
