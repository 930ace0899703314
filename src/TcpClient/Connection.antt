-- ===== src/TcpClient/Connection.antt =====
-- src/test_tcp_client.cpp and src/test_tcp_server.cpp: a client and the session that serves it, over the
-- two streams of a connection. Each side's operations complete whenever the runtime chooses.
use example.Base.{ℕ, ◌≡◌, ◌≤◌, ◌<◌, Bool, true, false, [], ◌++◌, Text, length}
use example.Coro.{suspended}
use example.Asio.{
  ErrorCode, success, failed, Operation, Done, AsioTask, Written, read_some, read, read_until,
  write,
}
use example.TcpServer.{LoopEnd, session}
use example.TcpClient.{End, start}

-- One direction: the bytes that were handed in, those under way, and those that were taken out.
pub record Stream : Type 0 where
  pub handed_in : Text
  pub under_way : Text
  pub taken_out : Text
  pub intact : Bool

-- A write: it is delivered, or in part and the last, or, after such a one, not at all.
pub data Writes (p : Stream) (bytes : Text) : Stream → Type 0 where
  delivered :
      p.intact ≡ true
      → Writes p bytes
          (record p { handed_in = p.handed_in ++ bytes; under_way = p.under_way ++ bytes })
  cut_off :
      (part rest : Text)
      → p.intact ≡ true
      → bytes ≡ part ++ rest
      → Writes p bytes (record p {
        handed_in = p.handed_in ++ bytes;
        under_way = p.under_way ++ part;
        intact = false;
      })
  dropped : p.intact ≡ false → Writes p bytes (record p { handed_in = p.handed_in ++ bytes })

-- A read that succeeds: it takes a first part of what is under way.
pub data Reads (p : Stream) (bytes : Text) : Stream → Type 0 where
  takes :
      (rest : Text)
      → p.under_way ≡ bytes ++ rest
      → Reads p bytes (record p { under_way = rest; taken_out = p.taken_out ++ bytes })

pub record Connection : Type 0 where
  pub client : AsioTask End
  pub server : AsioTask LoopEnd
  pub to_server : Stream
  pub to_client : Stream

-- The operations that leave the streams alone.
abbrev pub Quiet : Operation → Type 0
Quiet (read_some socket capacity) = ⊥
Quiet (read socket capacity) = ⊥
Quiet (read_until socket delim) = ⊥
Quiet (write socket bytes) = ⊥
Quiet op = Unit {0}

-- What a task comes to with the two streams, when the operation that it waits for completes.
pub data Goes {A : Type 0} (out inward : Stream)
    : AsioTask A → Stream → Stream → AsioTask A → Type 0 where
  quiet :
      (op : Operation) (k : Done op → AsioTask A) (d : Done op)
      → Quiet op
      → Goes out inward (suspended op k) out inward (k d)
  writes :
      (socket : ℕ) (bytes : Text) (k : Written → AsioTask A) (w : Written) (q : Stream)
      → Writes out bytes q
      → Goes out inward (suspended (write socket bytes) k) q inward (k w)
  reads :
      (socket capacity : ℕ) (bytes : Text) (k : Done (read_some socket capacity) → AsioTask A)
      (q : Stream)
      → 0 < length bytes
      → length bytes ≤ capacity
      → Reads inward bytes q
      → Goes out inward
          (suspended (read_some socket capacity) k)
          out
          q
          (k (record { ec = success; size = length bytes; bytes = bytes }))
  fails :
      (socket capacity : ℕ) (ec : ErrorCode) (k : Done (read_some socket capacity) → AsioTask A)
      → failed ec ≡ true
      → Goes out inward
          (suspended (read_some socket capacity) k)
          out
          inward
          (k (record { ec = ec; size = 0; bytes = [] }))

pub data ConnectionStep (c : Connection) : Connection → Type 0 where
  client_goes_on :
      (q r : Stream) (m : AsioTask End)
      → Goes c.to_server c.to_client c.client q r m
      → ConnectionStep c (record c { client = m; to_server = q; to_client = r })
  server_goes_on :
      (q r : Stream) (m : AsioTask LoopEnd)
      → Goes c.to_client c.to_server c.server q r m
      → ConnectionStep c (record c { server = m; to_client = q; to_server = r })

abbrev pub empty_stream : Stream
empty_stream = record { handed_in = []; under_way = []; taken_out = []; intact = true }

module _ (message : ErrorCode → Text) (fuel sock timer io_context socket : ℕ)
    (host port : Text) where
  abbrev pub connection : Connection
  connection = record {
    client = start message io_context socket host port;
    server = session message fuel sock timer;
    to_server = empty_stream;
    to_client = empty_stream;
  }

  pub data ConnectionReach : Connection → Type 0 where
    begins : ConnectionReach connection
    then_goes : {c d : Connection} → ConnectionReach c → ConnectionStep c d → ConnectionReach d
