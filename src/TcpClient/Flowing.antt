-- ===== src/TcpClient/Flowing.antt =====
-- src/test_tcp_client.cpp and src/test_tcp_server.cpp: the client and its session never wait for each
-- other.
use example.Base.{
  ◌+◌, ℕ, zero, suc, ◌≡◌, ◌<◌, ◌⊎◌, inl, inr, refl, true, Option, Text, length, arith,
}
use example.Coro.{co_return, suspended}
use example.Asio.{ErrorCode, Done, AsioTask, read_some, read, read_until, write}
use example.TcpServer.{LoopEnd}
use example.TcpServer.Owed.{Keeps, being_written}
use example.TcpClient.{End}
use example.TcpClient.Ahead.{Leads}
use example.TcpClient.InOrder.{text_of}
use example.TcpClient.Connection.{Stream, Connection, ConnectionReach}
use example.TcpClient.Echoed.{reached-Talking, reply_under_way}

-- A task that has not ended.
abbrev pub Running : {A : Type 0} → AsioTask A → Type 0
Running (co_return a) = ⊥
Running (suspended op k) = Unit {0}

-- A task that can go on without an error, over its two streams: it waits for a read, and bytes are under
-- way to it, or for a write, and none has been cut off, or for an operation that is neither.
abbrev pub CanGo : {A : Type 0} → Stream → Stream → AsioTask A → Type 0
CanGo out inward (co_return a) = ⊥
CanGo out inward (suspended (read_some s n) k) = 0 < length inward.under_way
CanGo out inward (suspended (read s n) k) = ⊥
CanGo out inward (suspended (read_until s delim) k) = ⊥
CanGo out inward (suspended (write s bytes) k) = out.intact ≡ true
CanGo out inward (suspended op k) = Unit {0}

zero_or_more : (n : ℕ) → (0 < n) ⊎ (n ≡ 0)
zero_or_more zero = inr refl
zero_or_more (suc n) = inl (omega arith)

-- A session that cannot go on waits for bytes, with none under way and none to write.
session_waits :
    (sock : ℕ) (owed : Option Text) (m : AsioTask LoopEnd) (out inward : Stream)
    → Keeps sock owed m
    → Running m
    → out.intact ≡ true
    → CanGo out inward m ⊎ (length inward.under_way + length (text_of (being_written m)) ≡ 0)
session_waits sock owed (co_return a) out inward keeps runs whole = absurd runs
session_waits sock owed (suspended (read_some s n) k) out inward keeps runs whole =
    elim (zero_or_more (length inward.under_way)) [
      | inl there ↦ inl there
      | inr gone ↦ inr (omega arith)
    ]
session_waits sock owed (suspended (read s n) k) out inward keeps runs whole = absurd keeps.0
session_waits sock owed (suspended (read_until s delim) k) out inward keeps runs whole =
    absurd keeps.0
session_waits sock owed (suspended (write s bytes) k) out inward keeps runs whole = inl whole
session_waits sock owed (suspended op k) out inward keeps runs whole = inl tt

-- A client that cannot go on waits for a read, with no byte under way.
client_waits :
    (d : ℕ) (m : AsioTask End) (out inward : Stream)
    → Leads d m
    → Running m
    → out.intact ≡ true
    → CanGo out inward m
      ⊎ ((s : ℕ) × (n : ℕ) × (k : Done (read_some s n) → AsioTask End) × (m
            ≡ suspended (read_some s n) k)
          × (0 < n)
          × (length inward.under_way ≡ 0))
client_waits d (co_return a) out inward leads runs whole = absurd runs
client_waits d (suspended (read_some s n) k) out inward leads runs whole =
    elim (zero_or_more (length inward.under_way)) [
      | inl there ↦ inl there
      | inr gone ↦ inr (s, n, k, refl, leads.0.0, gone)
    ]
client_waits d (suspended (read s n) k) out inward leads runs whole = absurd leads.0
client_waits d (suspended (read_until s delim) k) out inward leads runs whole = absurd leads.0
client_waits d (suspended (write s bytes) k) out inward leads runs whole = inl whole
client_waits d (suspended op k) out inward leads runs whole = inl tt

module _ (message : ErrorCode → Text) (fuel sock timer io_context socket : ℕ)
    (host port : Text) where
  -- While no write has been cut off and neither has ended, the client or the session can go on without
  -- an error: they never both wait for bytes of the other.
  pub never_stuck :
      (c : Connection)
      → ConnectionReach message fuel sock timer io_context socket host port c
      → c.to_server.intact ≡ true
      → c.to_client.intact ≡ true
      → Running c.client
      → Running c.server
      → CanGo c.to_server c.to_client c.client ⊎ CanGo c.to_client c.to_server c.server
  never_stuck c reached up down client_runs server_runs =
      let h = reached-Talking message fuel sock timer io_context socket host port reached in
      let (d, leads, le) = h.ahead in
      let (owed, keeps, e) = h.serves in
      elim (client_waits d c.client c.to_server c.to_client leads client_runs up) [
        | inl goes ↦ inl goes
        | inr (s, n, k, waits, room, none_here) ↦
            elim (session_waits sock owed c.server c.to_client c.to_server keeps server_runs down) [
              | inl goes ↦ inr goes
              | inr none_there ↦
                  let way =
                    reply_under_way message fuel sock timer io_context socket host port c s n k
                      reached waits up down in
                  absurd (omega arith)
            ]
      ]
