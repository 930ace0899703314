-- ===== src/TcpClient/Affording.antt =====
-- src/test_tcp_client.cpp and src/test_tcp_server.cpp: how far the bytes of the talk reach.
use example.Base.{◌+◌, ℕ, ◌-◌, ◌≡◌, ◌≤◌, refl, length, length-append, arith}
use example.Coro.{co_return, suspended}
use example.Asio.{Operation, Done, AsioTask, read_some, write}
use example.TcpServer.{LoopEnd}
use example.TcpClient.{End}
use example.TcpClient.Budget.{Spends, Lasts}
use example.TcpClient.InOrder.{Writes-Fed}
use example.TcpClient.Flowing.{Running}
use example.TcpClient.Connection.{Stream, takes, Quiet, Goes, quiet, writes, reads, fails}
use example.TcpClient.Succeeding.{Succeeds, HasRoom}

-- What the client may still write, and what the session can still take at least, of so many bytes.
abbrev pub Affords : ℕ → AsioTask End → Stream → Type 0
Affords total m out = (w : ℕ) × Spends w m × (length out.handed_in + w ≤ total)

abbrev pub Stays : ℕ → AsioTask LoopEnd → Stream → Type 0
Stays total m inward = (b : ℕ) × Lasts b m × (total ≤ length inward.taken_out + b)

pub Quiet-Spends :
    (w : ℕ) (op : Operation) (k : Done op → AsioTask End) (d : Done op)
    → Quiet op
    → Spends w (suspended op k)
    → Spends w (k d)
Quiet-Spends w (write s bytes) k d h spends = absurd h
Quiet-Spends w op k d h spends = spends d

pub Goes-Affords :
    {total : ℕ} {out inward q r : Stream} {m n : AsioTask End}
    → Affords total m out
    → Goes out inward m q r n
    → Affords total n q
Goes-Affords (w, spends, le) (quiet op k d h) = (w, Quiet-Spends w op k d h spends, le)
Goes-Affords {out = out} (w, spends, le) (writes s bytes k d q written) =
    let (handed, taken) = Writes-Fed bytes written in
    (w - length bytes, spends.1 d, rw (handed, length-append out.handed_in bytes) (omega arith))
Goes-Affords (w, spends, le) (reads s n bytes k q more few taken) = (w, spends _, le)
Goes-Affords (w, spends, le) (fails s n ec k bad) = (w, spends _, le)

pub Quiet-Lasts :
    (b : ℕ) (op : Operation) (k : Done op → AsioTask LoopEnd) (d : Done op)
    → Quiet op
    → Lasts b (suspended op k)
    → Lasts b (k d)
Quiet-Lasts b (read_some s n) k d h lasts = absurd h
Quiet-Lasts b op k d h lasts = lasts d

-- A session takes no more than what was handed in.
pub Goes-Stays :
    {total : ℕ} {out inward q r : Stream} {m n : AsioTask LoopEnd} (goes : Goes out inward m q r n)
    → Succeeds goes
    → length inward.under_way + length inward.taken_out ≤ total
    → Stays total m inward
    → Stays total n r
Goes-Stays (quiet op k d h) ok small (b, lasts, le) = (b, Quiet-Lasts b op k d h lasts, le)
Goes-Stays (writes s bytes k d q written) ok small (b, lasts, le) = (b, lasts d, le)
Goes-Stays {inward = inward} (reads s n bytes k q more few (takes rest split)) ok small
      (b, lasts, le) =
    let whole : length inward.under_way ≡ length bytes + length rest =
      rw (split, length-append bytes rest) refl in
    (
      b - length bytes,
      lasts.1 _ refl more (omega arith),
      rw (length-append inward.taken_out bytes) (omega arith),
    )
Goes-Stays (fails s n ec k bad) ok small stays = absurd ok

pub Lasts-HasRoom : (b : ℕ) (m : AsioTask LoopEnd) → Lasts b m → HasRoom m
Lasts-HasRoom b (co_return a) h = tt
Lasts-HasRoom b (suspended (read_some s n) k) h = h.0
Lasts-HasRoom b (suspended op k) h = tt

pub Lasts-Running : (b : ℕ) (m : AsioTask LoopEnd) → Lasts b m → Running m
Lasts-Running b (co_return a) h = absurd h
Lasts-Running b (suspended op k) h = tt
