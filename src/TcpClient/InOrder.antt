-- ===== src/TcpClient/InOrder.antt =====
-- src/test_tcp_client.cpp and src/test_tcp_server.cpp: the client gets its own bytes back in order.
use example.Base.{
  length-append, ◌+◌, ◌-◌, ℕ, ◌≡◌, ◌≤◌, refl, true, Option, none, some, [], ◌++◌, Text, length,
  append-nil, append_assoc, arith,
}
use example.Coro.{suspended}
use example.Asio.{
  ErrorCode, Operation, Done, AsioTask, failed, read_some, write, success, eof, other,
}
use example.TcpServer.{LoopEnd}
use example.TcpServer.Owed.{Keeps}
use example.TcpClient.{End}
use example.TcpClient.Ahead.{Leads}
use example.TcpClient.Connection.{
  Stream, Writes, delivered, cut_off, dropped, Reads, takes, Quiet, Goes, quiet, writes, reads,
  fails,
}

-- What was handed in was taken out, is under way, or is lost; nothing is lost while all is intact.
abbrev pub Sound : Stream → Type 0
Sound p =
    (lost : Text) × (p.handed_in ≡ p.taken_out ++ (p.under_way ++ lost))
    × (p.intact ≡ true → lost ≡ [])

-- A stream after a write, and after a read.
abbrev pub Fed : Stream → Text → Stream → Type 0
Fed p bytes q = (q.handed_in ≡ p.handed_in ++ bytes) × (q.taken_out ≡ p.taken_out)

abbrev pub Drained : Stream → Text → Stream → Type 0
Drained p bytes q = (q.handed_in ≡ p.handed_in) × (q.taken_out ≡ p.taken_out ++ bytes)

pub Writes-Fed : {p q : Stream} (bytes : Text) → Writes p bytes q → Fed p bytes q
Writes-Fed bytes (delivered whole) = (refl, refl)
Writes-Fed bytes (cut_off part rest whole split) = (refl, refl)
Writes-Fed bytes (dropped cut) = (refl, refl)

pub Reads-Drained : {p q : Stream} (bytes : Text) → Reads p bytes q → Drained p bytes q
Reads-Drained bytes (takes rest split) = (refl, refl)

Writes-Sound : {p q : Stream} (bytes : Text) → Sound p → Writes p bytes q → Sound q
Writes-Sound {p} bytes (lost, e, h) (delivered whole) =
    ([], rw (e, h whole) (simp (append_assoc, append-nil)), λ _. refl)
Writes-Sound {p} bytes (lost, e, h) (cut_off part rest whole split) =
    (rest, rw (e, h whole, split) (simp (append_assoc, append-nil)), λ i. absurd (cc))
Writes-Sound {p} bytes (lost, e, h) (dropped cut) =
    (lost ++ bytes, rw e (simp (append_assoc)), λ i. absurd (cc))

Reads-Sound : {p q : Stream} (bytes : Text) → Sound p → Reads p bytes q → Sound q
Reads-Sound {p} bytes (lost, e, h) (takes rest split) =
    (lost, rw (e, split) (simp (append_assoc)), h)

-- Whatever a task does, the streams stay sound, its own takes out nothing and the other takes in
-- nothing.
pub Goes-Sound :
    {A : Type 0} {out inward q r : Stream} {m n : AsioTask A}
    → Sound out
    → Sound inward
    → Goes out inward m q r n
    → Sound q × Sound r × (q.taken_out ≡ out.taken_out) × (r.handed_in ≡ inward.handed_in)
Goes-Sound so si (quiet op k d h) = (so, si, refl, refl)
Goes-Sound so si (writes s bytes k w q written) =
    (Writes-Sound bytes so written, si, (Writes-Fed bytes written).1, refl)
Goes-Sound so si (reads s n bytes k q some_bytes small taken) =
    (so, Reads-Sound bytes si taken, refl, (Reads-Drained bytes taken).0)
Goes-Sound so si (fails s n ec k bad) = (so, si, refl, refl)

abbrev pub text_of : Option Text → Text
text_of none = []
text_of (some bytes) = bytes

-- A session that will do what it should, and has handed in all that it took out but what it owes.
abbrev pub Serves : ℕ → AsioTask LoopEnd → Stream → Stream → Type 0
Serves sock m out inward =
    (owed : Option Text) × Keeps sock owed m × (inward.taken_out ≡ out.handed_in ++ text_of owed)

Quiet-Keeps :
    (sock : ℕ) (owed : Option Text) (op : Operation) (k : Done op → AsioTask LoopEnd) (d : Done op)
    → Quiet op
    → Keeps sock owed (suspended op k)
    → Keeps sock owed (k d)
Quiet-Keeps sock owed (read_some s n) k d h keeps = absurd h
Quiet-Keeps sock owed (write s bytes) k d h keeps = absurd h
Quiet-Keeps sock owed op k d h keeps = keeps.1 d tt

failed-Keeps :
    (sock : ℕ) (owed : Option Text) (s n : ℕ) (ec : ErrorCode)
    (k : Done (read_some s n) → AsioTask LoopEnd)
    → failed ec ≡ true
    → Keeps sock owed (suspended (read_some s n) k)
    → Keeps sock none (k (record { ec = ec; size = 0; bytes = [] }))
failed-Keeps sock owed s n eof k bad keeps = keeps.1 _ (refl, omega arith)
failed-Keeps sock owed s n (other code) k bad keeps = keeps.1 _ (refl, omega arith)
failed-Keeps sock owed s n success k bad keeps = absurd (cc)

pub Goes-Serves :
    (sock : ℕ) {out inward q r : Stream} {m n : AsioTask LoopEnd}
    → Serves sock m out inward
    → Goes out inward m q r n
    → Serves sock n q r
Goes-Serves sock (owed, keeps, e) (quiet op k d h) = (owed, Quiet-Keeps sock owed op k d h keeps, e)
Goes-Serves sock (owed, keeps, e) (writes s bytes k w q written) =
    let (handed, taken) = Writes-Fed bytes written in
    (none, keeps.1 w tt, rw (append-nil q.handed_in, handed, e, keeps.0.1) refl)
Goes-Serves sock {out} (owed, keeps, e) (reads s n bytes k q some_bytes small taken) =
    let (handed, taken') = Reads-Drained bytes taken in
    (some bytes, keeps.1 _ (refl, small), rw (taken', e, keeps.0.1, append-nil out.handed_in) refl)
Goes-Serves sock (owed, keeps, e) (fails s n ec k bad) =
    (none, failed-Keeps sock owed s n ec k bad keeps, rw (e, keeps.0.1) refl)

-- A client that asks for no more than what it wrote beyond what it took out.
abbrev pub Ahead : AsioTask End → Stream → Stream → Type 0
Ahead m out inward = (d : ℕ) × Leads d m × (length inward.taken_out + d ≤ length out.handed_in)

Quiet-Leads :
    (d : ℕ) (op : Operation) (k : Done op → AsioTask End) (e : Done op)
    → Quiet op
    → Leads d (suspended op k)
    → Leads d (k e)
Quiet-Leads d (read_some s n) k e h leads = absurd h
Quiet-Leads d (write s bytes) k e h leads = absurd h
Quiet-Leads d op k e h leads = leads.1 e

pub Goes-Ahead :
    {out inward q r : Stream} {m n : AsioTask End}
    → Ahead m out inward
    → Goes out inward m q r n
    → Ahead n q r
Goes-Ahead (d, leads, le) (quiet op k e h) = (d, Quiet-Leads d op k e h leads, le)
Goes-Ahead {out} (d, leads, le) (writes s bytes k w q written) =
    let (handed, taken) = Writes-Fed bytes written in
    (d + length bytes, leads.1 w, rw (handed, length-append out.handed_in bytes) (omega arith))
Goes-Ahead {out} {inward} (d, leads, le) (reads s n bytes k q some_bytes small taken) =
    let (handed, taken') = Reads-Drained bytes taken in
    let may = leads.0 in
    (d - n, leads.1 _, rw (taken', length-append inward.taken_out bytes) (omega arith))
Goes-Ahead (d, leads, le) (fails s n ec k bad) = (d - n, leads.1 _, omega arith)
