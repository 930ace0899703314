-- ===== src/TcpClient/Succeeding.antt =====
-- src/test_tcp_client.cpp and src/test_tcp_server.cpp: steps of the talk without errors.
use example.Base.{ℕ, ◌≡◌, ◌<◌, refl, true, [], ◌∷◌, ◌++◌, Text, length, arith}
use example.Coro.{co_return, suspended}
use example.Asio.{success, AsioTask, read_some, read, read_until, write}
use example.TcpClient.{End}
use example.TcpClient.Ahead.{Leads}
use example.TcpClient.Flowing.{CanGo}
use example.Asio.Scripted.{scripted}
use example.TcpClient.Connection.{
  Stream, Writes, delivered, cut_off, dropped, takes, Connection, Goes, quiet, writes, reads, fails,
  ConnectionStep, client_goes_on, server_goes_on,
}

-- A step with no read that fails and no write that is cut off or dropped.
abbrev pub Arrives : {p q : Stream} {bytes : Text} → Writes p bytes q → Type 0
Arrives (delivered whole) = Unit {0}
Arrives (cut_off part rest whole split) = ⊥
Arrives (dropped cut) = ⊥

abbrev pub Succeeds :
    {A : Type 0} {out inward q r : Stream} {m n : AsioTask A} → Goes out inward m q r n → Type 0
Succeeds (quiet op k d h) = Unit {0}
Succeeds (writes s bytes k w q written) = Arrives written
Succeeds (reads s n bytes k q more few taken) = Unit {0}
Succeeds (fails s n ec k bad) = ⊥

abbrev pub StepSucceeds : {c d : Connection} → ConnectionStep c d → Type 0
StepSucceeds (client_goes_on q r m goes) = Succeeds goes
StepSucceeds (server_goes_on q r m goes) = Succeeds goes

pub Arrives-intact :
    {p q : Stream} {bytes : Text} (written : Writes p bytes q) → Arrives written → q.intact ≡ true
Arrives-intact (delivered whole) ok = whole
Arrives-intact (cut_off part rest whole split) ok = absurd ok
Arrives-intact (dropped cut) ok = absurd ok

pub Succeeds-intact :
    {A : Type 0} {out inward q r : Stream} {m n : AsioTask A} (goes : Goes out inward m q r n)
    → Succeeds goes
    → out.intact ≡ true
    → inward.intact ≡ true
    → (q.intact ≡ true) × (r.intact ≡ true)
Succeeds-intact (quiet op k d h) ok up down = (up, down)
Succeeds-intact (writes s bytes k d q written) ok up down = (Arrives-intact written ok, down)
Succeeds-intact (reads s n bytes k q more few (takes rest split)) ok up down = (up, down)
Succeeds-intact (fails s n ec k bad) ok up down = absurd ok

-- A step that succeeds, for a task that can go on.
abbrev pub Next : {A : Type 0} → Stream → Stream → AsioTask A → Type 0
Next {A} out inward m =
    (q : Stream) × (r : Stream) × (n : AsioTask A) × (goes : Goes out inward m q r n) × Succeeds
      goes

pub first_byte :
    (text : Text) → 0 < length text → (b : ℕ) × (rest : Text) × (text ≡ (b ∷ []) ++ rest)
first_byte [] h = elim h [ ]
first_byte (b ∷ rest) h = (b, rest, refl)

-- Room for a byte, where a task waits for some.
abbrev pub HasRoom : {A : Type 0} → AsioTask A → Type 0
HasRoom (suspended (read_some s n) k) = 0 < n
HasRoom m = Unit {0}

pub CanGo-Next :
    {A : Type 0} (out inward : Stream) (m : AsioTask A)
    → CanGo out inward m
    → HasRoom m
    → Next out inward m
CanGo-Next out inward (co_return a) can room = absurd can
CanGo-Next out inward (suspended (read_some s n) k) can room =
    let (b, rest, split) = first_byte inward.under_way can in
    (_, _, _, reads s n (b ∷ []) k _ (omega arith) (omega arith) (takes rest split), tt)
CanGo-Next out inward (suspended (read s n) k) can room = absurd can
CanGo-Next out inward (suspended (read_until s delim) k) can room = absurd can
CanGo-Next out inward (suspended (write s bytes) k) can room =
    (_, _, _, writes s bytes k (record { ec = success; size = length bytes }) _ (delivered can), tt)
CanGo-Next out inward (suspended op k) can room = (_, _, _, quiet op k (scripted 0 op).0 tt, tt)

pub Leads-HasRoom : (d : ℕ) (m : AsioTask End) → Leads d m → HasRoom m
Leads-HasRoom d (co_return a) h = tt
Leads-HasRoom d (suspended (read_some s n) k) h = h.0.0
Leads-HasRoom d (suspended op k) h = tt
