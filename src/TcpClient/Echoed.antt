-- ===== src/TcpClient/Echoed.antt =====
-- src/test_tcp_client.cpp and src/test_tcp_server.cpp: what the client gets back of what it sends.
use example.Base.{
  length-append, ◌+◌, ℕ, ◌≡◌, ◌≤◌, refl, sym, true, none, [], ◌++◌, Text, length, append-nil,
  append_assoc, arith,
}
use mathlib.Core.Path.{subst}
use example.Coro.{suspended}
use example.Asio.{ErrorCode, Done, AsioTask, read_some}
use example.TcpServer.Owed.{being_written, Keeps-being_written}
use example.TcpServer.Keeping.{session-Keeps}
use example.TcpClient.{End}
use example.TcpClient.Ahead.{Leads, start-Leads}
use example.TcpClient.Connection.{
  Stream, Connection, ConnectionStep, client_goes_on, server_goes_on, ConnectionReach, begins,
  then_goes,
}
use example.TcpClient.InOrder.{Sound, Serves, Ahead, Goes-Sound, Goes-Serves, Goes-Ahead, text_of}

pub length-Sound :
    (p : Stream)
    → Sound p
    → p.intact ≡ true
    → length p.handed_in ≡ length p.taken_out + length p.under_way
length-Sound p (lost, e, h) intact =
    rw (e, h intact, append-nil p.under_way, length-append p.taken_out p.under_way) refl

module _ (message : ErrorCode → Text) (fuel sock timer io_context socket : ℕ)
    (host port : Text) where
  pub record Talking (c : Connection) : Type 0 where
    pub to_server_sound : Sound c.to_server
    pub to_client_sound : Sound c.to_client
    pub serves : Serves sock c.server c.to_client c.to_server
    pub ahead : Ahead c.client c.to_server c.to_client

  step-Talking : {c d : Connection} → Talking c → ConnectionStep c d → Talking d
  step-Talking {c} h (client_goes_on q r m goes) =
      let (sq, sr, taken, handed) = Goes-Sound h.to_server_sound h.to_client_sound goes in
      let (owed, keeps, e) = h.serves in
      record {
        to_server_sound = sq;
        to_client_sound = sr;
        serves = (owed, keeps, rw (taken, handed) e);
        ahead = Goes-Ahead h.ahead goes;
      }
  step-Talking {c} h (server_goes_on q r m goes) =
      let (sq, sr, taken, handed) = Goes-Sound h.to_client_sound h.to_server_sound goes in
      let (d, leads, le) = h.ahead in
      record {
        to_server_sound = sr;
        to_client_sound = sq;
        serves = Goes-Serves sock h.serves goes;
        ahead = (d, leads, rw (taken, handed) le);
      }

  pub reached-Talking :
      {c : Connection}
      → ConnectionReach message fuel sock timer io_context socket host port c
      → Talking c
  reached-Talking begins = record {
    to_server_sound = ([], refl, λ _. refl);
    to_client_sound = ([], refl, λ _. refl);
    serves = (none, session-Keeps message sock fuel timer, refl);
    ahead = (0, start-Leads message io_context socket host port, omega arith);
  }
  reached-Talking (then_goes r step) = step-Talking (reached-Talking r) step

  -- Whatever order the operations of the client and of the session that serves it complete in, wherever
  -- the streams cut the bytes up, and wherever a read fails or a write is cut off: what the client has
  -- got is a first part of what it has written, in order.
  pub reads_back :
      (c : Connection)
      → ConnectionReach message fuel sock timer io_context socket host port c
      → (rest : Text) × (c.to_server.handed_in ≡ c.to_client.taken_out ++ rest)
  reads_back c reached =
      let h = reached-Talking reached in
      let (lost, e, whole) = h.to_server_sound in
      let (gone, e', whole') = h.to_client_sound in
      let (owed, keeps, e'') = h.serves in
      (
        (c.to_client.under_way ++ gone) ++ (text_of owed ++ (c.to_server.under_way ++ lost)),
        rw (e, e'', e') (simp (append_assoc)),
      )

  -- While no write has been cut off, a client that waits for a read does not wait in vain: at least as
  -- many bytes as it has room for are on their way to it, in the hands of the session that is just
  -- writing them, or on their way to the session.
  pub reply_under_way :
      (c : Connection) (s n : ℕ) (k : Done (read_some s n) → AsioTask End)
      → ConnectionReach message fuel sock timer io_context socket host port c
      → c.client ≡ suspended (read_some s n) k
      → c.to_server.intact ≡ true
      → c.to_client.intact ≡ true
      → n
        ≤ length c.to_client.under_way
          + length (text_of (being_written c.server))
          + length c.to_server.under_way
  reply_under_way c s n k reached waits up down =
      let h = reached-Talking reached in
      let (owed, keeps, e) = h.serves in
      let (d, leads, le) = h.ahead in
      let asking : Leads d (suspended (read_some s n) k) = subst (Leads d) waits leads in
      let sent = length-Sound c.to_server h.to_server_sound up in
      let echoed = length-Sound c.to_client h.to_client_sound down in
      let taken : length c.to_server.taken_out
          ≡ length c.to_client.handed_in + length (text_of owed) =
        rw (e, length-append c.to_client.handed_in (text_of owed)) refl in
      let small : n ≤ d = asking.0.1 in
      rw (sym (Keeps-being_written sock owed c.server keeps)) (omega arith)
