-- ===== src/TcpClient/Exits.antt =====
-- src/test_tcp_client.cpp: the ways in which main ends.
use example.Base.{ℕ, ◌≡◌, refl, ap, ◌∙◌, true, List, [], ◌∷◌, ◌++◌, Text, codes, arith}
use example.Coro.{Runtime, Outcome, Event, run, co_await}
use example.Asio.{
  ErrorCode, success, eof, other, Operation, Done, stop_context, open_socket, Resolved, throws,
  endpoints, Connected, returned, thrown, after_resolve, async_connect,
}
use example.Pool.{IoContext, Asio}
use example.TcpClient.{End}
use example.TcpClient.Talk.{Ends, start-Ends}
use example.TcpClient.Main.{
  Exit, exits, joins_for_ever, terminates, thread_context, applied, context_after, wait_for_thread,
  main,
}

-- What each outcome of the connection means for the program.
abbrev pub exit_of : Connected → Exit
exit_of (thrown ec) = terminates
exit_of (returned success) = exits
exit_of (returned ec) = joins_for_ever

context_after-append :
    (xs ys : List (Event Operation Done)) (c : IoContext)
    → context_after (xs ++ ys) c ≡ context_after ys (context_after xs c)
context_after-append [] ys c = refl
context_after-append ((op, d) ∷ xs) ys c = context_after-append xs ys (applied op c)

applied-id : (op : Operation) (c : IoContext) → (applied op c).id ≡ c.id
applied-id (stop_context n) c = ground arith
applied-id op c = refl

context_after-id :
    (es : List (Event Operation Done)) (c : IoContext) → (context_after es c).id ≡ c.id
context_after-id [] c = refl
context_after-id ((op, d) ∷ es) c = context_after-id es (applied op c) ∙ applied-id op c

-- Connecting leaves the context running.
module _ {S : Type 0} (runtime : Runtime Operation Done S) (socket : ℕ) (c : IoContext) where
  resolved_lem :
      (r : Resolved) (s : S) → context_after (run runtime (after_resolve socket r) s).events c ≡ c
  unfolding after_resolve co_await
  resolved_lem (throws ec) s = refl
  resolved_lem (endpoints eps) s = refl

  connecting_lem :
      (host port : Text) (s : S)
      → context_after (run runtime (async_connect socket host port) s).events c ≡ c
  unfolding async_connect
  connecting_lem host port s =
      let (r, t) = runtime s (Operation.resolve host port) in resolved_lem r t

module _ (asio : Asio) (message : ErrorCode → Text) (io_context socket : ℕ) (host port : Text) where
  stopping_lem :
      (c : IoContext) → c.id ≡ io_context → (applied (stop_context io_context) c).stopped ≡ true
  stopping_lem c e = ground (arith, e)

  rest_lem :
      {S : Type 0} (connected : Connected) (rest : Outcome (Event Operation Done) End S)
      → Ends message socket io_context host port connected rest
      → wait_for_thread asio rest.result (context_after rest.events (thread_context io_context))
        ≡ exit_of connected
  rest_lem (thrown ec) rest (r, e) = rw r refl
  rest_lem (returned success) rest (r, (middle, a, exchanges, e)) =
      let c = context_after middle (thread_context io_context) in
      let stopped = stopping_lem c (context_after-id middle (thread_context io_context)) in
      rw
        (
          r,
          e,
          context_after-append middle _ (thread_context io_context),
          asio.returns_of_stopped (applied (stop_context io_context) c) stopped,
        )
        refl
  rest_lem (returned eof) rest (r, e) =
      rw (r, e, asio.blocked_of_work (thread_context io_context) refl (omega arith)) refl
  rest_lem (returned (other n)) rest (r, e) =
      rw (r, e, asio.blocked_of_work (thread_context io_context) refl (omega arith)) refl

-- Where every operation that the client starts completes, the program ends by itself exactly when the
-- connection is made, whatever the operations of the talk then complete with. When the server cannot be
-- reached, main waits for its thread for ever; and when the resolver throws, the program is terminated.
pub main_exits :
    {S : Type 0} (asio : Asio) (message : ErrorCode → Text) (runtime : Runtime Operation Done S)
    (s : S) (io_context socket : ℕ)
    → let connecting = async_connect socket (codes "127.0.0.1") (codes "8848") in
      let t = (runtime s (open_socket io_context socket)).1 in
      main asio message runtime s io_context socket ≡ exit_of (run runtime connecting t).result
unfolding main
main_exits asio message runtime s io_context socket =
    let host = codes "127.0.0.1" in
    let port = codes "8848" in
    let connecting = async_connect socket host port in
    let t = (runtime s (open_socket io_context socket)).1 in
    let connected = run runtime connecting t in
    let (rest, r, e, ends) = start-Ends message socket io_context host port runtime s in
    let c = thread_context io_context in
    let after : context_after (connected.events ++ rest.events) c ≡ context_after rest.events c =
      context_after-append connected.events rest.events c
      ∙ ap (context_after rest.events) (connecting_lem runtime socket c host port t) in
    rw (main, r, e, after)
      (rest_lem asio message io_context socket host port connected.result rest ends)
