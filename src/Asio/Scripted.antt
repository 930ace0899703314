-- ===== src/Asio/Scripted.antt =====
-- A runtime for tests: each read brings the two bytes "hi" until the reads left are used up, and then
-- the peer has closed; all else succeeds.
use example.Base.{ℕ, zero, suc, codes, [], ◌∷◌}
use example.Coro.{Runtime}
use example.Asio.{
  success, eof, endpoints, Received, Operation, Done, accept, open_acceptor, bind, reuse_address,
  listen, open_socket, read_some, read, read_until, write, resolve, connect, wait, expires_after,
  shutdown, close, stop_context, post, log,
}

abbrev greeted : Received
greeted = record { ec = success; size = 2; bytes = codes "hi" }

abbrev ended : Received
ended = record { ec = eof; size = 0; bytes = [] }

-- A buffer of fewer than two bytes gets none.
abbrev arriving : ℕ → ℕ → Received × ℕ
arriving zero n = (ended, 0)
arriving (suc k) zero = (ended, k)
arriving (suc k) (suc zero) = (ended, k)
arriving (suc k) (suc (suc n)) = (greeted, k)

abbrev pub scripted : Runtime Operation Done ℕ
scripted k (accept acceptor socket) = (success, k)
scripted k (open_acceptor acceptor context) = (success, k)
scripted k (bind acceptor port) = (success, k)
scripted k (reuse_address acceptor value) = (success, k)
scripted k (listen acceptor) = (success, k)
scripted k (open_socket context socket) = (tt, k)
scripted k (read_some socket n) = arriving k n
scripted k (read socket n) = arriving k n
scripted k (read_until socket delim) = arriving k 2
scripted k (write socket bytes) = (record { ec = success; size = 2 }, k)
scripted k (resolve host port) = (endpoints (1 ∷ []), k)
scripted k (connect socket eps) = (success, k)
scripted k (wait timer) = (success, k)
scripted k (expires_after timer seconds) = (tt, k)
scripted k (shutdown socket) = (success, k)
scripted k (close socket) = (success, k)
scripted k (stop_context context) = (tt, k)
scripted k (post context func) = (tt, k)
scripted k (log line) = (tt, k)
