-- ===== src/Asio/Awaiters.antt =====
-- include/asio_util.hpp: what awaiting each of the awaiters does.
use example.Base.{ℕ, ◌≡◌, refl, false, [], ◌∷◌, ◌++◌, Text, length}
use example.Coro.{Awaiter, co_await, Runtime, Outcome, Event, run}
use example.Asio.{
  Operation, Done, overlay, Executor, add, async_accept, async_read_some, async_read,
  async_read_until, async_write, async_connect, timeout, accept, read_some, read, read_until, write,
  resolve, connect, wait, post, after_resolve, Resolved, endpoints, throws, Connected, returned,
  thrown,
}

-- A task that starts one operation and returns what it makes of the completion.
abbrev pub once :
    {Op : Type 0} {D : Op → Type 0} {S A : Type 0}
    → Runtime Op D S
    → (op : Op) → (D op → A)
    → S
    → Outcome (Event Op D) A S
once runtime op f s = record {
  events = (op, (runtime s op).0) ∷ [];
  result = f (runtime s op).0;
  final = (runtime s op).1;
}

-- Awaiting an awaiter that is never ready suspends once, on its own operation, and returns what the
-- completion stored.
pub co_await-once :
    {Op : Type 0} {D : Op → Type 0} {S R T : Type 0} (runtime : Runtime Op D T)
    (w : Awaiter Op D S R) (a : S) (s : T)
    → w.await_ready a ≡ false
    → run runtime (co_await w a) s
      ≡ once runtime (w.operation a) (λ d. w.await_resume (w.on_complete a d)) s
unfolding co_await
co_await-once runtime w a s h = rw (h, co_await)

module _ {S : Type 0} (runtime : Runtime Operation Done S) (s : S) where
  -- Each asynchronous function of the header starts exactly its one operation, on the socket and
  -- buffer that it was given, and returns the code and size with which it completed; a read also
  -- leaves the bytes that arrived in the buffer, over its front or, for `async_read_until`, at its end.
  pub awaits_once :
      (acceptor socket timer : ℕ) (buffer delim : Text)
      → (run runtime (async_accept acceptor socket) s
          ≡ once runtime (accept acceptor socket) (λ ec. ec) s)
        × (run runtime (timeout timer) s ≡ once runtime (wait timer) (λ ec. ec) s)
        × (run runtime (async_read_some socket buffer) s
            ≡ once runtime
                (read_some socket (length buffer))
                (λ d. (d.ec, d.size, overlay buffer d.bytes))
                s)
        × (run runtime (async_read socket buffer) s
            ≡ once runtime
                (read socket (length buffer))
                (λ d. (d.ec, d.size, overlay buffer d.bytes))
                s)
        × (run runtime (async_read_until socket buffer delim) s
            ≡ once runtime (read_until socket delim) (λ d. (d.ec, d.size, buffer ++ d.bytes)) s)
        × (run runtime (async_write socket buffer) s
            ≡ once runtime (write socket buffer) (λ d. (d.ec, d.size)) s)
  unfolding async_accept timeout async_read_some async_read async_read_until async_write co_await
  awaits_once acceptor socket timer buffer delim = (refl, refl, refl, refl, refl, refl)

  -- The function is posted to the executor's own context.
  pub add-post :
      (e : Executor) (func : ℕ)
      → run runtime (add e func) s ≡ once runtime (post e.io_context func) (λ d. d) s
  unfolding add
  add-post e func = refl

  -- What `async_connect` does once the name is resolved.
  abbrev pub connects : ℕ → Resolved → S → Outcome (Event Operation Done) Connected S
  connects socket (throws ec) t = record { events = []; result = thrown ec; final = t }
  connects socket (endpoints eps) t = once runtime (connect socket eps) returned t

  connects_lem :
      (socket : ℕ) (r : Resolved) (t : S)
      → run runtime (after_resolve socket r) t ≡ connects socket r t
  unfolding after_resolve co_await
  connects_lem socket (throws ec) t = refl
  connects_lem socket (endpoints eps) t = refl

  -- `async_connect` resolves the name, and connects to the endpoints that this gives; a resolver that
  -- throws is the only way in which it throws, and then nothing is connected.
  pub connect_cases :
      (socket : ℕ) (host port : Text)
      → let (r, t) = runtime s (resolve host port) in
        run runtime (async_connect socket host port) s ≡ record (connects socket r t) {
          events = (resolve host port, r) ∷ (connects socket r t).events;
        }
  unfolding async_connect
  connect_cases socket host port =
      let (r, t) = runtime s (resolve host port) in rw (connects_lem socket r t)
