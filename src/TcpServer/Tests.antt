-- ===== src/TcpServer/Tests.antt =====
-- The theorems about the echo server, applied to the scripted runtime.
use example.Base.{
  zero, suc, ◌≡◌, ◌<◌, ◌⊎◌, refl, List, [], ◌∷◌, ◌++◌, codes, Text, map, arith, ◌%◌, ℕ,
}
use example.Coro.{co_await, run, Event}
use example.Asio.{timeout, ErrorCode, success, eof, other, Operation, Done, shutdown, close}
use example.Asio.Scripted.{scripted}
use example.Pool.RoundRobin.{pool_of, make_pool_lem}
use example.TcpServer.{broke, test_timeout, session, start, accepting, system_error}
use example.TcpServer.Echo.{ReadsFit}
use example.TcpServer.Closing.{Falls, session_closes}
use example.TcpServer.Accepting.{posted, accepted, start_places}
use example.TcpServer.Sessions.{
  Answer, Serving, ServingReach, served, then_step, start_goes_on, session_goes_on, served_by,
  listen_on, serve,
}
use example.TcpServer.Owed.{received_on, sent_on, outstanding}
use example.TcpServer.Pending.{pending, Descends}
use example.TcpServer.Apart.{sessions_apart}

abbrev message : ErrorCode → Text
message success = codes "Success"
message eof = codes "End of file"
message (other n) = codes "Error"

scripted-ReadsFit : ReadsFit scripted
scripted-ReadsFit zero sock n = (refl, omega arith)
scripted-ReadsFit (suc k) sock zero = (refl, omega arith)
scripted-ReadsFit (suc k) sock (suc zero) = (refl, omega arith)
scripted-ReadsFit (suc k) sock (suc (suc n)) = (refl, omega arith)

scripted-Falls : Falls scripted (λ k. k)
scripted-Falls zero sock n bytes h = absurd (cc)
scripted-Falls (suc k) sock zero bytes h = absurd (cc)
scripted-Falls (suc k) sock (suc zero) bytes h = absurd (cc)
scripted-Falls (suc k) sock (suc (suc n)) bytes h = omega arith

three_left : (run scripted (test_timeout message 6) 3).final < 9
unfolding test_timeout timeout co_await
three_left = omega arith

session_closes_example :
    ((run scripted (session message 9 4 6) 3).result ≡ broke)
    × ((es : List (Event Operation Done)) × (a : ErrorCode) × (b : ErrorCode) × ((run scripted
            (session message 9 4 6)
            3).events
          ≡ es ++ ((shutdown 4, a) ∷ (close 4, b) ∷ [])))
session_closes_example = session_closes message scripted (λ k. k) scripted-Falls 9 4 6 3 three_left

start_places_example :
    let o = run scripted (start message 4 1 (record { pool = pool_of 3 0; executor_map = [] })) 0 in
    ((o.result ≡ accepting) ⊎ ((c : ErrorCode) × (o.result ≡ system_error c)))
    × (posted o.events ≡ map (λ i. (suc i % 3, i)) (accepted o.events))
start_places_example =
    start_places message scripted 3 4 1 [] (pool_of 3 0) 0 (omega arith) (make_pool_lem 3)

abbrev answer : Answer
answer op = (scripted 3 op).0

abbrev two_served : Serving
two_served = served_by message 5 2 1 (record { pool = pool_of 3 0; executor_map = [] })

listened : ℕ → Serving → Serving
listened zero s = s
listened (suc n) s = listened n (listen_on message 5 answer s)

listened-ServingReach :
    (n : ℕ) {s : Serving}
    → ServingReach message 5 two_served s
    → ServingReach message 5 two_served (listened n s)
unfolding listened
listened-ServingReach zero r = r
listened-ServingReach (suc n) r =
    listened-ServingReach n (then_step r (start_goes_on answer (scripted-ReadsFit 3)))

-- The sessions take turns.
alternated : ℕ → Serving → Serving
alternated zero s = s
alternated (suc n) s = alternated n (serve message 5 answer 1 (serve message 5 answer 0 s))

alternated-ServingReach :
    (n : ℕ) {s : Serving}
    → ServingReach message 5 two_served s
    → ServingReach message 5 two_served (alternated n s)
unfolding alternated
alternated-ServingReach zero r = r
alternated-ServingReach (suc n) r = alternated-ServingReach n (
    then_step (then_step r (session_goes_on answer 0 (scripted-ReadsFit 3)))
      (session_goes_on answer 1 (scripted-ReadsFit 3)))

sessions_apart_example :
    let s = alternated 9 (listened 10 two_served) in
    ((n : ℕ) × Descends n s.sessions)
    × ((sock : ℕ)
        → received_on sock s.history
          ≡ sent_on sock s.history ++ outstanding (pending sock s.sessions))
sessions_apart_example =
    sessions_apart message 5 2 1 (record { pool = pool_of 3 0; executor_map = [] })
      (alternated 9 (listened 10 two_served))
      (alternated-ServingReach 9 (listened-ServingReach 10 served))
