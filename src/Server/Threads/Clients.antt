-- ===== src/Server/Threads/Clients.antt =====
-- However the threads are interleaved, the replies are the greetings of the clients that arrived.
use example.Base.{ℕ, ◌+◌, ◌≡◌, refl, List, [], ◌∷◌, ◌++◌, map, Text, arith}
use example.Server.Threads.{System, Reach, start, later, steps, started}
use example.Server.Threads.Counting.{total, total-zero, total-update, total-differ}
use example.Server.Threads.Safety.{Reach-Inv}
use example.Server.Threads.History.{
  History, begun, then_steps, arrives, delivers, sum, sum-append, greeting, queued, pending,
}
use example.Server.Threads.Answers.{others_same, balance}

pub History-Reach :
    (n : ℕ) {arrived delivered : List Text} {s : System} → History n arrived delivered s → Reach n s
History-Reach n begun = start
History-Reach n (then_steps i r lt mv) = later (History-Reach n r) (steps i lt mv)

sum-greetings :
    (f : Text → ℕ) (xs ys : List Text)
    → sum f (map greeting (xs ++ ys)) ≡ sum f (map greeting xs) + sum f (map greeting ys)
sum-greetings f [] ys = omega arith
sum-greetings f (x ∷ xs) ys = omega (arith, sum-greetings f xs ys)

-- Whatever weight the texts have: in every state that n threads reach, the replies that they are about
-- to give, those in the queue and those delivered weigh together what the greetings of the clients that
-- arrived weigh. So no greeting is lost, none is given twice, and none goes out that is nobody's.
pub clients_accounted :
    (n : ℕ) (f : Text → ℕ) {arrived delivered : List Text} {s : System}
    → History n arrived delivered s
    → total (pending f s.memory.heap) n s.pc + (queued f s.memory.outstanding + sum f delivered)
      ≡ sum f (map greeting arrived)
clients_accounted n f begun =
    omega (arith, total-zero (pending f started.memory.heap) n started.pc (λ i lt. refl))
clients_accounted n f (then_steps {arrived} {delivered} {s} i {m} {p} r lt mv) =
    let inv = Reach-Inv n (History-Reach n r) in
    omega (
      arith,
      clients_accounted n f r,
      balance f inv i lt mv refl,
      total-update (pending f m.heap) n s.pc i p lt,
      total-differ (pending f s.memory.heap) (pending f m.heap) n s.pc i lt
          (others_same f inv i lt mv refl),
      sum-append f (delivers mv) delivered,
      sum-greetings f (arrives mv) arrived,
    )
