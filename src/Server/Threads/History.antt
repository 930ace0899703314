-- ===== src/Server/Threads/History.antt =====
-- The clients that arrived and the replies that reached them, along the steps of the threads.
use example.Base.{
  ℕ, zero, suc, ◌+◌, ◌<◌, ◌≡◌, Option, none, some, List, [], ◌∷◌, ◌++◌, Text, arith, get_elem?,
}
use example.Server.{CallData, Operation, request_say_hello, finish_rpc, prefix, remove_at}
use example.Server.Threads.{
  Pc, spawning, creating, requesting, waiting, entered, processing, replying, finishing, sending,
  deleting, faulted, Memory, Move, next, System, started,
}

-- The client that a step lets in, and the reply that it lets out.
abbrev pub arrived_with : Operation → Text → List Text
arrived_with (request_say_hello a) name = name ∷ []
arrived_with (finish_rpc a m) name = []

abbrev pub delivered_with : Operation → List Text
delivered_with (request_say_hello a) = []
delivered_with (finish_rpc a m) = m ∷ []

abbrev pub arrives : {m m' : Memory} {p p' : Pc} → Move m p m' p' → List Text
arrives (next i op name ok there asserted) = arrived_with op name
arrives mv = []

abbrev pub delivers : {m m' : Memory} {p p' : Pc} → Move m p m' p' → List Text
delivers (next i op name ok there asserted) = delivered_with op
delivers mv = []

-- The states that n threads reach, with all clients that arrived and all replies that were delivered.
pub data History (n : ℕ) : List Text → List Text → System → Type 0 where
  begun : History n [] [] started
  then_steps :
      {arrived delivered : List Text} {s : System} (i : ℕ) {m : Memory} {p : Pc}
      → History n arrived delivered s
      → (lt : i < n) → (mv : Move s.memory (s.pc i) m p)
      → History n
          (arrives mv ++ arrived)
          (delivers mv ++ delivered)
          (record { memory = m; pc = example.Server.update s.pc i p })

-- A weight summed over texts: with the weight that counts one text, how often it occurs.
abbrev pub sum : (Text → ℕ) → List Text → ℕ
sum f [] = 0
sum f (t ∷ ts) = f t + sum f ts

pub sum-append : (f : Text → ℕ) (xs ys : List Text) → sum f (xs ++ ys) ≡ sum f xs + sum f ys
sum-append f [] ys = omega arith
sum-append f (x ∷ xs) ys = omega (arith, sum-append f xs ys)

abbrev pub greeting : Text → Text
greeting name = prefix ++ name

-- The replies in the queue.
abbrev pub weigh : (Text → ℕ) → Operation → ℕ
weigh f (request_say_hello a) = 0
weigh f (finish_rpc a m) = f m

abbrev pub queued : (Text → ℕ) → List Operation → ℕ
queued f [] = 0
queued f (op ∷ ops) = weigh f op + queued f ops

pub queued-remove_at :
    (f : Text → ℕ) (i : ℕ) (ops : List Operation) (op : Operation)
    → get_elem? ops i ≡ some op
    → queued f ops ≡ weigh f op + queued f (remove_at i ops)
queued-remove_at f i [] op e = absurd (cc)
queued-remove_at f zero (x ∷ ops) op e = ground arith
queued-remove_at f (suc i) (x ∷ ops) op e = ground (arith, queued-remove_at f i ops op e)

abbrev pub of_request : (Text → ℕ) → Option CallData → ℕ
of_request f none = 0
of_request f (some c) = f (greeting c.request)

abbrev pub of_reply : (Text → ℕ) → Option CallData → ℕ
of_reply f none = 0
of_reply f (some c) = f c.reply

abbrev pub of_caller : (Text → ℕ) → (ℕ → Option CallData) → Option ℕ → ℕ
of_caller f h none = 0
of_caller f h (some a) = of_request f (h a)

abbrev pub of_operation : (Text → ℕ) → (ℕ → Option CallData) → Operation → ℕ
of_operation f h (request_say_hello a) = of_request f (h a)
of_operation f h (finish_rpc a m) = 0

-- The reply that a thread is about to give.
abbrev pub pending : (Text → ℕ) → (ℕ → Option CallData) → Pc → ℕ
pending f h spawning = 0
pending f h (creating a k) = of_caller f h k
pending f h (requesting a k) = of_caller f h k
pending f h waiting = 0
pending f h (entered op) = of_operation f h op
pending f h (processing a) = of_request f (h a)
pending f h (replying a) = of_request f (h a)
pending f h (finishing a) = of_reply f (h a)
pending f h (sending a) = of_reply f (h a)
pending f h (deleting a) = 0
pending f h faulted = 0
