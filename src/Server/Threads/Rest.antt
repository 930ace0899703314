-- ===== src/Server/Threads/Rest.antt =====
-- How far the threads are from rest, when no further client arrives.
use example.Base.{
  ℕ, suc, ◌+◌, ◌<◌, ◌≡◌, ◌⊎◌, inl, inr, refl, Option, none, some, List, [], ◌∷◌, arith, Text,
  get_elem?,
}
use example.Server.{process, CallData, Operation, request_say_hello, finish_rpc, tag}
use example.Server.Threads.{
  Pc, spawning, creating, requesting, waiting, entered, processing, replying, finishing, sending,
  deleting, faulted, Memory, Move, allocate, set_process, request, next, is_create, is_process,
  is_finish, spawn, set_reply, set_finish, send, delete, fault,
}
use example.Server.Threads.Invariant.{InState, PcFits, status_of}
use example.Server.Threads.Moves.{never_dangling}
use example.Server.Threads.History.{arrives, queued, queued-remove_at}

-- The steps that a thread takes at most before it waits; the queue's replies count four each.
abbrev pub weight : Pc → ℕ
weight spawning = 3
weight (creating a none) = 2
weight (creating a (some k)) = 9
weight (requesting a none) = 1
weight (requesting a (some k)) = 8
weight waiting = 0
weight (entered (request_say_hello a)) = 11
weight (entered (finish_rpc a m)) = 3
weight (processing a) = 10
weight (replying a) = 7
weight (finishing a) = 6
weight (sending a) = 5
weight (deleting a) = 1
weight faulted = 0

abbrev pub burden : List Operation → ℕ
burden ops = queued (λ _. 4) ops

lighter_process :
    (op : Operation) (c : CallData) (o : Option CallData)
    → InState (status_of op) o
    → o ≡ some c
    → c.status ≡ process
    → 10 < weight (entered op)
lighter_process (request_say_hello a) c o fit there st = omega arith
lighter_process (finish_rpc a m) c o fit there st = absurd (ground (arith, fit))

-- Each step but an arrival brings the threads nearer to rest.
pub lighter :
    {m m' : Memory} {p p' : Pc} (mv : Move m p m' p')
    → PcFits m.heap p
    → arrives mv ≡ []
    → weight p' + burden m'.outstanding < weight p + burden m.outstanding
lighter (allocate a free) fit e = omega arith
lighter (set_process {k = none} c there) fit e = omega arith
lighter (set_process {k = some b} c there) fit e = omega arith
lighter (request {k = none}) fit e = omega arith
lighter (request {k = some b}) fit e = omega arith
lighter {m} (next i (request_say_hello a) name ok there asserted) fit e = absurd (cc)
lighter {m} (next i (finish_rpc a t) name ok there asserted) fit e =
    omega (arith, queued-remove_at (λ _. 4) i m.outstanding (finish_rpc a t) there)
lighter (is_create {op = request_say_hello a} c there st) fit e = omega arith
lighter (is_create {op = finish_rpc a t} c there st) fit e = omega arith
lighter {m} (is_process {op} c there st) fit e =
    omega (arith, lighter_process op c (m.heap (tag op)) fit there st)
lighter (is_finish {op = request_say_hello a} c there st) fit e = omega arith
lighter (is_finish {op = finish_rpc a t} c there st) fit e = omega arith
lighter (spawn b free) fit e = omega arith
lighter (set_reply c there) fit e = omega arith
lighter (set_finish c there) fit e = omega arith
lighter (send c there) fit e = omega arith
lighter (delete c there) fit e = omega arith
lighter {m} (fault {p} a at free) fit e = absurd (never_dangling m.heap p a fit at free)

pub first_reply :
    (ops : List Operation)
    → ((i : ℕ) × (a : ℕ) × (m : Text) × (get_elem? ops i ≡ some (finish_rpc a m)))
      ⊎ ((f : Text → ℕ) → queued f ops ≡ 0)
first_reply [] = inr (λ f. refl)
first_reply (request_say_hello a ∷ ops) = elim (first_reply ops) [
  | inl (i, b, m, there) ↦ inl (suc i, b, m, there)
  | inr empty ↦ inr (λ f. omega (arith, empty f))
]
first_reply (finish_rpc a m ∷ ops) = inl (0, a, m, refl)
