-- ===== src/Server/Threads/Room.antt =====
-- However many clients have come, some address is free: the objects are finitely many.
use example.Base.{ℕ, suc, ◌+◌, ◌≤◌, ◌≡◌, refl, Option, none, arith, Text}
use example.Server.{CallData, Operation, request_say_hello, finish_rpc, update, receive}
use example.Server.Threads.{
  Pc, Memory, Move, allocate, set_process, request, next, is_create, is_process, is_finish, spawn,
  set_reply, set_finish, send, delete, fault, System, Reach, start, later, steps,
}

abbrev FreeFrom : ℕ → (ℕ → Option CallData) → Type 0
FreeFrom k h = (b : ℕ) → k ≤ b → h b ≡ none

update_free :
    (k a : ℕ) (c : Option CallData) (h : ℕ → Option CallData)
    → FreeFrom k h
    → FreeFrom (k + suc a) (update h a c)
update_free k a c h free b le = ground (arith, free b (omega arith))

receive_free :
    (k : ℕ) (op : Operation) (name : Text) (h : ℕ → Option CallData)
    → FreeFrom k h
    → FreeFrom k (receive op name h)
receive_free k (request_say_hello a) name h free b le = ground (arith, free b le)
receive_free k (finish_rpc a m) name h free b le = free b le

Move-FreeFrom :
    (k : ℕ) {m m' : Memory} {p p' : Pc}
    → Move m p m' p'
    → FreeFrom k m.heap
    → (j : ℕ) × FreeFrom j m'.heap
Move-FreeFrom k {m} (allocate a there) free = (_, update_free k a _ m.heap free)
Move-FreeFrom k {m} (set_process {a} c there) free = (_, update_free k a _ m.heap free)
Move-FreeFrom k request free = (k, free)
Move-FreeFrom k {m} (next i op name ok there asserted) free =
    (k, receive_free k op name m.heap free)
Move-FreeFrom k (is_create c there st) free = (k, free)
Move-FreeFrom k (is_process c there st) free = (k, free)
Move-FreeFrom k (is_finish c there st) free = (k, free)
Move-FreeFrom k {m} (spawn b there) free = (_, update_free k b _ m.heap free)
Move-FreeFrom k {m} (set_reply {a} c there) free = (_, update_free k a _ m.heap free)
Move-FreeFrom k {m} (set_finish {a} c there) free = (_, update_free k a _ m.heap free)
Move-FreeFrom k (send c there) free = (k, free)
Move-FreeFrom k {m} (delete {a} c there) free = (_, update_free k a _ m.heap free)
Move-FreeFrom k (fault a at there) free = (k, free)

reached_free : (n : ℕ) {s : System} → Reach n s → (k : ℕ) × FreeFrom k s.memory.heap
reached_free n start = (0, λ b le. refl)
reached_free n (later r (steps i lt mv)) =
    let (k, free) = reached_free n r in Move-FreeFrom k mv free

pub free_address : (n : ℕ) {s : System} → Reach n s → (a : ℕ) × (s.memory.heap a ≡ none)
free_address n r = let (k, free) = reached_free n r in (k, free k (omega arith))
