-- ===== src/Server/Threads/Tests.antt =====
-- Two threads that serve: the theorems of this folder applied to a state that they reach.
use example.Base.{◌+◌, [], ◌∷◌, codes, length, ◌≡◌, refl, none, arith, true}
use example.Server.Threads.{
  System, Reach, steps, start, later, allocate, set_process, creating, requesting, request, next,
  is_process, spawn, set_reply, set_finish, send,
}
use example.Server.{request_say_hello, finish_rpc}
use example.Server.Threads.Counting.{total}
use example.Server.Threads.History.{History, begun, then_steps, pending, queued}
use example.Server.Threads.Clients.{clients_accounted}
use example.Server.Threads.Invariant.{Inv}
use example.Server.Threads.Safety.{Reach-Inv}
use example.Server.Threads.Served.{AllServed, clients_served}

-- Thread 0 has the object under 7 at hand, and thread 1 that under 9.
both :
    (s : System) × Reach 2 s
    × (s.pc 0 ≡ requesting 7 none)
    × (s.pc 1 ≡ creating 9 none)
    × (s.memory.heap 8 ≡ none)
both = (
  _,
  later
      (later (later start (steps 0 (omega arith) (allocate 7 refl)))
        (steps 1 (omega arith) (allocate 9 refl)))
      (steps 0 (omega arith) (set_process _ refl)),
  refl,
  refl,
  refl,
)

Reach-Inv_example : Inv 2 both.0.memory both.0.pc
Reach-Inv_example = Reach-Inv 2 both.1

-- One thread serves a client: the object under 7 answers, and that under 9 waits for the next client.
served : (s : System) × History 1 (codes "world" ∷ []) (codes "Hello world" ∷ []) s
served = (
  _,
  then_steps 0
      (then_steps 0
        (then_steps 0
          (then_steps 0
            (then_steps 0
              (then_steps 0
                (then_steps 0
                  (then_steps 0
                    (then_steps 0
                      (then_steps 0
                        (then_steps 0 (then_steps 0 begun (omega arith) (allocate 7 refl))
                          (omega arith) (set_process _ refl))
                        (omega arith) request)
                      (omega arith) (next 0 (request_say_hello 7) (codes "world") true refl refl))
                    (omega arith) (is_process _ refl refl))
                  (omega arith) (spawn 9 refl))
                (omega arith) (set_process _ refl))
              (omega arith) request)
            (omega arith) (set_reply _ refl))
          (omega arith) (set_finish _ refl))
        (omega arith) (send _ refl))
      (omega arith) (next 0 (finish_rpc 7 (codes "Hello world")) [] true refl refl),
)

clients_accounted_example :
    total (pending length served.0.memory.heap) 1 served.0.pc
      + (queued length served.0.memory.outstanding + 11)
    ≡ 11
clients_accounted_example = clients_accounted 1 length served.1

clients_served_example : AllServed 1 (codes "world" ∷ []) (codes "Hello world" ∷ []) served.0
clients_served_example = clients_served 1 served.1
