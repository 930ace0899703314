-- ===== src/Server/Loop.antt =====
-- include/greeter_async_server.h: the loop of `HandleRpcs`, `Run`, and the destructor.
-- `Next` is the runtime's: any function of the server's state and a state of its own. The loop is
-- endless: it runs on fuel, and `serving` stands for one that is still going.
pub mod Serving
mod Tests
use example.Base.{
  ℕ, zero, suc, Bool, true, false, Option, none, some, List, [], ◌∷◌, get_elem?, Text, codes,
}
use example.Server.{ServerImpl, Operation, tag, complete, handle_event, initial}

-- What `Next` returns with: false, or an operation that comes back, with its `ok`, the name of a
-- client, and the address that the allocator has at hand.
pub data Next : Type 0 where
  drained : Next
  completed : ℕ → Bool → Text → ℕ → Next

-- Where the loop is: still going, stopped by an assertion, or at a call through a dangling pointer; or
-- the server was not built, and what its service does then is not defined.
pub data Loop : Type 0 where
  serving : ServerImpl → Loop
  aborted : Loop
  dangling : Loop
  unbuilt : Loop

abbrev pub handled : Option ServerImpl → Loop
handled none = dangling
handled (some t) = serving t

-- An operation that came back with its tag, and the two assertions on it.
abbrev pub on_operation : Option Operation → ℕ → Bool → Text → ℕ → ServerImpl → Loop
on_operation none i ok name address s = dangling
on_operation (some op) i false name address s = aborted
on_operation (some op) i true name address s =
    handled (handle_event address (tag op) true (complete i op name s))

-- One round.
unfoldable pub on_next : Next → ServerImpl → Loop
on_next drained s = aborted
on_next (completed i ok name address) s =
    on_operation (get_elem? s.outstanding i) i ok name address s

-- The rounds that follow.
abbrev pub go_on : (ServerImpl → Loop) → Loop → Loop
go_on rest (serving s) = rest s
go_on rest aborted = aborted
go_on rest dangling = dangling
go_on rest unbuilt = unbuilt

unfoldable pub rounds : {S : Type 0} → (S → ServerImpl → Next × S) → ℕ → S → ServerImpl → Loop
rounds next zero st s = serving s
rounds next (suc fuel) st s = let (n, st') = next st s in go_on (rounds next fuel st') (on_next n s)

-- `HandleRpcs`: the first object, and the loop.
unfoldable pub handle_rpcs : {S : Type 0} → (S → ServerImpl → Next × S) → ℕ → ℕ → S → Loop
unfolding rounds
handle_rpcs next address fuel st = rounds next fuel st (initial address)

-- The calls of `Run` up to the loop.
pub data Call : Type 0 where
  add_listening_port : Text → Call
  register_service add_completion_queue build_and_start : Call
  print : Text → Text → Call

abbrev pub server_address : Text
server_address = codes "0.0.0.0:50051"

-- The two pointers of the server; `none` is null. A server is named by a number.
pub record Pointers : Type 0 where
  pub cq : Option ℕ
  pub server : Option ℕ

-- `Run`, for the queue and the server that the builder gives: its calls in order, the pointers, and the
-- loop. The pointer to the server is not tested.
unfoldable pub run :
    {S : Type 0}
    → (S → ServerImpl → Next × S)
    → ℕ
    → Option ℕ
    → ℕ
    → ℕ
    → S
    → List Call × Pointers × Loop
unfolding handle_rpcs
run next queue built address fuel st = (
  add_listening_port server_address
      ∷ register_service
      ∷ add_completion_queue
      ∷ build_and_start
      ∷ print (codes "Server listening on ") server_address
      ∷ [],
  record { cq = some queue; server = built },
  elim built [ none ↦ unbuilt | some server ↦ handle_rpcs next address fuel st ],
)

pub data Shutdown : Type 0 where
  shutdown_server shutdown_queue : ℕ → Shutdown

-- The destructor; `none` is a call through a null pointer.
unfoldable pub destroy : Pointers → Option (List Shutdown)
destroy p = elim p.server [
  | none ↦ none
  | some s ↦ elim p.cq [ none ↦ none | some q ↦ some (shutdown_server s ∷ shutdown_queue q ∷ []) ]
]
