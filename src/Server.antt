-- ===== src/Server.antt =====
-- include/greeter_async_server.h: the asynchronous greeter server.
-- The heap holds the `CallData` objects, whose addresses are the tags; `outstanding` holds the
-- operations that were handed to the gRPC runtime with a tag and have not come back as an event.
-- The runtime and the allocator are the environment: `Step` below lets them choose.
pub mod Safety
pub mod Replies
pub mod Loop
mod Tests
pub mod Ops
pub mod Threads
use example.Base.{
  ℕ, zero, suc, ◌≡◌, Bool, true, Option, none, some, List, [], ◌∷◌, ◌++◌, ◌==◌, if◌then◌else◌,
  get_elem?, Text, codes,
}

pub data CallStatus : Type 0 where
  create process finish : CallStatus

pub record CallData : Type 0 where
  pub status : CallStatus
  pub request : Text
  pub reply : Text

-- `RequestSayHello` asks for a call, `Finish` sends a reply; each comes back with its tag.
pub data Operation : Type 0 where
  request_say_hello : ℕ → Operation
  finish_rpc : ℕ → Text → Operation

pub record ServerImpl : Type 0 where
  pub heap : ℕ → Option CallData
  pub outstanding : List Operation

abbrev pub update {ℓ} : {A : Type ℓ} → (ℕ → A) → ℕ → A → ℕ → A
update f a v b = if a == b then v else f b

abbrev pub tag : Operation → ℕ
tag (request_say_hello a) = a
tag (finish_rpc a m) = a

-- An operation handed to the runtime.
abbrev pub post : Operation → ServerImpl → ServerImpl
post op s = record s { outstanding = op ∷ s.outstanding }

abbrev pub put : ℕ → Option CallData → ServerImpl → ServerImpl
put a c s = record s { heap = update s.heap a c }

-- `Proceed` in the state CREATE.
unfoldable pub proceed_create : ℕ → CallData → ServerImpl → ServerImpl
proceed_create this c s =
    post (request_say_hello this) (put this (some (record c { status = process })) s)

-- `new CallData(service_, cq_)` at the address that the allocator gives: the constructor sets CREATE
-- and calls `Proceed`.
unfoldable pub new_call_data : ℕ → ServerImpl → ServerImpl
unfolding proceed_create
new_call_data address s =
    let c : CallData = record { status = create; request = []; reply = [] } in
    proceed_create address c (put address (some c) s)

abbrev pub prefix : Text
prefix = codes "Hello "

-- `Proceed` in the state PROCESS: a new object for the next client, then the reply.
unfoldable pub proceed_process : ℕ → ℕ → CallData → ServerImpl → ServerImpl
unfolding new_call_data
proceed_process address this c s =
    let message = prefix ++ c.request in
    post (finish_rpc this message)
      (put this (some (record c { status = finish; reply = message })) (new_call_data address s))

-- `Proceed` in the state FINISH: `delete this`.
unfoldable pub proceed_finish : ℕ → ServerImpl → ServerImpl
proceed_finish this s = put this none s

-- The three branches of `Proceed`.
unfoldable pub proceed_at : CallStatus → ℕ → ℕ → CallData → ServerImpl → ServerImpl
unfolding proceed_create proceed_process proceed_finish
proceed_at create address this c s = proceed_create this c s
proceed_at process address this c s = proceed_process address this c s
proceed_at finish address this c s = proceed_finish this s

-- `static_cast<CallData*>(tag)->Proceed()`; `none` is a call through a dangling pointer.
unfoldable pub proceed : ℕ → ℕ → ServerImpl → Option ServerImpl
unfolding proceed_at
proceed address this s = elim (s.heap this) [
  | none ↦ none
  | some c ↦ some (proceed_at c.status address this c s)
]

-- One round of the loop of `HandleRpcs` on the event that `Next` returned; `none` is also the
-- failed `GPR_ASSERT(ok)`.
unfoldable pub handle_event : ℕ → ℕ → Bool → ServerImpl → Option ServerImpl
unfolding proceed
handle_event address got_tag ok s = if ok then proceed address got_tag s else none

-- `HandleRpcs` before its loop.
unfoldable pub initial : ℕ → ServerImpl
unfolding new_call_data
initial address = new_call_data address (record { heap = λ _. none; outstanding = [] })

abbrev pub remove_at {ℓ} : {A : Type ℓ} → ℕ → List A → List A
remove_at i [] = []
remove_at zero (x ∷ xs) = xs
remove_at (suc i) (x ∷ xs) = x ∷ remove_at i xs

-- The runtime completes an operation: it is no longer outstanding, and for a call that arrived the
-- client's request is written into the object that asked for it.
abbrev pub write_request : Text → Option CallData → Option CallData
write_request name none = none
write_request name (some c) = some (record c { request = name })

abbrev pub receive : Operation → Text → (ℕ → Option CallData) → ℕ → Option CallData
receive (request_say_hello a) name h = update h a (write_request name (h a))
receive (finish_rpc a m) name h = h

abbrev pub complete : ℕ → Operation → Text → ServerImpl → ServerImpl
complete i op name s = record {
  heap = receive op name s.heap;
  outstanding = remove_at i s.outstanding;
}

-- One event: the runtime completes any outstanding operation, with a name if it is a request, the
-- allocator has some free address at hand, and the loop handles the event.
pub data Step (s t : ServerImpl) : Type 0 where
  event :
      (i : ℕ) (op : Operation) (name : Text) (address : ℕ)
      → get_elem? s.outstanding i ≡ some op
      → s.heap address ≡ none
      → handle_event address (tag op) true (complete i op name s) ≡ some t
      → Step s t

pub data Reach (s : ServerImpl) : ServerImpl → Type 0 where
  here : Reach s s
  next : {t u : ServerImpl} → Reach s t → Step t u → Reach s u
