-- ===== src/GreeterClient.antt =====
-- include/greeter_async_client.h: one call of the greeter.
-- What `Next` returns after the request was sent is an argument.
pub mod Served
pub mod Main
pub mod Wire
mod Tests
use example.Base.{ℕ, Bool, true, false, ◌==◌, if◌then◌else◌, Text, codes}

-- The result of `cq.Next`: false, or an event's tag and `ok`, with the status and the reply that the
-- runtime wrote.
pub data Next : Type 0 where
  shut_down : Next
  event : ℕ → Bool → Bool → Text → Next

-- What `SayHello` returns, or a failed `GPR_ASSERT`.
pub data Returned : Type 0 where
  returned : Text → Returned
  aborted : Returned

abbrev pub rpc_failed : Text
rpc_failed = codes "RPC failed"

-- The last test, on the status of the call.
abbrev pub act : Bool → Text → Returned
act status_ok message = if status_ok then returned message else returned rpc_failed

abbrev pub on_next : Next → Returned
on_next shut_down = aborted
on_next (event got_tag ok status_ok message) =
    if got_tag == 1 then (if ok then act status_ok message else aborted) else aborted

-- `Greeter::Stub`: what `Next` returns once the call for a user is finished under a tag.
abbrev pub Stub : Type 0
Stub = Text → ℕ → Next

pub record GreeterClient : Type 0 where
  pub stub : Stub

-- The constructor; `Greeter::NewStub` is an argument.
abbrev pub greeter_client : {Channel : Type 0} → (Channel → Stub) → Channel → GreeterClient
greeter_client new_stub channel = record { stub = new_stub channel }

-- The request holds the user's name, and is finished under the tag 1.
unfoldable pub say_hello : GreeterClient → Text → Returned
say_hello client user = on_next (client.stub user 1)
