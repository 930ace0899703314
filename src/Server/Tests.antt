-- ===== src/Server/Tests.antt =====
-- A server with one client: the theorems of this folder applied to its events.
use mathlib.Core.List.{Perm}
use example.Base.{◌≡◌, refl, true, some, none, [], ◌∷◌, ◌++◌, map, get_elem?, Text, codes, false}
use example.Server.{
  ServerImpl, request_say_hello, initial, complete, handle_event, Step, event, here, next,
  proceed_process, process,
}
use example.Server.Safety.{IsValid, initial-IsValid, handle_event_returns, Reach-IsValid}
use example.Server.Replies.{Run, begins, arrives, in_flight, greeting, replies_answer_clients}

abbrev world : Text
world = codes "world"

-- The server after the first client, called world, arrived at the object under 7, while the
-- allocator gave the address 9.
after_world : ServerImpl
after_world =
    proceed_process 9 7 (record { status = process; request = world; reply = [] })
      (complete 0 (request_say_hello 7) world (initial 7))

handled :
    handle_event 9 7 true (complete 0 (request_say_hello 7) world (initial 7)) ≡ some after_world
unfolding handle_event initial after_world
handled = refl

asked : get_elem? (initial 7).outstanding 0 ≡ some (request_say_hello 7)
unfolding initial
asked = refl

nine_free : (initial 7).heap 9 ≡ none
unfolding initial
nine_free = refl

one_client : Run (initial 7) (world ∷ []) [] after_world
one_client = arrives 0 7 9 world begins asked nine_free handled

world_flies : in_flight after_world.outstanding ≡ codes "Hello world" ∷ []
unfolding after_world proceed_process initial
world_flies = refl

handle_event_returns_example :
    (t : ServerImpl) × (handle_event 9 7 false (complete 0 (request_say_hello 7) world (initial 7))
      ≡ none)
    × IsValid t
handle_event_returns_example =
    handle_event_returns (initial 7) 0 9 (request_say_hello 7) world false (initial-IsValid 7) asked
      nine_free

one-Step : Step (initial 7) after_world
one-Step = event 0 (request_say_hello 7) world 9 asked nine_free handled

Reach-IsValid_example : IsValid after_world
Reach-IsValid_example = Reach-IsValid 7 (next here one-Step)

replies_answer_clients_example :
    Perm ([] ++ in_flight after_world.outstanding) (map greeting (world ∷ []))
replies_answer_clients_example = replies_answer_clients 7 one_client
