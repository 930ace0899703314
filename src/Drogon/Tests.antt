-- ===== src/Drogon/Tests.antt =====
-- The theorems about the clients and the messages, applied to three loops and to a message.
use example.Base.{ℕ, suc, ◌%◌, ◌≡◌, refl, some, List, [], ◌∷◌, map, arith}
use example.Drogon.Main.{say_hello, generic_hello, main, undefined}
use example.Drogon.Ending.{Ends, main-Ends}
use example.Drogon.EventLoop.{
  LoopState, LoopReach, enters, moves, main_calls, loop_runs, lines_of, to_run, prints_in_order,
}
use example.Drogon.{Sent, response, other_exception}
use example.Base.{none, Text}
use example.Drogon.{HttpClient, make_clients}
use example.Drogon.Clients.{serve, loops_in_turn}
use example.Drogon.Chat.{Chat}
use example.Base.{codes, ◌++◌}

-- Loops handed out in turn, by a counter.
abbrev get_next_loop : ℕ → ℕ × ℕ
get_next_loop i = (i % 3, suc i)

loops_in_turn_example :
    (cs : List HttpClient) × (serve 4 3 (make_clients get_next_loop 3 0).0 0 ≡ some cs)
    × (map HttpClient.event_loop cs ≡ 0 ∷ 1 ∷ 2 ∷ 0 ∷ [])
loops_in_turn_example =
    loops_in_turn get_next_loop 3 (λ i. i) (λ i. refl) 4 (omega arith) (omega arith)

-- The service answers each client's request by its handlers.
abbrev answered : HttpClient → Text → Sent
answered c path = elim (say_hello path) [ none ↦ other_exception | some body ↦ response body ]

main-Ends_example :
    Ends (response generic_hello) (main get_next_loop answered 3 0)
    × ((main get_next_loop answered 0 0).1 ≡ undefined)
main-Ends_example = main-Ends get_next_loop answered 2 0

-- The loop's thread prints its id while main waits to queue the other function.
id_printed : (s : LoopState) × LoopReach (codes "140") s × (s.printed ≡ codes "140" ∷ [])
id_printed = (
  _,
  moves
      (moves (moves (moves enters (main_calls _ _ refl)) (main_calls _ _ refl))
        (loop_runs _ _ refl))
      (main_calls _ _ refl),
  refl,
)

prints_in_order_example :
    id_printed.0.printed ++ lines_of (codes "140") (to_run id_printed.0)
    ≡ codes "140"
      ∷ (codes "queueInLoop:" ++ codes "140")
      ∷ (codes "queueInLoop async_run:" ++ codes "140")
      ∷ []
prints_in_order_example = prints_in_order (codes "140") id_printed.1
