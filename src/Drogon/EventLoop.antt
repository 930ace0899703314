-- ===== src/Drogon/EventLoop.antt =====
-- src/test_drogon.cpp: the block of main with an event loop of its own. Its thread takes what is queued, in
-- order, while main goes on.
use example.Base.{◌≡◌, refl, sym, ap, ◌∙◌, List, [], ◌∷◌, ◌++◌, Text, codes, append_assoc}
use example.Drogon.Main.{Call, run_in_loop, queue_in_loop, LoopFunction, lines, loop_block}

-- What a call of main puts into the queue: `runInLoop` too, since main is not the loop's thread.
abbrev pub queued_by : Call → List LoopFunction
queued_by (run_in_loop f) = f ∷ []
queued_by (queue_in_loop f) = f ∷ []
queued_by call = []

pub record LoopState : Type 0 where
  pub main_left : List Call
  pub queue : List LoopFunction
  pub printed : List Text

pub data LoopStep (id : Text) (s : LoopState) : LoopState → Type 0 where
  main_calls :
      (call : Call) (rest : List Call)
      → s.main_left ≡ call ∷ rest
      → LoopStep id s (record s { main_left = rest; queue = s.queue ++ queued_by call })
  loop_runs :
      (f : LoopFunction) (rest : List LoopFunction)
      → s.queue ≡ f ∷ rest
      → LoopStep id s (record s { queue = rest; printed = s.printed ++ lines id f })

abbrev pub loop_start : LoopState
loop_start = record { main_left = loop_block; queue = []; printed = [] }

pub data LoopReach (id : Text) : LoopState → Type 0 where
  enters : LoopReach id loop_start
  moves : {s t : LoopState} → LoopReach id s → LoopStep id s t → LoopReach id t

-- What is printed in the end.
abbrev pub lines_of : Text → List LoopFunction → List Text
lines_of id [] = []
lines_of id (f ∷ fs) = lines id f ++ lines_of id fs

abbrev pub yet_queued : List Call → List LoopFunction
yet_queued [] = []
yet_queued (call ∷ calls) = queued_by call ++ yet_queued calls

lines_of-append :
    (id : Text) (xs ys : List LoopFunction)
    → lines_of id (xs ++ ys) ≡ lines_of id xs ++ lines_of id ys
lines_of-append id [] ys = refl
lines_of-append id (x ∷ xs) ys =
    ap (λ l. lines id x ++ l) (lines_of-append id xs ys)
    ∙ sym (append_assoc (lines id x) (lines_of id xs) (lines_of id ys))

-- The functions that the loop has yet to run.
abbrev pub to_run : LoopState → List LoopFunction
to_run s = s.queue ++ yet_queued s.main_left

-- However main and the loop's thread take turns: what the loop has printed, and then the lines of the
-- functions that are queued and of those that main has yet to queue, are its thread's id, the line of the
-- queued function, and the line of the coroutine, in this order.
pub prints_in_order :
    (id : Text) {s : LoopState}
    → LoopReach id s
    → s.printed ++ lines_of id (to_run s)
      ≡ id ∷ (codes "queueInLoop:" ++ id) ∷ (codes "queueInLoop async_run:" ++ id) ∷ []
prints_in_order id enters = refl
prints_in_order id (moves {s} r (main_calls call rest e)) =
    (simp (e, lines_of-append, append_assoc)) ∙ prints_in_order id r
prints_in_order id (moves {s} r (loop_runs f rest e)) =
    (simp (e, lines_of-append, append_assoc)) ∙ prints_in_order id r
