-- ===== src/Redis/Tests.antt =====
-- The theorems of this folder, applied to concrete futures.
use example.Base.{◌≡◌, refl, true, some, [], ◌∷◌, codes}
use example.Redis.{object, value, failed, Boost, Answers, hangs, main_coroutine}
use example.Redis.Failures.{main_takes_replies}

abbrev faithful : Boost
faithful = record { rethrown = λ e. e; rethrown_self = λ e. refl }

abbrev answers : Answers
answers = record {
  hmset = value tt;
  set = value true;
  get = value (some (codes "xiaoli"));
  hgetall = value (codes "a" ∷ codes "b" ∷ []);
}

-- `hmset` failed, and the reply to `get` holds an exception of an ordinary type.
main_takes_replies_example :
    main_coroutine faithful 1
      (record answers { hmset = failed (object 3); get = failed (object 4) })
    ≡ record { lines = codes "set key success!!!" ∷ []; end = hangs }
main_takes_replies_example =
    main_takes_replies faithful 1
      (record answers { hmset = failed (object 3); get = failed (object 4) })
