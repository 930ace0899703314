-- ===== src/Redis/Failures.antt =====
-- src/test_redis++.cpp: which outcomes of a future reach the coroutine that awaits it.
use example.Base.{
  ℕ, ◌≡◌, refl, ap, Bool, true, false, if◌then◌else◌, ◌∷◌, ◌++◌, codes, Option, none, some, List,
  [], Text,
}
use example.Redis.{
  exception_ptr, object, Future, value, failed, Boost, Awaited, returns, throws, hangs, executor_of,
  co_await, Answers, Printed, after_print, bind_awaited, show_flag, show_name, main_coroutine,
}

-- What a future does to the coroutine that awaits it.
abbrev pub outcome : {A : Type 0} → Future A → Awaited A
outcome (value a) = returns a
outcome (failed (exception_ptr p)) = throws p
outcome (failed (object n)) = hangs

-- What each reply makes the coroutine print, if it gets to it.
abbrev pub success_line : Future Bool → List Text
success_line (value flag) = if flag then codes "set key success!!!" ∷ [] else []
success_line (failed e) = []

abbrev pub name_line : Future (Option Text) → List Text
name_line (value (some name)) = (codes "name:" ++ name) ∷ []
name_line (value none) = []
name_line (failed e) = []

abbrev pub entries : Future (List Text) → List Text
entries (value hash) = hash
entries (failed e) = []

abbrev pub arrives : {A : Type 0} → Future A → Bool
arrives (value a) = true
arrives (failed e) = false

-- How the coroutine ends at a reply, where it would end as `rest` after it.
abbrev pub end_at : {A : Type 0} → Future A → Awaited (Unit {0}) → Awaited (Unit {0})
end_at (value a) rest = rest
end_at (failed (exception_ptr p)) rest = throws p
end_at (failed (object n)) rest = hangs

-- What the coroutine comes to.
abbrev pub expected : Answers → Printed
expected a = record {
  lines =
      success_line a.set
      ++ (if arrives a.set
          then name_line a.get ++ (if arrives a.get then entries a.hgetall else [])
          else []);
  end = end_at a.set (end_at a.get (end_at a.hgetall (returns tt)));
}

show_flag_lem : (flag : Bool) → show_flag flag ≡ success_line (value flag)
show_flag_lem true = refl
show_flag_lem false = refl

show_name_lem : (name : Option Text) → show_name name ≡ name_line (value name)
show_name_lem none = refl
show_name_lem (some name) = refl

replies_lem :
    (hmset : Future (Unit {0})) (set : Future Bool) (get : Future (Option Text))
    (hgetall : Future (List Text))
    → bind_awaited (outcome set) (λ flag. after_print (show_flag flag) (
        bind_awaited (outcome get) (λ name.
          after_print
            (show_name name)
            (bind_awaited (outcome hgetall) (λ hash. record { lines = hash; end = returns tt })))))
      ≡ expected (record { hmset = hmset; set = set; get = get; hgetall = hgetall })
replies_lem h (failed (exception_ptr p)) get hgetall = refl
replies_lem h (failed (object n)) get hgetall = refl
replies_lem h (value flag) (failed (exception_ptr p)) hgetall = rw (show_flag_lem flag) refl
replies_lem h (value flag) (failed (object n)) hgetall = rw (show_flag_lem flag) refl
replies_lem h (value flag) (value name) (failed (exception_ptr p)) =
    rw (show_flag_lem flag, show_name_lem name) refl
replies_lem h (value flag) (value name) (failed (object n)) =
    rw (show_flag_lem flag, show_name_lem name) refl
replies_lem h (value flag) (value name) (value hash) =
    rw (show_flag_lem flag, show_name_lem name) refl

module _ (boost : Boost) where
  -- Awaiting a new awaiter, with a pool or without, gives the value of a future that holds one; throws
  -- in the coroutine only what a `std::exception_ptr` thrown as an object points to; and on any other
  -- exception never resumes the coroutine.
  pub co_await_cases :
      {A : Type 0} (a : A) (f : Future A) (pool : Option ℕ)
      → co_await boost (record { future = f; pool_ptr = pool; result = a; exception = none })
        ≡ (executor_of pool, outcome f)
  unfolding co_await
  co_await_cases a (value b) pool = refl
  co_await_cases a (failed (exception_ptr p)) pool =
      rw (boost.rethrown_self (exception_ptr p), co_await)
  co_await_cases a (failed (object n)) pool = rw (boost.rethrown_self (object n), co_await)

  awaited_lem :
      {A : Type 0} (a : A) (f : Future A) (pool : Option ℕ)
      → (co_await boost (record { future = f; pool_ptr = pool; result = a; exception = none })).1
        ≡ outcome f
  awaited_lem a f pool = ap (λ r. r.1) (co_await_cases a f pool)

  -- The coroutine of main, whatever its four futures come to: it prints "set key success!!!" exactly if
  -- the reply to `set` is true, then "name:" and the value if `set` was answered and `get` has one, then
  -- the entries if all three were answered. It ends at the first of the three replies that it does not
  -- get: by the exception if that is an `std::exception_ptr`, and otherwise by never being resumed. What
  -- becomes of `hmset` makes no difference.
  pub main_takes_replies : (pool : ℕ) (a : Answers) → main_coroutine boost pool a ≡ expected a
  unfolding main_coroutine
  main_takes_replies pool a =
      rw
        (
          main_coroutine,
          awaited_lem false a.set (some pool),
          awaited_lem none a.get (some pool),
          awaited_lem [] a.hgetall none,
        )
        (replies_lem a.hmset a.set a.get a.hgetall)
