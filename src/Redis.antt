-- ===== src/Redis.antt =====
-- src/test_redis++.cpp: awaiting boost futures, and the coroutine of main.
-- An exception object is of type `std::exception_ptr` or of any other type; the pointer that `catch`
-- binds, and what it points to, are named by numbers.
pub mod Failures
mod Tests
use example.Base.{
  ℕ, ◌≡◌, Bool, true, false, Option, none, some, List, [], ◌∷◌, ◌++◌, map, if◌then◌else◌, Text,
  codes,
}

pub data Exception : Type 0 where
  exception_ptr : ℕ → Exception
  object : ℕ → Exception

-- A future that is ready, as the continuation gets it.
pub data Future (A : Type 0) : Type 0 where
  value : A → Future A
  failed : Exception → Future A

-- What the awaiter relies on of Boost.Thread: `rethrow_exception(fut.get_exception_ptr())` throws the
-- exception that the future holds.
pub record Boost : Type 0 where
  pub rethrown : Exception → Exception
  pub rethrown_self : (e : Exception) → rethrown e ≡ e

-- Where the continuation runs: on the pool that was given, or where `then` puts it by default.
pub data Executor : Type 0 where
  by_default : Executor
  on_pool : ℕ → Executor

pub record FutureAwaiter (A : Type 0) : Type 0 where
  pub future : Future A
  pub pool_ptr : Option ℕ
  pub result : A
  pub exception : Option ℕ

-- The two constructors; `_result` starts as its type's default value.
abbrev pub make_awaiter : {A : Type 0} → A → Future A → FutureAwaiter A
make_awaiter a f = record { future = f; pool_ptr = none; result = a; exception = none }

abbrev pub make_awaiter_on : {A : Type 0} → A → Future A → ℕ → FutureAwaiter A
make_awaiter_on a f pool = record { future = f; pool_ptr = some pool; result = a; exception = none }

-- How the continuation ends: it resumes the coroutine, or an exception leaves it before it does.
pub data Continued (A : Type 0) : Type 0 where
  resumed : FutureAwaiter A → Continued A
  escaped : Exception → Continued A

-- How `co_await` ends: with a value, with an exception, or never.
pub data Awaited (A : Type 0) : Type 0 where
  returns : A → Awaited A
  throws : ℕ → Awaited A
  hangs : Awaited A

-- `if (_pool_ptr != nullptr)`
unfoldable pub executor_of : Option ℕ → Executor
executor_of none = by_default
executor_of (some pool) = on_pool pool

-- `await_resume`, which the instance for void shares.
unfoldable pub await_resume : {A : Type 0} → FutureAwaiter A → Awaited A
await_resume w = elim w.exception [ none ↦ returns w.result | some p ↦ throws p ]

unfoldable pub after_continuation : {A : Type 0} → Continued A → Awaited A
unfolding await_resume
after_continuation (resumed w) = await_resume w
after_continuation (escaped e) = hangs

module _ (boost : Boost) where
  -- The inner `try`: only an object of type `std::exception_ptr` is caught.
  unfoldable pub catch_pointer : {A : Type 0} → Exception → FutureAwaiter A → Continued A
  catch_pointer (exception_ptr p) w = resumed (record w { exception = some p })
  catch_pointer (object n) w = escaped (object n)

  -- The continuation of `await_suspend`, where `fut.get()` returns the value or throws.
  unfoldable pub continuation : {A : Type 0} → Future A → FutureAwaiter A → Continued A
  unfolding catch_pointer
  continuation (value a) w = resumed (record w { result = a })
  continuation (failed e) w = catch_pointer (boost.rethrown e) w

  unfoldable pub co_await : {A : Type 0} → FutureAwaiter A → Executor × Awaited A
  unfolding continuation after_continuation executor_of
  co_await w = (executor_of w.pool_ptr, after_continuation (continuation w.future w))

-- `FutureAwaiter<void>`: `fut.wait()` returns once the future is ready, and throws nothing.
unfoldable pub continuation_void :
    Future (Unit {0}) → FutureAwaiter (Unit {0}) → Continued (Unit {0})
continuation_void f w = resumed w

unfoldable pub co_await_void : FutureAwaiter (Unit {0}) → Executor × Awaited (Unit {0})
unfolding continuation_void after_continuation executor_of
co_await_void w = (executor_of w.pool_ptr, after_continuation (continuation_void w.future w))

-- What the client answers to the four commands of main.
pub record Answers : Type 0 where
  pub hmset : Future (Unit {0})
  pub set : Future Bool
  pub get : Future (Option Text)
  pub hgetall : Future (List Text)

-- What main prints, and how its coroutine ends.
pub record Printed : Type 0 where
  pub lines : List Text
  pub end : Awaited (Unit {0})

abbrev pub after_print : List Text → Printed → Printed
after_print ls p = record p { lines = ls ++ p.lines }

-- The rest of the coroutine after a `co_await`.
abbrev pub bind_awaited : {A : Type 0} → Awaited A → (A → Printed) → Printed
bind_awaited (returns a) k = k a
bind_awaited (throws p) k = record { lines = []; end = throws p }
bind_awaited hangs k = record { lines = []; end = hangs }

abbrev pub show_flag : Bool → List Text
show_flag true = codes "set key success!!!" ∷ []
show_flag false = []

abbrev pub show_name : Option Text → List Text
show_name none = []
show_name (some name) = (codes "name:" ++ name) ∷ []

module _ (boost : Boost) where
  unfoldable pub main_coroutine : ℕ → Answers → Printed
  unfolding co_await co_await_void
  main_coroutine pool a = bind_awaited (co_await_void (make_awaiter_on tt a.hmset pool)).1 λ done.
      bind_awaited (co_await boost (make_awaiter_on false a.set pool)).1 λ flag.
        after_print (show_flag flag) (
          bind_awaited (co_await boost (make_awaiter_on none a.get pool)).1 λ name.
            after_print (show_name name) (
              bind_awaited (co_await boost (make_awaiter [] a.hgetall)).1
                λ hash. record { lines = hash; end = returns tt }))
