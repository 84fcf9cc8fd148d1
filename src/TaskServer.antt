-- ===== src/TaskServer.antt =====
-- down_parse_client/task_server_thrift/down_parse_client_serviceHandler.cpp: start, and task_func, which
-- takes a task from its configuration to its end. What a call does to the system or to the task is an action;
-- what the calls that may fail answer is a parameter.
pub mod Laws
mod Tests
use studytest.Base.{
  ℕ, zero, suc, List, [], ◌∷◌, ◌++◌, Option, some, none, Bool, true, false, if◌then◌else◌, ℤ, pos,
  negsuc,
}

-- The calls of task_func, in the order of the source; `set_status n` is `set_task_status` of that number.
pub data Action : Type 0 where
  open_seed lock_seed unlock_seed close_seed unlink_seed : Action
  generate_info update_proxy_list import_db clear_items : Action
  start_down start_parse join_parse join_down : Action
  set_status : ℕ → Action

-- What the calls answer: `access` to the seed file, `open` and `flock` before the configuration is made; then
-- `access` to the task's directory, whether there is none of the engines, and the seed file again.
pub record Answers : Type 0 where
  pub seed_left : Bool
  pub opens_left : Bool
  pub locks_left : Bool
  pub task_dir_writable : Bool
  pub no_engine : Bool
  pub seed_made : Bool
  pub opens_made : Bool
  pub locks_made : Bool

-- behind the lock on the seed file
abbrev pub process : List Action
process =
    set_status 2
    ∷ start_down
    ∷ start_parse
    ∷ join_parse
    ∷ join_down
    ∷ clear_items
    ∷ import_db
    ∷ set_status 3
    ∷ unlock_seed
    ∷ close_seed
    ∷ unlink_seed
    ∷ []

-- from the configuration to the lock
unfoldable pub prepare : Answers → List Action
prepare a =
    generate_info
    ∷ update_proxy_list
    ∷ (if a.task_dir_writable
        then (if a.no_engine
            then []
            else (if a.seed_made
                then open_seed ∷ (if a.opens_made then lock_seed_then a.locks_made process else [])
                else []))
        else [])
  where
    lock_seed_then : Bool → List Action → List Action
    lock_seed_then true more = lock_seed ∷ more
    lock_seed_then false more = []

-- `task_func`: a seed file that is left and locked belongs to a task that is going on
unfoldable pub task_func : Answers → List Action
unfolding prepare
task_func a =
    if a.seed_left
    then open_seed
      ∷ (if a.opens_left
          then (if a.locks_left then lock_seed ∷ (unlock_seed ∷ (close_seed ∷ prepare a)) else [])
          else [])
    else prepare a

-- `start`: what it returns, and the task number of the thread that it starts
unfoldable pub start : ℤ → ℤ × Option ℕ
start (pos zero) = (negsuc 2, none)
start (pos (suc n)) = (pos 0, some (suc n))
start (negsuc n) = (negsuc 2, none)
