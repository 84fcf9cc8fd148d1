-- ===== src/TaskServer/Laws.antt =====
-- What is sure of every course of a task.
use studytest.Base.{
  ℕ, zero, suc, ◌≡◌, refl, List, [], ◌∷◌, Bool, true, false, ◌&&◌, ◌||◌, not, ◌==◌, if◌then◌else◌,
}
use studytest.TaskServer.{
  Action, open_seed, lock_seed, unlock_seed, close_seed, unlink_seed, generate_info,
  update_proxy_list, import_db, clear_items, start_down, start_parse, join_parse, join_down,
  set_status, Answers, prepare, task_func,
}

-- whether a course is in order, given whether the lock is held and how many threads are at work
abbrev pub in_order : Bool → ℕ → List Action → Bool
in_order held threads [] = not held && threads == 0
in_order held threads (open_seed ∷ more) = not held && in_order held threads more
in_order held threads (lock_seed ∷ more) = not held && in_order true threads more
in_order held threads (unlock_seed ∷ more) = (held && threads == 0) && in_order false threads more
in_order held threads (close_seed ∷ more) = not held && in_order held threads more
in_order held threads (unlink_seed ∷ more) = threads == 0 && in_order held threads more
in_order held threads (generate_info ∷ more) =
    (not held && threads == 0) && in_order held threads more
in_order held threads (update_proxy_list ∷ more) =
    (not held && threads == 0) && in_order held threads more
in_order held threads (import_db ∷ more) = held && in_order held threads more
in_order held threads (clear_items ∷ more) = held && in_order held threads more
in_order held threads (start_down ∷ more) = held && in_order held (suc threads) more
in_order held threads (start_parse ∷ more) = held && in_order held (suc threads) more
in_order held zero (join_parse ∷ more) = false
in_order held (suc threads) (join_parse ∷ more) = held && in_order held threads more
in_order held zero (join_down ∷ more) = false
in_order held (suc threads) (join_down ∷ more) = held && in_order held threads more
in_order held threads (set_status n ∷ more) = (held && threads == 0) && in_order held threads more

-- whether a task comes to its end
abbrev pub ends : List Action → Bool
ends [] = false
ends (set_status n ∷ more) = n == 3 || ends more
ends (open_seed ∷ more) = ends more
ends (lock_seed ∷ more) = ends more
ends (unlock_seed ∷ more) = ends more
ends (close_seed ∷ more) = ends more
ends (unlink_seed ∷ more) = ends more
ends (generate_info ∷ more) = ends more
ends (update_proxy_list ∷ more) = ends more
ends (import_db ∷ more) = ends more
ends (clear_items ∷ more) = ends more
ends (start_down ∷ more) = ends more
ends (start_parse ∷ more) = ends more
ends (join_parse ∷ more) = ends more
ends (join_down ∷ more) = ends more

-- nothing is in the way of the task
abbrev pub goes_through : Answers → Bool
goes_through a =
    (not a.seed_left || (a.opens_left && a.locks_left))
    && (a.task_dir_writable && (not a.no_engine && (a.seed_made && (a.opens_made && a.locks_made))))

prepare_lem :
    (l1 l2 l3 w n s o k : Bool)
    → let a : Answers = record {
      seed_left = l1;
      opens_left = l2;
      locks_left = l3;
      task_dir_writable = w;
      no_engine = n;
      seed_made = s;
      opens_made = o;
      locks_made = k;
    } in
      (in_order false 0 (prepare a) ≡ true) × (ends (prepare a) ≡ (w && (not n && (s && (o && k)))))
unfolding prepare
prepare_lem l1 l2 l3 false n s o k = (refl, refl)
prepare_lem l1 l2 l3 true true s o k = (refl, refl)
prepare_lem l1 l2 l3 true false false o k = (refl, refl)
prepare_lem l1 l2 l3 true false true false k = (refl, refl)
prepare_lem l1 l2 l3 true false true true false = (refl, refl)
prepare_lem l1 l2 l3 true false true true true = (refl, refl)

-- Whatever the calls answer: the state of the task is set, the two threads run and the results are imported
-- only while the seed file is locked; the state is set, and the lock given back, with no thread at work; and a
-- course ends with the lock given back and all threads joined. The task is marked as done exactly if a
-- seed file that is there before can be opened and is held by no other one, the directory can be written, there is
-- an engine, and the new seed file is there and can be opened and locked.
pub task_func_lem :
    (a : Answers) → (in_order false 0 (task_func a) ≡ true) × (ends (task_func a) ≡ goes_through a)
unfolding task_func
task_func_lem a =
    let (guarded, done) =
      prepare_lem a.seed_left a.opens_left a.locks_left a.task_dir_writable a.no_engine a.seed_made
        a.opens_made a.locks_made in
    go a.seed_left a.opens_left a.locks_left guarded done
  where
    go :
        (l o k : Bool)
        → in_order false 0 (prepare a) ≡ true
        → ends (prepare a) ≡ (
            a.task_dir_writable
            && (not a.no_engine && (a.seed_made && (a.opens_made && a.locks_made))))
        → let course =
            (if l
              then open_seed
                ∷ (if o
                    then (if k then lock_seed ∷ (unlock_seed ∷ (close_seed ∷ prepare a)) else [])
                    else [])
              else prepare a) in
          (in_order false 0 course ≡ true)
          × (ends course ≡ (
              (not l || (o && k))
              && (a.task_dir_writable
                  && (not a.no_engine && (a.seed_made && (a.opens_made && a.locks_made))))))
    go false o k guarded done = (guarded, done)
    go true false k guarded done = (refl, refl)
    go true true false guarded done = (refl, refl)
    go true true true guarded done = (guarded, done)
