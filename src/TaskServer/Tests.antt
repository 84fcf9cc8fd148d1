-- ===== src/TaskServer/Tests.antt =====
-- The course of concrete tasks, and the theorem about them there.
use studytest.Base.{◌≡◌, refl, [], ◌∷◌, none, true, false, negsuc, pos}
use studytest.TaskServer.{Answers, open_seed, start, task_func}
use studytest.TaskServer.Laws.{in_order, ends, goes_through, task_func_lem}

-- another task of the same number holds the seed file
abbrev busy : Answers
busy = record {
  seed_left = true;
  opens_left = true;
  locks_left = false;
  task_dir_writable = true;
  no_engine = false;
  seed_made = true;
  opens_made = true;
  locks_made = true;
}

-- The descriptor is not closed.
busy_leaks : task_func busy ≡ open_seed ∷ []
unfolding task_func
busy_leaks = refl

no_task : start (pos 0) ≡ (negsuc 2, none)
unfolding start
no_task = refl

abbrev free : Answers
free = record busy { locks_left = true }

task_func_lem_example :
    (in_order false 0 (task_func free) ≡ true) × (ends (task_func free) ≡ goes_through free)
task_func_lem_example = task_func_lem free
