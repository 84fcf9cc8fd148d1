-- ===== src/ParseQueue/Laws.antt =====
-- What one call of the parse queue hands out and keeps.
use studytest.Base.{
  ℕ, ◌-◌, ◌≡◌, refl, List, [], ◌∷◌, ◌++◌, append-nil, arith, Bytes, length, take-append-drop,
  length-take, leb, if◌then◌else◌, Bool-cases, inl, inr,
}
use studytest.ParseQueue.{take_out, got, get_queue}

-- Nothing is lost or copied: what `getQueue` hands out and what it leaves make up the queue, in order.
-- It hands out the whole queue if that holds at most `num` lines, and otherwise num - 1 lines.
pub take_out_lem :
    (num : ℕ) (queue : List Bytes)
    → ((take_out num queue).0 ++ (take_out num queue).1 ≡ queue)
      × (length (take_out num queue).0 ≡ (if leb (length queue) num then length queue else num - 1))
unfolding take_out
take_out_lem num queue = elim (Bool-cases (leb (length queue) num)) [
  | inl all ↦ rw all (append-nil queue, refl)
  | inr more ↦
      rw more (take-append-drop (num - 1) queue, ground (arith, length-take (num - 1) queue))
]

-- A request for one line gets none as long as the queue holds two or more.
get_queue_one :
    (x y : Bytes) (queue : List Bytes) (later : List (List Bytes))
    → get_queue 1 ((x ∷ (y ∷ queue)) ∷ later) ≡ got [] (x ∷ (y ∷ queue))
unfolding get_queue
get_queue_one x y queue later = ground arith
