-- ===== src/Downloading/Queued.antt =====
-- What a call of the download queue leaves in it and hands out.
use studytest.Base.{
  ℕ, zero, suc, ◌≤◌, ◌≡◌, List, [], ◌∷◌, ◌++◌, some, Bytes, replicate, length, length-append, arith,
  All, All-append, Option-cases, inl, inr,
}
use studytest.DownQueue.{
  UrlMap, max_queue_size, lookup, added, add_queue, insert, insert_all, drain, get_queue,
}

pub add_queue_lem :
    (queue : List UrlMap) (batch : UrlMap) (queue' : List UrlMap)
    → add_queue queue batch ≡ added queue'
    → (queue' ≡ queue ++ batch ∷ []) × (length queue' ≤ max_queue_size)
unfolding add_queue
add_queue_lem queue [] queue' e = cc
add_queue_lem queue (x ∷ xs) queue' e = ground (arith, length-append queue ((x ∷ xs) ∷ []))

-- A call that has waited empties the queue that it finds last.
pub get_queue_now :
    (waited : ℕ) (queue : List UrlMap) (out : UrlMap) (rest : List UrlMap)
    → waited ≤ 2
    → get_queue (replicate waited [] ++ queue ∷ []) ≡ some (out, rest)
    → (out ≡ drain queue []) × (rest ≡ [])
unfolding get_queue
get_queue_now zero [] out rest h e = ground arith
get_queue_now (suc zero) [] out rest h e = ground arith
get_queue_now (suc (suc zero)) [] out rest h e = ground arith
get_queue_now (suc (suc (suc k))) queue out rest h e = absurd (omega arith)
get_queue_now zero (x ∷ xs) out rest h e = ground arith
get_queue_now (suc zero) (x ∷ xs) out rest h e = ground arith
get_queue_now (suc (suc zero)) (x ∷ xs) out rest h e = ground arith

module _ (P : Bytes × List Bytes → Type 0) where
  pub All-behind : (xs ys : UrlMap) → All P (xs ++ ys) → All P xs × All P ys
  All-behind [] ys h = (tt, h)
  All-behind (x ∷ xs) ys (hx, h) = let (a, b) = All-behind xs ys h in ((hx, a), b)

  insert-All : (m : UrlMap) (k : Bytes) (v : List Bytes) → All P m → P (k, v) → All P (insert m k v)
  unfolding insert
  insert-All m k v hm hv = elim (Option-cases (lookup k m)) [
    | inl e ↦ rw (e, insert) (All-append P m ((k, v) ∷ []) hm (hv, tt))
    | inr (w, e) ↦ rw (e, insert) hm
  ]

  insert_all-All : (m data' : UrlMap) → All P m → All P data' → All P (insert_all m data')
  unfolding insert_all
  insert_all-All [] data' hm hd = hd
  insert_all-All ((k, v) ∷ m) data' (hk, hm) hd =
      insert_all-All m (insert data' k v) hm (insert-All data' k v hd hk)

  pub drain-All :
      (queue : List UrlMap) (data' : UrlMap)
      → All (All P) queue
      → All P data'
      → All P (drain queue data')
  unfolding drain
  drain-All [] data' hq hd = hd
  drain-All (m ∷ queue) data' (hm, hq) hd =
      drain-All queue (insert_all m data') hq (insert_all-All m data' hm hd)
