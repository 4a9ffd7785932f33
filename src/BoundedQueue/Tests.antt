-- ===== src/BoundedQueue/Tests.antt =====
-- Runs of the queue of 19-Producer-Consumer/main.go and of the semaphore of 15-Semaphore/main.go,
-- and instances of their theorems.
use design_with_ts_go.Base.{
  ℕ, ◌+◌, ◌≤◌, ◌≡◌, refl, Bool, true, none, List, [], ◌∷◌, ◌++◌, nat_key, string_key, pos, int_key,
}
use design_with_ts_go.BoundedQueue.{
  send, receive, BoundedQueue, new, enqueue, dequeue, Semaphore, new_semaphore, acquire, release,
}
use design_with_ts_go.BoundedQueue.Interleavings.{
  Runs, begins, enqueues, dequeues, Runs_lem, Holds, idle, acquires, releases, Holds_lem,
}

program : Unit {0}
unfolding send receive new enqueue dequeue new_semaphore acquire release
program = tt

abbrev queue : List ℕ → BoundedQueue ℕ
queue values = record { ch = record { capacity = 2; buffer = values } }

abbrev semaphore : List Bool → Semaphore
semaphore permits = record { permits = record { capacity = 1; buffer = permits } }

channel_test :
    (enqueue (queue (4 ∷ 5 ∷ [])) 6 ≡ none)
    × (dequeue (queue []) ≡ none)
    × (acquire (semaphore (true ∷ [])) ≡ none)
    × (release (semaphore []) ≡ none)
    × (new {T = ℕ} (pos 0) ≡ none)
unfolding program
channel_test = (refl, refl, refl, refl, refl)

queue_run : Runs (queue []) (4 ∷ 5 ∷ []) (4 ∷ []) (queue (5 ∷ []))
unfolding program
queue_run =
    dequeues (4 ∷ 5 ∷ []) [] (queue (4 ∷ 5 ∷ [])) (queue (5 ∷ [])) 4
      (enqueues (4 ∷ []) [] (queue (4 ∷ [])) (queue (4 ∷ 5 ∷ [])) 5
        (enqueues [] [] (queue []) (queue (4 ∷ [])) 4 begins refl) refl)
      refl

abbrev both : List ℕ
both = 4 ∷ 5 ∷ []

Runs_lem_example : (both ≡ (4 ∷ []) ++ 5 ∷ []) × (1 ≤ 2)
unfolding program
Runs_lem_example = Runs_lem (pos 2) (queue []) (queue (5 ∷ [])) (4 ∷ 5 ∷ []) (4 ∷ []) refl queue_run

semaphore_run : Holds (semaphore []) 2 1 (semaphore (true ∷ []))
unfolding program
semaphore_run =
    acquires 1 1 (semaphore []) (semaphore (true ∷ []))
      (releases 1 0 (semaphore (true ∷ [])) (semaphore [])
        (acquires 0 0 (semaphore []) (semaphore (true ∷ [])) idle refl) refl)
      refl

Holds_lem_example : (1 ≤ 2) × (2 ≤ 1 + 1)
unfolding program
Holds_lem_example = Holds_lem (pos 1) (semaphore []) (semaphore (true ∷ [])) 2 1 refl semaphore_run
