-- ===== src/BoundedQueue/Interleavings.antt =====
-- What every interleaving of the goroutines of 19-Producer-Consumer/main.go and of
-- 15-Semaphore/main.go keeps.
use design_with_ts_go.Base.{
  ℕ, ◌+◌, ◌≤◌, ◌≡◌, sym, ap, ◌∙◌, true, some, List, [], ◌∷◌, ◌++◌, arith, length, length-append,
  nat_key, string_key, ℤ, pos_part, int_key,
}
use mathlib.Core.List.{append_assoc}
use design_with_ts_go.BoundedQueue.{
  send, receive, BoundedQueue, new, enqueue, dequeue, Semaphore, new_semaphore, acquire, release,
}

-- The queue after steps that have enqueued and dequeued the values, each in that order.
pub data Runs {T : Type 0} (start : BoundedQueue T)
    : List T → List T → BoundedQueue T → Type 0 where
  begins : Runs start [] [] start
  enqueues :
      (sent received : List T) (q q' : BoundedQueue T) (value : T)
      → Runs start sent received q
      → enqueue q value ≡ some q'
      → Runs start (sent ++ value ∷ []) received q'
  dequeues :
      (sent received : List T) (q q' : BoundedQueue T) (value : T)
      → Runs start sent received q
      → dequeue q ≡ some (q', value)
      → Runs start sent (received ++ value ∷ []) q'

-- The semaphore after steps that have acquired and released so many permits.
pub data Holds (start : Semaphore) : ℕ → ℕ → Semaphore → Type 0 where
  idle : Holds start 0 0 start
  acquires :
      (acquired released : ℕ) (s s' : Semaphore)
      → Holds start acquired released s
      → acquire s ≡ some s'
      → Holds start (acquired + 1) released s'
  releases :
      (acquired released : ℕ) (s s' : Semaphore)
      → Holds start acquired released s
      → release s ≡ some s'
      → Holds start acquired (released + 1) s'

module _ {T : Type 0} where
  -- What was sent is what was received and then the buffer; the buffer fits.
  record IsFifo (capacity : ℕ) (sent received : List T) (q : BoundedQueue T) : Type 0 where
    order : sent ≡ received ++ q.ch.buffer
    fits : length q.ch.buffer ≤ capacity
    same : q.ch.capacity ≡ capacity

  enqueue-IsFifo :
      (capacity : ℕ) (sent received : List T) (q q' : BoundedQueue T) (value : T)
      → IsFifo capacity sent received q
      → enqueue q value ≡ some q'
      → IsFifo capacity (sent ++ value ∷ []) received q'
  unfolding enqueue send
  enqueue-IsFifo capacity sent received q q' value h e = ground (
    arith,
    h.order,
    h.fits,
    h.same,
    append_assoc received q.ch.buffer (value ∷ []),
    length-append q.ch.buffer (value ∷ []),
  )

  dequeue_inv :
      (q q' : BoundedQueue T) (value : T)
      → dequeue q ≡ some (q', value)
      → (q.ch.buffer ≡ value ∷ q'.ch.buffer) × (q'.ch.capacity ≡ q.ch.capacity)
  unfolding dequeue receive
  dequeue_inv q q' value e = ground (arith, e)

  dequeue-IsFifo :
      (capacity : ℕ) (sent received : List T) (q q' : BoundedQueue T) (value : T)
      → IsFifo capacity sent received q
      → dequeue q ≡ some (q', value)
      → IsFifo capacity sent (received ++ value ∷ []) q'
  dequeue-IsFifo capacity sent received q q' value h e =
      let (taken, kept) = dequeue_inv q q' value e in
      record {
        order =
            h.order
            ∙ ap (λ l. received ++ l) taken
            ∙ sym (append_assoc received (value ∷ []) q'.ch.buffer);
        fits = omega (arith, h.fits, ap length taken);
        same = kept ∙ h.same;
      }

  Runs-IsFifo :
      (capacity : ℕ) (start : BoundedQueue T) (sent received : List T) (q : BoundedQueue T)
      → IsFifo capacity [] [] start
      → Runs start sent received q
      → IsFifo capacity sent received q
  Runs-IsFifo capacity start _ _ _ h begins = h
  Runs-IsFifo capacity start _ _ _ h (enqueues sent received q q' value run e) =
      enqueue-IsFifo capacity sent received q q' value
        (Runs-IsFifo capacity start sent received q h run) e
  Runs-IsFifo capacity start _ _ _ h (dequeues sent received q q' value run e) =
      dequeue-IsFifo capacity sent received q q' value
        (Runs-IsFifo capacity start sent received q h run) e

  new-IsFifo :
      (capacity : ℤ) (q : BoundedQueue T)
      → new capacity ≡ some q
      → IsFifo (pos_part capacity) [] [] q
  unfolding new
  new-IsFifo capacity q made = ground (arith, made)

  -- In every interleaving of producers and consumers on a new queue, the values dequeued, followed
  -- by those in the queue, are the values enqueued, in order; and the queue never holds more than
  -- its capacity.
  pub Runs_lem :
      (capacity : ℤ) (start q : BoundedQueue T) (sent received : List T)
      → new capacity ≡ some start
      → Runs start sent received q
      → (sent ≡ received ++ q.ch.buffer) × (length q.ch.buffer ≤ pos_part capacity)
  Runs_lem capacity start q sent received made run =
      let h =
        Runs-IsFifo (pos_part capacity) start sent received q (new-IsFifo capacity start made)
          run in
      (h.order, h.fits)

-- The permits in the channel are those acquired and not released; they fit.
record IsCounted (permits acquired released : ℕ) (s : Semaphore) : Type 0 where
  count : acquired ≡ released + length s.permits.buffer
  fits : length s.permits.buffer ≤ permits
  same : s.permits.capacity ≡ permits

acquire-IsCounted :
    (permits acquired released : ℕ) (s s' : Semaphore)
    → IsCounted permits acquired released s
    → acquire s ≡ some s'
    → IsCounted permits (acquired + 1) released s'
unfolding acquire send
acquire-IsCounted permits acquired released s s' h e =
    ground (arith, h.count, h.fits, h.same, length-append s.permits.buffer (true ∷ []))

release-IsCounted :
    (permits acquired released : ℕ) (s s' : Semaphore)
    → IsCounted permits acquired released s
    → release s ≡ some s'
    → IsCounted permits acquired (released + 1) s'
unfolding release receive
release-IsCounted permits acquired released s s' h e = ground (arith, h.count, h.fits, h.same, e)

Holds-IsCounted :
    (permits : ℕ) (start : Semaphore) (acquired released : ℕ) (s : Semaphore)
    → IsCounted permits 0 0 start
    → Holds start acquired released s
    → IsCounted permits acquired released s
Holds-IsCounted permits start _ _ _ h idle = h
Holds-IsCounted permits start _ _ _ h (acquires acquired released s s' run e) =
    acquire-IsCounted permits acquired released s s'
      (Holds-IsCounted permits start acquired released s h run) e
Holds-IsCounted permits start _ _ _ h (releases acquired released s s' run e) =
    release-IsCounted permits acquired released s s'
      (Holds-IsCounted permits start acquired released s h run) e

new_semaphore-IsCounted :
    (permits : ℤ) (s : Semaphore)
    → new_semaphore permits ≡ some s
    → IsCounted (pos_part permits) 0 0 s
unfolding new_semaphore
new_semaphore-IsCounted permits s made = ground (arith, made)

-- In every interleaving of goroutines on a new semaphore, no more permits are released than were
-- acquired, and those acquired and not released are never more than the semaphore's.
pub Holds_lem :
    (permits : ℤ) (start s : Semaphore) (acquired released : ℕ)
    → new_semaphore permits ≡ some start
    → Holds start acquired released s
    → (released ≤ acquired) × (acquired ≤ released + pos_part permits)
Holds_lem permits start s acquired released made run =
    let h =
      Holds-IsCounted (pos_part permits) start acquired released s
        (new_semaphore-IsCounted permits start made) run in
    (omega (arith, h.count), omega (arith, h.count, h.fits))
