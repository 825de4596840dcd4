-- ===== src/Allocator.antt =====
-- Pools of buffers: dot15d4-util/src/allocator.rs. A pointer is the number of a buffer of the pool,
-- a buffer token its pointer and length; the deques (heapless) are parameters. A waker is the
-- number of its task; `woken` lists the wakers that were woken. Layouts have an alignment of 1. The
-- contents of the buffers and the debug assertion of `deallocate` are left out.
pub mod Ownership
pub mod Allotment
mod Examples
use dot15d.Base.{
  ℕ, zero, suc, List, [], ◌∷◌, ◌++◌, Option, none, some, ltb, if◌then◌else◌, Outcome, returns,
  panics, ◌>>=◌, Result, ok, err,
}
use dot15d.Containers.{BoundedDeque}

-- BUFFER_SIZE, CAPACITY and the size of the backlog.
pub record PoolParams : Type 1 where
  pub buffer_size : ℕ
  pub capacity : ℕ
  pub backlog : ℕ
  pub free_deque : BoundedDeque ℕ capacity
  pub waker_deque : BoundedDeque ℕ backlog

pub record BufferToken : Type 0 where
  pub pointer : ℕ
  pub len : ℕ

pub record AsyncBufferAllocator (p : PoolParams) : Type 0 where
  pub free_list : p.free_deque.Deque
  pub wakers : p.waker_deque.Deque
  pub woken : List ℕ

module _ {p : PoolParams} where
  abbrev pub free_of : AsyncBufferAllocator p → List ℕ
  free_of s = p.free_deque.to_list s.free_list

  abbrev pub waiting_of : AsyncBufferAllocator p → List ℕ
  waiting_of s = p.waker_deque.to_list s.wakers

  -- `pop_front` of the free list
  abbrev pub popped :
      AsyncBufferAllocator p
      → p.free_deque.Deque × Option ℕ
      → AsyncBufferAllocator p × Result ℕ (Unit {0})
  popped s (free_list, none) = (record s { free_list = free_list }, err tt)
  popped s (free_list, some pointer) = (record s { free_list = free_list }, ok pointer)

  unfoldable pub allocate :
      AsyncBufferAllocator p → ℕ → AsyncBufferAllocator p × Result ℕ (Unit {0})
  allocate s size =
      let found = popped s (p.free_deque.pop_front s.free_list) in
      if ltb p.buffer_size size then (s, err tt) else found

  abbrev pub pushed :
      AsyncBufferAllocator p → Option p.free_deque.Deque → Outcome (AsyncBufferAllocator p)
  pushed s none = panics
  pushed s (some free_list) = returns (record s { free_list = free_list })

  unfoldable pub deallocate : AsyncBufferAllocator p → ℕ → Outcome (AsyncBufferAllocator p)
  deallocate s pointer = pushed s (p.free_deque.push_front s.free_list pointer)

  abbrev pub as_token :
      ℕ
      → AsyncBufferAllocator p × Result ℕ (Unit {0})
      → AsyncBufferAllocator p × Result BufferToken (Unit {0})
  as_token size (s, ok pointer) = (s, ok (record { pointer = pointer; len = size }))
  as_token size (s, err e) = (s, err e)

  -- `BufferAllocator::try_allocate_buffer`
  unfoldable pub allocate_token :
      AsyncBufferAllocator p → ℕ → AsyncBufferAllocator p × Result BufferToken (Unit {0})
  allocate_token s size = as_token size (allocate s size)

  abbrev pub wakers_queued :
      AsyncBufferAllocator p → Option p.waker_deque.Deque → Outcome (AsyncBufferAllocator p)
  wakers_queued s none = panics
  wakers_queued s (some wakers) = returns (record s { wakers = wakers })

  unfoldable pub push_waker : AsyncBufferAllocator p → ℕ → Outcome (AsyncBufferAllocator p)
  push_waker s waker = wakers_queued s (p.waker_deque.push_front s.wakers waker)

  abbrev pub allocated_or_queued :
      Option ℕ
      → AsyncBufferAllocator p × Result BufferToken (Unit {0})
      → Outcome (AsyncBufferAllocator p × Result BufferToken (Unit {0}))
  allocated_or_queued waker (s, ok token) = returns (s, ok token)
  allocated_or_queued none (s, err e) = returns (s, err e)
  allocated_or_queued (some waker) (s, err e) = push_waker s waker >>= λ t. returns (t, err e)

  unfoldable pub try_allocate_buffer :
      AsyncBufferAllocator p
      → ℕ
      → Option ℕ
      → Outcome (AsyncBufferAllocator p × Result BufferToken (Unit {0}))
  try_allocate_buffer s size waker = allocated_or_queued waker (allocate_token s size)

  abbrev pub woken_one :
      AsyncBufferAllocator p → p.waker_deque.Deque × Option ℕ → AsyncBufferAllocator p
  woken_one s (wakers, none) = record s { wakers = wakers }
  woken_one s (wakers, some waker) = record s { wakers = wakers; woken = s.woken ++ (waker ∷ []) }

  unfoldable pub deallocate_buffer :
      AsyncBufferAllocator p → BufferToken → Outcome (AsyncBufferAllocator p)
  deallocate_buffer s token = do
    t ← deallocate s token.pointer
    returns (woken_one t (p.waker_deque.pop_back t.wakers))

abbrev pub unwrap_deque : {D : Type 0} → Option D → Outcome D
unwrap_deque none = panics
unwrap_deque (some deque) = returns deque

-- The loop of `pin` over the buffers from a number on.
abbrev pub pin_loop : (p : PoolParams) → p.free_deque.Deque → ℕ → ℕ → Outcome p.free_deque.Deque
pin_loop p free_list i zero = returns free_list
pin_loop p free_list i (suc left) = do
  next ← unwrap_deque (p.free_deque.push_front free_list i)
  pin_loop p next (suc i) left

unfoldable pub pin : (p : PoolParams) → Outcome (AsyncBufferAllocator p)
pin p = do
  free_list ← pin_loop p p.free_deque.new 0 p.capacity
  returns (record { free_list = free_list; wakers = p.waker_deque.new; woken = [] })
