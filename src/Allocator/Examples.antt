-- ===== src/Allocator/Examples.antt =====
-- The theorems on the buffer pools at concrete inputs.
use dot15d.Base.{ℕ, ◌≡◌, refl, [], ◌∷◌, some, arith, returns}
use dot15d.Containers.Listed.{listed_deque}
use dot15d.Allocator.{
  PoolParams, BufferToken, AsyncBufferAllocator, free_of, try_allocate_buffer, deallocate_buffer,
}
use dot15d.Allocator.Ownership.{Owned, Owned-take}
use dot15d.Allocator.Allotment.{
  Allots, WakesOldest, try_allocate_buffer-Allots, deallocate_buffer-Owned,
}

-- Two buffers of four octets, and one waker
abbrev small_pool : PoolParams
small_pool = record {
  buffer_size = 4;
  capacity = 2;
  backlog = 1;
  free_deque = listed_deque ℕ 2;
  waker_deque = listed_deque ℕ 1;
}

abbrev pinned_pool : AsyncBufferAllocator small_pool
pinned_pool = record { free_list = 1 ∷ 0 ∷ []; wakers = []; woken = [] }

pinned_pool-Owned : Owned 2 (1 ∷ 0 ∷ []) []
pinned_pool-Owned = record {
  distinct_free = (refl, (refl, tt));
  distinct_held = tt;
  apart = λ j c. refl;
  free_below = λ j c. ground arith;
  held_below = λ j c. absurd (grind arith);
  all = refl;
}

try_allocate_buffer-Allots_example :
    Allots pinned_pool [] 3 (some 7) (try_allocate_buffer pinned_pool 3 (some 7))
try_allocate_buffer-Allots_example =
    try_allocate_buffer-Allots pinned_pool [] 3 (some 7) pinned_pool-Owned

-- Buffer 1 is held, and task 7 waits.
abbrev contended_pool : AsyncBufferAllocator small_pool
contended_pool = record { free_list = 0 ∷ []; wakers = 7 ∷ []; woken = [] }

abbrev held_token : BufferToken
held_token = record { pointer = 1; len = 3 }

deallocate_buffer-Owned_example :
    (s' : AsyncBufferAllocator small_pool) × (deallocate_buffer contended_pool held_token
      ≡ returns s')
    × (free_of s' ≡ 1 ∷ 0 ∷ [])
    × Owned 2 (free_of s') []
    × WakesOldest contended_pool s'
deallocate_buffer-Owned_example =
    deallocate_buffer-Owned contended_pool (1 ∷ []) 0 held_token
      (Owned-take 2 1 (0 ∷ []) [] pinned_pool-Owned) refl
