-- ===== src/Mac/Data/Examples.antt =====
-- The theorems on the MAC's data service at concrete inputs.
use dot15d.Base.{ℕ, ◌≡◌, refl, List, [], ◌∷◌, panics, arith}
use dot15d.Containers.Listed.{listed_deque}
use dot15d.Allocator.{PoolParams, BufferToken, AsyncBufferAllocator}
use dot15d.Allocator.Ownership.{Owned, Owned-take}
use dot15d.Frame.Radio.{Config, max_buffer_length}
use dot15d.Mpdu.Frame.{MpduFrame}
use dot15d.Radio.{SizedFrame, RxResult, frame, crc_failed}
use dot15d.Driver.{rx_done}
use dot15d.Mac.{drv_svc_response}
use dot15d.Mac.Data.{tx_task, waiting_for_frame, step_indication}
use dot15d.Mac.Data.Indications.{ReceivesAll, step_indication-ReceivesAll, step_indication_panics}

abbrev mac_config : Config
mac_config = record { headroom = 1; tailroom = 0; max_sdu = 127; fcs = 2 }

-- The channel is busy for a frame of three octets.
abbrev short_mpdu : MpduFrame
short_mpdu = record {
  pointer = 5;
  buffer = 0 ∷ 1 ∷ 0 ∷ 9 ∷ 0 ∷ 0 ∷ [];
  offset = 1;
  length_wo_fcs = 3;
}

abbrev unsent_frame : SizedFrame
unsent_frame = (tx_task mac_config short_mpdu).radio_frame

-- A pool of two buffers, the first of which is held.
abbrev rx_pool : PoolParams
rx_pool = record {
  buffer_size = 128;
  capacity = 2;
  backlog = 1;
  free_deque = listed_deque ℕ 2;
  waker_deque = listed_deque ℕ 1;
}

pool_free : Owned 2 (0 ∷ 1 ∷ []) []
pool_free = record {
  distinct_free = (refl, (refl, tt));
  distinct_held = tt;
  apart = λ j c. refl;
  free_below = λ j c. ground arith;
  held_below = λ j c. absurd (grind arith);
  all = refl;
}

abbrev one_free : AsyncBufferAllocator rx_pool
one_free = record { free_list = 1 ∷ []; wakers = []; woken = [] }

abbrev none_free : AsyncBufferAllocator rx_pool
none_free = record { free_list = []; wakers = []; woken = [] }

abbrev no_bytes : BufferToken → List ℕ
no_bytes token = []

abbrev received : SizedFrame
received = record {
  pointer = 0;
  frame = record {
    headroom = 1;
    offset_fcs = 4;
    length_fcs = 2;
    buffer = 5 ∷ 1 ∷ 0 ∷ 9 ∷ 0 ∷ 0 ∷ [];
  };
}

-- A reception with a CRC error and one of a frame.
abbrev receptions : List RxResult
receptions = crc_failed (record { pointer = 0; frame = received.frame }) ∷ frame received ∷ []

buffers_fit : max_buffer_length mac_config ≡ 128
unfolding max_buffer_length
buffers_fit = refl

step_indication-ReceivesAll_example : ReceivesAll mac_config no_bytes receptions one_free (0 ∷ [])
step_indication-ReceivesAll_example =
    step_indication-ReceivesAll mac_config no_bytes receptions one_free (0 ∷ [])
      (Owned-take 2 0 (1 ∷ []) [] pool_free) (omega arith) (omega (arith, buffers_fit))

step_indication_panics_example :
    step_indication mac_config no_bytes none_free waiting_for_frame
      (drv_svc_response (rx_done (frame received)))
    ≡ panics
step_indication_panics_example =
    step_indication_panics mac_config no_bytes none_free (1 ∷ 0 ∷ []) received
      (Owned-take 2 1 [] (0 ∷ []) (Owned-take 2 0 (1 ∷ []) [] pool_free)) refl
