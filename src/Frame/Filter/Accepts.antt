-- ===== src/Frame/Filter/Accepts.antt =====
-- Which frames the receiver's filter accepts.
use dot15d.Base.{
  ℕ, ◌≡◌, refl, Bool, ◌&&◌, ◌||◌, List, length, drop, some, returns, arith, bytes_eq, reverse,
  length-drop,
}
use dot15d.Frame.Modes.{mode_length}
use dot15d.Frame.Control.{FrameControl, is_valid}
use dot15d.Frame.Addressing.{
  Address, absent, short, extended, is_broadcast, into_be_bytes_8, as_le_bytes, mode_of,
  broadcast_addr_data,
}
use dot15d.Frame.Addressing.Repr.{PresentFlags}
use dot15d.Frame.Addressing.Fields.{AddressingFields}
use dot15d.Frame.Addressing.Fields.Partition.{Reads}
use dot15d.Frame.Filter.{
  PreliminaryFrameInfo, is_frame_valid_and_for_us, unwrap_or_broadcast, check_destination,
  check_address,
}

-- A destination that the filter accepts: the PAN ID in the frame, or the broadcast one where there
-- is none, is the MAC's or the broadcast one; and the address is the broadcast address, the last
-- two bytes of the big-endian hardware address, the hardware address itself, or absent where that
-- is an implicit broadcast.
abbrev pub address_for_us : Bool → List ℕ → Address → Bool
address_for_us implicit hardware absent = implicit
address_for_us implicit hardware (short addr) =
    bytes_eq addr broadcast_addr_data || bytes_eq (reverse (drop 6 hardware)) addr
address_for_us implicit hardware (extended addr) = bytes_eq hardware (reverse addr)

abbrev pub pan_for_us : List ℕ → List ℕ → Bool
pan_for_us mac_pan_id pan_id = bytes_eq pan_id mac_pan_id || bytes_eq pan_id broadcast_addr_data

module _ (mac_pan_id : List ℕ) (implicit : Bool) (hardware : List ℕ)
    (eight : length hardware ≡ 8) where
  address_checked :
      (a : Address)
      → length (as_le_bytes a) ≡ mode_length (mode_of a)
      → check_address mac_pan_id implicit hardware (some a)
        ≡ returns (address_for_us implicit hardware a)
  unfolding is_broadcast into_be_bytes_8 mode_length
  address_checked absent s = refl
  address_checked (short addr) s = rw (length-drop 6 hardware, eight) (ground arith)
  address_checked (extended addr) s = rw s refl

  destination_checked :
      (f : AddressingFields) (p : PresentFlags) (r : Reads f p)
      → check_destination mac_pan_id implicit hardware f
        ≡ returns (
            pan_for_us mac_pan_id (unwrap_or_broadcast r.dst_pan)
            && address_for_us implicit hardware r.dst)
  destination_checked f p r =
      rw (r.dst_pan_read, r.dst_read, address_checked r.dst r.dst_sized) (ground arith)

  -- Of a frame whose header and addressing fields are there, the filter accepts it exactly where
  -- the header is valid and its PAN ID and address are for this device; it does not panic.
  pub filter_cases :
      (info : PreliminaryFrameInfo) (fc : FrameControl) (valid : Bool) (f : AddressingFields)
      (p : PresentFlags)
      → info.frame_control ≡ some fc
      → info.addressing_fields ≡ some f
      → is_valid fc ≡ returns valid
      → (r : Reads f p)
      → is_frame_valid_and_for_us mac_pan_id implicit hardware info
        ≡ returns (
            valid
            && (pan_for_us mac_pan_id (unwrap_or_broadcast r.dst_pan)
                && address_for_us implicit hardware r.dst))
  unfolding is_frame_valid_and_for_us
  filter_cases info fc valid f p e1 e2 v r =
      rw (e1, e2, v, destination_checked f p r) (ground arith)
