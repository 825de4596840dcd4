-- ===== src/Frame/Addressing/Fields/Mutable.antt =====
-- The accessors of the addressing fields that borrow mutably.
use dot15d.Base.{
  ℕ, ◌≡◌, ◌≢◌, refl, ap, ◌⊎◌, inl, inr, List, ◌==◌, length, some, returns, panics, ok, arith,
  Bool-cases,
}
use dot15d.Frame.Modes.{AddressingMode, mode_length}
use dot15d.Frame.Modes
use dot15d.Frame.Addressing.{extended}
use dot15d.Frame.Addressing.Repr.{
  AddressingRepr, PresentFlags, pan_id_length, address_present_flags,
}
use dot15d.Frame.Addressing.Fields.{
  AddressingFields, with_lengths, new, addr_of_slice, addr_of_slice_mut, dst_address,
  dst_address_mut, dst_pan_id, dst_pan_id_mut, src_pan_id, src_pan_id_mut,
}
use dot15d.Frame.Addressing.Fields.Partition.{part, part_of_slice, lengths_of, total, new_cases}

-- The mutable accessor of an extended address panics; on a short or an absent one it agrees with
-- the accessor that only reads.
pub addr_of_slice_mut_cases :
    (xs : List ℕ) (mode : AddressingMode)
    → mode ≢ AddressingMode.unknown
    → length xs ≡ mode_length mode
    → ((mode ≡ Modes.extended) × (addr_of_slice_mut xs ≡ panics))
      ⊎ ((mode ≢ Modes.extended) × (addr_of_slice_mut xs ≡ addr_of_slice xs))
unfolding mode_length
addr_of_slice_mut_cases xs Modes.absent k h = inr (λ e. cc, rw h refl)
addr_of_slice_mut_cases xs Modes.short k h = inr (λ e. cc, rw h refl)
addr_of_slice_mut_cases xs Modes.extended k h = inl (refl, rw h refl)
addr_of_slice_mut_cases xs AddressingMode.unknown k h = absurd (k refl)

-- An extended address is read, and panics when it is borrowed mutably.
extended_slice :
    (xs : List ℕ)
    → length xs ≡ 8
    → (addr_of_slice xs ≡ returns (some (extended xs))) × (addr_of_slice_mut xs ≡ panics)
extended_slice xs h = (rw h refl, rw h refl)

-- A buffer that `new` accepts and whose destination mode is extended: reading the destination
-- returns an address, and borrowing it mutably panics.
pub dst_address_mut_panics :
    (bytes : List ℕ) (repr : AddressingRepr) (p : PresentFlags) (f : AddressingFields)
    → address_present_flags repr ≡ ok p
    → p.dst_address ≡ Modes.extended
    → new bytes repr ≡ ok f
    → (dst_address_mut f ≡ panics)
      × (dst_address f ≡ returns (some (extended (part bytes (pan_id_length p.dst_pan_id) 8))))
unfolding dst_address_mut dst_address mode_length
dst_address_mut_panics bytes repr p f e k n =
    elim (Bool-cases (length bytes == total (lengths_of p))) [
      | inl fits ↦
          let same : f ≡ with_lengths bytes (lengths_of p) =
            cc (n, new_cases bytes repr p e, fits) in
          let start = pan_id_length p.dst_pan_id in
          let eight : mode_length p.dst_address ≡ 8 = ap mode_length k in
          let long : length bytes ≡ total (lengths_of p) = ground arith in
          let (s, m) = part_of_slice bytes start 8 (omega arith) in
          let (a, b) = extended_slice (part bytes start 8) m in rw (same, k, s) (b, a)
      | inr wrong ↦ cc (n, new_cases bytes repr p e, wrong)
    ]

-- The accessors that borrow a PAN ID mutably agree with those that read it.
pub pan_id_mut_same :
    (f : AddressingFields) → (dst_pan_id_mut f ≡ dst_pan_id f) × (src_pan_id_mut f ≡ src_pan_id f)
unfolding dst_pan_id_mut dst_pan_id src_pan_id_mut src_pan_id
pan_id_mut_same f = (refl, refl)
