-- ===== src/Frame/Addressing/Fields/Unchecked.antt =====
-- Addressing fields at the start of a longer buffer, as `new_unchecked` makes them.
use dot15d.Base.{ℕ, ◌≤◌, ◌≡◌, ◌≢◌, refl, List, length, Bool, ok, err, arith, sym, ◌∙◌}
use dot15d.Frame.Modes.{AddressingMode}
use dot15d.Frame.Addressing.Repr.{
  AddressingRepr, PresentFlags, addressing_fields_lengths, address_present_flags, pan_id_length,
}
use dot15d.Frame.Addressing.Repr.Presence.{address_present_flags-modes, mode_length-le}
use dot15d.Frame.Addressing.Fields.{with_lengths, new_unchecked}
use dot15d.Frame.Addressing.Fields.Partition.{Reads, reads, lengths_of}

pub addressing_fields_lengths-ok :
    (r : AddressingRepr) (p : PresentFlags)
    → address_present_flags r ≡ ok p
    → addressing_fields_lengths r ≡ ok (lengths_of p)
unfolding addressing_fields_lengths
addressing_fields_lengths-ok r p e = rw (e, addressing_fields_lengths) refl

pub addressing_fields_lengths-err :
    (r : AddressingRepr) → address_present_flags r ≡ err tt → addressing_fields_lengths r ≡ err tt
unfolding addressing_fields_lengths
addressing_fields_lengths-err r e = rw (e, addressing_fields_lengths) refl

pub new_unchecked-ok :
    (bytes : List ℕ) (r : AddressingRepr) (p : PresentFlags)
    → address_present_flags r ≡ ok p
    → new_unchecked bytes r ≡ ok (with_lengths bytes (lengths_of p))
unfolding new_unchecked
new_unchecked-ok bytes r p e = rw (addressing_fields_lengths-ok r p e, new_unchecked) refl

pan_id_length-le : (present : Bool) → pan_id_length present ≤ 2
pan_id_length-le present = ground arith

-- A buffer of 20 bytes has room for the fields of any representation with known modes, and the
-- accessors read them.
pub readable :
    (bytes : List ℕ) (r : AddressingRepr) (p : PresentFlags)
    → r.dst ≢ AddressingMode.unknown
    → r.src ≢ AddressingMode.unknown
    → address_present_flags r ≡ ok p
    → 20 ≤ length bytes
    → Reads (with_lengths bytes (lengths_of p)) p
readable bytes r p k l e h =
    let (d, s) = address_present_flags-modes r p k l e in
    reads bytes p (λ u. k (sym d ∙ u)) (λ u. l (sym s ∙ u))
      (omega (
        arith,
        mode_length-le p.dst_address,
        mode_length-le p.src_address,
        pan_id_length-le p.dst_pan_id,
        pan_id_length-le p.src_pan_id,
      ))
