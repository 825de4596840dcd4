-- ===== src/Frame/Addressing/Fields/Partition.antt =====
-- The four fields make up the buffer.
use dot15d.Base.{
  ℕ, ◌+◌, ◌-◌, ◌≤◌, append_assoc, ◌≡◌, refl, inl, inr, Bool, true, false, List, [], ◌∷◌, ◌++◌, ◌==◌,
  if◌then◌else◌, length, take, drop, Option, some, none, returns, ok, err, arith, length-take,
  length-drop, take-add, take_all, ◌≢◌, Bool-cases,
}
use native.Mathlib.Nat.{zero-add}
use dot15d.Frame.Modes.{AddressingMode, mode_length}
use dot15d.Frame.Modes
use dot15d.Frame.Addressing.{Address, absent, short, extended, as_le_bytes, mode_of}
use dot15d.Frame.Addressing.Repr.{
  AddressingRepr, FieldLengths, PresentFlags, pan_id_length, addressing_fields_length,
  addressing_fields_lengths, address_present_flags,
}
use dot15d.Frame.Addressing.Fields.{
  AddressingFields, with_lengths, new, new_unchecked, slice, addr_of_slice, pan_id_of_slice,
  dst_pan_id, dst_address, src_pan_id, src_address,
}

-- The `count` bytes from `start` on.
abbrev pub part : List ℕ → ℕ → ℕ → List ℕ
part bytes start count = take count (drop start bytes)

add-sub : (a b : ℕ) → a + b - a ≡ b
add-sub a b = omega arith

pub part_of_slice :
    (bytes : List ℕ) (start count : ℕ)
    → start + count ≤ length bytes
    → (slice bytes start (start + count) ≡ returns (part bytes start count))
      × (length (part bytes start count) ≡ count)
part_of_slice bytes start count h = (
  rw (add-sub start count) (ground arith),
  omega (arith, length-take count (drop start bytes), length-drop start bytes),
)

abbrev pub pan_bytes : Option (List ℕ) → List ℕ
pan_bytes none = []
pan_bytes (some bytes) = bytes

abbrev pub is_some : Option (List ℕ) → Bool
is_some none = false
is_some (some _) = true

pan_id_of_slice_total :
    (xs : List ℕ) (present : Bool)
    → length xs ≡ pan_id_length present
    → (o : Option (List ℕ)) × (pan_id_of_slice xs ≡ returns o)
      × (pan_bytes o ≡ xs)
      × (is_some o ≡ present)
pan_id_of_slice_total [] false h = (none, refl, refl, refl)
pan_id_of_slice_total [] true h = absurd (omega arith)
pan_id_of_slice_total (x ∷ xs) false h = absurd (omega arith)
pan_id_of_slice_total (x ∷ xs) true h = (some (x ∷ xs), ground arith, refl, refl)

addr_of_slice_total :
    (xs : List ℕ) (mode : AddressingMode)
    → mode ≢ AddressingMode.unknown
    → length xs ≡ mode_length mode
    → (a : Address) × (addr_of_slice xs ≡ returns (some a))
      × (as_le_bytes a ≡ xs)
      × (mode_of a ≡ mode)
unfolding mode_length
addr_of_slice_total [] Modes.absent k h = (absent, refl, refl, refl)
addr_of_slice_total (x ∷ xs) Modes.absent k h = absurd (omega arith)
addr_of_slice_total xs Modes.short k h = (short xs, rw h refl, refl, refl)
addr_of_slice_total xs Modes.extended k h = (extended xs, rw h refl, refl, refl)
addr_of_slice_total xs AddressingMode.unknown k h = absurd (k refl)

abbrev pub lengths_of : PresentFlags → FieldLengths
lengths_of p = record {
  dst_pan_id = pan_id_length p.dst_pan_id;
  dst_address = mode_length p.dst_address;
  src_pan_id = pan_id_length p.src_pan_id;
  src_address = mode_length p.src_address;
}

abbrev pub total : FieldLengths → ℕ
total l = l.dst_pan_id + l.dst_address + l.src_pan_id + l.src_address

-- What the four accessors read: fields that are present as the flags say, and whose bytes, in
-- order, are the buffer up to the sum of their lengths.
pub record Reads (f : AddressingFields) (p : PresentFlags) : Type 0 where
  pub dst_pan : Option (List ℕ)
  pub dst : Address
  pub src_pan : Option (List ℕ)
  pub src : Address
  pub dst_pan_read : dst_pan_id f ≡ returns dst_pan
  pub dst_read : dst_address f ≡ returns (some dst)
  pub src_pan_read : src_pan_id f ≡ returns src_pan
  pub src_read : src_address f ≡ returns (some src)
  pub dst_pan_present : is_some dst_pan ≡ p.dst_pan_id
  pub dst_mode : mode_of dst ≡ p.dst_address
  pub src_pan_present : is_some src_pan ≡ p.src_pan_id
  pub src_mode : mode_of src ≡ p.src_address
  pub dst_sized : length (as_le_bytes dst) ≡ mode_length (mode_of dst)
  pub src_sized : length (as_le_bytes src) ≡ mode_length (mode_of src)
  pub whole :
      pan_bytes dst_pan ++ (as_le_bytes dst ++ (pan_bytes src_pan ++ as_le_bytes src))
      ≡ take (total (lengths_of p)) f.le_bytes

-- Four parts, one behind the other.
parts_whole :
    (bytes : List ℕ) (a b c d : ℕ)
    → part bytes 0 a ++ (part bytes a b ++ (part bytes (a + b) c ++ part bytes (a + b + c) d))
      ≡ take (a + b + c + d) bytes
parts_whole bytes a b c d =
    rw
      (
        take-add (a + b + c) d bytes,
        take-add (a + b) c bytes,
        take-add a b bytes,
        append_assoc (take a bytes ++ part bytes a b) (part bytes (a + b) c)
            (part bytes (a + b + c) d),
        append_assoc (take a bytes) (part bytes a b)
            (part bytes (a + b) c ++ part bytes (a + b + c) d),
      )
      refl

-- Of a buffer and a representation with known addressing modes `new` accepts exactly the buffers
-- whose length is the sum of the field lengths.
pub new_cases :
    (bytes : List ℕ) (repr : AddressingRepr) (p : PresentFlags)
    → address_present_flags repr ≡ ok p
    → new bytes repr ≡ (
        if length bytes == total (lengths_of p)
        then ok (with_lengths bytes (lengths_of p))
        else err tt)
unfolding new new_unchecked addressing_fields_length addressing_fields_lengths
new_cases bytes repr p e = ground arith

module _ (bytes : List ℕ) (p : PresentFlags) where
  pub reads :
      p.dst_address ≢ AddressingMode.unknown
      → p.src_address ≢ AddressingMode.unknown
      → total (lengths_of p) ≤ length bytes
      → Reads (with_lengths bytes (lengths_of p)) p
  unfolding dst_pan_id dst_address src_pan_id src_address
  reads k l h =
      let a = pan_id_length p.dst_pan_id in
      let b = mode_length p.dst_address in
      let c = pan_id_length p.src_pan_id in
      let d = mode_length p.src_address in
      let (s1, n1) = part_of_slice bytes 0 a (omega arith) in
      let (s2, n2) = part_of_slice bytes a b (omega arith) in
      let (s3, n3) = part_of_slice bytes (a + b) c (omega arith) in
      let (s4, n4) = part_of_slice bytes (a + b + c) d (omega arith) in
      let (dp, dpr, dpb, dpp) = pan_id_of_slice_total (part bytes 0 a) p.dst_pan_id n1 in
      let (da, dar, dab, dam) = addr_of_slice_total (part bytes a b) p.dst_address k n2 in
      let (sp, spr, spb, spp) = pan_id_of_slice_total (part bytes (a + b) c) p.src_pan_id n3 in
      let (sa, sar, sab, sam) = addr_of_slice_total (part bytes (a + b + c) d) p.src_address l n4 in
      record {
        dst_pan = dp;
        dst = da;
        src_pan = sp;
        src = sa;
        dst_pan_read = rw (rw (zero-add a) at s1) dpr;
        dst_read = rw s2 dar;
        src_pan_read = rw s3 spr;
        src_read = rw s4 sar;
        dst_pan_present = dpp;
        dst_mode = dam;
        src_pan_present = spp;
        src_mode = sam;
        dst_sized = rw (dab, dam) n2;
        src_sized = rw (sab, sam) n4;
        whole = rw (dpb, dab, spb, sab) (parts_whole bytes a b c d);
      }

-- If `new` accepts a buffer for known addressing modes, the four accessors do not panic: they read
-- the PAN IDs that the representation says are present and addresses of its modes; the bytes of
-- the four fields, in order, are the buffer up to the sum of their lengths, which is all of it.
pub new-Reads :
    (bytes : List ℕ) (repr : AddressingRepr) (p : PresentFlags) (f : AddressingFields)
    → address_present_flags repr ≡ ok p
    → p.dst_address ≢ AddressingMode.unknown
    → p.src_address ≢ AddressingMode.unknown
    → new bytes repr ≡ ok f
    → Reads f p × (f.le_bytes ≡ bytes) × (take (total (lengths_of p)) bytes ≡ bytes)
new-Reads bytes repr p f e k l n = elim (Bool-cases (length bytes == total (lengths_of p))) [
  | inl fits ↦
      let same : f ≡ with_lengths bytes (lengths_of p) = cc (n, new_cases bytes repr p e, fits) in
      let len : length bytes ≡ total (lengths_of p) = ground arith in
      rw same (reads bytes p k l (omega arith), refl, take_all _ bytes len)
  | inr wrong ↦ cc (n, new_cases bytes repr p e, wrong)
]
