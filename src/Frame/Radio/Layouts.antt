-- ===== src/Frame/Radio/Layouts.antt =====
-- The two descriptions of a radio frame agree, and their parts tile the buffer.
use dot15d.Base.{
  ℕ, ◌+◌, ◌≤◌, ◌<◌, ◌≡◌, refl, ap, not, ◌&&◌, List, [], ◌∷◌, length, some, none, returns, arith,
  ◌==◌, if◌then◌else◌,
}
use dot15d.Frame.Control.Header.{header}
use dot15d.Frame.Control.Fields.{raw, readers}
use dot15d.Frame.Addressing.Fields.Partition.{part, part_of_slice}
use dot15d.Frame.Radio.{Config, saturating_add, max_buffer_length, driver_overhead}
use dot15d.Frame.Radio.Described
use dot15d.Frame.Radio.Buffered

-- A configuration whose lengths fit, and an SDU length within it.
pub record Fits (c : Config) (sdu : ℕ) : Type 0 where
  pub overhead : c.headroom + c.tailroom < 256
  pub total : c.max_sdu + c.headroom + c.tailroom < 65536
  pub positive : 0 < sdu
  pub sdu_fits : sdu + c.fcs ≤ c.max_sdu

-- The six numbers of a radio frame that both descriptions give.
module _ (c : Config) (sdu : ℕ) (fits : Fits c sdu) (buffer : List ℕ) where
  abbrev pub described : Described.RadioFrameRepr
  described = Described.new_sized c sdu

  abbrev pub frame : Buffered.RadioFrame
  frame = Buffered.with_size (Buffered.new c buffer) sdu

  abbrev pub Agree : Type 0
  Agree =
      (Described.offset_fcs c described ≡ returns (frame.offset_fcs))
      × (Described.offset_tailroom c described ≡ returns (Buffered.offset_tailroom frame))
      × (described.sdu_length ≡ some (Buffered.sdu_length frame))
      × (Described.sdu_length_wo_fcs c described ≡ returns (Buffered.sdu_wo_fcs_length frame))
      × (Described.sdu_range_wo_fcs c described ≡ returns (Buffered.sdu_range_wo_fcs frame))
      × (Described.fcs_range c described ≡ returns (Buffered.fcs_range frame))

  -- For an SDU length that fits the configuration, `RadioFrameRepr` and a sized `RadioFrame` agree
  -- on the offsets, the SDU lengths, the SDU range and the range of the FCS.
  pub layouts_agree : Agree
  unfolding Described.new_sized Described.offset_tailroom Described.offset_fcs
      Described.sdu_length_wo_fcs Described.sdu_range_wo_fcs Described.fcs_range Buffered.new
      Buffered.with_size Buffered.offset_tailroom Buffered.sdu_length Buffered.sdu_wo_fcs_length
      Buffered.sdu_range_wo_fcs Buffered.fcs_range
  layouts_agree =
      let t = fits.total in
      let s = fits.sdu_fits in
      (
        ap returns (omega arith),
        ap returns (omega arith),
        ap some (omega arith),
        ap returns (omega arith),
        ap (λ (n : ℕ). returns (c.headroom, n)) (omega arith),
        ground arith,
      )

  abbrev pub Tiles : Type 0
  Tiles =
      (Described.headroom_range c described ≡ (0, c.headroom))
      × (Described.sdu_range_wo_fcs c described ≡ returns (c.headroom, c.headroom + sdu))
      × (Described.fcs_range c described
          ≡ returns
              (if c.fcs == 0 then none else some (c.headroom + sdu, c.headroom + sdu + c.fcs)))
      × (Described.tailroom_range c described
          ≡ returns (c.headroom + sdu + c.fcs, c.headroom + sdu + c.fcs + c.tailroom))
      × (Described.pdu_range c described ≡ returns (0, c.headroom + sdu + c.fcs + c.tailroom))
      × (c.headroom + sdu + c.fcs + c.tailroom ≤ max_buffer_length c)

  -- The headroom, the SDU, the FCS where there is one, and the tailroom follow one another from 0
  -- to the length of the PDU, which is at most the maximal buffer length.
  pub ranges_tile : Tiles
  unfolding Described.new_sized Described.offset_tailroom Described.pdu_length
      Described.headroom_range Described.sdu_range_wo_fcs Described.fcs_range
      Described.tailroom_range Described.pdu_range Described.offset_fcs max_buffer_length
      driver_overhead
  ranges_tile =
      let t = fits.total in
      let s = fits.sdu_fits in
      let o = fits.overhead in
      (
        refl,
        ap (λ (n : ℕ). returns (c.headroom, n)) (omega arith),
        ground arith,
        ground arith,
        ap (λ (n : ℕ). returns (0, n)) (omega arith),
        omega arith,
      )

  -- A buffer that holds the headroom and the SDU gives out exactly the SDU's bytes, without a panic.
  pub sdu_ref-part :
      c.headroom + sdu ≤ length buffer
      → (Buffered.sdu_ref frame ≡ returns (part buffer c.headroom sdu))
        × (length (part buffer c.headroom sdu) ≡ sdu)
  unfolding Buffered.sdu_ref Buffered.new Buffered.with_size
  sdu_ref-part h =
      let t = fits.total in
      let s = fits.sdu_fits in
      let end : saturating_add sdu c.headroom ≡ c.headroom + sdu = omega arith in
      let (read, len) = part_of_slice buffer c.headroom sdu h in (rw end read, len)

-- With a headroom of one byte, `ack_seq_num` is the byte behind the header where the header
-- requests an acknowledgement and does not suppress the sequence number, and nothing otherwise.
pub ack_seq_num-header :
    (f : Buffered.RadioFrame) (size b0 b1 seq : ℕ) (rest : List ℕ)
    → f.headroom ≡ 1
    → f.buffer ≡ size ∷ b0 ∷ b1 ∷ seq ∷ rest
    → Buffered.ack_seq_num f
      ≡ returns (
          if (header (raw b0 b1 [])).ack_request == 1
            && not ((header (raw b0 b1 [])).sequence_number_suppression == 1)
          then some seq
          else none)
unfolding Buffered.ack_seq_num
ack_seq_num-header f size b0 b1 seq rest h b =
    let (_, _, _, requested, _, suppressed, _, _, _, _) = readers b0 b1 [] in
    rw (h, b, requested, suppressed) (ground arith)
