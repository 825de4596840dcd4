-- ===== src/Frame/Control/Header.antt =====
-- The sixteen bits of the frame control field as a record, and each setter as an update of it.
use Prim.Native.Nat.{bit_and, bit_or}
use dot15d.Base.{ℕ, ◌+◌, ◌*◌, ◌/◌, ◌%◌, ◌^◌, ◌<◌, ◌≡◌, refl, ap, ◌∙◌, arith}
use dot15d.Base.Bits.{replace_field_at, set_bit_at, low_field}

pub record Header : Type 0 where
  pub frame_type : ℕ
  pub security_enabled : ℕ
  pub frame_pending : ℕ
  pub ack_request : ℕ
  pub pan_id_compression : ℕ
  pub reserved : ℕ
  pub sequence_number_suppression : ℕ
  pub information_elements_present : ℕ
  pub dst_addressing_mode : ℕ
  pub frame_version : ℕ
  pub src_addressing_mode : ℕ

abbrev pub header : ℕ → Header
header raw = record {
  frame_type = raw % 8;
  security_enabled = raw / 2 ^ 3 % 2;
  frame_pending = raw / 2 ^ 4 % 2;
  ack_request = raw / 2 ^ 5 % 2;
  pan_id_compression = raw / 2 ^ 6 % 2;
  reserved = raw / 2 ^ 7 % 2;
  sequence_number_suppression = raw / 2 ^ 8 % 2;
  information_elements_present = raw / 2 ^ 9 % 2;
  dst_addressing_mode = raw / 2 ^ 10 % 4;
  frame_version = raw / 2 ^ 12 % 4;
  src_addressing_mode = raw / 2 ^ 14 % 4;
}

pub mask_one : (a : ℕ) → bit_and a 0b1 ≡ a % 2
mask_one a = ap (λ (t : ℕ). bit_and t 0b1) (omega arith) ∙ low_field 1 (a % 2) (a / 2) (omega arith)

pub mask_three : (a : ℕ) → bit_and a 0b11 ≡ a % 4
mask_three a =
    ap (λ (t : ℕ). bit_and t 0b11) (omega arith) ∙ low_field 2 (a % 4) (a / 4) (omega arith)

pub mask_seven : (a : ℕ) → bit_and a 0b111 ≡ a % 8
mask_seven a =
    ap (λ (t : ℕ). bit_and t 0b111) (omega arith) ∙ low_field 3 (a % 8) (a / 8) (omega arith)

pub replace_type :
    (raw v : ℕ)
    → raw < 65536
    → v < 8
    → (bit_or (bit_and raw 0xfff8) (v) < 65536)
      × (header (bit_or (bit_and raw 0xfff8) (v)) ≡ record (header raw) { frame_type = v })
replace_type raw v h k = rw whole (omega arith, ground arith)
  where
    whole : bit_or (bit_and raw 0xfff8) (v) ≡ 0 + (v + raw / 8 * 2 ^ 3) * 2 ^ 0
    whole =
        replace_field_at 0 3 13 (0) (raw % 8) (raw / 8) v (omega arith) refl (omega arith)
          (omega arith) (omega arith) k (omega arith)

pub replace_dst :
    (raw v : ℕ)
    → raw < 65536
    → v < 4
    → (bit_or (bit_and raw 0xf3ff) (v * 2 ^ 10) < 65536)
      × (header (bit_or (bit_and raw 0xf3ff) (v * 2 ^ 10))
          ≡ record (header raw) { dst_addressing_mode = v })
replace_dst raw v h k = rw whole (omega arith, ground arith)
  where
    whole :
        bit_or (bit_and raw 0xf3ff) (v * 2 ^ 10) ≡ raw % 1024 + (v + raw / 4096 * 2 ^ 2) * 2 ^ 10
    whole =
        replace_field_at 10 2 4 (raw % 1024) (raw / 1024 % 4) (raw / 4096) v (omega arith) refl
          (omega arith) (omega arith) (omega arith) k (omega arith)

pub replace_version :
    (raw v : ℕ)
    → raw < 65536
    → v < 4
    → (bit_or (bit_and raw 0xcfff) (v * 2 ^ 12) < 65536)
      × (header (bit_or (bit_and raw 0xcfff) (v * 2 ^ 12))
          ≡ record (header raw) { frame_version = v })
replace_version raw v h k = rw whole (omega arith, ground arith)
  where
    whole :
        bit_or (bit_and raw 0xcfff) (v * 2 ^ 12) ≡ raw % 4096 + (v + raw / 16384 * 2 ^ 2) * 2 ^ 12
    whole =
        replace_field_at 12 2 2 (raw % 4096) (raw / 4096 % 4) (raw / 16384) v (omega arith) refl
          (omega arith) (omega arith) (omega arith) k (omega arith)

pub replace_src :
    (raw v : ℕ)
    → raw < 65536
    → v < 4
    → (bit_or (bit_and raw 0x3fff) (v * 2 ^ 14) < 65536)
      × (header (bit_or (bit_and raw 0x3fff) (v * 2 ^ 14))
          ≡ record (header raw) { src_addressing_mode = v })
replace_src raw v h k = rw whole (omega arith, ground arith)
  where
    whole :
        bit_or (bit_and raw 0x3fff) (v * 2 ^ 14) ≡ raw % 16384 + (v + raw / 65536 * 2 ^ 2) * 2 ^ 14
    whole =
        replace_field_at 14 2 0 (raw % 16384) (raw / 16384 % 4) (raw / 65536) v (omega arith) refl
          (omega arith) (omega arith) (omega arith) k (omega arith)

pub raise_security_enabled :
    (raw : ℕ)
    → raw < 65536
    → (bit_or raw (1 * 2 ^ 3) < 65536)
      × (header (bit_or raw (1 * 2 ^ 3)) ≡ record (header raw) { security_enabled = 1 })
raise_security_enabled raw h = rw whole (omega arith, ground arith)
  where
    whole : bit_or raw (1 * 2 ^ 3) ≡ raw % 8 + (1 + raw / 16 * 2 ^ 1) * 2 ^ 3
    whole =
        set_bit_at 3 (raw % 8) (raw / 8 % 2) (raw / 16) (omega arith) refl (omega arith)
          (omega arith)

pub raise_frame_pending :
    (raw : ℕ)
    → raw < 65536
    → (bit_or raw (1 * 2 ^ 4) < 65536)
      × (header (bit_or raw (1 * 2 ^ 4)) ≡ record (header raw) { frame_pending = 1 })
raise_frame_pending raw h = rw whole (omega arith, ground arith)
  where
    whole : bit_or raw (1 * 2 ^ 4) ≡ raw % 16 + (1 + raw / 32 * 2 ^ 1) * 2 ^ 4
    whole =
        set_bit_at 4 (raw % 16) (raw / 16 % 2) (raw / 32) (omega arith) refl (omega arith)
          (omega arith)

pub raise_ack_request :
    (raw : ℕ)
    → raw < 65536
    → (bit_or raw (1 * 2 ^ 5) < 65536)
      × (header (bit_or raw (1 * 2 ^ 5)) ≡ record (header raw) { ack_request = 1 })
raise_ack_request raw h = rw whole (omega arith, ground arith)
  where
    whole : bit_or raw (1 * 2 ^ 5) ≡ raw % 32 + (1 + raw / 64 * 2 ^ 1) * 2 ^ 5
    whole =
        set_bit_at 5 (raw % 32) (raw / 32 % 2) (raw / 64) (omega arith) refl (omega arith)
          (omega arith)

pub raise_pan_id_compression :
    (raw : ℕ)
    → raw < 65536
    → (bit_or raw (1 * 2 ^ 6) < 65536)
      × (header (bit_or raw (1 * 2 ^ 6)) ≡ record (header raw) { pan_id_compression = 1 })
raise_pan_id_compression raw h = rw whole (omega arith, ground arith)
  where
    whole : bit_or raw (1 * 2 ^ 6) ≡ raw % 64 + (1 + raw / 128 * 2 ^ 1) * 2 ^ 6
    whole =
        set_bit_at 6 (raw % 64) (raw / 64 % 2) (raw / 128) (omega arith) refl (omega arith)
          (omega arith)

pub raise_sequence_number_suppression :
    (raw : ℕ)
    → raw < 65536
    → (bit_or raw (1 * 2 ^ 8) < 65536)
      × (header (bit_or raw (1 * 2 ^ 8)) ≡ record (header raw) { sequence_number_suppression = 1 })
raise_sequence_number_suppression raw h = rw whole (omega arith, ground arith)
  where
    whole : bit_or raw (1 * 2 ^ 8) ≡ raw % 256 + (1 + raw / 512 * 2 ^ 1) * 2 ^ 8
    whole =
        set_bit_at 8 (raw % 256) (raw / 256 % 2) (raw / 512) (omega arith) refl (omega arith)
          (omega arith)

pub raise_information_elements_present :
    (raw : ℕ)
    → raw < 65536
    → (bit_or raw (1 * 2 ^ 9) < 65536)
      × (header (bit_or raw (1 * 2 ^ 9)) ≡ record (header raw) { information_elements_present = 1 })
raise_information_elements_present raw h = rw whole (omega arith, ground arith)
  where
    whole : bit_or raw (1 * 2 ^ 9) ≡ raw % 512 + (1 + raw / 1024 * 2 ^ 1) * 2 ^ 9
    whole =
        set_bit_at 9 (raw % 512) (raw / 512 % 2) (raw / 1024) (omega arith) refl (omega arith)
          (omega arith)
