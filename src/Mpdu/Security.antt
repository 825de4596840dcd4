-- ===== src/Mpdu/Security.antt =====
-- The lengths of the sequence number and of the security fields: dot15d4-frame/src/repr/seq_nr.rs
-- and security.rs.
use dot15d.Base.{ℕ, ◌+◌, Bool, if◌then◌else◌}

pub data SeqNrRepr : Type 0 where
  seq_nr_no seq_nr_yes : SeqNrRepr

unfoldable pub seq_nr_length : SeqNrRepr → ℕ
seq_nr_length seq_nr_no = 0
seq_nr_length seq_nr_yes = 1

pub data SecurityLevelRepr : Type 0 where
  mic_32 mic_64 mic_128 enc_mic_32 enc_mic_64 enc_mic_128 : SecurityLevelRepr

unfoldable pub level_mic_length : SecurityLevelRepr → ℕ
level_mic_length mic_32 = 4
level_mic_length enc_mic_32 = 4
level_mic_length mic_64 = 8
level_mic_length enc_mic_64 = 8
level_mic_length mic_128 = 16
level_mic_length enc_mic_128 = 16

pub data KeyIdRepr : Type 0 where
  implicit source_none source_4_byte source_8_byte : KeyIdRepr

unfoldable pub key_id_length : KeyIdRepr → ℕ
key_id_length implicit = 0
key_id_length source_none = 1
key_id_length source_4_byte = 5
key_id_length source_8_byte = 9

pub record SecurityRepr : Type 0 where
  pub tsch_mode : Bool
  pub security_level : SecurityLevelRepr
  pub key_id : KeyIdRepr

unfoldable pub aux_sec_header_length : SecurityRepr → ℕ
aux_sec_header_length s = 1 + (if s.tsch_mode then 0 else 4) + key_id_length s.key_id

unfoldable pub mic_length : SecurityRepr → ℕ
mic_length s = level_mic_length s.security_level
