-- ===== src/Mpdu/Repr.antt =====
-- The structure of a MAC frame and its length: dot15d4-frame/src/repr/mpdu.rs. Lengths are u16.
use dot15d.Base.{
  ℕ, ◌-◌, Option, none, some, ltb, if◌then◌else◌, Outcome, returns, ◌>>=◌, Result, ok, err,
}
use dot15d.Frame.Addressing.Repr.{AddressingRepr, addressing_fields_length}
use dot15d.Mpdu.Security.{
  SeqNrRepr, seq_nr_no, seq_nr_length, SecurityRepr, aux_sec_header_length, mic_length,
}
use dot15d.Mpdu.Elements.{IeListRepr, empty, ies_length, ies_and_frame_payload_length, add_u16}

-- The states that the types of the code track.
pub data MpduState : Type 0 where
  mpdu_no_fields mpdu_with_frame_control mpdu_with_addressing mpdu_with_security mpdu_with_ies
        mpdu_with_all_fields :
      MpduState

pub record MpduRepr (state : MpduState) : Type 0 where
  pub seq_nr : SeqNrRepr
  pub addressing : Option AddressingRepr
  pub security : Option SecurityRepr
  pub ies : IeListRepr

pub new_repr : MpduRepr mpdu_no_fields
new_repr = record { seq_nr = seq_nr_no; addressing = none; security = none; ies = empty }

pub with_frame_control : MpduRepr mpdu_no_fields → SeqNrRepr → MpduRepr mpdu_with_frame_control
with_frame_control r seq_nr = record {
  seq_nr = seq_nr;
  addressing = none;
  security = r.security;
  ies = empty;
}

pub with_addressing :
    MpduRepr mpdu_with_frame_control → AddressingRepr → MpduRepr mpdu_with_addressing
with_addressing r addressing = record {
  seq_nr = r.seq_nr;
  addressing = some addressing;
  security = r.security;
  ies = empty;
}

pub without_addressing : MpduRepr mpdu_with_frame_control → MpduRepr mpdu_with_addressing
without_addressing r = record { seq_nr = r.seq_nr; addressing = none; security = none; ies = r.ies }

pub with_security : MpduRepr mpdu_with_addressing → SecurityRepr → MpduRepr mpdu_with_security
with_security r security = record {
  seq_nr = r.seq_nr;
  addressing = r.addressing;
  security = some security;
  ies = r.ies;
}

pub without_security : MpduRepr mpdu_with_addressing → MpduRepr mpdu_with_security
without_security r = record {
  seq_nr = r.seq_nr;
  addressing = r.addressing;
  security = none;
  ies = r.ies;
}

pub with_ies : MpduRepr mpdu_with_security → IeListRepr → MpduRepr mpdu_with_ies
with_ies r ies = record {
  seq_nr = r.seq_nr;
  addressing = r.addressing;
  security = r.security;
  ies = ies;
}

pub without_ies : MpduRepr mpdu_with_security → MpduRepr mpdu_with_ies
without_ies r = record {
  seq_nr = r.seq_nr;
  addressing = r.addressing;
  security = r.security;
  ies = empty;
}

abbrev pub addressing_length : Option AddressingRepr → Result ℕ (Unit {0})
addressing_length none = ok 0
addressing_length (some addressing) = addressing_fields_length addressing

abbrev pub security_length : Option SecurityRepr → ℕ
security_length none = 0
security_length (some security) = add_u16 (aux_sec_header_length security) (mic_length security)

abbrev pub add_fields : ℕ → Option SecurityRepr → Result ℕ (Unit {0}) → Result ℕ (Unit {0})
add_fields len security (err e) = err e
add_fields len security (ok addressing) =
    ok (add_u16 (add_u16 len addressing) (security_length security))

unfoldable pub mpdu_less_ies_and_payload_length : MpduRepr mpdu_with_ies → Result ℕ (Unit {0})
mpdu_less_ies_and_payload_length r =
    add_fields (add_u16 2 (seq_nr_length r.seq_nr)) r.security (addressing_length r.addressing)

abbrev pub add_ies : ℕ → ℕ → Result ℕ (Unit {0}) → Result ℕ (Unit {0})
add_ies len payload (err e) = err e
add_ies len payload (ok ies) = ok (add_u16 (add_u16 len ies) payload)

abbrev pub add_ies_and_payload :
    IeListRepr → ℕ → Result ℕ (Unit {0}) → Outcome (Result ℕ (Unit {0}))
add_ies_and_payload ies payload (err e) = returns (err e)
add_ies_and_payload ies payload (ok len) =
    ies_length ies (ltb 0 payload) >>= λ found. returns (add_ies len payload found)

unfoldable pub mpdu_length_wo_fcs : MpduRepr mpdu_with_ies → ℕ → Outcome (Result ℕ (Unit {0}))
mpdu_length_wo_fcs r payload =
    add_ies_and_payload r.ies payload (mpdu_less_ies_and_payload_length r)

abbrev pub split_rest : IeListRepr → ℕ → Result ℕ (Unit {0}) → Outcome (Result (ℕ × ℕ) (Unit {0}))
split_rest ies total (err e) = returns (err e)
split_rest ies total (ok len) =
    if ltb total len then returns (err tt) else ies_and_frame_payload_length ies (total - len)

-- `MpduRepr::ies_and_frame_payload_length`
unfoldable pub split_mpdu_length : MpduRepr mpdu_with_ies → ℕ → Outcome (Result (ℕ × ℕ) (Unit {0}))
split_mpdu_length r total = split_rest r.ies total (mpdu_less_ies_and_payload_length r)
