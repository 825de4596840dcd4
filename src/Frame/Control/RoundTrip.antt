-- ===== src/Frame/Control/RoundTrip.antt =====
-- What is read from a frame control field after a setter.
use dot15d.Base.{ℕ, ◌/◌, ◌%◌, ◌<◌, ◌≡◌, ◌≢◌, refl, ap, ◌∙◌, List, Outcome, returns, ◌>>=◌, arith}
use dot15d.Frame.Modes.{
  FrameType, frame_type_from, frame_type_code, FrameVersion, frame_version_from, frame_version_code,
  AddressingMode, addressing_mode_from, addressing_mode_code,
}
use dot15d.Frame.Control.{FrameControl}
use dot15d.Frame.Control
use dot15d.Frame.Control.Header.{Header, header}
use dot15d.Frame.Control.Fields.{buffer, raw, readers, Writes, set_field_writes}

type_code :
    (ty : FrameType) → ty ≢ FrameType.unknown → frame_type_from (frame_type_code ty % 8) ≡ ty
unfolding frame_type_from
type_code ty k = ground arith

mode_code :
    (mode : AddressingMode)
    → mode ≢ AddressingMode.unknown
    → addressing_mode_from (addressing_mode_code mode % 4) ≡ mode
unfolding addressing_mode_from
mode_code mode k = ground arith

version_code :
    (version : FrameVersion)
    → version ≢ FrameVersion.unknown
    → frame_version_from (frame_version_code version % 4) ≡ version
unfolding frame_version_from
version_code version k = ground arith

module _ (b0 b1 : ℕ) (rest : List ℕ) where
  -- After a write, the readers of the written header.
  after :
      {A : Type 0} (reader : FrameControl → Outcome A) (field : Header → A)
      {o : Outcome FrameControl} {h : Header}
      → ((c0 c1 : ℕ) → reader (buffer c0 c1 rest) ≡ returns (field (header (raw c0 c1 rest))))
      → Writes b0 b1 rest o h
      → (o >>= reader) ≡ returns (field h)
  after reader field r w =
      let back : raw (w.new_raw % 256) (w.new_raw / 256) rest ≡ w.new_raw = omega arith in
      rw (w.stored, r (w.new_raw % 256) (w.new_raw / 256), back, w.reads) refl

  module _ (h0 : b0 < 256) (h1 : b1 < 256) where
    -- A frame type, addressing modes and a version that are not the unknown one are what is read
    -- after they have been set.
    pub set_field-read_back :
        (ty : FrameType) (dst src : AddressingMode) (version : FrameVersion)
        → ty ≢ FrameType.unknown
        → dst ≢ AddressingMode.unknown
        → src ≢ AddressingMode.unknown
        → version ≢ FrameVersion.unknown
        → ((Control.set_frame_type (buffer b0 b1 rest) ty >>= Control.frame_type) ≡ returns ty)
          × ((Control.set_dst_addressing_mode (buffer b0 b1 rest) dst
                >>= Control.dst_addressing_mode)
              ≡ returns dst)
          × ((Control.set_src_addressing_mode (buffer b0 b1 rest) src
                >>= Control.src_addressing_mode)
              ≡ returns src)
          × ((Control.set_frame_version (buffer b0 b1 rest) version >>= Control.frame_version)
              ≡ returns version)
    set_field-read_back ty dst src version kt kd ks kv =
        let (w1, w2, w3, w4) = set_field_writes b0 b1 rest h0 h1 ty dst src version in
        (
          after Control.frame_type (λ h. frame_type_from h.frame_type)
                (λ c0 c1. let (r, _, _, _, _, _, _, _, _, _) = readers c0 c1 rest in r) w1
              ∙ ap returns (type_code ty kt),
          after Control.dst_addressing_mode (λ h. addressing_mode_from h.dst_addressing_mode)
                (λ c0 c1. let (_, _, _, _, _, _, _, r, _, _) = readers c0 c1 rest in r) w2
              ∙ ap returns (mode_code dst kd),
          after Control.src_addressing_mode (λ h. addressing_mode_from h.src_addressing_mode)
                (λ c0 c1. let (_, _, _, _, _, _, _, _, _, r) = readers c0 c1 rest in r) w3
              ∙ ap returns (mode_code src ks),
          after Control.frame_version (λ h. frame_version_from h.frame_version)
                (λ c0 c1. let (_, _, _, _, _, _, _, _, r, _) = readers c0 c1 rest in r) w4
              ∙ ap returns (version_code version kv),
        )
