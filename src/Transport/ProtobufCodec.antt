-- ===== src/Transport/ProtobufCodec.antt =====
-- `ProtobufCodec` of src/transport.rs. prost checks the room in the buffer before it writes, so a
-- failed `encode` leaves the buffer as it was.
use quic_serve.Prelude.{Option, none, [], ◌∷◌}
use quic_serve.Error.{Error, decoding, encoding, Result, ok, err}
use quic_serve.Message.{Bytes, Codec}
use quic_serve.Transport.{decoded}
use quic_serve.Prelude.{String}

module _ {T : Type 0} (codec : Codec T) where
  unfoldable pub decode : Bytes → Result Error (Option T) × Bytes
  decode [] = (ok none, [])
  decode (b ∷ src) = decoded decoding (b ∷ src) (codec.decode (b ∷ src))

  abbrev encoded : Bytes → Result String Bytes → Result Error (Unit {0}) × Bytes
  encoded dst (ok buf) = (ok tt, buf)
  encoded dst (err e) = (err (encoding e), dst)

  unfoldable pub encode : T → Bytes → Result Error (Unit {0}) × Bytes
  encode item dst = encoded dst (codec.encode item dst)
