-- ===== src/Transport/JsonCodec.antt =====
-- `JsonCodec` of src/transport.rs.
use quic_serve.Prelude.{Option, none, [], ◌∷◌, ◌++◌, String}
use quic_serve.Error.{Error, deserialization, serialization, Result, ok, err}
use quic_serve.Message.{Bytes, Codec}
use quic_serve.Transport.{decoded}

module _ {T : Type 0} (codec : Codec T) where
  unfoldable pub decode : Bytes → Result Error (Option T) × Bytes
  decode [] = (ok none, [])
  decode (b ∷ src) = decoded deserialization (b ∷ src) (codec.from_slice (b ∷ src))

  abbrev put : Bytes → Result String Bytes → Result Error (Unit {0}) × Bytes
  put dst (ok json) = (ok tt, dst ++ json)
  put dst (err e) = (err (serialization e), dst)

  unfoldable pub encode : T → Bytes → Result Error (Unit {0}) × Bytes
  encode item dst = put dst (codec.to_vec item)
