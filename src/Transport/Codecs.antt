-- ===== src/Transport/Codecs.antt =====
-- The two codecs of src/transport.rs: what `encode` writes into an empty buffer `decode` takes out,
-- unless nothing was written.
use quic_serve.Prelude.{◌≡◌, Option, none, some, [], ◌∷◌, arith}
use quic_serve.Error.{ok}
use quic_serve.Message.{Bytes, Codec}
use quic_serve.Message.RoundTrip.{IsLawful}
use quic_serve.Transport.ProtobufCodec
use quic_serve.Transport.JsonCodec

-- What a codec gives back of an item that it has written as these bytes.
abbrev pub unless_empty {ℓ} : {T : Type ℓ} → Bytes → T → Option T
unless_empty [] item = none
unless_empty (_ ∷ _) item = some item

module _ {T : Type 0} (codec : Codec T) (lawful : IsLawful codec) where
  -- With a lawful codec, an item that `JsonCodec` has written into an empty buffer is decoded from
  -- that buffer, which is then empty; if its text is empty, `decode` reports no message.
  pub JsonCodec_decode-encode :
      (item : T) (b : Bytes)
      → codec.to_vec item ≡ ok b
      → JsonCodec.decode codec (JsonCodec.encode codec item []).1 ≡ (ok (unless_empty b item), [])
  unfolding JsonCodec.decode JsonCodec.encode
  JsonCodec_decode-encode item [] h = ground arith
  JsonCodec_decode-encode item (c ∷ b) h = ground (arith, lawful.json_back item (c ∷ b) h)

  -- With a lawful codec, an item that `ProtobufCodec` has written into an empty buffer is decoded from
  -- that buffer, which is then empty; an item whose encoding has no bytes, such as one with all its
  -- fields at their defaults, is lost: `decode` reports no message.
  pub ProtobufCodec_decode-encode :
      (item : T) (b : Bytes)
      → codec.encode item [] ≡ ok b
      → ProtobufCodec.decode codec (ProtobufCodec.encode codec item []).1
        ≡ (ok (unless_empty b item), [])
  unfolding ProtobufCodec.decode ProtobufCodec.encode
  ProtobufCodec_decode-encode item [] h = ground arith
  ProtobufCodec_decode-encode item (c ∷ b) h = ground (arith, lawful.proto_back item (c ∷ b) h)
