-- ===== src/Message/RoundTrip.antt =====
-- Round trips through `serialize` and `deserialize`, under the documented laws of the two crates.
use quic_serve.Prelude.{◌≡◌, [], ◌++◌, arith}
use quic_serve.Error.{Result, ok, map_err}
use quic_serve.Message.{Bytes, Codec, SerializationFormat, protobuf, json, serialize, deserialize}

-- Both crates document that what they write they read back; prost appends to its buffer.
pub record IsLawful {T : Type 0} (codec : Codec T) : Type 0 where
  pub json_back : (v : T) (b : Bytes) → codec.to_vec v ≡ ok b → codec.from_slice b ≡ ok v
  pub proto_back : (v : T) (b : Bytes) → codec.encode v [] ≡ ok b → codec.decode b ≡ ok v
  pub encode_appends :
      (v : T) (b dst : Bytes) → codec.encode v [] ≡ ok b → codec.encode v dst ≡ ok (dst ++ b)

module _ {E F A : Type 0} where
  pub map_err-eq-ok : (f : E → F) (r : Result E A) (a : A) → map_err f r ≡ ok a → r ≡ ok a
  map_err-eq-ok f r a h = ground arith

  pub map_err-ok : (f : E → F) (r : Result E A) (a : A) → r ≡ ok a → map_err f r ≡ ok a
  map_err-ok f r a h = ground arith

module _ {T : Type 0} (codec : Codec T) (lawful : IsLawful codec) where
  -- With lawful codecs, in either format, what `serialize` produces `deserialize` reads back in that
  -- format as the value that was serialized.
  pub deserialize-serialize :
      (v : T) (f : SerializationFormat) (b : Bytes)
      → serialize codec v f ≡ ok b
      → deserialize codec b f ≡ ok v
  unfolding serialize deserialize
  deserialize-serialize v json b h = map_err-ok _ _ _ (lawful.json_back v b (map_err-eq-ok _ _ _ h))
  deserialize-serialize v protobuf b h =
      map_err-ok _ _ _ (lawful.proto_back v b (map_err-eq-ok _ _ _ h))
