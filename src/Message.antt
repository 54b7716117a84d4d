-- ===== src/Message.antt =====
-- src/lib.rs: requests, responses, the serialization formats, and `serialize`/`deserialize`.
-- serde_json and prost are a parameter, one `Codec` for each message type.
pub mod RoundTrip
use quic_serve.Prelude.{ℕ, String, Option, List, []}
use quic_serve.Error.{
  Error, serialization, deserialization, encoding, decoding, Result, ok, err, ◌>>=◌, map_err,
}

-- `Bytes`, `BytesMut`, `Vec<u8>` and `&[u8]`
abbrev pub Bytes : Type 0
Bytes = List ℕ

pub record Request : Type 0 where
  pub id : ℕ
  pub method : String
  pub payload : Bytes

pub record Response : Type 0 where
  pub id : ℕ
  pub payload : Option Bytes
  pub error : Option String

pub data SerializationFormat : Type 0 where
  protobuf json : SerializationFormat

-- `Default` and `Display` of `SerializationFormat`.
unfoldable pub default_format : SerializationFormat
default_format = protobuf

unfoldable pub display_format : SerializationFormat → String
display_format protobuf = "protobuf"
display_format json = "json"

abbrev pub default_timeout_ms : ℕ
default_timeout_ms = 30000

-- What the program calls of serde_json and of prost for the type `T`; errors are their texts.
-- `encode` writes behind what its buffer holds and returns the buffer.
pub record Codec (T : Type 0) : Type 0 where
  pub to_vec : T → Result String Bytes
  pub from_slice : Bytes → Result String T
  pub encode : T → Bytes → Result String Bytes
  pub decode : Bytes → Result String T

module _ {T : Type 0} (codec : Codec T) where
  unfoldable pub serialize : T → SerializationFormat → Result Error Bytes
  serialize value json = map_err serialization (codec.to_vec value)
  serialize value protobuf = map_err encoding (codec.encode value [])

  unfoldable pub deserialize : Bytes → SerializationFormat → Result Error T
  deserialize src json = map_err deserialization (codec.from_slice src)
  deserialize src protobuf = map_err decoding (codec.decode src)
