-- ===== src/Utils/Format.antt =====
-- `parse_format` and `format_method_name` of src/utils.rs, with `str::splitn(2, '.')`, by which
-- src/server.rs takes a method name apart.
pub mod Names
pub mod Methods
use Prim.Native.Char.{code}
use Prim.Native.String
use quic_serve.Prelude.{
  ℕ, zero, String, ◌<>◌, codes, codes_eq, to_lowercase, ◌||◌, List, [], ◌∷◌, ◌==◌, if◌then◌else◌,
}
use quic_serve.Error.{Error, invalid_config, Result, ok, err}
use quic_serve.Message.{SerializationFormat, protobuf, json}

unfoldable pub parse_format : String → Result Error SerializationFormat
unfolding to_lowercase
parse_format format_str =
    let s = to_lowercase format_str in
    if codes_eq s (codes "protobuf") || codes_eq s (codes "proto")
    then ok protobuf
    else if codes_eq s (codes "json")
    then ok json
    else err (invalid_config ("Unknown serialization format: " <> format_str))

unfoldable pub format_method_name : String → String → String
format_method_name service method = service <> ("." <> method)

-- `splitn(2, '.')`, collected: one part if there is no dot, else what stands before the first dot and
-- all that stands behind it.
abbrev pub parts_from : String → List String → List String
parts_from c [] = []
parts_from c (part ∷ parts) = (c <> part) ∷ parts

unfoldable pub splitn : String → List String
splitn String.[] = "" ∷ []
splitn (String.◌∷◌ c s) =
    let later = parts_from (String.◌∷◌ c String.[]) (splitn s) in
    if code c == b'.' then "" ∷ s ∷ [] else later
