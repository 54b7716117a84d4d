-- ===== src/Utils/Format/Names.antt =====
-- `parse_format`: which names it takes, and that it reads what `Display` prints.
use quic_serve.Prelude.{
  ℕ, String, ◌<>◌, codes, codes_eq, to_lowercase, ◌≡◌, refl, ◌⊎◌, ◌↔◌, true, List, [], ◌∷◌, arith,
  inl, inr,
}
use quic_serve.Error.{Error, invalid_config, ok, err}
use quic_serve.Message.{SerializationFormat, protobuf, json, display_format}
use quic_serve.Utils.Format.{parse_format}

codes_eq→≡ : (a b : List ℕ) → codes_eq a b ≡ true → a ≡ b
codes_eq→≡ [] [] h = refl
codes_eq→≡ [] (y ∷ b) h = ground arith
codes_eq→≡ (x ∷ a) [] h = ground arith
codes_eq→≡ (x ∷ a) (y ∷ b) h = ground (arith, codes_eq→≡ a b)

codes_eq_refl : (a : List ℕ) → codes_eq a a ≡ true
codes_eq_refl [] = refl
codes_eq_refl (x ∷ a) = ground (arith, codes_eq_refl a)

≡→codes_eq : (a b : List ℕ) → a ≡ b → codes_eq a b ≡ true
≡→codes_eq a b e = rw e (codes_eq_refl b)

-- The names of a format, in lower case.
abbrev pub IsNameOf : SerializationFormat → List ℕ → Type 0
IsNameOf protobuf s = (s ≡ codes "protobuf") ⊎ (s ≡ codes "proto")
IsNameOf json s = s ≡ codes "json"

parse_format_sound :
    (s : String) (f : SerializationFormat) → parse_format s ≡ ok f → IsNameOf f (to_lowercase s)
unfolding parse_format
parse_format_sound s protobuf h = ground (
  arith,
  codes_eq→≡ (to_lowercase s) (codes "protobuf"),
  codes_eq→≡ (to_lowercase s) (codes "proto"),
)
parse_format_sound s json h = ground (arith, codes_eq→≡ (to_lowercase s) (codes "json"))

parse_format_complete :
    (s : String) (f : SerializationFormat) → IsNameOf f (to_lowercase s) → parse_format s ≡ ok f
unfolding parse_format
parse_format_complete s protobuf (inl e) = rw e refl
parse_format_complete s protobuf (inr e) = rw e refl
parse_format_complete s json e = rw e refl

-- A text is read as a format exactly when, in lower case, it is one of that format's names.
pub parse_format-eq-ok_iff :
    (s : String) (f : SerializationFormat) → (parse_format s ≡ ok f) ↔ IsNameOf f (to_lowercase s)
parse_format-eq-ok_iff s f = (parse_format_sound s f, parse_format_complete s f)

-- Any other text is refused, and the error quotes it as it was given.
pub parse_format-eq-err :
    (s : String) (e : Error)
    → parse_format s ≡ err e
    → e ≡ invalid_config ("Unknown serialization format: " <> s)
unfolding parse_format
parse_format-eq-err s e h = ground arith

-- `parse_format` reads back the text that `Display` prints of a format.
pub parse_format-display_format : (f : SerializationFormat) → parse_format (display_format f) ≡ ok f
unfolding parse_format display_format
parse_format-display_format protobuf = refl
parse_format-display_format json = refl
