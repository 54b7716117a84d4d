-- ===== src/Tests/Toy.antt =====
-- Codecs that can be run, in the place of serde_json and prost: a text is written as its place in a
-- list of known texts, and a message with an unknown text cannot be written.
use quic_serve.Prelude.{
  ℕ, zero, suc, ◌≡◌, refl, sym, ap, ◌∙◌, Option-cases, String, str_eq, eq_iff, Option, none, some,
  List, [], ◌∷◌, ◌++◌, if◌then◌else◌, arith, inl, inr,
}
use quic_serve.Error.{Result, ok, err}
use quic_serve.Message.{Bytes, Request, Response, Codec}
use quic_serve.Message.RoundTrip.{IsLawful}

abbrev pub or_err : {T : Type 0} → Option T → Result String T
or_err none = err "unknown"
or_err (some t) = ok t

abbrev behind : Bytes → Option Bytes → Result String Bytes
behind dst none = err "unknown"
behind dst (some b) = ok (dst ++ b)

module _ {T : Type 0} (enc : T → Option Bytes) (dec : Bytes → Option T) where
  abbrev pub toy_codec : Codec T
  toy_codec = record {
    to_vec = λ v. or_err (enc v);
    from_slice = λ b. or_err (dec b);
    encode = λ v dst. behind dst (enc v);
    decode = λ b. or_err (dec b);
  }

  toy-back :
      ((v : T) (b : Bytes) → enc v ≡ some b → dec b ≡ some v)
      → (v : T) (b : Bytes) → or_err (enc v) ≡ ok b
      → or_err (dec b) ≡ ok v
  toy-back law v b h = ground (arith, law v b)

  pub toy_codec-IsLawful :
      ((v : T) (b : Bytes) → enc v ≡ some b → dec b ≡ some v) → IsLawful toy_codec
  toy_codec-IsLawful law = record {
    json_back = toy-back law;
    proto_back = λ v b h. ground (arith, law v b);
    encode_appends = λ v b dst h. ground arith;
  }

abbrev pub index_of : String → List String → Option ℕ
index_of s [] = none
index_of s (t ∷ ts) =
    if str_eq s t then some zero else elim (index_of s ts) [ none ↦ none | some i ↦ some (suc i) ]

abbrev pub nth : ℕ → List String → Option String
nth i [] = none
nth zero (t ∷ ts) = some t
nth (suc i) (t ∷ ts) = nth i ts

pub nth-index_of :
    (s : String) (ts : List String) (i : ℕ) → index_of s ts ≡ some i → nth i ts ≡ some s
nth-index_of s [] i h = cc
nth-index_of s (t ∷ ts) zero h = ground (arith, eq_iff s t)
nth-index_of s (t ∷ ts) (suc i) h = ground (arith, eq_iff s t, nth-index_of s ts i)

abbrev numbered : ℕ → Bytes → Option ℕ → Option Bytes
numbered id payload none = none
numbered id payload (some i) = some (id ∷ i ∷ payload)

abbrev named : ℕ → Bytes → Option String → Option Request
named id payload none = none
named id payload (some m) = some (record { id = id; method = m; payload = payload })

abbrev failed : ℕ → Option String → Option Response
failed id none = none
failed id (some e) = some (record { id = id; payload = none; error = some e })

abbrev numbered_error : ℕ → Option ℕ → Option Bytes
numbered_error id none = none
numbered_error id (some i) = some (id ∷ 1 ∷ i ∷ [])

module _ (texts : List String) where
  abbrev pub enc_request : Request → Option Bytes
  enc_request r = numbered r.id r.payload (index_of r.method texts)

  abbrev pub dec_request : Bytes → Option Request
  dec_request (id ∷ i ∷ payload) = named id payload (nth i texts)
  dec_request _ = none

  enc_request-law : (r : Request) (b : Bytes) → enc_request r ≡ some b → dec_request b ≡ some r
  enc_request-law r b h = elim (Option-cases (index_of r.method texts)) [
    | inl missing ↦ cc (h, ap (numbered r.id r.payload) missing)
    | inr (i, found) ↦
        let e : some b ≡ some (r.id ∷ i ∷ r.payload) = sym h ∙ ap (numbered r.id r.payload) found in
        let same : b ≡ r.id ∷ i ∷ r.payload = cc e in
        rw (same, nth-index_of r.method texts i found) refl
  ]

  abbrev enc_parts : ℕ → Option Bytes → Option String → Option Bytes
  enc_parts id (some b) none = some (id ∷ 0 ∷ b)
  enc_parts id none (some e) = numbered_error id (index_of e texts)
  enc_parts id _ _ = none

  abbrev pub enc_response : Response → Option Bytes
  enc_response r = enc_parts r.id r.payload r.error

  abbrev pub dec_response : Bytes → Option Response
  dec_response (id ∷ zero ∷ b) = some (record { id = id; payload = some b; error = none })
  dec_response (id ∷ suc zero ∷ i ∷ []) = failed id (nth i texts)
  dec_response _ = none

  enc_parts-law :
      (id : ℕ) (payload : Option Bytes) (error : Option String) (b : Bytes)
      → enc_parts id payload error ≡ some b
      → dec_response b ≡ some (record { id = id; payload = payload; error = error })
  enc_parts-law id (some p) none b h = let same : b ≡ id ∷ 0 ∷ p = cc h in rw same refl
  enc_parts-law id none none b h = cc
  enc_parts-law id (some p) (some e) b h = cc
  enc_parts-law id none (some e) b h = elim (Option-cases (index_of e texts)) [
    | inl missing ↦ cc (h, ap (numbered_error id) missing)
    | inr (i, found) ↦
        let same : b ≡ id ∷ 1 ∷ i ∷ [] = cc (sym h ∙ ap (numbered_error id) found) in
        rw (same, nth-index_of e texts i found) refl
  ]

abbrev pub known : List String
known =
    "echo.say" ∷ "nope" ∷ "gone.say" ∷ "Service not found: gone" ∷ "echo.echo" ∷ "bench.echo" ∷ []

abbrev pub requests : Codec Request
requests = toy_codec (enc_request known) (dec_request known)

pub requests-IsLawful : IsLawful requests
requests-IsLawful = toy_codec-IsLawful _ _ (enc_request-law known)

abbrev pub responses : Codec Response
responses = toy_codec (enc_response known) (dec_response known)

pub responses-IsLawful : IsLawful responses
responses-IsLawful = toy_codec-IsLawful _ _ λ r. enc_parts-law known r.id r.payload r.error

-- Payloads that are bytes already.
abbrev pub raw : Codec Bytes
raw = toy_codec some some

pub raw-IsLawful : IsLawful raw
raw-IsLawful = toy_codec-IsLawful some some (λ v b h. sym h)
