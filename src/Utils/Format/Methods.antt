-- ===== src/Utils/Format/Methods.antt =====
-- Method names: joining and splitting are inverse.
use Prim.Native.Char.{Char, code}
use text.Mathlib.TextEquality.{Char-path}
use text.Mathlib.TextLemmas.{nil-append, cons-append}
use quic_serve.Prelude.{
  String, Bool, ◌<>◌, contains, ◌≡◌, refl, ap, sym, ◌∙◌, false, true, List, [], ◌∷◌, arith, ◌==◌,
  ==→≡, Bool-cases, inl, inr, ◌||◌,
}
use quic_serve.Utils.Format.{format_method_name, splitn, parts_from}

single-append : (c : Char) (s : String) → (String.◌∷◌ c String.[] <> s) ≡ String.◌∷◌ c s
single-append c s = rw cons-append (rw nil-append refl)

-- What `splitn` returns: the whole text if it has no dot, else two parts around the first dot.
pub data Split (s : String) : List String → Type 0 where
  whole : contains b'.' s ≡ false → Split s (s ∷ [])
  around :
      (a b : String) → contains b'.' a ≡ false → format_method_name a b ≡ s → Split s (a ∷ b ∷ [])

or-false : (a b : Bool) → a ≡ false → b ≡ false → (a || b) ≡ false
or-false a b h k = ground arith

Split-cons :
    (c : Char) (s : String) (parts : List String)
    → (code c == b'.') ≡ false
    → Split s parts
    → Split (String.◌∷◌ c s) (parts_from (String.◌∷◌ c String.[]) parts)
unfolding contains format_method_name
Split-cons c s parts h (whole free) =
    rw single-append (whole (or-false (code c == b'.') (contains b'.' s) h free))
Split-cons c s parts h (around a b free e) = rw single-append (
    around (String.◌∷◌ c a) b (or-false (code c == b'.') (contains b'.' a) h free)
      (cons-append c a ("." <> b) ∙ ap (String.◌∷◌ c) e))

dot_of_code : (c : Char) → (code c == b'.') ≡ true → c ≡ "."
dot_of_code c h = Char-path c "." (==→≡ (code c) b'.' h)

Split-dot : (c : Char) (s : String) → (code c == b'.') ≡ true → Split (String.◌∷◌ c s) ("" ∷ s ∷ [])
unfolding contains format_method_name
Split-dot c s h = around "" s refl (
    nil-append ("." <> s)
    ∙ (single-append "." s ∙ ap (λ d. String.◌∷◌ d s) (sym (dot_of_code c h))))

pub splitn-Split : (s : String) → Split s (splitn s)
unfolding splitn contains
splitn-Split String.[] = whole refl
splitn-Split (String.◌∷◌ c s) = elim (Bool-cases (code c == b'.')) [
  | inl dot ↦ rw dot (Split-dot c s dot)
  | inr other ↦ rw other (Split-cons c s (splitn s) other (splitn-Split s))
]

-- Splitting the name that `format_method_name` makes gives the service and the method back, if the
-- service's name has no dot; the method's name may have dots.
pub splitn-format_method_name :
    (service method : String)
    → contains b'.' service ≡ false
    → splitn (format_method_name service method) ≡ service ∷ method ∷ []
unfolding splitn format_method_name contains
splitn-format_method_name String.[] method h = rw nil-append (rw single-append refl)
splitn-format_method_name (String.◌∷◌ c s) method h =
    let tail : contains b'.' s ≡ false = ground arith in
    let here : (code c == b'.') ≡ false = ground arith in
    rw (cons-append, here, splitn-format_method_name s method tail, single-append) refl
