-- ===== src/Utils/Address/Default.antt =====
-- When `parse_socket_addr` uses the default port.
use text.Mathlib.TextLemmas.{nil-append, cons-append}
use quic_serve.Prelude.{
  ℕ, String, ◌<>◌, contains, decimal, ◌≡◌, refl, true, false, ◌||◌, arith, ◌∙◌,
}
use quic_serve.Error.{invalid_config, Result, err}
use quic_serve.Utils.Address.{parse_socket_addr}

contains-append : (c : ℕ) (s t : String) → contains c (s <> t) ≡ (contains c s || contains c t)
unfolding contains
contains-append c String.[] t = rw nil-append refl
contains-append c (String.◌∷◌ d s) t = rw cons-append (ground (arith, contains-append c s t))

contains-colon : (t : String) → contains b':' (":" <> t) ≡ true
unfolding contains
contains-colon t = contains-append b':' ":" t ∙ refl

contains-with_port : (s t : String) → contains b':' (s <> (":" <> t)) ≡ true
contains-with_port s t = contains-append b':' s (":" <> t) ∙ ground (arith, contains-colon t)

module _ {Addr : Type 0} (parse : String → Result String Addr) where
  -- An address with a colon in it is parsed as it stands: the default port plays no part. So a bare
  -- IPv6 address that does not parse as it stands is refused, whatever the default port.
  pub parse_socket_addr-with_colon :
      (addr : String) (p : ℕ) (e : String)
      → contains b':' addr ≡ true
      → parse addr ≡ err e
      → parse_socket_addr parse addr p ≡ err (invalid_config ("Invalid socket address: " <> e))
  unfolding parse_socket_addr
  parse_socket_addr-with_colon addr p e h k = rw (h, k) refl

  -- The default port is used exactly as if it had been written behind an address that has no colon.
  pub parse_socket_addr-no_colon :
      (addr : String) (p q : ℕ)
      → contains b':' addr ≡ false
      → parse_socket_addr parse addr p ≡ parse_socket_addr parse (addr <> (":" <> decimal p)) q
  unfolding parse_socket_addr
  parse_socket_addr-no_colon addr p q h = rw (h, contains-with_port addr (decimal p)) refl
