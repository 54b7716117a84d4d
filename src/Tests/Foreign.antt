-- ===== src/Tests/Foreign.antt =====
-- The bindings for PHP and Node.js at concrete inputs.
use mathlib.Core.List.{Perm}
use quic_serve.Prelude.{
  Assoc, nat_eq, ◌++◌, contains, string_eq, ℕ, ◌+◌, ◌%◌, ◌-◌, ◌^◌, ◌≤◌, ◌≡◌, ◌≢◌, refl, String,
  Bool, true, false, ◌||◌, ◌&&◌, Option, none, some, List, [], ◌∷◌, str_eq, get, arith,
  if◌then◌else◌,
}
use quic_serve.Error.{Result, ok, err}
use quic_serve.Message.{Bytes}
use quic_serve.Config.{Config, SocketAddr, default}
use quic_serve.Config.Quinn.{panicked}
use quic_serve.Config.Client.{build_client_config}
use quic_serve.Config.Server.{build_server_config, server_transport}
use quic_serve.Server.{Server, register_service}
use quic_serve.Server
use quic_serve.Bindings.Php
use quic_serve.Bindings.Php.{finished, panicking, Methods, Zend, text, null_text}
use quic_serve.Bindings.Php.Memory.{
  Use, registers, invokes, Ledger, use_all, untouched, drop_methods,
}
use quic_serve.Bindings.Php.Memory.Balance.{lost, made, use_all-released}
use quic_serve.Bindings.Php.Serving.{
  PhpQuicServeServer, ServerCalls, methods_at, served, bool, register_service_enhanced,
}
use quic_serve.Bindings.Php.Methods.{IsLawful, Shares, register_service_enhanced-served}
use quic_serve.Bindings.Node.{JsError, napi, Napi}
use quic_serve.Bindings.Node.Options.{js_config_to_config, options, if_ok}
use quic_serve.Bindings.Node.Limits.{Fits, js_config_to_config-never_panics}
use quic_serve.Bindings.Node.Objects.{JsServer, create_server, configured, js_runtime_new}
use quic_serve.Bindings.Node.Mirrored.{
  Action, register, on, act_all, Mirrored, create_server-Mirrored,
}
use quic_serve.Tests.Setup.{echo}
use quic_serve.Tests.Configs.{tls}
use quic_serve.Tests.Commands.{bind}

abbrev zend : Zend ℕ ℕ
zend = record {
  fcall_info_init = λ callback w. (true, w);
  zval_string = λ bytes n. n;
  fcall_info_call = λ callback params w. ((true, text (7 ∷ [])), w + 1);
  zval_ptr_dtor = λ value w. w;
  retval_dtor = λ w. w;
  join_error = λ w. none;
  utf8 = λ s. [];
}

abbrev callbacks : Methods ℕ
callbacks = ("add", 5) ∷ []

call_run : (Php.call zend true "add" [] callbacks 0).0 ≡ panicking
unfolding Php.call Php.invoke contains get
call_run = refl

-- Where no runtime is driven already, the callback is called.
call_run_alone : Php.call zend false "add" [] callbacks 0 ≡ (finished (ok (7 ∷ [])), 1)
unfolding Php.call Php.invoke contains get
call_run_alone = refl

-- A server that is the map from its services' names to their tables, and refuses the empty name.
abbrev Named : Type 0
Named = Assoc String ℕ

abbrev is_there : Option ℕ → Bool
is_there none = false
is_there (some arc) = true

abbrev refusing : Bool → String → ℕ → Named → Result String (Unit {0}) × Named
refusing true name arc names = (err "no name", names)
refusing false name arc names = (ok tt, (name, arc) ∷ names)

abbrev calls : ServerCalls Named
calls = record {
  has_service = λ name names. is_there (get name names);
  service = λ name names. get name names;
  register_service = λ name arc names. refusing (str_eq name "") name arc names;
  new = λ host port cert key. ok [];
}

refusing-adds :
    (t : Bool) (name : String) (arc : ℕ) (other : String) (s : Named)
    → (refusing t name arc s).0 ≡ ok tt
    → get other (refusing t name arc s).1 ≡ (if str_eq name other then some arc else get other s)
unfolding get
refusing-adds true name arc other s e = cc
refusing-adds false name arc other s e = refl

refusing-keeps :
    (t : Bool) (name : String) (arc : ℕ) (e : String) (s : Named)
    → (refusing t name arc s).0 ≡ err e
    → (refusing t name arc s).1 ≡ s
refusing-keeps true name arc x s e = refl
refusing-keeps false name arc x s e = cc

calls-IsLawful : IsLawful calls
calls-IsLawful = record {
  has = λ name s. refl;
  adds = λ name arc other s e. refusing-adds (str_eq name "") name arc other s e;
  keeps = λ name arc x s e. refusing-keeps (str_eq name "") name arc x s e;
}

abbrev php_server : PhpQuicServeServer ℕ Named
php_server = record { server = ("math", 3) ∷ []; service_impl = 3; tables = (3, callbacks) ∷ [] }

php_server-Shares : (name : String) (a : ℕ) → get name php_server.server ≡ some a → a ≡ 3
unfolding get
php_server-Shares name a found = ground arith

-- One byte is the name "text", anything else is not UTF-8.
abbrev from_utf8 : Bytes → Option String
from_utf8 (b ∷ []) = some "text"
from_utf8 _ = none

register_service_enhanced-served_example :
    (s' : PhpQuicServeServer ℕ Named) × (returned : Bool) × ((register_service_enhanced from_utf8
        calls
        (some php_server)
        (1 ∷ [])
        (1 ∷ [])
        9).1
      ≡ bool returned)
    × ((register_service_enhanced from_utf8 calls (some php_server) (1 ∷ []) (1 ∷ []) 9).2
        ≡ some s')
    × (calls.has_service "text" s'.server ≡ returned)
    × (s'.service_impl ≡ 3)
    × Shares calls s'.service_impl s'.server
    × ((name method : String)
        → served calls name method s' ≡ (
            if calls.has_service name php_server.server || (returned && str_eq "text" name)
            then if str_eq "text" method
              then some 9
              else get method (methods_at 3 php_server.tables)
            else none))
register_service_enhanced-served_example =
    register_service_enhanced-served from_utf8 calls php_server (1 ∷ []) (1 ∷ []) 9 calls-IsLawful
      php_server-Shares

-- Values of JavaScript: an object has an address, two paths, a timeout and one method.
data JsValue : Type 0 where
  object method names : JsValue
  letters : String → JsValue
  number : ℕ → JsValue

abbrev property_text : String → Result JsError JsValue
property_text name =
    if str_eq name "addr"
    then ok (letters "127.0.0.1:1")
    else if str_eq name "certPath"
    then ok (letters "server.crt")
    else if str_eq name "keyPath"
    then ok (letters "server.key")
    else err (napi "StringExpected")

abbrev property_number : String → Result JsError JsValue
property_number name =
    if str_eq name "timeoutMs" then ok (number 50) else err (napi "NumberExpected")

abbrev text_of : JsValue → Result JsError String
text_of (letters s) = ok s
text_of _ = err (napi "StringExpected")

abbrev number_of : JsValue → Result JsError ℕ
number_of (number n) = ok (n % 2 ^ 32)
number_of _ = err (napi "NumberExpected")

abbrev js : Napi JsValue
js = record {
  named_string = λ name o. property_text name;
  named_number = λ name o. property_number name;
  named_object = λ name o. err (napi "ObjectExpected");
  text = text_of;
  truth = λ v. ok true;
  get_uint32 = number_of;
  as_string = λ v. ok v;
  as_object = λ v. ok v;
  as_function = λ v. ok v;
  get_property_names = λ v. ok names;
  get_array_length = λ v. ok 1;
  string_element = λ i v. ok (letters "add");
  function_property = λ name v. ok method;
}

number_of-le : (v : JsValue) (n : ℕ) → number_of v ≡ ok n → n ≤ 2 ^ 32 - 1
number_of-le (number m) n e = let same : m % 2 ^ 32 ≡ n = cc in omega (arith, same)
number_of-le object n e = cc
number_of-le method n e = cc
number_of-le names n e = cc
number_of-le (letters s) n e = cc

abbrev local : SocketAddr
local = record { ip = "127.0.0.1"; port = 1 }

abbrev given : Config
given = record default {
  addr = local;
  cert_path = some "server.crt";
  key_path = some "server.key";
  timeout_ms = 50;
}

js_config_to_config-never_panics_example :
    Fits (2 ^ 32 - 1) given
    × (build_client_config tls given ≢ panicked)
    × (server_transport tls given ≢ panicked)
unfolding js_config_to_config options if_ok
js_config_to_config-never_panics_example =
    js_config_to_config-never_panics js (λ s. ok local) tls object given number_of-le (omega arith)
      refl

abbrev created : JsServer JsValue ℕ ℕ
created = record {
  server = record { config = given; endpoint = 1; services = [] };
  services = [];
  event_callback = none;
}

-- Two registrations under one name, the first of which throws, and a callback in between.
abbrev actions : List (Action JsValue)
actions =
    register object object ∷ on (letters "listening") method ∷ register (letters "math") object ∷ []

create_server-Mirrored_example :
    Mirrored js (ok tt) (λ s. echo) (act_all js (ok tt) (λ s. echo) actions created)
unfolding create_server configured js_runtime_new js_config_to_config options if_ok Server.new
    build_server_config
create_server-Mirrored_example =
    create_server-Mirrored js (λ s. ok local) (ok tt) (λ s. echo) tls bind (λ e. 1) object created
      actions refl

-- A method is registered twice, called once for a text and once for something else.
abbrev uses : List (Use ℕ)
uses =
    registers "add" 5
    ∷ registers "add" 6
    ∷ invokes true 1 2 3 (true, text (7 ∷ []))
    ∷ invokes true 1 2 4 (true, null_text)
    ∷ []

use_all-released_example :
    (methods : Methods ℕ) × (l : Ledger ℕ) × (use_all uses ([], untouched) ≡ (methods, l))
    × Perm (drop_methods methods l).taken (lost uses ++ (drop_methods methods l).released)
    × ((drop_methods methods l).boxes ≡ made uses)
use_all-released_example = use_all-released uses
