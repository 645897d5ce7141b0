-- ===== src/ReporterProxy.antt =====
-- apps/topology/src/topology-reporter-proxy.ts: a proxy that keeps one reporter for each service that is registered over
-- HTTP. A request is its method, its URL and what `JSON.parse` makes of its body. A handler that waits is split:
-- it is begun, and its answer is an operation of its own. What the enumerations of the generated code give for
-- a key, which numbers are falsy, and the message of a TypeError are parameters. Texts, numbers and flags of a
-- report are of the declared types. Logging and the HTTP server are left out.
pub mod Handlers
pub mod Laws
pub mod Lifecycle
pub mod Tests
use Prim.Native.Char.{code}
use Prim.Native.String
use modular_runtime.Shared.{
  ℕ, ◌+◌, eqb, ◌||◌, String, Option, some, none, List, [], ◌∷◌, Bool, true, false, not, ◌&&◌, leb,
  ◌==◌, if◌then◌else◌, or_else,
}
use modular_runtime.Shared.Dict.{Dict, get}
use modular_runtime.Shared.Text.{trim, truthy}
use modular_runtime.Shared.Json.{Value, undefined, null_value, object, boolean, number, text}
use modular_runtime.Topology.Types.{
  ServiceType, ServiceLanguage, ActivityType, ServiceHandle, ServiceMetadata,
}
use modular_runtime.Reporter.{TopologyReporter, ActivityReport}

-- The body: no JSON, `null`, or a value with the fields that it has.
pub data Body (R : Type 0) : Type 0 where
  invalid null_body : Body R
  fields : Dict (Value R) → Body R

pub record ServiceInstance (R : Type 0) : Type 0 where
  pub reporter : TopologyReporter R
  pub service_name : String

abbrev pub Services : Type 0 → Type 0
Services R = Dict (ServiceInstance R)

pub data ResponseData : Type 0 where
  error_response : String → ResponseData
  register_response : String → ℕ → ResponseData
  status_ok : ResponseData
  healthy : ℕ → ResponseData

pub record Response : Type 0 where
  pub status_code : ℕ
  pub body : ResponseData

unfoldable pub send_error : ℕ → String → Response
send_error status_code message = record { status_code = status_code; body = error_response message }

-- What the source asks of the language and of the generated enumerations
pub record Language (R : Type 0) : Type 0 where
  pub is_nonzero : R → Bool
  pub service_type : String → Option ServiceType
  pub service_language : String → Option ServiceLanguage
  pub activity_type : Value R → Option ActivityType
  -- The message of the TypeError for a field of `null`
  pub type_error : String → String

pub record TopologyReporterOptions : Type 0 where
  pub service_name : String
  pub service_type : ServiceType
  pub language : ServiceLanguage
  pub version : Option String
  pub address : Option String
  pub host : Option String
  pub enable_activity : Bool
  pub metadata : ServiceMetadata

-- `toLowerCase` on the letters of ASCII: no other character becomes one of "null".
lower_is : ℕ → ℕ → Bool
lower_is letter c = eqb c letter || eqb (c + 32) letter

unfoldable pub is_null_text : String → Bool
unfolding lower_is
is_null_text (String.◌∷◌ a (String.◌∷◌ b (String.◌∷◌ c (String.◌∷◌ d String.[])))) =
    lower_is 110 (code a) && lower_is 117 (code b) && lower_is 108 (code c) && lower_is 108 (code d)
is_null_text s = false

module _ {R : Type 0} where
  unfoldable pub normalize_optional_string : Value R → Option String
  normalize_optional_string (text value) =
      let trimmed = trim value in
      if not (truthy trimmed) then none else if is_null_text trimmed then none else some trimmed
  normalize_optional_string v = none

  unfoldable pub truthy_value : Language R → Value R → Bool
  truthy_value l undefined = false
  truthy_value l null_value = false
  truthy_value l object = true
  truthy_value l (boolean b) = b
  truthy_value l (number n) = l.is_nonzero n
  truthy_value l (text s) = truthy s

  -- `v ?? true`
  unfoldable pub or_true : Language R → Value R → Bool
  or_true l undefined = true
  or_true l null_value = true
  or_true l v = truthy_value l v
