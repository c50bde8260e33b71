-- ===== src/Core/Activation.antt =====
-- core/activation.go: the failure of an activation, and what of it is public. An error is the chain
-- that `errors.As` walks, from the outermost one in; each wraps the next one, and `nil` is the empty
-- chain.
pub mod Safe
mod Tests
use clashpulse.Base.{
  ℕ, zero, suc, ◌≡◌, String, Bool, true, false, not, ◌&&◌, ◌||◌, List, [], ◌∷◌, Option, none, some,
  if◌then◌else◌, ltb, leb, ◌==◌, codes, length,
}

-- `ActivationStage` is a string type: `other` stands for a stage that is none of the constants.
pub data Stage : Type 0 where
  file_input binary resources config_validation process_start mixed_port stream_probe_port : Stage
  controller_readiness system_proxy system_proxy_unsupported tun_privilege tun_start : Stage
  state_commit rollback : Stage
  other : String → Stage

unfoldable pub message : Stage → String
message file_input = "local profile file is unavailable or invalid"
message binary = "selected Mihomo binary is incompatible or unavailable"
message resources = "managed resources could not be validated"
message config_validation = "generated Mihomo configuration was rejected"
message process_start = "Mihomo process could not start"
message mixed_port = "the configured mixed port is already in use"
message stream_probe_port = "the stream probe port is unavailable"
message controller_readiness = "Mihomo controller did not become ready"
message system_proxy = "System Proxy could not be applied"
message system_proxy_unsupported = "system proxy is unsupported in this desktop environment"
message tun_privilege = "TUN privilege is not granted for the selected Mihomo binary"
message tun_start = "Mihomo did not start the TUN interface"
message state_commit = "private activation state could not be committed"
message rollback = "activation rollback failed; prior runtime needs attention"
message (other s) = "activation failed"

-- One error of a chain: one that is no activation error, by its text, or an activation error.
pub data Failure : Type 0 where
  foreign : String → Failure
  activation : Stage → String → Failure

abbrev between : ℕ → ℕ → ℕ → Bool
between low high b = leb low b && leb b high

is_alpha : ℕ → Bool
is_alpha b = between 97 122 b || between 65 90 b || between 48 57 b

is_mark : ℕ → Bool
is_mark b = b == 45 || b == 95 || b == 46

-- The loop over the bytes; `first` says whether `i` is 0. A character that is no single byte has
-- only bytes that are refused, as is its code here.
valid_bytes : Bool → List ℕ → Bool
unfolding is_alpha is_mark
valid_bytes first [] = true
valid_bytes first (b ∷ bs) =
    let rest = valid_bytes false bs in
    if not (is_alpha b) && not (not first && is_mark b) then false else rest

unfoldable pub valid_resource_id : String → Bool
unfolding valid_bytes
valid_resource_id id =
    let bytes = codes id in
    if length bytes == 0 || ltb 64 (length bytes) then false else valid_bytes true bytes

-- The stages whose failures name a resource.
unfoldable pub names_resource : Stage → Bool
names_resource binary = true
names_resource resources = true
names_resource _ = false

unfoldable pub wrap_activation : Stage → List Failure → List Failure
wrap_activation stage cause = activation stage "" ∷ cause

unfoldable pub wrap_activation_resource : Stage → String → List Failure → List Failure
wrap_activation_resource stage id cause =
    activation stage (if not (names_resource stage) || not (valid_resource_id id) then "" else id)
    ∷ cause

-- `Unwrap`.
unfoldable pub unwrap : List Failure → List Failure
unwrap [] = []
unwrap (failure ∷ cause) = cause

-- `Error` of an activation error: the pieces that make up the text.
unfoldable pub error_text : Stage → String → List String
error_text stage id =
    if names_resource stage && valid_resource_id id
    then message stage ∷ " (resource " ∷ id ∷ ")" ∷ []
    else message stage ∷ []

-- An activation error without its cause.
pub record Public : Type 0 where
  pub stage : Stage
  pub resource_id : String

-- `errors.As`: the first activation error of the chain.
unfoldable pub as_activation : List Failure → Option Public
as_activation [] = none
as_activation (activation stage id ∷ cause) = some (record { stage = stage; resource_id = id })
as_activation (foreign text ∷ cause) = as_activation cause

publish : Option Public → Option Public
publish none = none
publish (some f) = some (record {
  stage = f.stage;
  resource_id =
      if not (valid_resource_id f.resource_id) || not (names_resource f.stage)
      then ""
      else f.resource_id;
})

unfoldable pub public_activation : List Failure → Option Public
unfolding publish
public_activation err = publish (as_activation err)
