-- ===== src/Rpc.antt =====
-- internal/jsonrpc/jsonrpc.go and the dispatch of internal/rpc/server.go. `J` is raw JSON, an absent
-- id is the empty text, and `W` is the world that a handler acts on.
pub mod Server
pub mod Asked
pub mod Serving
pub mod Client
pub mod Calls
pub mod CallHistory
pub mod Framing
use gori.Prelude.{
  if◌then◌else◌, str_eq, append, is_empty, Result, ok, err, String, Bool, Option, none, some, List,
  [], ◌∷◌,
}
use gori.Prelude.Int.{ℤ, negsuc}

abbrev pub version : String
version = "2.0"

-- The standard codes, by their distance below -1.
abbrev pub code_parse_error : ℤ
code_parse_error = negsuc 32699

abbrev pub code_invalid_request : ℤ
code_invalid_request = negsuc 32599

abbrev pub code_method_not_found : ℤ
code_method_not_found = negsuc 32600

abbrev pub code_invalid_params : ℤ
code_invalid_params = negsuc 32601

abbrev pub code_internal_error : ℤ
code_internal_error = negsuc 32602

pub record Request (J : Type 0) : Type 0 where
  pub jsonrpc : String
  pub id : String
  pub method : String
  pub params : J

pub record RpcError : Type 0 where
  pub code : ℤ
  pub message : String

-- One of the fields `Result` and `Error` is set.
pub data Payload (J : Type 0) : Type 0 where
  result_payload : J → Payload J
  error_payload : RpcError → Payload J

pub record Response (J : Type 0) : Type 0 where
  pub jsonrpc : String
  pub id : String
  pub payload : Payload J

-- What a handler returns: a value that is marshalled or cannot be, an error with its code, or
-- another error.
pub data Returned (J : Type 0) : Type 0 where
  value : J → Returned J
  no_json plain_error : String → Returned J
  coded : RpcError → Returned J

-- The JSON `null` stands in for an id that is absent.
abbrev pub or_null : String → String
or_null i = if is_empty i then "null" else i

abbrev pub Handler : Type 0 → Type 0 → Type 0
Handler J W = J → W → Returned J × W

module _ {J : Type 0} where
  abbrev pub is_notification : Request J → Bool
  is_notification r = is_empty r.id

  unfoldable pub error_response : String → ℤ → String → Response J
  error_response i c m = record {
    jsonrpc = version;
    id = or_null i;
    payload = error_payload (record { code = c; message = m });
  }

  unfoldable pub result_response : String → J → Response J
  result_response i j = record { jsonrpc = version; id = or_null i; payload = result_payload j }

  -- The response of `handle` once the handler has returned.
  unfoldable pub response_to : String → Returned J → Response J
  unfolding error_response result_response
  response_to i (value j) = result_response i j
  response_to i (no_json e) = error_response i code_internal_error e
  response_to i (plain_error e) = error_response i code_internal_error e
  response_to i (coded e) = record { jsonrpc = version; id = i; payload = error_payload e }

  unfoldable pub not_found : Request J → Option (Response J)
  not_found r =
      if is_notification r
      then none
      else some (error_response r.id code_method_not_found (append "method not found: " r.method))

  module _ {W : Type 0} where
    -- `Handle`, on the map from methods to handlers.
    unfoldable pub put_handler :
        String → Handler J W → List (String × Handler J W) → List (String × Handler J W)
    put_handler m h hs = (m, h) ∷ hs

    unfoldable pub find_handler : String → List (String × Handler J W) → Option (Handler J W)
    find_handler m [] = none
    find_handler m ((n, h) ∷ hs) = if str_eq n m then some h else find_handler m hs

    unfoldable pub run_handler : Request J → Option (Handler J W) → W → Option (Response J) × W
    unfolding not_found response_to
    run_handler r none w = (not_found r, w)
    run_handler r (some h) w =
        let (out, w') = h r.params w in
        (if is_notification r then none else some (response_to r.id out), w')

    unfoldable pub handle : List (String × Handler J W) → Request J → W → Option (Response J) × W
    unfolding run_handler
    handle hs r w = run_handler r (find_handler r.method hs) w

module _ {J : Type 0} where
  -- What `Call` makes of the response that its channel gives, before the caller's type is read.
  unfoldable pub call_result : Payload J → Result J
  call_result (result_payload j) = ok j
  call_result (error_payload e) = err e.message

  unfoldable pub answer_result : Option (Response J) → Result J
  unfolding call_result
  answer_result none = err "rpc: client closed"
  answer_result (some r) = call_result r.payload

  -- A call over a transport to a server in the same process: the request under `key`, the server's
  -- `handle`, and the response.
  unfoldable pub call :
      {W : Type 0} → List (String × Handler J W) → String → String → J → W → Result J × W
  unfolding handle answer_result
  call hs key method params w =
      let (out, w') =
        handle hs (record { jsonrpc = version; id = key; method = method; params = params }) w in
      (answer_result out, w')
