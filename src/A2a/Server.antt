-- ===== src/A2a/Server.antt =====
-- a2a/server.go: the JSON-RPC dispatch, and the messages that an agent gets. `J` is raw JSON. Of the
-- HTTP request it matters whether it is a POST and how its body decodes.
pub mod Found
pub mod Parts
use gori.Prelude.{
  if◌then◌else◌, starts_with, str_eq, append, is_empty, quote, Result, ok, err, ℕ, suc, String,
  Bool, true, false, not, Option, none, some, List, [], ◌∷◌, ◌++◌,
}
use gori.Prelude.Int.{ℤ, negsuc}
use gori.Rpc.{
  version, code_parse_error, code_invalid_request, code_method_not_found, code_invalid_params,
  code_internal_error, Request, Response, error_response, result_response,
}
use gori.Message.{user, Content, text, image, audio, user_text}
use gori.A2a.{Message, FilePart, Part, parts_text, Task}
use gori.A2a.Store.{
  Store, end_task, CancelResult, not_found, not_cancelable, cancelled, cancel, get,
}
use gori.A2a.Lifecycle.{send_start, finish}
use gori.Message as Neutral

pub data Body (J : Type 0) : Type 0 where
  too_large malformed : Body J
  decoded : Request J → Body J

pub record HttpRequest (J : Type 0) : Type 0 where
  pub is_post : Bool
  pub body : Body J

pub data HttpReply (J : Type 0) : Type 0 where
  method_not_allowed streamed : HttpReply J
  rpc_reply : Response J → HttpReply J

abbrev pub code_task_not_found : ℤ
code_task_not_found = negsuc 32000

abbrev pub code_task_not_cancelable : ℤ
code_task_not_cancelable = negsuc 32001

-- The parameters as encoding/json reads them, a task as it writes it, or the error where a part's data do not
-- marshal. An id of another form than the
-- store's is read as a number that no task has.
pub record Wire (J : Type 0) : Type 0 where
  pub read_send : J → Option Message
  pub read_query : J → Option ℕ
  pub write_task : Task → Result J

-- The handler's result, what else happens to the store while it runs, the run of `SendStream`, and
-- the times of the start and of the end.
pub record Surroundings : Type 0 where
  pub handler : Message → Result (List Part)
  pub meanwhile : Store → Store
  pub send_stream : Message → Store → Store
  pub now : ℕ
  pub later : ℕ

module _ {J : Type 0} (wire : Wire J) where
  unfoldable pub rpc_error : String → ℤ → String → HttpReply J
  rpc_error i c m = rpc_reply (error_response i c m)

  unfoldable pub marshaled : String → Result J → HttpReply J
  marshaled i (err e) = rpc_error i code_internal_error e
  marshaled i (ok raw) = rpc_reply (result_response i raw)

  unfoldable pub write_result : String → Task → HttpReply J
  unfolding marshaled
  write_result i t = marshaled i (wire.write_task t)

  -- `handleSend`, with `TaskStore.Send`.
  unfoldable pub handle_send : Surroundings → String → Option Message → Store → HttpReply J × Store
  handle_send env i none s = (rpc_error i code_invalid_params "invalid params", s)
  handle_send env i (some m) s =
      let task = suc s.seq in
      let s' = finish task (env.handler m) env.later (env.meanwhile (send_start m env.now s)) in
      (write_result i (s'.heap task), end_task task s')

  unfoldable pub handle_stream :
      Surroundings → String → Option Message → Store → HttpReply J × Store
  handle_stream env i none s = (rpc_error i code_invalid_params "invalid params", s)
  handle_stream env i (some m) s = (streamed, env.send_stream m s)

  unfoldable pub cancel_reply : String → CancelResult → HttpReply J
  cancel_reply i not_found = rpc_error i code_task_not_found "task not found"
  cancel_reply i (not_cancelable t) = rpc_error i code_task_not_cancelable "task cannot be canceled"
  cancel_reply i (cancelled t) = write_result i t

  unfoldable pub get_reply : String → Option Task → HttpReply J
  get_reply i none = rpc_error i code_task_not_found "task not found"
  get_reply i (some t) = write_result i t

  -- `handleTaskQuery`.
  unfoldable pub handle_query : ℕ → String → Bool → Option ℕ → Store → HttpReply J × Store
  unfolding cancel_reply get_reply
  handle_query now i c none s = (rpc_error i code_invalid_params "invalid params", s)
  handle_query now i true (some t) s = let (r, s') = cancel t now s in (cancel_reply i r, s')
  handle_query now i false (some t) s = (get_reply i (get t s), s)

  unfoldable pub dispatch : Surroundings → Request J → Store → HttpReply J × Store
  unfolding handle_send handle_stream handle_query
  dispatch env r s =
      if str_eq r.method "message/send"
      then handle_send env r.id (wire.read_send r.params) s
      else if str_eq r.method "message/stream"
      then handle_stream env r.id (wire.read_send r.params) s
      else if str_eq r.method "tasks/get"
      then handle_query env.now r.id false (wire.read_query r.params) s
      else if str_eq r.method "tasks/cancel"
      then handle_query env.now r.id true (wire.read_query r.params) s
      else (rpc_error r.id code_method_not_found (append "method not found: " r.method), s)

  unfoldable pub on_body : Surroundings → Body J → Store → HttpReply J × Store
  unfolding dispatch
  on_body env too_large s = (rpc_error "" code_invalid_request "request body too large", s)
  on_body env malformed s = (rpc_error "" code_parse_error "parse error", s)
  on_body env (decoded r) s =
      if str_eq r.jsonrpc version
      then dispatch env r s
      else (rpc_error r.id code_invalid_request "invalid request: jsonrpc must be \"2.0\"", s)

  unfoldable pub handle_rpc : Surroundings → HttpRequest J → Store → HttpReply J × Store
  unfolding on_body
  handle_rpc env r s = if r.is_post then on_body env r.body s else (method_not_allowed, s)

-- A file of a part, once its bytes are decoded.
unfoldable pub file_content : FilePart → Option (List ℕ) → Result Content
file_content f none = err (append "a2a: undecodable file part " (quote f.name))
file_content f (some []) = err (append "a2a: undecodable file part " (quote f.name))
file_content f (some (b ∷ bs)) =
    if starts_with f.mime_type "audio/"
    then ok (audio (record { media_type = f.mime_type; bytes = b ∷ bs }))
    else if starts_with f.mime_type "image/"
    then ok (image (record { media_type = f.mime_type; bytes = b ∷ bs; url = "" }))
    else err (
        append "a2a: unsupported file media type " (
          append (quote f.mime_type)
            (append " for part " (append (quote f.name) " (want image/* or audio/*)"))))

abbrev pub text_blocks : String → List Content
text_blocks s = if is_empty s then [] else text (record { text = s }) ∷ []

abbrev pub one : Result Content → Result (List Content)
one (ok c) = ok (c ∷ [])
one (err e) = err e

module _ (decode : String → Option (List ℕ)) where
  -- A file with neither an address nor bytes is passed over for the text.
  unfoldable pub with_file : FilePart → String → Result (List Content)
  unfolding file_content
  with_file f s =
      if not (is_empty f.bytes)
      then one (file_content f (decode f.bytes))
      else if is_empty f.uri
      then ok (text_blocks s)
      else err (append "a2a: URI file parts are not supported (inline the bytes): " (quote f.uri))

  unfoldable pub part_content : Option FilePart → String → Result (List Content)
  unfolding with_file
  part_content none s = ok (text_blocks s)
  part_content (some f) s = with_file f s

  abbrev pub joined : Result (List Content) → Result (List Content) → Result (List Content)
  joined (err e) rest = err e
  joined (ok cs) (err e) = err e
  joined (ok cs) (ok ds) = ok (cs ++ ds)

  unfoldable pub parts_content : List Part → Result (List Content)
  unfolding part_content
  parts_content [] = ok []
  parts_content (p ∷ ps) = joined (part_content p.file p.text) (parts_content ps)

  -- A message without content gets its text.
  unfoldable pub or_text : String → Result (List Content) → Result Neutral.Message
  or_text s (err e) = err e
  or_text s (ok []) = ok (user_text s)
  or_text s (ok (c ∷ cs)) = ok (record { role = user; content = c ∷ cs })

  unfoldable pub to_gori_message : Message → Result Neutral.Message
  unfolding parts_content or_text
  to_gori_message m = or_text (parts_text m.parts) (parts_content m.parts)
