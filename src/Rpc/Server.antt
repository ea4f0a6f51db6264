-- ===== src/Rpc/Server.antt =====
-- `Serve` of internal/rpc/server.go: the read loop and the goroutines of its handlers as one
-- sequence of steps. A handler's run and the write of its response are one step; a failed write
-- leaves no trace in the code, and `written` lists the responses in the order of their writes.
use gori.Prelude.{
  ltb, if◌then◌else◌, ◌>>=◌, length, get_elem?, str_eq, ℕ, zero, suc, String, Option, none, some,
  List, [], ◌∷◌, ◌++◌,
}
use gori.Rpc.{
  version, code_parse_error, code_invalid_request, Request, Response, Handler, is_notification,
  error_response, handle,
}

abbrev pub max_concurrent : ℕ
max_concurrent = 64

-- A message as `json.Unmarshal` reads it.
pub data Incoming (J : Type 0) : Type 0 where
  malformed : Incoming J
  request : Request J → Incoming J

module _ (J W : Type 0) where
  pub record Serving : Type 0 where
    pub in_flight : List (Request J)
    pub written : List (Response J)
    pub world : W

  -- The loop reads a message, or the handler in the given place finishes.
  pub data Action : Type 0 where
    read : Incoming J → Action
    finish : ℕ → Action

abbrev pub remove_at {ℓ} : {A : Type ℓ} → ℕ → List A → List A
remove_at i [] = []
remove_at zero (x ∷ xs) = xs
remove_at (suc i) (x ∷ xs) = x ∷ remove_at i xs

-- `write`, when there is a response.
abbrev pub written_with : {J : Type 0} → Option (Response J) → List (Response J) → List (Response J)
written_with none rs = rs
written_with (some r) rs = rs ++ r ∷ []

abbrev pub wrong_version : {J : Type 0} → Request J → Option (Response J)
wrong_version r =
    if is_notification r
    then none
    else some (error_response r.id code_invalid_request "invalid request: jsonrpc must be \"2.0\"")

module _ {J W : Type 0} where
  abbrev pub start : W → Serving J W
  start w = record { in_flight = []; written = []; world = w }

  -- The semaphore has room, or the loop waits.
  unfoldable pub dispatch : Request J → Serving J W → Option (Serving J W)
  dispatch r s =
      if ltb (length s.in_flight) max_concurrent
      then some (record s { in_flight = s.in_flight ++ r ∷ [] })
      else none

  unfoldable pub accept : Incoming J → Serving J W → Option (Serving J W)
  unfolding dispatch
  accept malformed s = some (record s {
    written = written_with (some (error_response "" code_parse_error "parse error")) s.written;
  })
  accept (request r) s =
      if str_eq r.jsonrpc version
      then dispatch r s
      else some (record s { written = written_with (wrong_version r) s.written })

  module _ (hs : List (String × Handler J W)) where
    unfoldable pub finish_at : ℕ → Option (Request J) → Serving J W → Option (Serving J W)
    finish_at i none s = none
    finish_at i (some r) s =
        let (out, w) = handle hs r s.world in
        some (record {
          in_flight = remove_at i s.in_flight;
          written = written_with out s.written;
          world = w;
        })

    -- `none` is a step that cannot be made in this state.
    unfoldable pub step : Action J W → Serving J W → Option (Serving J W)
    unfolding accept finish_at
    step (read m) s = accept m s
    step (finish i) s = finish_at i (get_elem? s.in_flight i) s

    unfoldable pub play : List (Action J W) → Serving J W → Option (Serving J W)
    play [] s = some s
    play (a ∷ as') s = step a s >>= play as'

    abbrev or_stay : Serving J W → (Serving J W → Serving J W) → Option (Serving J W) → Serving J W
    or_stay s f none = s
    or_stay s f (some s') = f s'

    -- `wg.Wait`: the handlers that are in flight finish, as many as the number says.
    unfoldable pub drain : ℕ → Serving J W → Serving J W
    unfolding step
    drain zero s = s
    drain (suc n) s = or_stay s (drain n) (step (finish 0) s)
