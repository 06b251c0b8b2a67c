-- ===== src/Http/Failures.antt =====
-- packages/http/src/error/http.error.effect.ts and the streams of responses and errors of
-- packages/http/src/router/http.router.resolver.ts, with the default effects: what is sent for what
-- reaches the two subjects. Sending itself is in Http/Response.
pub mod Sent
mod Tests
use marble_js.Base.{
  ℕ, Option, none, some, Bool, true, false, List, [], ◌∷◌, ◌++◌, map, Text, codes, Dict, or_else,
}
use marble_js.Http.Pipeline.{Flow}
use marble_js.Http.Storage.{collect}

-- An error: an `HttpError` with its message, status, data and context (its own request is not read
-- here), or another with a message.
pub data PlainError (D : Type 0) : Type 0 where
  http_failure : Text → ℕ → Option D → Option Text → PlainError D
  other_failure : Text → PlainError D

-- What reaches the error subject: an error, or one in an `HttpRequestError`.
pub data RouteError (Q D : Type 0) : Type 0 where
  plain_failure : PlainError D → RouteError Q D
  request_failure : Q → PlainError D → RouteError Q D

-- `HttpErrorResponse`
pub record HttpErrorResponse (D : Type 0) : Type 0 where
  pub status : ℕ
  pub message : Text
  pub context : Option Text
  pub info : Option D

-- What is sent for a request: the response of an effect, or that of an error.
pub data SentResponse (Q R D : Type 0) : Type 0 where
  sent_response : Q → R → SentResponse Q R D
  sent_error : Q → ℕ → HttpErrorResponse D → SentResponse Q R D

module _ {D : Type 0} where
  abbrev pub default_http_error : PlainError D
  default_http_error = http_failure (codes "Internal server error") 500 none none

  unfoldable pub get_status_code : PlainError D → ℕ
  get_status_code (http_failure message status info context) = status
  get_status_code (other_failure message) = 500

  unfoldable pub error_factory : ℕ → PlainError D → HttpErrorResponse D
  error_factory status (http_failure message own info context) = record {
    status = status;
    message = message;
    context = context;
    info = info;
  }
  error_factory status (other_failure message) = record {
    status = status;
    message = message;
    context = none;
    info = none;
  }

  -- `isHttpRequestError(error) ? { request, error: error.error } : { request, error }`
  unfoldable pub inner_error : {Q : Type 0} → RouteError Q D → PlainError D
  inner_error (plain_failure error) = error
  inner_error (request_failure request error) = error

module _ {Q R D : Type 0} where
  -- `defaultError$` on one event of the error subject
  unfoldable pub default_error_response : Q → Option (PlainError D) → SentResponse Q R D
  unfolding get_status_code error_factory
  default_error_response request error =
      let shown = or_else error default_http_error in
      let status = get_status_code shown in sent_error request status (error_factory status shown)

  unfoldable pub send_route_errors : List (RouteError Q D × Q) → List (SentResponse Q R D)
  unfolding default_error_response inner_error
  send_route_errors [] = []
  send_route_errors ((error, request) ∷ errors) =
      default_error_response request (some (inner_error error)) ∷ send_route_errors errors

  unfoldable pub send_route_outputs : List (R × Q) → List (SentResponse Q R D)
  send_route_outputs [] = []
  send_route_outputs ((response, request) ∷ outputs) =
      sent_response request response ∷ send_route_outputs outputs

  -- `subscribeResponse` on both streams, for what a route gives for one request
  unfoldable pub respond : Flow Q R (RouteError Q D) → List (SentResponse Q R D)
  unfolding send_route_errors send_route_outputs
  respond flow = send_route_outputs flow.outputs ++ send_route_errors flow.errors

  -- the request of what is sent
  abbrev pub requested_by : SentResponse Q R D → Q
  requested_by (sent_response request response) = request
  requested_by (sent_error request status body) = request

  -- the metadata that `subscribeResponse` collects of what it sends, when there is a storage
  unfoldable pub collect_all :
      {M : Type 0}
      → (Q → Option Text)
      → (Q → Option M)
      → List (SentResponse Q R D)
      → Option (Dict M)
      → Option (Dict M)
  unfolding collect
  collect_all id_of meta_of [] storage = storage
  collect_all id_of meta_of (s ∷ sent) none = none
  collect_all id_of meta_of (s ∷ sent) (some storage) =
      collect_all id_of meta_of sent
        (some (collect (id_of (requested_by s)) (meta_of (requested_by s)) storage))
