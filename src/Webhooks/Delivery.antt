-- ===== src/Webhooks/Delivery.antt =====
-- One attempt at a delivery: `deliver`, `isOwnApiUrl` and `newCall` of
-- src/services/webhook-dispatches.ts. The URL parser, the HTTP client, the rendered templates and the
-- user's token are parameters, together with the times and the random number of the attempt.
pub mod Success
use Prim.Native.String
use actor_runtime.Base.{
  ℕ, ◌*◌, ◌^◌, String, Bool, true, false, not, ◌&&◌, ◌||◌, Option, none, some, List, [], ◌∷◌,
  or_else, is_some, ltb, ◌==◌, ◌===◌, if◌then◌else◌,
}
use actor_runtime.Base.Dict.{Dict, insert}
use actor_runtime.Base.Results.{Result, ok, err, ◌>>=◌, ◌>>◌, guard}
use actor_runtime.Jobs.Registry.{Registry}
use actor_runtime.Entities.Webhook.{
  WebhookDispatchStatus, active, succeeded, failed, WebhookRecord, WebhookDispatchCall,
  WebhookDispatchRecord,
}

-- What the URL parser gives; `port` is absent for the protocol's own.
pub record Url : Type 0 where
  pub protocol : String
  pub hostname : String
  pub port : Option ℕ
  pub host : String
  pub token : Option String

pub record PostRequest : Type 0 where
  pub url : Url
  pub headers : Dict String
  pub body : String
  pub ignore_ssl_errors : Bool
  pub connect_to : Option (String × ℕ)

pub record PostResponse : Type 0 where
  pub status : ℕ
  pub body : Option String

-- What an attempt meets outside the runtime's own state. `meanwhile` is what others do to the webhooks
-- while the request is under way; `random` is `Math.random()` in units of 2 ^ -53.
pub record Attempt (J : Type 0) : Type 0 where
  pub started_at : ℕ
  pub finished_at : ℕ
  pub decided_at : ℕ
  pub scheduled_at : ℕ
  pub random : ℕ
  pub api_port : ℕ
  pub to_lower_case : String → String
  pub parse_url : String → Result String Url
  pub rendered_body : WebhookDispatchRecord J → Result String String
  pub rendered_headers : WebhookDispatchRecord J → String → Result String (Dict String)
  pub token_of : String → Option String
  pub post : PostRequest → Result String PostResponse
  pub number_text : ℕ → String
  pub meanwhile : Registry WebhookRecord → Registry WebhookRecord

ends_with : String → String → Bool
ends_with suffix String.[] = suffix === ""
ends_with suffix (String.◌∷◌ c s) =
    let rest = ends_with suffix s in if suffix === String.◌∷◌ c s then true else rest

-- OWN_API_HOSTNAMES.has(hostname)
own_api_hostname : String → Bool
own_api_hostname h = h === "localhost" || h === "127.0.0.1" || h === "[::1]" || h === "apify-api"

unfoldable pub is_own_api_url : {J : Type 0} → Attempt J → Url → Bool
unfolding ends_with own_api_hostname
is_own_api_url a url =
    let hostname = a.to_lower_case url.hostname in
    let port = or_else url.port (if url.protocol === "https:" then 443 else 80) in
    url.protocol === "http:"
    && port == a.api_port
    && (own_api_hostname hostname || ends_with ".localhost" hostname)

module _ {J : Type 0} (a : Attempt J) where
  unfoldable pub new_call : WebhookDispatchCall
  new_call = record {
    started_at = a.started_at;
    finished_at = none;
    error_message = none;
    response_status = none;
    response_body = none;
  }

  with_own_headers : Url → String → Dict String → Dict String
  with_own_headers url dispatch_id headers = insert "X-Apify-Request-Origin" "WEBHOOK" (
      insert "X-Apify-Webhook-Dispatch-Id" dispatch_id (
        insert "X-Apify-Webhook" "yo"
          (insert "Content-Type" "application/json" (insert "Host" url.host headers))))

  -- `url.searchParams.get('token')` is absent or empty.
  has_no_token : Url → Bool
  has_no_token url = elim url.token [ none ↦ true | some t ↦ t === "" ]

  with_authorization : Bool → Url → String → Dict String → Dict String
  unfolding has_no_token
  with_authorization own_api url user_id headers =
      if own_api && has_no_token url
      then (elim (a.token_of user_id) [
        | none ↦ headers
        | some token ↦ insert "Authorization" (String.◌++◌ "Bearer " token) headers
      ])
      else headers

  -- An empty template is no template.
  unfoldable pub headers_of : WebhookDispatchRecord J → Option String → Result String (Dict String)
  headers_of dispatch none = ok []
  headers_of dispatch (some template) =
      if template === "" then ok [] else a.rendered_headers dispatch template

  -- The first `try`: what can never work fails here.
  unfoldable pub prepared : WebhookDispatchRecord J → Result String (Url × String × Dict String)
  unfolding headers_of
  prepared dispatch = do
    url ← a.parse_url dispatch.webhook.request_url
    guard (url.protocol === "http:" || url.protocol === "https:")
        "Webhook must use a valid http:// or https:// URL"
    body ← a.rendered_body dispatch
    headers ← headers_of dispatch dispatch.webhook.headers_template
    ok (url, body, headers)

  unfoldable pub request_for : WebhookDispatchRecord J → Url × String × Dict String → PostRequest
  unfolding with_own_headers with_authorization is_own_api_url
  request_for dispatch (url, body, headers) =
      let own_api = is_own_api_url a url in
      record {
        url = url;
        headers =
            with_authorization own_api url dispatch.user_id
              (with_own_headers url dispatch.id headers);
        body = body;
        ignore_ssl_errors = dispatch.webhook.ignore_ssl_errors;
        connect_to = if own_api then some ("127.0.0.1", a.api_port) else none;
      }

  abbrev pub failed_with : String → WebhookDispatchCall → WebhookDispatchCall
  failed_with message call = record call { error_message = some message }

  abbrev pub responded :
      PostResponse → WebhookDispatchCall → WebhookDispatchCall × WebhookDispatchStatus
  responded response call =
      let answered : WebhookDispatchCall = record call {
        response_status = some response.status;
        response_body = response.body;
      } in
      if ltb response.status 200 || ltb 299 response.status
      then (
        failed_with
            (String.◌++◌ "Endpoint responded with HTTP status code "
              (a.number_text response.status))
            answered,
        active,
      )
      else (answered, succeeded)

  -- The second `try`.
  abbrev pub posted :
      Result String PostResponse → WebhookDispatchCall → WebhookDispatchCall × WebhookDispatchStatus
  posted (ok response) call = responded response call
  posted (err message) call =
      (failed_with (String.◌++◌ "Failed to handle dispatch: " message) call, active)

  abbrev pub post_prepared :
      WebhookDispatchRecord J
      → Result String (Url × String × Dict String)
      → WebhookDispatchCall
      → WebhookDispatchCall × WebhookDispatchStatus
  post_prepared dispatch (err message) call = (failed_with message call, failed)
  post_prepared dispatch (ok parts) call = posted (a.post (request_for dispatch parts)) call

  -- `active` means that it should be retried.
  unfoldable pub deliver :
      WebhookDispatchRecord J → WebhookDispatchCall → WebhookDispatchCall × WebhookDispatchStatus
  deliver dispatch call = post_prepared dispatch (prepared dispatch) call
