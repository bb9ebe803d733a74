-- ===== src/Webhooks/Delivery/Success.antt =====
-- When a delivery succeeds, fails for good or is retried: `deliver` of
-- src/services/webhook-dispatches.ts.
use actor_runtime.Base.{
  ◌≤◌, String, ◌≡◌, ◌≢◌, ◌↔◌, ◌⊎◌, inl, inr, refl, sym, ap, arith, Option, none, some, [], Bool,
  true, false, ◌===◌, ◌||◌, eq_iff, Bool-cases,
}
use actor_runtime.Base.Dict.{Dict}
use actor_runtime.Base.Results.{Result, ok, err, bind-ok, guard-ok}
use actor_runtime.Entities.Webhook.{
  WebhookDispatchStatus, active, succeeded, failed, WebhookDispatchCall, WebhookDispatchRecord,
}
use actor_runtime.Webhooks.Delivery.{
  Attempt, Url, PostResponse, headers_of, prepared, request_for, responded, posted, post_prepared,
  deliver,
}

module _ {J : Type 0} (a : Attempt J) (r : WebhookDispatchRecord J) where
  -- The headers that the template asks for; an empty one is none.
  abbrev pub IsHeaders : Option String → Dict String → Type 0
  IsHeaders none headers = headers ≡ []
  IsHeaders (some template) headers =
      ((template ≡ "") × (headers ≡ []))
      ⊎ ((template ≢ "") × (a.rendered_headers r template ≡ ok headers))

  -- The URL is an http or https one, and the templates render to this body and these headers.
  abbrev pub IsReady : Url × String × Dict String → Type 0
  IsReady (url, body, headers) =
      (a.parse_url r.webhook.request_url ≡ ok url)
      × ((url.protocol ≡ "http:") ⊎ (url.protocol ≡ "https:"))
      × (a.rendered_body r ≡ ok body)
      × IsHeaders r.webhook.headers_template headers

  -- The endpoint answered what was sent to it with a status from 200 to 299.
  abbrev pub IsDelivered : Type 0
  IsDelivered =
      (parts : Url × String × Dict String) × (response : PostResponse) × IsReady parts
      × (a.post (request_for a r parts) ≡ ok response)
      × (200 ≤ response.status)
      × (response.status ≤ 299)

  parts_of :
      (x y : Url × String × Dict String)
      → ◌≡◌ {A = Result String (Url × String × Dict String)} (ok x) (ok y)
      → x ≡ y
  parts_of x y e = cc

  headers_inj : (x y : Dict String) → ◌≡◌ {A = Result String (Dict String)} (ok x) (ok y) → x ≡ y
  headers_inj x y e = cc

  is_http : Url → Bool
  is_http url = url.protocol === "http:" || url.protocol === "https:"

  is_http_iff :
      (url : Url) → (is_http url ≡ true) ↔ ((url.protocol ≡ "http:") ⊎ (url.protocol ≡ "https:"))
  unfolding is_http
  is_http_iff url = (
    λ h. elim (Bool-cases (url.protocol === "http:")) [
      | inl http ↦ inl ((eq_iff url.protocol "http:").0 http)
      | inr other ↦ inr ((eq_iff url.protocol "https:").0 (rw other at h))
    ],
    λ p. backward p,
  )
    where
      backward :
          ((url.protocol ≡ "http:") ⊎ (url.protocol ≡ "https:"))
          → (url.protocol === "http:" || url.protocol === "https:") ≡ true
      backward (inl http) = rw ((eq_iff url.protocol "http:").1 http) refl
      backward (inr https) = ground (arith, (eq_iff url.protocol "https:").1 https)

  headers_of-IsHeaders :
      (template : Option String) (headers : Dict String)
      → (headers_of a r template ≡ ok headers) ↔ IsHeaders template headers
  unfolding headers_of
  headers_of-IsHeaders none headers = (λ e. sym (headers_inj [] headers e), λ e. rw e refl)
  headers_of-IsHeaders (some template) headers = elim (Bool-cases (template === "")) [
    | inl empty ↦ rw empty (
      λ e. inl ((eq_iff template "").0 empty, sym (headers_inj [] headers e)),
      λ p. from_empty ((eq_iff template "").0 empty) p,
    )
    | inr full ↦ rw full (
      λ e. inr (λ same. absurd (cc (full, (eq_iff template "").1 same)), e),
      λ p. from_full full p,
    )
  ]
    where
      from_empty :
          template ≡ ""
          → ((template ≡ "") × (headers ≡ []))
            ⊎ ((template ≢ "") × (a.rendered_headers r template ≡ ok headers))
          → ◌≡◌ {A = Result String (Dict String)} (ok []) (ok headers)
      from_empty same (inl (_, e)) = rw e refl
      from_empty same (inr (other, _)) = absurd (other same)

      from_full :
          (template === "") ≡ false
          → ((template ≡ "") × (headers ≡ []))
            ⊎ ((template ≢ "") × (a.rendered_headers r template ≡ ok headers))
          → a.rendered_headers r template ≡ ok headers
      from_full full (inl (same, _)) = absurd (cc (full, (eq_iff template "").1 same))
      from_full full (inr (_, e)) = e

  prepared-IsReady :
      (parts : Url × String × Dict String) → (prepared a r ≡ ok parts) ↔ IsReady parts
  unfolding prepared is_http
  prepared-IsReady (url, body, headers) = (
    λ h.
        let (u, parsed, h1) =
          bind-ok (a.parse_url r.webhook.request_url) _ (url, body, headers) h in
        let (http, h2) = guard-ok _ _ _ (url, body, headers) h1 in
        let (text, rendered, h3) = bind-ok (a.rendered_body r) _ (url, body, headers) h2 in
        let (hs, made, h4) =
          bind-ok (headers_of a r r.webhook.headers_template) _ (url, body, headers) h3 in
        ready u text hs (parts_of (u, text, hs) (url, body, headers) h4) parsed http rendered made,
    λ p.
        rw
          (
            p.0,
            (is_http_iff url).1 p.1,
            p.2,
            (headers_of-IsHeaders r.webhook.headers_template headers).1 p.3,
          )
          refl,
  )
    where
      ready :
          (u : Url) (text : String) (hs : Dict String)
          → ◌≡◌ {A = Url × String × Dict String} (u, text, hs) (url, body, headers)
          → a.parse_url r.webhook.request_url ≡ ok u
          → is_http u ≡ true
          → a.rendered_body r ≡ ok text
          → headers_of a r r.webhook.headers_template ≡ ok hs
          → IsReady (url, body, headers)
      ready u text hs same parsed http rendered made =
          rw (← ap (λ p. p.0) same, ← ap (λ p. p.1) same, ← ap (λ p. p.2) same)
            (
              parsed,
              (is_http_iff u).0 http,
              rendered,
              (headers_of-IsHeaders r.webhook.headers_template hs).0 made,
            )

  abbrev Answered : Result String (Url × String × Dict String) → Type 0
  Answered prepared' =
      (parts : Url × String × Dict String) × (response : PostResponse) × (prepared' ≡ ok parts)
      × (a.post (request_for a r parts) ≡ ok response)
      × (200 ≤ response.status)
      × (response.status ≤ 299)

  abbrev Posted : Result String PostResponse → Type 0
  Posted answer =
      (response : PostResponse) × (answer ≡ ok response)
      × (200 ≤ response.status)
      × (response.status ≤ 299)

  responded_iff :
      (response : PostResponse) (call : WebhookDispatchCall)
      → ((responded a response call).1 ≡ succeeded)
        ↔ ((200 ≤ response.status) × (response.status ≤ 299))
  responded_iff response call = ground arith

  response_of : (x y : PostResponse) → ◌≡◌ {A = Result String PostResponse} (ok x) (ok y) → x ≡ y
  response_of x y e = cc

  posted_iff :
      (answer : Result String PostResponse) (call : WebhookDispatchCall)
      → ((posted a answer call).1 ≡ succeeded) ↔ Posted answer
  posted_iff (ok response) call = (
    λ h. let bounds = (responded_iff response call).0 h in (response, refl, bounds.0, bounds.1),
    λ p.
        let same = response_of response p.0 p.1 in
        (responded_iff response call).1 (rw same p.2, rw same p.3),
  )
  posted_iff (err message) call = (λ h. absurd (cc), λ p. absurd (cc (p.1)))

  not_failed :
      (answer : Result String PostResponse) (call : WebhookDispatchCall)
      → (posted a answer call).1 ≢ failed
  not_failed (ok response) call h = ground arith
  not_failed (err message) call h = cc

  post_prepared_iff :
      (prepared' : Result String (Url × String × Dict String)) (call : WebhookDispatchCall)
      → ((post_prepared a r prepared' call).1 ≡ succeeded) ↔ Answered prepared'
  post_prepared_iff (ok parts) call = (
    λ h.
        let (response, e, lo, hi) = (posted_iff (a.post (request_for a r parts)) call).0 h in
        (parts, response, refl, e, lo, hi),
    λ p.
        let same = parts_of parts p.0 p.2 in
        (posted_iff (a.post (request_for a r parts)) call).1 (p.1, rw same p.3, p.4, p.5),
  )
  post_prepared_iff (err message) call = (λ h. absurd (cc), λ p. absurd (cc (p.2)))

  post_prepared_fails_iff :
      (prepared' : Result String (Url × String × Dict String)) (call : WebhookDispatchCall)
      → ((post_prepared a r prepared' call).1 ≡ failed)
        ↔ ((message : String) × (prepared' ≡ err message))
  post_prepared_fails_iff (ok parts) call =
      (λ h. absurd (not_failed (a.post (request_for a r parts)) call h), λ p. absurd (cc (p.1)))
  post_prepared_fails_iff (err message) call = (λ h. (message, refl), λ p. refl)

  delivered :
      (prepared' : Result String (Url × String × Dict String))
      → ((parts : Url × String × Dict String) → (prepared' ≡ ok parts) ↔ IsReady parts)
      → Answered prepared' ↔ IsDelivered
  delivered prepared' ready = (
    λ p. (p.0, p.1, (ready p.0).0 p.2, p.3, p.4, p.5),
    λ p. (p.0, p.1, (ready p.0).1 p.2, p.3, p.4, p.5),
  )

  -- A preparation that fails is one that gives nothing to send.
  unprepared :
      (prepared' : Result String (Url × String × Dict String))
      → ((parts : Url × String × Dict String) → (prepared' ≡ ok parts) ↔ IsReady parts)
      → ((message : String) × (prepared' ≡ err message))
        ↔ ((parts : Url × String × Dict String) → IsReady parts → ⊥)
  unprepared (ok parts) ready =
      (λ p. absurd (cc (p.1)), λ none'. absurd (none' parts ((ready parts).0 refl)))
  unprepared (err message) ready =
      (λ p parts' is. clash parts' ((ready parts').1 is), λ none'. (message, refl))
    where
      clash :
          (parts' : Url × String × Dict String)
          → ◌≡◌ {A = Result String (Url × String × Dict String)} (err message) (ok parts')
          → ⊥
      clash parts' e = cc

  -- A delivery succeeds exactly if the URL parses and is an http or https one, the body and the headers
  -- render, and the endpoint answers the request with a status from 200 to 299. It fails for good
  -- exactly if there is no such URL, body or headers; whatever else happens is retried.
  pub deliver_iff :
      (call : WebhookDispatchCall)
      → (((deliver a r call).1 ≡ succeeded) ↔ IsDelivered)
        × (((deliver a r call).1 ≡ failed)
            ↔ ((parts : Url × String × Dict String) → IsReady parts → ⊥))
        × (((deliver a r call).1 ≢ succeeded)
            → ((deliver a r call).1 ≢ failed)
            → (deliver a r call).1 ≡ active)
  unfolding deliver
  deliver_iff call =
      let succeeds = post_prepared_iff (prepared a r) call in
      let fails = post_prepared_fails_iff (prepared a r) call in
      let delivery = delivered (prepared a r) prepared-IsReady in
      let failure = unprepared (prepared a r) prepared-IsReady in
      (
        (λ h. delivery.0 (succeeds.0 h), λ p. succeeds.1 (delivery.1 p)),
        (λ h. failure.0 (fails.0 h), λ p. fails.1 (failure.1 p)),
        else_active (deliver a r call).1,
      )
    where
      else_active : (s : WebhookDispatchStatus) → s ≢ succeeded → s ≢ failed → s ≡ active
      else_active active not_done not_failed' = refl
      else_active succeeded not_done not_failed' = absurd (not_done refl)
      else_active failed not_done not_failed' = absurd (not_failed' refl)
