-- ===== src/Nbi/Statuses.antt =====
-- What the status of a POST to the NBI says of the request and of the application.
use oai_cn5g_sepp.Base.{
  ◌≡◌, ◌<◌, ◌⊎◌, refl, Bool, true, false, Option, none, some, [], Bytes, codes, ◌==◌, ==_iff, arith,
  Bool-cases, inl, inr,
}
use oai_cn5g_sepp.Json.{JsonLib}
use oai_cn5g_sepp.Handler.{Outcome, returned, thrown, Handled}
use oai_cn5g_sepp.Server.{ServerRequest, receive, send_problem_details}
use oai_cn5g_sepp.App.{App}
use oai_cn5g_sepp.Nbi.{AppHandler, answer_post, process_post_request}

module _ (J : JsonLib) (what failure_cause failure_detail : Bytes) (allow_no_content : Bool) where
  answer_post-status :
      (h : Handled J App)
      → let status = (answer_post J what failure_cause failure_detail allow_no_content h).status in
        (status ≡ 400) ⊎ ((status < 400) × (h.outcome ≡ returned true))
  unfolding answer_post send_problem_details
  answer_post-status h = go h.outcome refl
    where
      go :
          (o : Outcome)
          → h.outcome ≡ o
          → let status =
              (answer_post J what failure_cause failure_detail allow_no_content h).status in
            (status ≡ 400) ⊎ ((status < 400) × (h.outcome ≡ returned true))
      go thrown e = rw e (inl refl)
      go (returned false) e = rw e (inl refl)
      go (returned true) e = ground (arith, e)

  module _ (app_handler : AppHandler J) where
    -- What has to hold for a request to be answered with success: a POST to an application whose
    -- handler accepts the parsed body, and whose state is kept.
    pub record Accepted (req : ServerRequest) (inst inst' : Option App) : Type 0 where
      pub is_post : req.method ≡ codes "POST"
      pub app : App
      pub available : inst ≡ some app
      pub req_json : J.Json
      pub parsed : J.parse (receive req.chunks []) ≡ some req_json
      pub returned_true : (app_handler app req_json).outcome ≡ returned true
      pub kept : inst' ≡ some (app_handler app req_json).state

    answered :
        (a : App) (req_json : J.Json)
        → (answer_post J what failure_cause failure_detail allow_no_content
            (app_handler a req_json)).status
          < 400
        → (app_handler a req_json).outcome ≡ returned true
    answered a req_json h = elim (answer_post-status (app_handler a req_json)) [
      | inl e ↦ absurd (omega (arith, e))
      | inr (_, e) ↦ e
    ]

    post-Accepted :
        (req : ServerRequest) (inst : Option App)
        → (req.method == codes "POST") ≡ true
        → let r =
            process_post_request J what app_handler failure_cause failure_detail allow_no_content
              req inst in
          r.0.status < 400 → Accepted req inst r.1
    unfolding process_post_request send_problem_details
    post-Accepted req none e h = absurd (omega (arith, rw e at h))
    post-Accepted req (some a) e h = go (J.parse (receive req.chunks [])) refl
      where
        go :
            (o : Option J.Json)
            → J.parse (receive req.chunks []) ≡ o
            → Accepted req
                (some a)
                (process_post_request J what app_handler failure_cause failure_detail
                  allow_no_content req
                  (some a)).1
        go none p = absurd (omega (arith, rw (e, p) at h))
        go (some req_json) p = record {
          is_post = (==_iff req.method (codes "POST")).0 e;
          app = a;
          available = refl;
          req_json = req_json;
          parsed = p;
          returned_true = answered a req_json (rw (e, p) at h);
          kept = rw (e, p);
        }

    -- A status below 400 is sent only for a POST whose body parses and which the handler of the
    -- application accepts, and the state that the handler leaves is kept.
    pub process_post_request-Accepted :
        (req : ServerRequest) (inst : Option App)
        → let r =
            process_post_request J what app_handler failure_cause failure_detail allow_no_content
              req inst in
          r.0.status < 400 → Accepted req inst r.1
    unfolding process_post_request send_problem_details
    process_post_request-Accepted req inst h = elim (Bool-cases (req.method == codes "POST")) [
      | inl e ↦ post-Accepted req inst e h
      | inr e ↦ absurd (omega (arith, rw e at h))
    ]

    -- Where the status is above 400, that is 405 or 503, the application is as it was.
    pub process_post_request-unchanged :
        (req : ServerRequest) (inst : Option App)
        → let r =
            process_post_request J what app_handler failure_cause failure_detail allow_no_content
              req inst in
          400 < r.0.status → r.1 ≡ inst
    unfolding process_post_request send_problem_details
    process_post_request-unchanged req inst h = elim (Bool-cases (req.method == codes "POST")) [
      | inr e ↦ rw e
      | inl e ↦ post inst e h
    ]
      where
        parsed :
            (a : App) (o : Option J.Json)
            → J.parse (receive req.chunks []) ≡ o
            → (req.method == codes "POST") ≡ true
            → 400
              < (process_post_request J what app_handler failure_cause failure_detail
                  allow_no_content req
                  (some a)).0.status
            → (process_post_request J what app_handler failure_cause failure_detail allow_no_content
                req
                (some a)).1
              ≡ some a
        parsed a none p e k = absurd (omega (arith, rw (e, p) at k))
        parsed a (some j) p e k =
            absurd (omega (arith, answer_post-status (app_handler a j), rw (e, p) at k))

        post :
            (o : Option App)
            → (req.method == codes "POST") ≡ true
            → 400
              < (process_post_request J what app_handler failure_cause failure_detail
                  allow_no_content req o).0.status
            → (process_post_request J what app_handler failure_cause failure_detail allow_no_content
                req o).1
              ≡ o
        post none e k = rw e
        post (some a) e k = parsed a (J.parse (receive req.chunks [])) refl e k
