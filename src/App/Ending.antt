-- ===== src/App/Ending.antt =====
-- The termination of an N32-f context between two SEPPs: the initiator's application, the
-- responder's server and application.
use oai_cn5g_sepp.Base.{
  ◌≡◌, ◌≢◌, refl, sym, ap, ◌∙◌, true, Option, none, some, [], ◌++◌, Bytes, codes, is_empty,
  Bool-cases, inl, inr, ◌||◌,
}
use oai_cn5g_sepp.Json.{JsonLib}
use oai_cn5g_sepp.Models.{Models, IsCodec, N32fContextInfo}
use oai_cn5g_sepp.Jose.{Bio, Evp}
use oai_cn5g_sepp.Http.{Client, HttpRequest, post}
use oai_cn5g_sepp.Handshake.{Handshake}
use oai_cn5g_sepp.Handshake.Messages.{n32f_terminate, handle_request}
use oai_cn5g_sepp.Handshake.Termination.{
  create_n32f_terminate_req, handle_n32f_terminate_req, handle_n32f_terminate_response,
}
use oai_cn5g_sepp.Handshake.Agreement.{terminate-same}
use oai_cn5g_sepp.Server.{ServerResponse}
use oai_cn5g_sepp.Nbi.{handle_n32c_request}
use oai_cn5g_sepp.App.{Config, App}
use oai_cn5g_sepp.App.Accepted.{handle_n32c_request-ok}
use oai_cn5g_sepp.App.Procedures.{send_n32f_terminate}
use oai_cn5g_sepp.App.Producer.{received_request, received_response}

module _ {J : JsonLib} (M : Models J) (evp : Evp) (bio : Bio) (local : Client J) (cfg : Config)
    (what : Bytes) where
  -- What the server of the responder `b` makes of a request.
  abbrev pub respond : Bytes → App → HttpRequest → ServerResponse × Option App
  respond uuid b r =
      handle_n32c_request M cfg evp bio local what n32f_terminate uuid (received_request r) (some b)

none-ne-some : {A : Type 0} {a : A} → none ≡ some a → ⊥
none-ne-some e = cc

some-inj : {A : Type 0} {a b : A} → some a ≡ some b → a ≡ b
some-inj e = cc

module _ {J : JsonLib} (M : Models J) (client : Client J) where
  response-clears :
      (s : Handshake) (resp_data : J.Json)
      → (handle_n32f_terminate_response J s resp_data).0 ≡ record s { n32c_context_id = [] }
  unfolding handle_n32f_terminate_response
  response-clears s resp_data = elim (Bool-cases (J.is_null resp_data || J.empty resp_data)) [
    | inl e ↦ rw (handle_n32f_terminate_response, e) refl
    | inr e ↦ rw (handle_n32f_terminate_response, e) refl
  ]

  -- The initiator gives its context up whatever a response with the status 200 holds.
  send_n32f_terminate-ok :
      (url : Bytes) (a : App) (s : Handshake) (req_data : J.Json)
      → create_n32f_terminate_req J M s ≡ some req_data
      → let response = client.send post (
          client.prepare_json_request
            (url ++ codes "/n32c-handshake/v1/n32f-terminate")
            (J.dump req_data)) in
        response.status_code ≡ 200
        → send_n32f_terminate M client (record a { handshake = some s; remote_sepp_url = some url })
          ≡ record a {
            handshake = some (record s { n32c_context_id = [] });
            remote_sepp_url = some url;
          }
  unfolding send_n32f_terminate
  send_n32f_terminate-ok url a s req_data created status =
      rw (send_n32f_terminate, created, status, response-clears s _) refl

module _ {J : JsonLib} (M : Models J) where
  created-read :
      IsCodec J M.context_info
      → (s : Handshake) (req_data : J.Json) → create_n32f_terminate_req J M s ≡ some req_data
      → M.context_info.from_json req_data ≡ some (record { n32f_context_id = s.n32c_context_id })
  unfolding create_n32f_terminate_req
  created-read codec s req_data e = elim (Bool-cases (is_empty s.n32c_context_id)) [
    | inl empty ↦ absurd (none-ne-some (rw (create_n32f_terminate_req, empty) at e))
    | inr full ↦
        ap M.context_info.from_json (sym (some-inj (rw (create_n32f_terminate_req, full) at e)))
        ∙ codec.from_json-to_json _
  ]

module _ {J : JsonLib} (M : Models J) (evp : Evp) (bio : Bio) (client local : Client J)
    (cfg : Config) (what : Bytes) where
  -- Let the context class read back what it writes and validate the initiator's context, JSON parse
  -- what it dumps, and the client send bodies as they are and reach the responder's server. If the
  -- initiator's handshake holds a context and the responder's handshake the same, then sending a
  -- termination leaves neither handshake with a context, and nothing else changes at either end: what
  -- the forwardings hold, a context among it, they keep.
  pub send_n32f_terminate-same :
      IsCodec J M.context_info
      → ((j : J.Json) → J.parse (J.dump j) ≡ some j)
      → ((url body : Bytes) → (client.prepare_json_request url body).body ≡ body)
      → (uuid url : Bytes) (a b : App) (s t : Handshake) → s.n32c_context_id ≢ []
      → t.n32c_context_id ≡ s.n32c_context_id
      → M.context_info.validate (record { n32f_context_id = s.n32c_context_id }) ≡ true
      → ((r : HttpRequest)
          → client.send post r
            ≡ received_response
                (respond M evp bio local cfg what uuid (record b { handshake = some t }) r).0)
      → (req_data : J.Json) × (create_n32f_terminate_req J M s ≡ some req_data)
        × (send_n32f_terminate M client
              (record a { handshake = some s; remote_sepp_url = some url })
            ≡ record a {
              handshake = some (record s { n32c_context_id = [] });
              remote_sepp_url = some url;
              forward = a.forward;
            })
        × ((respond M evp bio local cfg what uuid
              (record b { handshake = some t })
              (client.prepare_json_request
                (url ++ codes "/n32c-handshake/v1/n32f-terminate")
                (J.dump req_data))).1
            ≡ some (record b { handshake = some (record t { n32c_context_id = [] }) }))
  unfolding handle_request create_n32f_terminate_req
  send_n32f_terminate-same codec parse-dump body-prepare uuid url a b s t ne same valid connected =
      let (req_data, created, done) = terminate-same J M cfg.nbi_url codec s t ne same in
      let info : N32fContextInfo = record { n32f_context_id = s.n32c_context_id } in
      let request =
        client.prepare_json_request (url ++ codes "/n32c-handshake/v1/n32f-terminate")
          (J.dump req_data) in
      let h = handle_n32f_terminate_req J M t req_data J.null [] in
      let read : M.context_info.from_json req_data ≡ some info =
        created-read M codec s req_data created in
      let (status, _, kept) =
        handle_n32c_request-ok M cfg evp bio local what n32f_terminate uuid request b t req_data h
          (ap J.parse (body-prepare _ _) ∙ parse-dump req_data) (info, read, valid) refl
          (ap (λ p. p.2) done) in
      (
        req_data,
        created,
        send_n32f_terminate-ok M client url a s req_data created
            (ap (λ r. r.status_code) (connected request) ∙ status),
        kept ∙ ap (λ u. some (record b { handshake = some u })) (ap (λ p. p.1) done),
      )
