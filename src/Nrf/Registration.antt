-- ===== src/Nrf/Registration.antt =====
-- The registration at the NRF, and the heartbeats that follow it.
use oai_cn5g_sepp.Base.{
  ℕ, zero, suc, ◌+◌, ◌-◌, ◌/◌, ◌%◌, ◌^◌, ◌≤◌, ◌<◌, ◌≡◌, refl, ap, ◌∙◌, arith, true, ◌||◌, [], ◌++◌,
  length, length-append, ◌=?◌, Bytes,
}
use oai_cn5g_sepp.Json.{JsonLib}
use oai_cn5g_sepp.Http.{Client, put}
use oai_cn5g_sepp.Profile.{Net}
use oai_cn5g_sepp.Event.{Signals, IsSignals, subscribe_task_nf_heartbeat}
use oai_cn5g_sepp.Nrf.{
  SeppNrf, interval, not_in_front, registration, register_to_nrf, start_event_nf_heartbeat,
  deregister_to_nrf, run,
}
use oai_cn5g_sepp.Nrf.Heartbeats.{Beating, Accepts, after, beats, run-beats}

module _ {J : JsonLib} {net : Net J} {S : Signals} (P : IsSignals S) where
  -- The NRF accepts the registration of `s`.
  abbrev Registers : Client J → SeppNrf net S → Type 0
  Registers client s =
      let response = client.send put (registration S client s) in
      ((response.status_code =? 201 || response.status_code =? 200) ≡ true)
      × (not_in_front response.body ≡ true)

  pub register_to_nrf-Beating :
      (client : Client J) (ms : ℕ) (s : SeppNrf net S)
      → S.slots s.event_sub ≡ []
      → ms + interval < 2 ^ 64
      → Registers client s
      → Beating ms (register_to_nrf S client ms s)
  unfolding register_to_nrf start_event_nf_heartbeat subscribe_task_nf_heartbeat
  register_to_nrf-Beating client ms s none_yet lt (status, body) =
      let start : (ms + interval) % 2 ^ 64 ≡ ms + interval = omega (arith, lt) in
      rw (status, body)
        (record {
          connection =
              (S.connect s.event_sub
                (record { period = interval; start = (ms + interval) % 2 ^ 64 })).1;
          slots = P.slots-connect _ _ ∙ rw (none_yet, start) refl;
          kept = refl;
        })

module _ {J : JsonLib} {net : Net J} {S : Signals} (patch_item : Bytes → Bytes → J.Json) where
  length-beats :
      (network : ℕ → Client J) (ms k : ℕ) (s : SeppNrf net S)
      → length (beats patch_item network ms s k) ≡ k
  unfolding beats
  length-beats network ms zero s = refl
  length-beats network ms (suc k) s =
      omega (arith, length-append (beats patch_item network ms s k) _, length-beats network ms k s)

module _ {J : JsonLib} {net : Net J} {S : Signals} (P : IsSignals S)
    (patch_item : Bytes → Bytes → J.Json) where
  -- A SEPP without a subscription registers at the time `ms`, the NRF answers 200 or 201 with a body
  -- that does not begin with REGISTERED, and then accepts every heartbeat. If the task manager starts
  -- its rounds `d` milliseconds later, at most one interval, and no clock overflows, then after `n`
  -- rounds the heartbeats sent are exactly those at `ms + 10000`, `ms + 20000` and so on before
  -- `ms + d + n`, and there are `(d + n - 1) / 10000` of them.
  pub run-register_to_nrf :
      (network : ℕ → Client J) (ms d n : ℕ) (s : SeppNrf net S)
      → S.slots s.event_sub ≡ []
      → Registers P (network ms) s
      → let r = register_to_nrf S (network ms) ms s in
        ((t : ℕ) → Accepts patch_item (network t) r)
        → d ≤ interval
        → ms + interval < 2 ^ 64
        → ms + (d + n) < 2 ^ 64
        → (run S patch_item network n (r, ms + d)
            ≡ (after patch_item network ms r (d + n), ms + (d + n)))
          × (length (run S patch_item network n (r, ms + d)).0.sent
              ≡ length r.sent + (d + n - 1) / interval)
  run-register_to_nrf network ms d n s none_yet registers accepts le lt lt' =
      let r = register_to_nrf S (network ms) ms s in
      let b = register_to_nrf-Beating P (network ms) ms s none_yet lt registers in
      let e = run-beats P patch_item network ms d n r b le lt' accepts in
      (
        e,
        ap (λ m. length m.0.sent) e
            ∙ omega (
              arith,
              length-append r.sent (beats patch_item network ms r ((d + n - 1) / interval)),
              length-beats patch_item network ms ((d + n - 1) / interval) r,
            ),
      )

  -- Deregistration does not end the heartbeat. A SEPP connected its heartbeat at the time `ms`, the
  -- NRF accepts every heartbeat, and the SEPP deregisters before the first is sent: the rounds of the
  -- task manager that follow start `d` milliseconds after `ms`, at most one interval, and no clock
  -- overflows. Then in the next `n` rounds it sends exactly the heartbeats that it sends in the same
  -- rounds without the deregistration, and there are `(d + n - 1) / 10000` of them.
  pub run-deregister_to_nrf :
      (network : ℕ → Client J) (client : Client J) (ms now d n : ℕ) (s : SeppNrf net S)
      → Beating ms s
      → ((t : ℕ) → Accepts patch_item (network t) s)
      → d ≤ interval
      → ms + (d + n) < 2 ^ 64
      → let sent_then = beats patch_item network ms s ((d + n - 1) / interval) in
        ((run S patch_item network n (deregister_to_nrf S client now s, ms + d)).0.sent
          ≡ (deregister_to_nrf S client now s).sent ++ sent_then)
        × ((run S patch_item network n (s, ms + d)).0.sent ≡ s.sent ++ sent_then)
        × (length sent_then ≡ (d + n - 1) / interval)
  unfolding deregister_to_nrf beats
  run-deregister_to_nrf network client ms now d n s b accepts le lt =
      let b' : Beating ms (deregister_to_nrf S client now s) = record {
        connection = b.connection;
        slots = b.slots;
        kept = b.kept;
      } in
      (
        ap (λ m. m.0.sent)
            (run-beats P patch_item network ms d n (deregister_to_nrf S client now s) b' le lt
              accepts),
        ap (λ m. m.0.sent) (run-beats P patch_item network ms d n s b le lt accepts),
        length-beats patch_item network ms ((d + n - 1) / interval) s,
      )
