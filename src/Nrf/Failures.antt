-- ===== src/Nrf/Failures.antt =====
-- No heartbeat follows one that the NRF has refused.
use oai_cn5g_sepp.Base.{
  ℕ, ◌+◌, ◌%◌, ◌^◌, ◌≡◌, ◌≢◌, refl, ◌∙◌, ◌⊎◌, inl, inr, false, ◌||◌, clash, Bool-cases, some, List,
  [], ◌∷◌, ◌++◌, ◌=?◌, Bytes, All,
}
use oai_cn5g_sepp.Json.{JsonLib}
use oai_cn5g_sepp.Http.{Client, put, patch, delete}
use oai_cn5g_sepp.Profile.{Net}
use oai_cn5g_sepp.Event.{Slot, Signals, IsSignals, is_due, task_tick, subscribe_task_nf_heartbeat}
use oai_cn5g_sepp.Nrf.{
  SeppNrf, Sent, interval, not_in_front, registration, heartbeat, SbiConfig, sepp_nrf, disconnect,
  register_to_nrf, start_event_nf_heartbeat, deregister_to_nrf, trigger_nf_heartbeat_procedure,
}

-- A heartbeat that the NRF answered with another status than 200 and 204.
abbrev IsRefused : Sent → Type 0
IsRefused x = (x.method ≡ patch) × ((x.status =? 200 || x.status =? 204) ≡ false)

-- No request is a heartbeat.
abbrev NoBeat : List Sent → Type 0
NoBeat = All (λ x. x.method ≢ patch)

-- Behind a refused heartbeat there is no heartbeat.
abbrev pub StopsWhenRefused : List Sent → Type 0
StopsWhenRefused [] = Unit
StopsWhenRefused (x ∷ xs) = (IsRefused x → NoBeat xs) × StopsWhenRefused xs

-- No heartbeat was refused.
abbrev Unrefused : List Sent → Type 0
Unrefused = All (λ x. ¬ IsRefused x)

put_other : put ≢ patch
put_other e = cc

delete_other : delete ≢ patch
delete_other e = cc

NoBeat-snoc : (xs : List Sent) (x : Sent) → NoBeat xs → x.method ≢ patch → NoBeat (xs ++ (x ∷ []))
NoBeat-snoc [] x h n = (n, tt)
NoBeat-snoc (y ∷ xs) x (m, h) n = (m, NoBeat-snoc xs x h n)

-- Another request than a heartbeat changes nothing.
stops-snoc_other :
    (xs : List Sent) (x : Sent)
    → StopsWhenRefused xs
    → x.method ≢ patch
    → StopsWhenRefused (xs ++ (x ∷ []))
stops-snoc_other [] x h n = (λ _. tt, tt)
stops-snoc_other (y ∷ xs) x (f, h) n = (λ r. NoBeat-snoc xs x (f r) n, stops-snoc_other xs x h n)

-- Before any refusal a heartbeat may follow.
stops-snoc : (xs : List Sent) (x : Sent) → Unrefused xs → StopsWhenRefused (xs ++ (x ∷ []))
stops-snoc [] x h = (λ _. tt, tt)
stops-snoc (y ∷ xs) x (f, h) = (λ r. absurd (f r), stops-snoc xs x h)

Unrefused-snoc :
    (xs : List Sent) (x : Sent) → Unrefused xs → ¬ IsRefused x → Unrefused (xs ++ (x ∷ []))
Unrefused-snoc [] x h n = (n, tt)
Unrefused-snoc (y ∷ xs) x (f, h) n = (f, Unrefused-snoc xs x h n)

Unrefused-stops : (xs : List Sent) → Unrefused xs → StopsWhenRefused xs
Unrefused-stops [] h = tt
Unrefused-stops (x ∷ xs) (f, h) = (λ r. absurd (f r), Unrefused-stops xs h)

module _ {J : JsonLib} {net : Net J} {S : Signals} (patch_item : Bytes → Bytes → J.Json) where
  -- What one round does to the SEPP.
  abbrev pub tick : Client J → ℕ → SeppNrf net S → SeppNrf net S
  tick client t s =
      task_tick S (λ s. s.event_sub) (trigger_nf_heartbeat_procedure S patch_item client) t
        (S.slots s.event_sub) s

  -- The states of a SEPP that has registered once: between them the task manager ticks, at any time
  -- and with any answer of the NRF, and the SEPP may deregister.
  pub data Reaches : SeppNrf net S → Type 0 where
    registered :
        (cfg : SbiConfig net) (id url : Bytes) (g : S.Signal) (client : Client J) (ms : ℕ)
        → S.slots g ≡ []
        → Reaches (register_to_nrf S client ms (sepp_nrf S cfg id url g))
    ticked : {s : SeppNrf net S} (client : Client J) (t : ℕ) → Reaches s → Reaches (tick client t s)
    deregistered :
        {s : SeppNrf net S} (client : Client J) (ms : ℕ)
        → Reaches s
        → Reaches (deregister_to_nrf S client ms s)

module _ {J : JsonLib} {net : Net J} {S : Signals} where
  -- The heartbeat is connected and none was refused.
  record Running (s : SeppNrf net S) : Type 0 where
    connection : S.Connection
    slot : Slot
    slots : S.slots s.event_sub ≡ (connection, slot) ∷ []
    kept : s.task_connection ≡ some connection
    unrefused : Unrefused s.sent

  -- No heartbeat is connected.
  record Stopped (s : SeppNrf net S) : Type 0 where
    slots : S.slots s.event_sub ≡ []
    stops : StopsWhenRefused s.sent

module _ {J : JsonLib} {net : Net J} {S : Signals} (P : IsSignals S)
    (patch_item : Bytes → Bytes → J.Json) where
  trigger-Running :
      (client : Client J) (t : ℕ) (s : SeppNrf net S)
      → Running s
      → Running (trigger_nf_heartbeat_procedure S patch_item client t s)
        ⊎ Stopped (trigger_nf_heartbeat_procedure S patch_item client t s)
  unfolding trigger_nf_heartbeat_procedure disconnect
  trigger-Running client t s r =
      let status = (client.send patch (heartbeat S patch_item client s)).status_code in
      elim (Bool-cases (status =? 200 || status =? 204)) [
        | inl fine ↦ rw (fine) (
            inl (record {
              connection = r.connection;
              slot = r.slot;
              slots = r.slots;
              kept = r.kept;
              unrefused = Unrefused-snoc s.sent _ r.unrefused (λ (m, bad). clash fine bad);
            }))
        | inr bad ↦
            rw (bad, r.kept)
              (inr (record {
                slots = P.slots-disconnect _ _ _ r.slots;
                stops = stops-snoc s.sent _ r.unrefused;
              }))
      ]

  tick-Running :
      (client : Client J) (t : ℕ) (s : SeppNrf net S)
      → Running s
      → Running (tick patch_item client t s) ⊎ Stopped (tick patch_item client t s)
  unfolding task_tick
  tick-Running client t s r = elim (Bool-cases (is_due r.slot t)) [
    | inl due ↦ rw (r.slots, P.connected-slots _ _ _ r.slots, due) (trigger-Running client t s r)
    | inr early ↦ rw (r.slots, P.connected-slots _ _ _ r.slots, early) (inl r)
  ]

  tick-Stopped :
      (client : Client J) (t : ℕ) (s : SeppNrf net S)
      → Stopped s
      → Stopped (tick patch_item client t s)
  unfolding task_tick
  tick-Stopped client t s q = rw (q.slots) q

  deregister-either :
      (client : Client J) (ms : ℕ) (s : SeppNrf net S)
      → Running s ⊎ Stopped s
      → Running (deregister_to_nrf S client ms s) ⊎ Stopped (deregister_to_nrf S client ms s)
  unfolding deregister_to_nrf
  deregister-either client ms s (inl r) = inl (record {
    connection = r.connection;
    slot = r.slot;
    slots = r.slots;
    kept = r.kept;
    unrefused = Unrefused-snoc s.sent _ r.unrefused (λ (m, bad). delete_other m);
  })
  deregister-either client ms s (inr q) =
      inr (record { slots = q.slots; stops = stops-snoc_other s.sent _ q.stops delete_other })

  start-Running :
      (ms : ℕ) (s : SeppNrf net S)
      → S.slots s.event_sub ≡ []
      → Unrefused s.sent
      → Running (start_event_nf_heartbeat S ms s)
  unfolding start_event_nf_heartbeat subscribe_task_nf_heartbeat
  start-Running ms s none_yet u = record {
    connection =
        (S.connect s.event_sub (record { period = interval; start = (ms + interval) % 2 ^ 64 })).1;
    slot = record { period = interval; start = (ms + interval) % 2 ^ 64 };
    slots = P.slots-connect _ _ ∙ rw (none_yet) refl;
    kept = refl;
    unrefused = u;
  }

  -- The registration, with or without a heartbeat.
  register-either :
      (cfg : SbiConfig net) (id url : Bytes) (g : S.Signal) (client : Client J) (ms : ℕ)
      → S.slots g ≡ []
      → let s = register_to_nrf S client ms (sepp_nrf S cfg id url g) in Running s ⊎ Stopped s
  unfolding register_to_nrf sepp_nrf
  register-either cfg id url g client ms none_yet =
      let response = client.send put (registration S client (sepp_nrf S cfg id url g)) in
      elim (Bool-cases (response.status_code =? 201 || response.status_code =? 200)) [
        | inr bad ↦ rw (bad) (inr (record { slots = none_yet; stops = (λ _. tt, tt) }))
        | inl fine ↦ elim (Bool-cases (not_in_front response.body)) [
          | inr front ↦ rw (fine, front) (inr (record { slots = none_yet; stops = (λ _. tt, tt) }))
          | inl other ↦
              rw (fine, other) (inl (start-Running ms _ none_yet (λ (m, _). put_other m, tt)))
        ]
      ]

  Reaches-either : (s : SeppNrf net S) → Reaches patch_item s → Running s ⊎ Stopped s
  Reaches-either s (registered cfg id url g client ms none_yet) =
      register-either cfg id url g client ms none_yet
  Reaches-either _ (ticked {s} client t h) = elim (Reaches-either s h) [
    | inl r ↦ tick-Running client t s r
    | inr q ↦ inr (tick-Stopped client t s q)
  ]
  Reaches-either _ (deregistered {s} client ms h) =
      deregister-either client ms s (Reaches-either s h)

  -- Of all requests that a SEPP has sent to the NRF, from its registration on and through any ticks,
  -- answers and deregistrations, no heartbeat stands behind one that was answered with another status
  -- than 200 and 204.
  pub Reaches-StopsWhenRefused :
      (s : SeppNrf net S) → Reaches patch_item s → StopsWhenRefused s.sent
  Reaches-StopsWhenRefused s h = elim (Reaches-either s h) [
    | inl r ↦ Unrefused-stops s.sent r.unrefused
    | inr q ↦ q.stops
  ]
