-- ===== src/Nrf/Heartbeats.antt =====
-- When the heartbeat is sent.
use oai_cn5g_sepp.Base.{
  ℕ, zero, suc, ◌+◌, ◌-◌, ◌*◌, ◌/◌, ◌%◌, ◌^◌, ◌≤◌, ◌<◌, ◌≡◌, refl, sym, ap, ◌∙◌, ◌⊎◌, inl, inr,
  arith, true, false, ◌||◌, Bool-cases, some, List, [], ◌∷◌, ◌++◌, ◌=?◌, Bytes,
}
use mathlib.Core.List.{append_assoc, append-nil}
use oai_cn5g_sepp.Json.{JsonLib}
use oai_cn5g_sepp.Http.{Client, patch}
use oai_cn5g_sepp.Profile.{Net}
use oai_cn5g_sepp.Event.{Slot, Signals, IsSignals, is_due, task_tick, manage_task, manage_tasks}
use oai_cn5g_sepp.Nrf.{SeppNrf, Sent, interval, heartbeat, trigger_nf_heartbeat_procedure, run}

-- The subscription of a heartbeat that was started at the time `ms`.
abbrev slot_of : ℕ → Slot
slot_of ms = record { period = interval; start = ms + interval }

is_due-beat : (ms n : ℕ) → is_due (slot_of ms) (ms + n) ≡ true → (0 < n) × (n % interval ≡ 0)
unfolding is_due
is_due-beat ms n h = ground arith

is_due-no : (ms n : ℕ) → is_due (slot_of ms) (ms + n) ≡ false → (n ≡ 0) ⊎ (0 < n % interval)
unfolding is_due
is_due-no ms n h = ground arith

pair : {A B : Type 0} {a a' : A} {b b' : B} → a ≡ a' → b ≡ b' → ◌≡◌ {A = A × B} (a, b) (a', b')
pair p q = cc

-- At an end of an interval one more is complete, and else none.
count-beat :
    (ms n : ℕ)
    → 0 < n
    → n % interval ≡ 0
    → ((n + 1 - 1) / interval ≡ suc ((n - 1) / interval))
      × (ms + n ≡ ms + interval * ((n - 1) / interval + 1))
count-beat ms n h e = (omega arith, omega arith)

count-no : (n : ℕ) → (n ≡ 0) ⊎ (0 < n % interval) → (n + 1 - 1) / interval ≡ (n - 1) / interval
count-no n h = omega arith

module _ {J : JsonLib} {net : Net J} {S : Signals} where
  -- The only slot is the heartbeat that was started at the time `ms`.
  pub record Beating (ms : ℕ) (s : SeppNrf net S) : Type 0 where
    pub connection : S.Connection
    pub slots : S.slots s.event_sub ≡ (connection, slot_of ms) ∷ []
    pub kept : s.task_connection ≡ some connection

module _ {J : JsonLib} {net : Net J} {S : Signals} (patch_item : Bytes → Bytes → J.Json) where
  -- The NRF accepts the heartbeat of `s`.
  abbrev pub Accepts : Client J → SeppNrf net S → Type 0
  Accepts client s =
      let status = (client.send patch (heartbeat S patch_item client s)).status_code in
      (status =? 200 || status =? 204) ≡ true

  abbrev beat : (ℕ → Client J) → ℕ → SeppNrf net S → Sent
  beat network t s = record {
    at = t;
    method = patch;
    request = heartbeat S patch_item (network t) s;
    status = ((network t).send patch (heartbeat S patch_item (network t) s)).status_code;
  }

  -- The heartbeats at the first `k` ends of an interval after `ms`.
  unfoldable pub beats : (ℕ → Client J) → ℕ → SeppNrf net S → ℕ → List Sent
  beats network ms s zero = []
  beats network ms s (suc k) =
      beats network ms s k ++ (beat network (ms + interval * (k + 1)) s ∷ [])

  -- The state when the task manager has come to `n` milliseconds after the start.
  abbrev pub after : (ℕ → Client J) → ℕ → SeppNrf net S → ℕ → SeppNrf net S
  after network ms s n = record s { sent = s.sent ++ beats network ms s ((n - 1) / interval) }

module _ {J : JsonLib} {net : Net J} {S : Signals} (P : IsSignals S)
    (patch_item : Bytes → Bytes → J.Json) where
  abbrev callback : (ℕ → Client J) → ℕ → SeppNrf net S → SeppNrf net S
  callback network t = trigger_nf_heartbeat_procedure S patch_item (network t) t

  -- One tick, where the NRF accepts a heartbeat if one is due.
  tick-due :
      (network : ℕ → Client J) (ms t : ℕ) (s : SeppNrf net S) (b : Beating ms s)
      → Accepts patch_item (network t) s
      → is_due (slot_of ms) t ≡ true
      → task_tick S (λ s. s.event_sub) (callback network) t (S.slots s.event_sub) s
        ≡ record s { sent = s.sent ++ (beat patch_item network t s ∷ []) }
  unfolding task_tick trigger_nf_heartbeat_procedure
  tick-due network ms t s b a due = rw (b.slots, P.connected-slots _ _ _ b.slots, due, a) refl

  tick-not_due :
      (network : ℕ → Client J) (ms t : ℕ) (s : SeppNrf net S) (b : Beating ms s)
      → is_due (slot_of ms) t ≡ false
      → task_tick S (λ s. s.event_sub) (callback network) t (S.slots s.event_sub) s ≡ s
  unfolding task_tick
  tick-not_due network ms t s b due = rw (b.slots, P.connected-slots _ _ _ b.slots, due) refl

  after-due :
      (network : ℕ → Client J) (ms n : ℕ) (s : SeppNrf net S)
      → 0 < n
      → n % interval ≡ 0
      → (after patch_item network ms s n).sent ++ (beat patch_item network (ms + n) s ∷ [])
        ≡ (after patch_item network ms s (n + 1)).sent
  unfolding beats
  after-due network ms n s h e =
      let (more, time) = count-beat ms n h e in
      rw
        (
          more,
          time,
          append_assoc s.sent (beats patch_item network ms s ((n - 1) / interval))
              (beat patch_item network (ms + interval * ((n - 1) / interval + 1)) s ∷ []),
        )
        refl

  round :
      (network : ℕ → Client J) (ms n : ℕ) (s : SeppNrf net S) (b : Beating ms s)
      → Accepts patch_item (network (ms + n)) s
      → task_tick S
          (λ s. s.event_sub)
          (callback network)
          (ms + n)
          (S.slots s.event_sub)
          (after patch_item network ms s n)
        ≡ after patch_item network ms s (n + 1)
  unfolding beats
  round network ms n s b a =
      let b' : Beating ms (after patch_item network ms s n) = record {
        connection = b.connection;
        slots = b.slots;
        kept = b.kept;
      } in
      elim (Bool-cases (is_due (slot_of ms) (ms + n))) [
        | inl due ↦
            let (h, e) = is_due-beat ms n due in
            tick-due network ms (ms + n) (after patch_item network ms s n) b' a due
            ∙ ap (λ sent. record s { sent = sent }) (after-due network ms n s h e)
        | inr late ↦
            tick-not_due network ms (ms + n) (after patch_item network ms s n) b' late
            ∙ ap (λ k. record s { sent = s.sent ++ beats patch_item network ms s k })
                (sym (count-no n (is_due-no ms n late)))
      ]

  -- `n` rounds of the task manager, from the time `ms + d`.
  pub run-beats :
      (network : ℕ → Client J) (ms d n : ℕ) (s : SeppNrf net S)
      → Beating ms s
      → d ≤ interval
      → ms + (d + n) < 2 ^ 64
      → ((t : ℕ) → Accepts patch_item (network t) s)
      → run S patch_item network n (s, ms + d)
        ≡ (after patch_item network ms s (d + n), ms + (d + n))
  unfolding run manage_tasks manage_task beats
  run-beats network ms d zero s b le lt a =
      let none_yet : (d + 0 - 1) / interval ≡ 0 = omega (arith, le) in
      let now : d + 0 ≡ d = omega arith in rw (none_yet, now, append-nil s.sent) refl
  run-beats network ms d (suc n) s b le lt a =
      let later : d + n + 1 ≡ d + suc n = omega arith in
      rw (run-beats network ms d n s b le (omega (arith, lt)) a) (
        pair
          (round network ms (d + n) s b (a (ms + (d + n)))
            ∙ ap (after patch_item network ms s) later)
          (omega (arith, lt)))
