-- ===== src/Event.antt =====
-- The timer events of src/sepp_app/sepp_event.cpp and task_manager.cpp. The Boost signal that
-- carries them is a parameter.
use oai_cn5g_sepp.Base.{
  ℕ, zero, suc, ◌+◌, ◌-◌, ◌%◌, ◌^◌, ◌≡◌, Bool, true, ◌&&◌, List, [], ◌∷◌, ◌++◌, leb, ◌=?◌,
  if◌then◌else◌,
}

-- What the lambda of a subscription captures.
pub record Slot : Type 0 where
  pub period : ℕ
  pub start : ℕ

-- `boost::signals2`: `slots` are the connected slots in the order in which they are called.
pub record Signals : Type 1 where
  pub Signal : Type 0
  pub Connection : Type 0
  pub fresh : Signal
  pub connect : Signal → Slot → Signal × Connection
  pub disconnect : Signal → Connection → Signal
  pub connected : Signal → Connection → Bool
  pub slots : Signal → List (Connection × Slot)

-- What its documentation says: a slot is connected behind the others, stays connected until its
-- connection is disconnected, and a signal that has lost its one slot has none.
pub record IsSignals (S : Signals) : Type 0 where
  pub slots-fresh : S.slots S.fresh ≡ []
  pub slots-connect :
      (g : S.Signal) (s : Slot)
      → S.slots (S.connect g s).0 ≡ S.slots g ++ (((S.connect g s).1, s) ∷ [])
  pub slots-disconnect :
      (g : S.Signal) (c : S.Connection) (s : Slot)
      → S.slots g ≡ (c, s) ∷ []
      → S.slots (S.disconnect g c) ≡ []
  pub connected-slots :
      (g : S.Signal) (c : S.Connection) (s : Slot)
      → S.slots g ≡ (c, s) ∷ []
      → S.connected g c ≡ true

-- The test of the lambda: the callback runs at the start, and then once every period.
unfoldable pub is_due : Slot → ℕ → Bool
is_due s t = leb s.start t && (t - s.start) % s.period =? 0

unfoldable pub subscribe_task_nf_heartbeat :
    (S : Signals) → S.Signal → ℕ → ℕ → S.Signal × S.Connection
subscribe_task_nf_heartbeat S g period start =
    S.connect g (record { period = period; start = start })

module _ {A : Type 0} (S : Signals) (signal : A → S.Signal) (callback : ℕ → A → A) where
  -- `task_tick(t)`: each slot that is still connected when its turn comes
  unfoldable pub task_tick : ℕ → List (S.Connection × Slot) → A → A
  task_tick t [] a = a
  task_tick t ((c, s) ∷ rest) a =
      task_tick t rest (if S.connected (signal a) c && is_due s t then callback t a else a)

  -- The body of the loop of `manage_tasks`: the state and the time `t`, a `uint64_t`.
  unfoldable pub manage_task : A × ℕ → A × ℕ
  manage_task (a, t) = (task_tick t (S.slots (signal a)) a, (t + 1) % 2 ^ 64)

  -- The loop never ends; this is its state after so many rounds.
  unfoldable pub manage_tasks : ℕ → A × ℕ → A × ℕ
  manage_tasks zero m = m
  manage_tasks (suc n) m = manage_task (manage_tasks n m)
