-- ===== src/Server/Lifecycle.antt =====
-- `start` and `stop` of the two HTTP/2 servers, on two threads that share `running_server`
-- (src/api-server/sepp-http2-nbi-server.cpp and sepp-http2-sbi-server.cpp). How long nghttp2
-- listens is open: `listen_and_serve` returns on an error, and after `server.stop()`.
use oai_cn5g_sepp.Base.{◌≡◌, ◌≢◌, ◌⊎◌, refl, Bool, true, false, inl, inr, arith}

-- The thread that runs `start`: `listening` is between the two writes of the flag.
pub data Starter : Type 0 where
  created listening ended : Starter

-- The thread that runs `stop`: `polling` is its loop.
pub data Stopper : Type 0 where
  idle polling returned : Stopper

pub record Lifecycle : Type 0 where
  pub starter : Starter
  pub stopper : Stopper
  pub running_server : Bool

pub data Step : Lifecycle → Lifecycle → Type 0 where
  begin :
      (s : Lifecycle)
      → s.starter ≡ created
      → Step s (record s { starter = listening; running_server = true })
  leave :
      (s : Lifecycle)
      → s.starter ≡ listening
      → Step s (record s { starter = ended; running_server = false })
  call_stop : (s : Lifecycle) → s.stopper ≡ idle → Step s (record s { stopper = polling })
  sleep : (s : Lifecycle) → s.stopper ≡ polling → s.running_server ≡ true → Step s s
  return_stop :
      (s : Lifecycle)
      → s.stopper ≡ polling
      → s.running_server ≡ false
      → Step s (record s { stopper = returned })

pub data Steps (s : Lifecycle) : Lifecycle → Type 0 where
  here : Steps s s
  next : {t u : Lifecycle} → Steps s t → Step t u → Steps s u

-- A server that was started: the flag says whether it listens, and `stop` has only returned where
-- it does not.
abbrev IsConsistent : Lifecycle → Type 0
IsConsistent s =
    ((s.starter ≡ listening) × (s.running_server ≡ true) × (s.stopper ≢ returned))
    ⊎ ((s.starter ≡ ended) × (s.running_server ≡ false))

Step-IsConsistent : {s t : Lifecycle} → Step s t → IsConsistent s → IsConsistent t
Step-IsConsistent (begin s e) h = ground arith
Step-IsConsistent (leave s e) h = inr (refl, refl)
Step-IsConsistent (call_stop s e) h = ground arith
Step-IsConsistent (sleep s e r) h = h
Step-IsConsistent (return_stop s e r) h = ground arith

Steps-IsConsistent : {s t : Lifecycle} → IsConsistent s → Steps s t → IsConsistent t
Steps-IsConsistent h here = h
Steps-IsConsistent h (next r st) = Step-IsConsistent st (Steps-IsConsistent h r)

-- `stop` can come to return from here.
abbrev pub Returns : Lifecycle → Type 0
Returns s = (u : Lifecycle) × Steps s u × (u.stopper ≡ returned)

-- From a server that does not listen any more `stop` comes to return.
Returns-ended : {s : Lifecycle} (t : Lifecycle) → Steps s t → t.running_server ≡ false → Returns s
Returns-ended {s} t r off = go t.stopper refl
  where
    go : (p : Stopper) → t.stopper ≡ p → Returns s
    go idle e = (_, next (next r (call_stop t e)) (return_stop _ refl off), refl)
    go polling e = (_, next r (return_stop t e off), refl)
    go returned e = (t, r, e)

IsConsistent-Returns : (t : Lifecycle) → IsConsistent t → Returns t
IsConsistent-Returns t (inl (e, on, ne)) =
    Returns-ended (record t { starter = ended; running_server = false }) (next here (leave t e))
      refl
IsConsistent-Returns t (inr (e, off)) = Returns-ended t here off

-- Of a server that listens when `stop` is called: whenever `stop` has returned, `start` has ended, so
-- nothing listens any more; and whatever the two threads have done, `stop` can still come to return,
-- if nghttp2 ends the listening.
pub Steps-stop :
    {s t : Lifecycle}
    → s.starter ≡ listening
    → s.running_server ≡ true
    → s.stopper ≡ idle
    → Steps s t
    → (t.stopper ≡ returned → t.starter ≡ ended) × Returns t
Steps-stop {s} {t} listens on called steps =
    let consistent : IsConsistent t = Steps-IsConsistent (ground arith) steps in
    (λ done. ground arith, IsConsistent-Returns t consistent)

-- A `stop` that comes before `start` has set the flag returns, and the server listens afterwards.
stop_too_early :
    (s : Lifecycle)
    → s.starter ≡ created
    → s.stopper ≡ idle
    → s.running_server ≡ false
    → (t : Lifecycle) × Steps s t × (t.stopper ≡ returned) × (t.starter ≡ listening)
stop_too_early s fresh waiting off = (
  _,
  next (next (next here (call_stop s waiting)) (return_stop _ refl off)) (begin _ fresh),
  refl,
  refl,
)
