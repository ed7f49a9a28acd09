-- ===== src/Remoteproc/Lifecycle/Relation.antt =====
-- The life cycle as a relation of states.
use openamp_core.Prelude.{◌≡◌, refl, sym, ◌∙◌, Bool, true, false, not, ◌&&◌, ℤ, is_success, arith}
use mathlib.Core.Bool.{true≢false}
use openamp_core.Virtqueue.State.{Ptr}
use openamp_core.Remoteproc.State.{
  ProcState, offline, configured, ready, running, suspended, error, stopped,
}
use openamp_core.Remoteproc.Lifecycle.{is_offline, is_ready, is_stopped}

-- The calls that a program makes.
pub data Call : Type 0 where
  removes : Call
  configures : Ptr → Call
  starts : Call
  stops : Call
  shuts_down : Call

-- The steps of the life cycle, each by the call that takes it.
pub data Step : Call → ProcState → ProcState → Type 0 where
  is_configured : {datum : Ptr} → Step (configures datum) offline ready
  is_started : Step starts ready running
  ready_stops : Step stops ready stopped
  running_stops : Step stops running stopped
  ready_ends : Step shuts_down ready offline
  running_ends : Step shuts_down running offline
  stopped_ends : Step shuts_down stopped offline

-- The calls that succeed and have nothing to do in a state.
pub data Idle : Call → ProcState → Type 0 where
  is_removed : Idle removes offline
  offline_rests : Idle stops offline
  stopped_rests : Idle stops stopped
  stays_down : Idle shuts_down offline

-- What a call may do, given its answer: fail and leave the state, or succeed with the one step of the
-- life cycle that it takes from the state, or where it has nothing to do.
pub data Move : Call → ℤ → ProcState → ProcState → Type 0 where
  fails : {c : Call} {ret : ℤ} {a : ProcState} → is_success ret ≡ false → Move c ret a a
  rests : {c : Call} {ret : ℤ} {a : ProcState} → is_success ret ≡ true → Idle c a → Move c ret a a
  steps :
      {c : Call} {ret : ℤ} {a b : ProcState} → is_success ret ≡ true → Step c a b → Move c ret a b

-- The states that the life cycle has.
abbrev pub is_live : ProcState → Bool
is_live offline = true
is_live ready = true
is_live running = true
is_live stopped = true
is_live _ = false

pub offline_is : (st : ProcState) → is_offline st ≡ true → st ≡ offline
offline_is offline h = refl
offline_is configured h = absurd (ground (arith, h))
offline_is ready h = absurd (ground (arith, h))
offline_is running h = absurd (ground (arith, h))
offline_is suspended h = absurd (ground (arith, h))
offline_is error h = absurd (ground (arith, h))
offline_is stopped h = absurd (ground (arith, h))

pub ready_is : (st : ProcState) → is_ready st ≡ true → st ≡ ready
ready_is offline h = absurd (ground (arith, h))
ready_is configured h = absurd (ground (arith, h))
ready_is ready h = refl
ready_is running h = absurd (ground (arith, h))
ready_is suspended h = absurd (ground (arith, h))
ready_is error h = absurd (ground (arith, h))
ready_is stopped h = absurd (ground (arith, h))

pub stop-Step :
    (st : ProcState)
    → is_live st ≡ true
    → (not (is_stopped st) && not (is_offline st)) ≡ true
    → Step stops st stopped
stop-Step offline live h = absurd (ground (arith, h))
stop-Step configured live h = absurd (ground (arith, live))
stop-Step ready live h = ready_stops
stop-Step running live h = running_stops
stop-Step suspended live h = absurd (ground (arith, live))
stop-Step error live h = absurd (ground (arith, live))
stop-Step stopped live h = absurd (ground (arith, h))

pub end-Step :
    (st : ProcState) → is_live st ≡ true → is_offline st ≡ false → Step shuts_down st offline
end-Step offline live h = absurd (ground (arith, h))
end-Step configured live h = absurd (ground (arith, live))
end-Step ready live h = ready_ends
end-Step running live h = running_ends
end-Step suspended live h = absurd (ground (arith, live))
end-Step error live h = absurd (ground (arith, live))
end-Step stopped live h = stopped_ends

Step-is_live : (c : Call) (a b : ProcState) → Step c a b → is_live b ≡ true
Step-is_live _ _ _ is_configured = refl
Step-is_live _ _ _ is_started = refl
Step-is_live _ _ _ ready_stops = refl
Step-is_live _ _ _ running_stops = refl
Step-is_live _ _ _ ready_ends = refl
Step-is_live _ _ _ running_ends = refl
Step-is_live _ _ _ stopped_ends = refl

-- A move of the life cycle stays in its states.
pub Move-is_live :
    (c : Call) (ret : ℤ) (a b : ProcState) → is_live a ≡ true → Move c ret a b → is_live b ≡ true
Move-is_live _ _ _ _ live (fails bad) = live
Move-is_live _ _ _ _ live (rests ok idle) = live
Move-is_live c _ a b live (steps ok step) = Step-is_live c a b step

pub rest-Idle :
    (st : ProcState)
    → is_live st ≡ true
    → (not (is_stopped st) && not (is_offline st)) ≡ false
    → Idle stops st
rest-Idle offline live h = offline_rests
rest-Idle configured live h = absurd (ground (arith, live))
rest-Idle ready live h = absurd (ground (arith, h))
rest-Idle running live h = absurd (ground (arith, h))
rest-Idle suspended live h = absurd (ground (arith, live))
rest-Idle error live h = absurd (ground (arith, live))
rest-Idle stopped live h = stopped_rests

-- A shutdown that succeeds ends offline; a call that fails leaves the state.
Step-offline : (c : Call) (a b : ProcState) → c ≡ shuts_down → Step c a b → b ≡ offline
Step-offline _ _ _ e is_configured = absurd (cc)
Step-offline _ _ _ e is_started = absurd (cc)
Step-offline _ _ _ e ready_stops = absurd (cc)
Step-offline _ _ _ e running_stops = absurd (cc)
Step-offline _ _ _ e ready_ends = refl
Step-offline _ _ _ e running_ends = refl
Step-offline _ _ _ e stopped_ends = refl

Idle-offline : (c : Call) (a : ProcState) → c ≡ shuts_down → Idle c a → a ≡ offline
Idle-offline _ _ e is_removed = refl
Idle-offline _ _ e offline_rests = refl
Idle-offline _ _ e stopped_rests = absurd (cc)
Idle-offline _ _ e stays_down = refl

shut_at :
    (c : Call) (ret : ℤ) (a b : ProcState)
    → c ≡ shuts_down
    → Move c ret a b
    → is_success ret ≡ true
    → b ≡ offline
shut_at _ _ _ _ e (fails bad) ok = absurd (true≢false (sym ok ∙ bad))
shut_at c _ a _ e (rests _ idle) ok = Idle-offline c a e idle
shut_at c _ a b e (steps _ step) ok = Step-offline c a b e step

pub shut_down :
    (ret : ℤ) (a b : ProcState) → Move shuts_down ret a b → is_success ret ≡ true → b ≡ offline
shut_down ret a b move ok = shut_at shuts_down ret a b refl move ok

pub failed_same :
    (c : Call) (ret : ℤ) (a b : ProcState) → Move c ret a b → is_success ret ≡ false → b ≡ a
failed_same _ _ _ _ (fails bad) h = refl
failed_same _ _ _ _ (rests ok idle) h = refl
failed_same _ _ _ _ (steps ok step) h = absurd (true≢false (sym ok ∙ h))
