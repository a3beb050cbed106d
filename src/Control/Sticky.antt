-- ===== src/Control/Sticky.antt =====
-- `cancel` is sticky, and `wait` never wakes in PAUSED.
use graphed.Prelude.{◌≡◌, refl, Bool, true, false, ◌||◌, List, [], ◌∷◌, arith, All, ◌⊎◌}
use graphed.Outcome.{returns, hangs}
use graphed.Control.{
  RunState, is_cancelled, is_paused, Method, pause, resume, cancel, reset, call, call_all, Control,
  wait, wait_from,
}

abbrev pub has_cancel : List Method → Bool
has_cancel [] = false
has_cancel (cancel ∷ ms) = true
has_cancel (_ ∷ ms) = has_cancel ms

abbrev pub is_reset : Method → Bool
is_reset reset = true
is_reset _ = false

-- Between two resets, which only a runner makes when a run ends, the run is cancelled exactly if it
-- was before or some call was `cancel`: no later pause or resume takes a cancel back, and none
-- makes one.
pub cancel_sticky :
    (ms : List Method) (s : RunState)
    → All (λ m. is_reset m ≡ false) ms
    → is_cancelled (call_all ms s) ≡ (is_cancelled s || has_cancel ms)
unfolding call_all
cancel_sticky [] s h = ground arith
cancel_sticky (pause ∷ ms) s h = ground (arith, cancel_sticky ms (call pause s) h.1)
cancel_sticky (resume ∷ ms) s h = ground (arith, cancel_sticky ms (call resume s) h.1)
cancel_sticky (cancel ∷ ms) s h = ground (arith, cancel_sticky ms (call cancel s) h.1)
cancel_sticky (reset ∷ ms) s h = cc (h.0)

-- What a wait may end in, from a state and the batches of calls that arrive.
wait_from_lem :
    (s : RunState) (batches : List (List Method)) (c : Control)
    → (wait_from s batches).1 ≡ c
    → ((wait_from s batches).0 ≡ returns c.state) × (is_paused c.state ≡ false)
      ⊎ ((wait_from s batches).0 ≡ hangs) × (is_paused c.state ≡ true) × (c.arriving ≡ [])
unfolding wait_from
wait_from_lem s [] c e = ground arith
wait_from_lem s (b ∷ batches) c e = ground (arith, wait_from_lem (call_all b s) batches c)

-- `wait()` either wakes in the state that the control then has, which is not PAUSED, or it blocks
-- for ever because every call that was to come has come and the state is still PAUSED. It never
-- raises.
pub wait_wakes :
    (c : Control)
    → ((wait c).0 ≡ returns (wait c).1.state) × (is_paused (wait c).1.state ≡ false)
      ⊎ ((wait c).0 ≡ hangs) × (is_paused (wait c).1.state ≡ true) × ((wait c).1.arriving ≡ [])
unfolding wait
wait_wakes c = wait_from_lem c.state c.arriving (wait_from c.state c.arriving).1 refl
