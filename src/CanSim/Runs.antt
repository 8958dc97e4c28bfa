-- ===== src/CanSim/Runs.antt =====
-- Sequences of the simulator's steps: two after each other, and the receive interrupt, which comes
-- at any place of the loop and which DBG[1] counts.
use kmm_yocto.Base.{ℕ, ◌+◌, ◌≡◌, refl, false, List, [], ◌∷◌, ◌++◌, arith, u32, ℤ}
use kmm_yocto.CanSim
use kmm_yocto.CanSim.{
  Wire, batch, Place, wait, Sim, rx_cb, Event, interrupt, read_clock, send_next, send_frame, step,
  at, run,
}

-- How many of the events are interrupts.
abbrev pub hellos_of : List Event → ℕ
hellos_of [] = 0
hellos_of (interrupt src ∷ es) = hellos_of es + 1
hellos_of (read_clock now w ∷ es) = hellos_of es
hellos_of (send_next ∷ es) = hellos_of es

module _ (send : List (ℕ × List ℕ) → ℕ → List ℕ → ℤ) where
  pub run-append :
      (as' bs : List Event) (s : Sim) → run send (as' ++ bs) s ≡ run send bs (run send as' s)
  unfolding run
  run-append [] bs s = refl
  run-append (a ∷ as') bs s = run-append as' bs (step send a s)

  pub run-nil : (s : Sim) → run send [] s ≡ s
  unfolding run
  run-nil s = refl

  at_hello : (me : ℕ) (p : Place) (s : Sim) → at send p (interrupt me) s ≡ rx_cb me s
  unfolding at rx_cb
  at_hello me wait s = refl
  at_hello me (CanSim.send w []) s = refl
  at_hello me (CanSim.send w (x ∷ xs)) s = refl

  pub step_hello : (me : ℕ) (s : Sim) → step send (interrupt me) s ≡ rx_cb me s
  unfolding step
  step_hello me s = at_hello me s.place s

  -- A clock reading or a send leaves the count of the hellos as it is.
  at_counts :
      (p : Place) (e : Event) (s : Sim)
      → u32 (at send p e s).dbg_hello ≡ u32 (s.dbg_hello + hellos_of (e ∷ []))
  unfolding at rx_cb send_frame batch
  at_counts wait (interrupt src) s = ground arith
  at_counts (CanSim.send w []) (interrupt src) s = ground arith
  at_counts (CanSim.send w (x ∷ xs)) (interrupt src) s = ground arith
  at_counts wait (read_clock now w) s = ground arith
  at_counts (CanSim.send w []) (read_clock now v) s = ground arith
  at_counts (CanSim.send w (x ∷ xs)) (read_clock now v) s = ground arith
  at_counts wait send_next s = ground arith
  at_counts (CanSim.send w []) send_next s = ground arith
  at_counts (CanSim.send w (x ∷ xs)) send_next s = ground arith

  pub run_hellos :
      (es : List Event) (s : Sim) → u32 (run send es s).dbg_hello ≡ u32 (s.dbg_hello + hellos_of es)
  unfolding run step
  run_hellos [] s = ground arith
  run_hellos (interrupt src ∷ es) s =
      let h = at_counts s.place (interrupt src) s in
      let t = run_hellos es (at send s.place (interrupt src) s) in omega (arith, h, t)
  run_hellos (read_clock now w ∷ es) s =
      let h = at_counts s.place (read_clock now w) s in
      let t = run_hellos es (at send s.place (read_clock now w) s) in omega (arith, h, t)
  run_hellos (send_next ∷ es) s =
      let h = at_counts s.place send_next s in
      let t = run_hellos es (at send s.place send_next s) in omega (arith, h, t)

  -- Without a hello the peer stays unknown.
  at_unknown :
      (p : Place) (e : Event) (s : Sim)
      → s.peer_known ≡ false
      → hellos_of (e ∷ []) ≡ 0
      → (at send p e s).peer_known ≡ false
  unfolding at send_frame batch
  at_unknown p (interrupt src) s h z = absurd (omega (arith, z))
  at_unknown wait (read_clock now w) s h z = ground arith
  at_unknown (CanSim.send w []) (read_clock now v) s h z = h
  at_unknown (CanSim.send w (x ∷ xs)) (read_clock now v) s h z = h
  at_unknown wait send_next s h z = h
  at_unknown (CanSim.send w []) send_next s h z = ground arith
  at_unknown (CanSim.send w (x ∷ xs)) send_next s h z = ground arith

  pub run_unknown :
      (es : List Event) (s : Sim)
      → s.peer_known ≡ false
      → hellos_of es ≡ 0
      → (run send es s).peer_known ≡ false
  unfolding run step
  run_unknown [] s h z = h
  run_unknown (interrupt src ∷ es) s h z = absurd (omega (arith, z))
  run_unknown (read_clock now w ∷ es) s h z =
      let e = read_clock now w in
      run_unknown es (at send s.place e s) (at_unknown s.place e s h refl) z
  run_unknown (send_next ∷ es) s h z =
      run_unknown es (at send s.place send_next s) (at_unknown s.place send_next s h refl) z
