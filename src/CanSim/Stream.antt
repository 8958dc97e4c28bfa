-- ===== src/CanSim/Stream.antt =====
-- The main loop and the receive interrupt, in any interleaving.
use kmm_yocto.Base.{
  ℕ, suc, ◌+◌, ◌*◌, ◌≤◌, ◌≡◌, refl, ap, ap₂, ◌∙◌, true, false, List, [], ◌∷◌, map, arith, onto,
  length, replicate, ltb, Bool-cases, inl, inr, ◌⊎◌, if◌then◌else◌, u32, u64, ℤ,
}
use kmm_yocto.CanSim.{
  Wire, bytes_of, batch, period, Place, wait, send, Sim, again, start, Event, interrupt, read_clock,
  send_next, send_frame, at, step, run,
}

-- How many rounds the loop has begun to send or passed over.
abbrev pub begun : Place → ℕ → ℕ
begun wait k = k
begun (send w ws) k = k + 1

-- What holds between steps, `k` being the rounds that are over, from the start at `now`.
pub record Inv (now k : ℕ) (s : Sim) : Type 0 where
  pub paced : s.next ≡ u64 (now + (k + 1) * period)
  pub timed : s.t ≡ u32 (33 * begun s.place k)
  pub counted : u32 (s.dbg_sent + s.dbg_dropped) ≡ u32 (length s.out)
  pub silent : s.peer_known ≡ false → (s.out ≡ []) × (s.place ≡ wait)

pub start-Inv : (now : ℕ) → Inv now 0 (start now)
unfolding start
start-Inv now = ground arith

-- A message with its address.
abbrev pub addressed : ℕ → Wire → ℕ × List ℕ
addressed peer w = (peer, bytes_of w)

five_cons :
    (l : List Wire) → length l ≡ 5 → (x : Wire) × (xs : List Wire) × (l ≡ x ∷ xs) × (length xs ≡ 4)
five_cons [] h = absurd (omega arith)
five_cons (x ∷ xs) h = (x, xs, refl, omega arith)

length-batch : (t : ℕ) (w : Wire) → length (batch t w) ≡ 5
unfolding batch
length-batch t w = refl

-- The round is over after the last frame, and after a wait with no peer.
over : Place → Event → Sim → ℕ → ℕ
over wait (read_clock n w) s k = if ltb n s.next then k else (if s.peer_known then k else k + 1)
over (send w []) send_next s k = k + 1
over _ _ s k = k

module _ (rpmsg_lite_send : List (ℕ × List ℕ) → ℕ → List ℕ → ℤ) where
  at-Inv :
      (now k : ℕ) (p : Place) (e : Event) (s : Sim)
      → s.place ≡ p
      → Inv now k s
      → Inv now (over p e s k) (at rpmsg_lite_send p e s)
  unfolding at over batch
  at-Inv now k wait (interrupt src) s h v = ground arith
  at-Inv now k wait (read_clock n w) s h v = ground arith
  at-Inv now k wait send_next s h v = v
  at-Inv now k (send x []) (interrupt src) s h v = ground arith
  at-Inv now k (send x []) (read_clock n w) s h v = v
  at-Inv now k (send x []) send_next s h v = ground arith
  at-Inv now k (send x (y ∷ ys)) (interrupt src) s h v = ground arith
  at-Inv now k (send x (y ∷ ys)) (read_clock n w) s h v = v
  at-Inv now k (send x (y ∷ ys)) send_next s h v = ground arith

  pub run-Inv :
      (now k : ℕ) (es : List Event) (s : Sim)
      → Inv now k s
      → (k' : ℕ) × Inv now k' (run rpmsg_lite_send es s)
  unfolding run step
  run-Inv now k [] s v = (k, v)
  run-Inv now k (e ∷ es) s v =
      run-Inv now (over s.place e s k) es (at rpmsg_lite_send s.place e s)
        (at-Inv now k s.place e s refl v)

  -- From the start at time `now`, after any steps of the loop and any interrupts between them, with
  -- `k` the number of rounds that are over: the deadline is `now` plus k + 1 periods modulo 2^64, so
  -- that no delay adds up, and `t` is 33 for each round begun modulo 2^32; the sent and the dropped
  -- frames together are the messages handed over, modulo 2^32; and before the first message from
  -- the peer nothing is handed over.
  pub run_paced :
      (now : ℕ) (es : List Event)
      → let s = run rpmsg_lite_send es (start now) in
        (k : ℕ) × (s.next ≡ u64 (now + (k + 1) * period))
        × (s.t ≡ u32 (33 * begun s.place k))
        × (u32 (s.dbg_sent + s.dbg_dropped) ≡ u32 (length s.out))
        × ((s.peer_known ≡ true) ⊎ (s.out ≡ []))
  run_paced now es =
      let (k, v) = run-Inv now 0 es (start now) (start-Inv now) in
      (
        k,
        v.paced,
        v.timed,
        v.counted,
        elim (Bool-cases (run rpmsg_lite_send es (start now)).peer_known) [
          | inl known ↦ inl known
          | inr unknown ↦ inr (v.silent unknown).0
        ],
      )

  -- What the send of a frame leaves as it is.
  abbrev pub Keeps : Sim → Sim → Type 0
  Keeps s s' = (s'.t ≡ s.t) × (s'.peer_known ≡ s.peer_known) × (s'.peer_addr ≡ s.peer_addr)

  send_frame-Keeps :
      (w : Wire) (s : Sim)
      → ((send_frame rpmsg_lite_send w s).place ≡ s.place)
        × ((send_frame rpmsg_lite_send w s).next ≡ s.next)
        × ((send_frame rpmsg_lite_send w s).out ≡ (s.peer_addr, bytes_of w) ∷ s.out)
        × Keeps s (send_frame rpmsg_lite_send w s)
  unfolding send_frame
  send_frame-Keeps w s = ground arith

  step_last :
      (w : Wire) (s : Sim)
      → s.place ≡ send w []
      → step rpmsg_lite_send send_next s ≡ again (send_frame rpmsg_lite_send w s)
  unfolding step
  step_last w s h = ap (λ p. at rpmsg_lite_send p send_next s) h

  step_more :
      (w x : Wire) (ws : List Wire) (s : Sim)
      → s.place ≡ send w (x ∷ ws)
      → step rpmsg_lite_send send_next s
        ≡ record (send_frame rpmsg_lite_send w s) { place = send x ws }
  unfolding step
  step_more w x ws s h = ap (λ p. at rpmsg_lite_send p send_next s) h

  step_begin :
      (now : ℕ) (w : Wire) (s : Sim) (x : Wire) (xs : List Wire)
      → s.place ≡ wait
      → s.peer_known ≡ true
      → s.next ≤ now
      → batch (u32 (s.t + 33)) w ≡ x ∷ xs
      → step rpmsg_lite_send (read_clock now w) s
        ≡ record s { t = u32 (s.t + 33); dbg_t = u32 (s.t + 33); place = send x xs }
  unfolding step
  step_begin now w s x xs h p d e = ground arith

  -- From a place with frames left, one step each sends them all, and the wait begins.
  send_all :
      (w : Wire) (ws : List Wire) (s : Sim)
      → s.place ≡ send w ws
      → let s' = run rpmsg_lite_send (replicate (suc (length ws)) send_next) s in
        (s'.place ≡ wait)
        × (s'.next ≡ u64 (s.next + period))
        × (s'.out ≡ onto (map (addressed s.peer_addr) (w ∷ ws)) s.out)
        × Keeps s s'
  unfolding run
  send_all w [] s h = rw (step_last w s h) (ground (arith, send_frame-Keeps w s))
  send_all w (x ∷ ws) s h =
      let s₁ = record (send_frame rpmsg_lite_send w s) { place = send x ws } in
      let (place, next, out, (t, known, addr)) = send_all x ws s₁ refl in
      let (_, same_next, same_out, (same_t, same_known, same_peer)) = send_frame-Keeps w s in
      rw (step_more w x ws s h, run)
        (
          place,
          next ∙ ap (λ n. u64 (n + period)) same_next,
          out ∙ ap₂ (λ peer log. onto (map (addressed peer) (x ∷ ws)) log) same_peer same_out,
          (t ∙ same_t, known ∙ same_known, addr ∙ same_peer),
        )

  -- The round, with what it leaves as it is.
  pub round_lem :
      (now : ℕ) (w : Wire) (s : Sim)
      → s.place ≡ wait
      → s.peer_known ≡ true
      → s.next ≤ now
      → let s' = run rpmsg_lite_send (read_clock now w ∷ replicate 5 send_next) s in
        (s'.place ≡ wait)
        × (s'.next ≡ u64 (s.next + period))
        × (s'.out ≡ onto (map (addressed s.peer_addr) (batch (u32 (s.t + 33)) w)) s.out)
        × (s'.t ≡ u32 (s.t + 33))
        × (s'.peer_known ≡ true)
        × (s'.peer_addr ≡ s.peer_addr)
  unfolding run
  round_lem now w s h p d =
      let (x, xs, e, n) = five_cons (batch (u32 (s.t + 33)) w) (length-batch (u32 (s.t + 33)) w) in
      let s₁ = record s { t = u32 (s.t + 33); dbg_t = u32 (s.t + 33); place = send x xs } in
      let (place, next, out, (t, known, addr)) = rw n at (send_all x xs s₁ refl) in
      rw (step_begin now w s x xs h p d e, e) (place, next, out, t, known ∙ p, addr)

  -- A round that begins with a peer known hands over the five frames of its time in order, each
  -- once and to the peer, whatever the sends return, and then waits for the next deadline.
  pub round_hands_over :
      (now : ℕ) (w : Wire) (s : Sim)
      → s.place ≡ wait
      → s.peer_known ≡ true
      → s.next ≤ now
      → let s' = run rpmsg_lite_send (read_clock now w ∷ replicate 5 send_next) s in
        (s'.place ≡ wait)
        × (s'.next ≡ u64 (s.next + period))
        × (s'.out ≡ onto (map (addressed s.peer_addr) (batch (u32 (s.t + 33)) w)) s.out)
  round_hands_over now w s h p d =
      let (place, next, out, _, _, _) = round_lem now w s h p d in (place, next, out)
