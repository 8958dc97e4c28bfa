-- ===== src/Can/Sessions/Totals.antt =====
-- Over any session no handler reads or writes out of range, and the statistics account for every
-- frame once.
use kmm_yocto.Base.{
  ℕ, ◌+◌, ◌≡◌, refl, Bool, true, false, none, some, List, [], ◌∷◌, arith, length, All, u64,
  if◌then◌else◌, ◌==◌, Bool-cases, inl, inr,
}
use kmm_yocto.Can.{
  CanFrame, Dev, Kernel, wire_size, ctrl_size, open_dev, stop, set_mode, ctrl_send, xmit, rx_ctrl,
  cb,
}
use kmm_yocto.Can.Frames.{after_xmit, xmit_lem, after_frame, cb_of_frame}
use kmm_yocto.Can.Sessions.{
  Event, up, down, configure, restart, transmit, message, bring_up, step, run, SkbCheck, IsTyped,
}

-- How many frames of the messages of a session are data frames.
unfoldable pub frames_in : List Event → ℕ
frames_in [] = 0
frames_in (message m ∷ es) = (if length m == wire_size then 1 else 0) + frames_in es
frames_in (_ ∷ es) = frames_in es

frames_in-cons :
    (e : Event) (es : List Event) → frames_in (e ∷ es) ≡ frames_in (e ∷ []) + frames_in es
unfolding frames_in
frames_in-cons (message m) es = omega arith
frames_in-cons _ es = omega arith

-- A frame is handed to the driver only while the interface is up.
abbrev pub handed : Event → Bool → ℕ
handed (transmit f) running = if running then 1 else 0
handed _ running = 0

module _ (k : Kernel) where
  -- How many frames of a session are handed to `rpmsg_can_xmit`.
  unfoldable pub frames_out : List Event → Dev → ℕ
  frames_out [] d = 0
  frames_out (e ∷ es) d =
      handed e d.running + elim (step k e d) [ none ↦ 0 | some d' ↦ frames_out es d' ]

  -- What one event adds to the two sums.
  record Counted (d d' : Dev) (out inn : ℕ) : Type 0 where
    tx : u64 (d'.tx_packets + d'.tx_dropped) ≡ u64 (d.tx_packets + d.tx_dropped + out)
    rx : u64 (d'.rx_packets + d'.rx_dropped) ≡ u64 (d.rx_packets + d.rx_dropped + inn)

  xmit-Counted :
      (f : CanFrame) (d : Dev)
      → SkbCheck k
      → IsTyped (transmit f)
      → (d' : Dev) × (xmit k f d ≡ some d') × Counted d d' 1 0
  unfolding xmit
  xmit-Counted f d law t = elim (Bool-cases (k.invalid_skb f)) [
    | inl bad ↦ (k.drop_skb f d, ground arith, ground (arith, law.counts f d))
    | inr ok ↦ (
      after_xmit k f d,
      xmit_lem k f d ok (record { id_in = t.0; len_in = law.lets_through f ok; data_in = t.1 }),
      ground arith,
    )
  ]

  cb-Counted :
      (m : List ℕ) (d : Dev)
      → (d' : Dev) × (cb k m d ≡ some d') × Counted d d' 0 (if length m == wire_size then 1 else 0)
  unfolding cb rx_ctrl
  cb-Counted m d = elim (Bool-cases (length m == wire_size)) [
    | inl frame ↦ (after_frame k m d, cb_of_frame k m d (ground arith), ground arith)
    | inr other ↦ (if length m == ctrl_size then rx_ctrl m d else d, ground arith, ground arith)
  ]

  step-Counted :
      (e : Event) (d : Dev)
      → SkbCheck k
      → IsTyped e
      → (d' : Dev) × (step k e d ≡ some d') × Counted d d' (handed e d.running) (frames_in (e ∷ []))
  unfolding step open_dev ctrl_send stop set_mode frames_in
  step-Counted up d law t = (if d.running then d else bring_up k d, refl, ground arith)
  step-Counted down d law t =
      (if d.running then (stop (record d { running = false })).1 else d, refl, ground arith)
  step-Counted (configure b c) d law t =
      (if d.running then d else record d { bitrate = b; ctrlmode = c }, refl, ground arith)
  step-Counted restart d law t = ((set_mode true d).1, refl, ground arith)
  step-Counted (transmit f) d law t = elim (Bool-cases d.running) [
    | inl on ↦ let (d', e, c) = xmit-Counted f d law t in (d', ground arith, ground arith)
    | inr off ↦ (d, ground arith, ground arith)
  ]
  step-Counted (message m) d law t = let (d', e, c) = cb-Counted m d in (d', e, ground arith)

  -- Over any session of a device, whatever the M-core sends and whatever the kernel's calls return,
  -- no handler touches memory out of range. Sent plus dropped frames grow by the number of frames
  -- handed to `rpmsg_can_xmit`, and received plus dropped frames by the number of 16-byte messages,
  -- modulo 2^64. Assumed is what the kernel documents of `can_dropped_invalid_skb`.
  pub run_counts_frames :
      (es : List Event) (d : Dev)
      → SkbCheck k
      → All IsTyped es
      → (q : Dev) × (run k es d ≡ some q)
        × (u64 (q.tx_packets + q.tx_dropped) ≡ u64 (d.tx_packets + d.tx_dropped + frames_out es d))
        × (u64 (q.rx_packets + q.rx_dropped) ≡ u64 (d.rx_packets + d.rx_dropped + frames_in es))
  unfolding run frames_in frames_out
  run_counts_frames [] d law t = (d, refl, ground arith, ground arith)
  run_counts_frames (e ∷ es) d law t =
      let (d', stepped, c) = step-Counted e d law t.0 in
      let (q, ran, tx, rx) = run_counts_frames es d' law t.1 in
      (
        q,
        rw stepped ran,
        rw stepped (omega (arith, c.tx)),
        omega (arith, frames_in-cons e es, c.rx),
      )
