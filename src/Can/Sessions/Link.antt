-- ===== src/Can/Sessions/Link.antt =====
-- What the M-core has been told over a session: it is to run the bus exactly while the interface
-- is up.
use kmm_yocto.Base.{
  ℕ, ◌≡◌, refl, Bool, true, false, ◌&&◌, some, List, [], ◌∷◌, arith, length, get_or, All,
  if◌then◌else◌, ◌==◌, Bool-cases, inl, inr,
}
use kmm_yocto.Can.{
  CanFrame, Call, rpmsg_trysend, Dev, Kernel, wire_size, ctrl_size, ctrl_magic, cmd_start, cmd_stop,
  open_dev, stop, set_mode, ctrl_send, xmit, rx_ctrl, cb,
}
use kmm_yocto.Can.Frames.{
  IsFrame, length-frame_bytes, after_xmit, xmit_lem, after_frame, cb_of_frame,
}
use kmm_yocto.Can.Sessions.{
  Event, up, down, configure, restart, transmit, message, bring_up, step, run, SkbCheck, IsTyped,
}

abbrev pub is_command : ℕ → List ℕ → Bool
is_command cmd m =
    (length m == ctrl_size) && ((get_or m 0 0 == ctrl_magic) && (get_or m 1 0 == cmd))

-- Whether the last start or stop command that was handed to the channel is a start.
unfoldable pub told_to_run : List Call → Bool
told_to_run [] = false
told_to_run (rpmsg_trysend m ∷ calls) =
    if is_command cmd_start m
    then true
    else (if is_command cmd_stop m then false else told_to_run calls)
told_to_run (_ ∷ calls) = told_to_run calls

module _ (k : Kernel) where
  -- No restart comes while the interface is down.
  unfoldable pub Orderly : List Event → Dev → Type 0
  Orderly [] d = Unit
  Orderly (e ∷ es) d =
      (e ≡ restart → d.running ≡ true) × ((d' : Dev) → step k e d ≡ some d' → Orderly es d')

  -- The M-core has been told what the interface is.
  abbrev pub InStep : Dev → Type 0
  InStep d = told_to_run d.calls ≡ d.running

  xmit-InStep :
      (f : CanFrame) (d : Dev)
      → SkbCheck k
      → IsTyped (transmit f)
      → InStep d
      → (d' : Dev) × (xmit k f d ≡ some d') × InStep d'
  unfolding xmit told_to_run
  xmit-InStep f d law t s = elim (Bool-cases (k.invalid_skb f)) [
    | inl bad ↦ (k.drop_skb f d, ground arith, ground (arith, law.counts f d))
    | inr ok ↦
        (let v : IsFrame f = record {
          id_in = t.0;
          len_in = law.lets_through f ok;
          data_in = t.1;
        } in
          (after_xmit k f d, xmit_lem k f d ok v, ground (arith, length-frame_bytes f v)))
  ]

  cb-InStep : (m : List ℕ) (d : Dev) → InStep d → (d' : Dev) × (cb k m d ≡ some d') × InStep d'
  unfolding cb rx_ctrl told_to_run
  cb-InStep m d s = elim (Bool-cases (length m == wire_size)) [
    | inl frame ↦ (after_frame k m d, cb_of_frame k m d (ground arith), ground arith)
    | inr other ↦ (if length m == ctrl_size then rx_ctrl m d else d, ground arith, ground arith)
  ]

  step-InStep :
      (e : Event) (d : Dev)
      → SkbCheck k
      → IsTyped e
      → (e ≡ restart → d.running ≡ true)
      → InStep d
      → (d' : Dev) × (step k e d ≡ some d') × InStep d'
  unfolding step open_dev ctrl_send stop set_mode told_to_run
  step-InStep up d law t o s = (if d.running then d else bring_up k d, refl, ground arith)
  step-InStep down d law t o s =
      (if d.running then (stop (record d { running = false })).1 else d, refl, ground arith)
  step-InStep (configure b c) d law t o s =
      (if d.running then d else record d { bitrate = b; ctrlmode = c }, refl, ground arith)
  step-InStep restart d law t o s = ((set_mode true d).1, refl, ground (arith, o refl))
  step-InStep (transmit f) d law t o s = elim (Bool-cases d.running) [
    | inl on ↦ let (d', e, c) = xmit-InStep f d law t s in (d', ground arith, c)
    | inr off ↦ (d, ground arith, s)
  ]
  step-InStep (message m) d law t o s = cb-InStep m d s

  -- From a device whose interface and M-core agree, such as one just probed, and over any session
  -- in which no restart comes while the interface is down: the last start or stop command that the
  -- driver has handed to the channel is a start exactly if the interface is up.
  pub run-InStep :
      (es : List Event) (d : Dev)
      → SkbCheck k
      → All IsTyped es
      → Orderly es d
      → told_to_run d.calls ≡ d.running
      → (q : Dev) × (run k es d ≡ some q) × (told_to_run q.calls ≡ q.running)
  unfolding run Orderly
  run-InStep [] d law t o s = (d, refl, s)
  run-InStep (e ∷ es) d law t o s =
      let (d', stepped, s') = step-InStep e d law t.0 o.0 s in
      let (q, ran, agree) = run-InStep es d' law t.1 (o.1 d' stepped) s' in
      (q, rw stepped ran, agree)
