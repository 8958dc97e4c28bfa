-- ===== src/CanSim/Chain/Hears.antt =====
-- The driver's side of the chain, and the whole of it.
use mathlib.Core.Option
use mathlib.Core.List.{map-append}
use kmm_yocto.Base.{
  ℕ, ◌+◌, ◌≡◌, refl, ap, ap₂, ◌∙◌, true, ◌&&◌, some, List, [], ◌∷◌, ◌++◌, map, arith, onto, mail,
  All-append, All-map, map-onto, length, All, u32, u64, ℤ, pos, is_zero,
}
use kmm_yocto.Can.{
  Call, rpmsg_trysend, Dev, Kernel, open_dev, ctrl_send, mode_of, ctrl_bytes, cmd_start,
  cmd_set_mode, cmd_set_bitrate, netif_start_queue, open_candev, can_state_error_active, cb,
  wire_size,
}
use kmm_yocto.Can.Frames.{frame_of, after_frame, cb_of_frame}
use kmm_yocto.Can.Sessions
use kmm_yocto.Can.Sessions.{message, bring_up}
use kmm_yocto.CanSim.{Wire, bytes_of, batch, period, start, interrupt, run}
use kmm_yocto.CanSim.Batch.{none_set, heard, batch-heard, batch_well_formed}
use kmm_yocto.CanSim.Chain.{posted, received, signal_of, rounds, Due, signals_after, sent_wires}
use kmm_yocto.CanSim.Chain.Sends.{stream_mail}

-- A device after a successful open.
abbrev opened : Dev → Dev
opened d = record d {
  running = true;
  state = can_state_error_active;
  calls =
      netif_start_queue
      ∷ rpmsg_trysend (ctrl_bytes cmd_start 0 0)
      ∷ rpmsg_trysend (ctrl_bytes cmd_set_mode (mode_of d.ctrlmode) 0)
      ∷ rpmsg_trysend (ctrl_bytes cmd_set_bitrate 0 d.bitrate)
      ∷ open_candev
      ∷ d.calls;
}

bring_up-opened :
    (k : Kernel) (d : Dev)
    → is_zero (k.opened (record d { running = true })) ≡ true
    → bring_up k d ≡ opened d
unfolding bring_up open_dev ctrl_send
bring_up-opened k d ok = rw ok refl

-- The driver delivers every frame, in order.
module _ (k : Kernel) (left : (calls : List Call) → k.skb_left calls ≡ true) where
  delivered :
      (m : List ℕ) (d : Dev)
      → length m ≡ wire_size
      → d.running ≡ true
      → (d' : Dev) × (cb k m d ≡ some d')
        × (d'.running ≡ true)
        × (received d'.calls ≡ frame_of m ∷ received d.calls)
  delivered m d e up =
      let on : (d.running && k.skb_left d.calls) ≡ true = ground (arith, left d.calls) in
      (after_frame k m d, cb_of_frame k m d e, up, rw on refl)

  delivers :
      (ms : List (List ℕ)) (d : Dev)
      → All (λ m. length m ≡ wire_size) ms
      → d.running ≡ true
      → (d' : Dev) × (Sessions.run k (map message ms) d ≡ some d')
        × (received d'.calls ≡ onto (map frame_of ms) (received d.calls))
  unfolding Sessions.run Sessions.step Option.bind
  delivers [] d a up = (d, refl, refl)
  delivers (m ∷ ms) d (a, rest) up =
      let (d₁, ran₁, up₁, got₁) = delivered m d a up in
      let (d₂, ran₂, got₂) = delivers ms d₁ rest up₁ in
      (d₂, rw ran₁ ran₂, got₂ ∙ ap (onto (map frame_of ms)) got₁)

heard_wires :
    (next t : ℕ) (rs : List (ℕ × Wire))
    → Due next rs
    → map heard (sent_wires t rs) ≡ signals_after t rs
heard_wires next t [] d = refl
heard_wires next t ((now, w) ∷ rs) (_, pad, size, ds) =
    map-append heard (batch (u32 (t + 33)) w) (sent_wires (u32 (t + 33)) rs)
    ∙ ap₂ ◌++◌ (batch-heard (u32 (t + 33)) w pad size)
        (heard_wires (u64 (next + period)) (u32 (t + 33)) rs ds)

abbrev IsWhole : Wire → Type 0
IsWhole w = length (bytes_of w) ≡ wire_size

IsWhole-wires : (next t : ℕ) (rs : List (ℕ × Wire)) → Due next rs → All IsWhole (sent_wires t rs)
IsWhole-wires next t [] d = tt
IsWhole-wires next t ((now, w) ∷ rs) (_, pad, size, ds) =
    All-append IsWhole (batch (u32 (t + 33)) w) (sent_wires (u32 (t + 33)) rs)
      (whole (batch (u32 (t + 33)) w) (batch_well_formed (u32 (t + 33)) w pad size))
      (IsWhole-wires (u64 (next + period)) (u32 (t + 33)) rs ds)
  where
    whole :
        (ws : List Wire)
        → All (λ v. (length (bytes_of v) ≡ 16) × (v.dlc ≡ 8) × (v.pad ≡ none_set)) ws
        → All IsWhole ws
    whole [] a = tt
    whole (v ∷ vs) (a, more) = (a.0, whole vs more)

signals_of_wires : (ws : List Wire) → map signal_of (map frame_of (map bytes_of ws)) ≡ map heard ws
signals_of_wires [] = refl
signals_of_wires (w ∷ ws) = ap (λ l. heard w ∷ l) (signals_of_wires ws)

driver_hears :
    (k : Kernel) (next : ℕ) (rs : List (ℕ × Wire)) (d : Dev)
    → ((calls : List Call) → k.skb_left calls ≡ true)
    → Due next rs
    → d.running ≡ true
    → (d' : Dev) × (Sessions.run k (map message (map bytes_of (sent_wires 0 rs))) d ≡ some d')
      × (map signal_of (received d'.calls)
          ≡ onto (signals_after 0 rs) (map signal_of (received d.calls)))
driver_hears k next rs d left due up =
    let ws = sent_wires 0 rs in
    let ms = map bytes_of ws in
    let (d', ran, got) =
      delivers k left ms d
        (All-map (λ m. length m ≡ wire_size) bytes_of ws (IsWhole-wires next 0 rs due)) up in
    (
      d',
      ran,
      ap (map signal_of) got
          ∙ map-onto signal_of (map frame_of ms) (received d.calls)
          ∙ ap (λ l. onto l (map signal_of (received d.calls)))
              (signals_of_wires ws ∙ heard_wires next 0 rs due),
    )

-- The interface is opened, and the simulator, whose loop was entered at time `now`, gets what the
-- open sends; then each round of `rs` comes when its deadline is over. The open succeeds, the
-- channel accepts every message, and no skb is ever missing. Then the driver takes every message
-- that the simulator sends, touches no memory out of range, and has delivered, after what it had
-- delivered before, the signals of the times 33, 66, ... in order, five frames for each round: none
-- is lost, doubled or altered.
pub stream-heard :
    (k : Kernel) (send : List (ℕ × List ℕ) → ℕ → List ℕ → ℤ) (me now : ℕ) (d : Dev)
    (rs : List (ℕ × Wire))
    → ((calls : List Call) → k.skb_left calls ≡ true)
    → ((out : List (ℕ × List ℕ)) (to : ℕ) (m : List ℕ) → send out to m ≡ pos 0)
    → is_zero (k.opened (record d { running = true })) ≡ true
    → Due (u64 (now + period)) rs
    → let d' = bring_up k d in
      let s' = run send (map (λ _. interrupt me) (posted d'.calls) ++ rounds rs) (start now) in
      (d'' : Dev) × (Sessions.run k (map message (mail send me s'.out [])) d' ≡ some d'')
      × (map signal_of (received d''.calls)
          ≡ onto (signals_after 0 rs) (map signal_of (received d.calls)))
stream-heard k send me now d rs left accepts ok due =
    let up = bring_up-opened k d ok in
    let sent =
      stream_mail send accepts me now (ctrl_bytes cmd_start 0 0)
        (ctrl_bytes cmd_set_mode (mode_of d.ctrlmode) 0
          ∷ ctrl_bytes cmd_set_bitrate 0 d.bitrate
          ∷ posted d.calls)
        rs due in
    let (d'', ran, got) = driver_hears k (u64 (now + period)) rs (opened d) left due refl in
    (d'', rw (up, sent) ran, got)
