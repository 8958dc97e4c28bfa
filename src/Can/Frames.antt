-- ===== src/Can/Frames.antt =====
-- Data frames over the wire, and what the handlers of data frames count.
use kmm_yocto.Base.{
  ℕ, ◌+◌, ◌^◌, ◌≤◌, ◌<◌, ◌≡◌, refl, ◌∙◌, ap, true, false, some, List, ◌∷◌, ◌++◌, arith, min, length,
  take, drop, get_or, length-take, length-append, take-append, take-all, copy, copy_lem,
  length-drop, of_le32, ◌&&◌, u64, is_zero, if◌then◌else◌,
}
use kmm_yocto.Can.{
  CanFrame, alloc_can_skb, consume_skb, rpmsg_trysend, netif_rx, Dev, Kernel, zeros, wire_bytes,
  wire_size, can_max_dlen, xmit, rx_frame, cb,
}

-- A `struct can_frame` that has passed `can_dropped_invalid_skb`, field by field in range.
pub record IsFrame (f : CanFrame) : Type 0 where
  pub id_in : f.can_id < 2 ^ 32
  pub len_in : f.len ≤ can_max_dlen
  pub data_in : length f.data_bytes ≡ 8

-- The first `len` bytes of the frame, and zeros behind them.
abbrev pub padded : CanFrame → List ℕ
padded f = take f.len f.data_bytes ++ drop f.len zeros

-- The 16 bytes that stand for a frame on the channel.
abbrev pub frame_bytes : CanFrame → List ℕ
frame_bytes f = wire_bytes f.can_id f.len (padded f)

-- The frame that a message of 16 bytes stands for: the length field is cut to 8.
abbrev pub frame_of : List ℕ → CanFrame
frame_of m =
    let len = min (get_or m 4 0) can_max_dlen in
    record {
      can_id = of_le32 (get_or m 0 0) (get_or m 1 0) (get_or m 2 0) (get_or m 3 0);
      len = len;
      data_bytes = take len (drop 8 m) ++ drop len zeros;
    }

copy_of_padded :
    (n : ℕ) (xs : List ℕ)
    → n ≤ 8
    → length xs ≡ 8
    → copy zeros (take n xs ++ drop n zeros) n ≡ some (take n xs ++ drop n zeros)
copy_of_padded n xs h e =
    copy_lem zeros (take n xs ++ drop n zeros) n h
      (omega (arith, length-append (take n xs) (drop n zeros), length-take n xs))
    ∙ ap (λ t. some (t ++ drop n zeros)) (take-append n (take n xs) (drop n zeros) long ∙ short)
  where
    long : n ≤ length (take n xs)
    long = omega (arith, length-take n xs)

    short : take n (take n xs) ≡ take n xs
    short = take-all n (take n xs) (omega (arith, length-take n xs))

module _ (k : Kernel) where
  -- The sending device after a frame.
  abbrev pub after_xmit : CanFrame → Dev → Dev
  after_xmit f d =
      let sent = is_zero (k.sent d.calls (frame_bytes f)) in
      record d {
        tx_packets = if sent then u64 (d.tx_packets + 1) else d.tx_packets;
        tx_bytes = if sent then u64 (d.tx_bytes + f.len) else d.tx_bytes;
        tx_dropped = if sent then d.tx_dropped else u64 (d.tx_dropped + 1);
        calls = consume_skb ∷ rpmsg_trysend (frame_bytes f) ∷ d.calls;
      }

  -- For a frame that the kernel's test lets through, `rpmsg_can_xmit` touches no memory out of
  -- range, hands exactly the 16 bytes of the frame to the channel, frees the skb, and counts the
  -- frame once: as sent with its length, or as dropped if the channel takes no message.
  pub xmit_lem :
      (f : CanFrame) (d : Dev)
      → k.invalid_skb f ≡ false
      → IsFrame f
      → xmit k f d ≡ some (after_xmit f d)
  unfolding xmit
  xmit_lem f d ok v =
      ground (arith, copy_lem zeros f.data_bytes f.len (omega arith) (omega arith), v.len_in)

  copy_of_message :
      (m : List ℕ)
      → length m ≡ wire_size
      → let len = min (get_or m 4 0) can_max_dlen in
        copy zeros (drop 8 m) len ≡ some (take len (drop 8 m) ++ drop len zeros)
  copy_of_message m e =
      copy_lem zeros (drop 8 m) (min (get_or m 4 0) can_max_dlen) (omega arith)
        (omega (arith, length-drop 8 m))

  -- The receiving device after a message of 16 bytes.
  abbrev pub after_frame : List ℕ → Dev → Dev
  after_frame m d =
      let delivered = d.running && k.skb_left d.calls in
      let f = frame_of m in
      record d {
        rx_packets = if delivered then u64 (d.rx_packets + 1) else d.rx_packets;
        rx_bytes = if delivered then u64 (d.rx_bytes + f.len) else d.rx_bytes;
        rx_dropped = if delivered then d.rx_dropped else u64 (d.rx_dropped + 1);
        calls =
            if delivered
            then netif_rx f ∷ alloc_can_skb ∷ d.calls
            else (if d.running then alloc_can_skb ∷ d.calls else d.calls);
      }

  -- Whatever the 16 bytes are, `rpmsg_can_cb` touches no memory out of range. It delivers the
  -- frame that they stand for, with a length of at most 8, and counts it once, or, if the
  -- interface is down or no skb is left, counts it once as dropped and delivers nothing.
  pub cb_of_frame :
      (m : List ℕ) (d : Dev) → length m ≡ wire_size → cb k m d ≡ some (after_frame m d)
  unfolding cb rx_frame
  cb_of_frame m d e = ground (arith, copy_of_message m e)

frame_of-frame_bytes :
    (f : CanFrame) → IsFrame f → frame_of (frame_bytes f) ≡ record f { data_bytes = padded f }
frame_of-frame_bytes f v = ground (
  arith,
  length-take f.len f.data_bytes,
  take-append f.len (take f.len f.data_bytes) (drop f.len zeros),
  take-all f.len (take f.len f.data_bytes),
)

pub length-frame_bytes : (f : CanFrame) → IsFrame f → length (frame_bytes f) ≡ wire_size
length-frame_bytes f v = omega (
  arith,
  length-append (take f.len f.data_bytes) (drop f.len zeros),
  length-take f.len f.data_bytes,
  length-drop f.len zeros,
)

-- What one end of a channel sends for a frame that the kernel's test lets through, the other end,
-- if it is up and has an skb left, delivers as that frame: the same
-- identifier with its flags, the same length, the same first `len` bytes, and zeros behind them.
pub cb-xmit :
    (k k' : Kernel) (f : CanFrame) (a b : Dev)
    → k.invalid_skb f ≡ false
    → IsFrame f
    → b.running ≡ true
    → k'.skb_left b.calls ≡ true
    → (m : List ℕ) × (a' : Dev) × (b' : Dev) × (xmit k f a ≡ some a')
      × (a'.calls ≡ consume_skb ∷ rpmsg_trysend m ∷ a.calls)
      × (cb k' m b ≡ some b')
      × (b'.calls ≡ netif_rx (record f { data_bytes = padded f }) ∷ alloc_can_skb ∷ b.calls)
cb-xmit k k' f a b ok v up left = (
  frame_bytes f,
  after_xmit k f a,
  after_frame k' (frame_bytes f) b,
  xmit_lem k f a ok v,
  refl,
  cb_of_frame k' (frame_bytes f) b (length-frame_bytes f v),
  rw (up, left, frame_of-frame_bytes f v) refl,
)
