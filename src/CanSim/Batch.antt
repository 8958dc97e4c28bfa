-- ===== src/CanSim/Batch.antt =====
-- What a round of frames says, and that the Linux driver reads it so.
use kmm_yocto.Base.{
  ℕ, ◌+◌, ◌-◌, ◌*◌, ◌/◌, ◌%◌, ◌^◌, ◌<◌, ◌≡◌, refl, sym, ap, ap₂, ◌∙◌, List, [], ◌∷◌, map, arith,
  length, get_or, reads, reads-length, All, ◌==◌, ltb, if◌then◌else◌,
}
use kmm_yocto.Can.Frames.{frame_of}
use kmm_yocto.CanSim.{Wire, bytes_of, fill, clear_pad, batch}

-- The four big-endian 16-bit numbers in 8 bytes, as kmm reads them.
abbrev pub be16_at : List ℕ → ℕ → ℕ
be16_at xs i = get_or xs i 0 * 256 + get_or xs (i + 1) 0

abbrev pub slots : List ℕ → List ℕ
slots xs = be16_at xs 0 ∷ be16_at xs 2 ∷ be16_at xs 4 ∷ be16_at xs 6 ∷ []

-- The signals of a round at time `t`: identifier and four values.
abbrev pub signals : ℕ → List (ℕ × List ℕ)
signals t =
    (0x5F0, t % 10000 ∷ t % 1000 ∷ t % 1400 ∷ t % 1600 ∷ [])
    ∷ (0x5F1, t % 1200 ∷ t % 5000 ∷ t % 13000 / 10 ∷ (700 + t % 600) ∷ [])
    ∷ (0x5F2, t % 10000 / 10 ∷ t % 3000 ∷ t % 6000 ∷ (6000 - t % 6000) ∷ [])
    ∷ (
      0x5F3,
      (if ltb (t % 10000) 5000 then 0 else 1)
          ∷ (if ltb (t % 8000) 4000 then 1 else 2)
          ∷ t % 5000
          ∷ t % 4500
          ∷ [],
    )
    ∷ (0x5F4, t % 1200 ∷ t % 1200 ∷ t % 1200 ∷ 0 ∷ [])
    ∷ []

-- Whatever the local variable held, one frame is these bytes.
abbrev framed : (id v₀ v₁ v₂ v₃ : ℕ) (pad : List ℕ) → Wire
framed id v₀ v₁ v₂ v₃ pad = record {
  id = id;
  dlc = 8;
  pad = pad;
  data_bytes =
      v₀ / 256 % 256
      ∷ v₀ % 256
      ∷ v₁ / 256 % 256
      ∷ v₁ % 256
      ∷ v₂ / 256 % 256
      ∷ v₂ % 256
      ∷ v₃ / 256 % 256
      ∷ v₃ % 256
      ∷ [];
}

fill_lem :
    (id v₀ v₁ v₂ v₃ : ℕ) (w : Wire)
    → length w.data_bytes ≡ 8
    → fill id v₀ v₁ v₂ v₃ w ≡ framed id v₀ v₁ v₂ v₃ w.pad
unfolding fill
fill_lem id v₀ v₁ v₂ v₃ w h =
    let e : reads w.data_bytes 0 8 ≡ w.data_bytes =
      ap (reads w.data_bytes 0) (sym h) ∙ reads-length w.data_bytes in
    ap (λ d. fill id v₀ v₁ v₂ v₃ (record w { data_bytes = d })) (sym e)

clear_pad_lem : (w : Wire) → length w.pad ≡ 3 → clear_pad w ≡ record w { pad = 0 ∷ 0 ∷ 0 ∷ [] }
unfolding clear_pad
clear_pad_lem w h =
    let e : reads w.pad 0 3 ≡ w.pad = ap (reads w.pad 0) (sym h) ∙ reads-length w.pad in
    ap (λ d. clear_pad (record w { pad = d })) (sym e)

abbrev pub none_set : List ℕ
none_set = 0 ∷ 0 ∷ 0 ∷ []

batch_lem :
    (t : ℕ) (w : Wire)
    → length w.pad ≡ 3
    → length w.data_bytes ≡ 8
    → batch t w
      ≡ framed 0x5F0 (t % 10000) (t % 1000) (t % 1400) (t % 1600) none_set
        ∷ framed 0x5F1 (t % 1200) (t % 5000) (t % 13000 / 10) (700 + t % 600) none_set
        ∷ framed 0x5F2 (t % 10000 / 10) (t % 3000) (t % 6000) (6000 - t % 6000) none_set
        ∷ framed 0x5F3
            (if t % 10000 / 5000 == 0 then 0 else 1)
            (if t % 8000 / 4000 == 0 then 1 else 2)
            (t % 5000)
            (t % 4500)
            none_set
        ∷ framed 0x5F4 (t % 1200) (t % 1200) (t % 1200) 0 none_set
        ∷ []
unfolding batch
batch_lem t w p d = simp (clear_pad_lem w p, fill_lem, d)

-- What the driver delivers of a frame, read as a signal.
abbrev pub heard : Wire → ℕ × List ℕ
heard w = let f = frame_of (bytes_of w) in (f.can_id, slots f.data_bytes)

abbrev IsHeard : ℕ → ℕ → ℕ → ℕ → ℕ → Type 0
IsHeard id v₀ v₁ v₂ v₃ = heard (framed id v₀ v₁ v₂ v₃ none_set) ≡ (id, v₀ ∷ v₁ ∷ v₂ ∷ v₃ ∷ [])

IsHeard-framed :
    (id v₀ v₁ v₂ v₃ : ℕ)
    → id < 2 ^ 32
    → v₀ < 2 ^ 16
    → v₁ < 2 ^ 16
    → v₂ < 2 ^ 16
    → v₃ < 2 ^ 16
    → IsHeard id v₀ v₁ v₂ v₃
IsHeard-framed id v₀ v₁ v₂ v₃ h h₀ h₁ h₂ h₃ = ground arith

fan_of : ℕ → ℕ
fan_of t = if t % 10000 / 5000 == 0 then 0 else 1

ist_of : ℕ → ℕ
ist_of t = if t % 8000 / 4000 == 0 then 1 else 2

fan_of_lem : (t : ℕ) → fan_of t ≡ (if ltb (t % 10000) 5000 then 0 else 1)
unfolding fan_of
fan_of_lem t = ground arith

ist_of_lem : (t : ℕ) → ist_of t ≡ (if ltb (t % 8000) 4000 then 1 else 2)
unfolding ist_of
ist_of_lem t = ground arith

heard₀ : (t : ℕ) → IsHeard 0x5F0 (t % 10000) (t % 1000) (t % 1400) (t % 1600)
heard₀ t =
    IsHeard-framed _ _ _ _ _ (omega arith) (omega arith) (omega arith) (omega arith) (omega arith)

heard₁ : (t : ℕ) → IsHeard 0x5F1 (t % 1200) (t % 5000) (t % 13000 / 10) (700 + t % 600)
heard₁ t =
    IsHeard-framed _ _ _ _ _ (omega arith) (omega arith) (omega arith) (omega arith) (omega arith)

heard₂ : (t : ℕ) → IsHeard 0x5F2 (t % 10000 / 10) (t % 3000) (t % 6000) (6000 - t % 6000)
heard₂ t =
    IsHeard-framed _ _ _ _ _ (omega arith) (omega arith) (omega arith) (omega arith) (omega arith)

heard₃ :
    (t : ℕ)
    → heard (framed 0x5F3 (fan_of t) (ist_of t) (t % 5000) (t % 4500) none_set) ≡ (
      0x5F3,
      (if ltb (t % 10000) 5000 then 0 else 1)
          ∷ (if ltb (t % 8000) 4000 then 1 else 2)
          ∷ t % 5000
          ∷ t % 4500
          ∷ [],
    )
heard₃ t =
    rw (fan_of_lem t, ist_of_lem t)
      (IsHeard-framed _ _ _ _ _ (omega arith) (ground arith) (ground arith) (omega arith)
        (omega arith))

heard₄ : (t : ℕ) → IsHeard 0x5F4 (t % 1200) (t % 1200) (t % 1200) 0
heard₄ t =
    IsHeard-framed _ _ _ _ _ (omega arith) (omega arith) (omega arith) (omega arith) (omega arith)

-- The five frames of a round, delivered by the Linux driver, are the identifiers 0x5F0 to 0x5F4 in
-- order with the signals of time `t`, no value cut off, whatever the uninitialised local held.
pub batch-heard :
    (t : ℕ) (w : Wire)
    → length w.pad ≡ 3
    → length w.data_bytes ≡ 8
    → map heard (batch t w) ≡ signals t
unfolding fan_of ist_of
batch-heard t w p d = rw (batch_lem t w p d) (
    ap₂ ◌∷◌ (heard₀ t)
      (ap₂ ◌∷◌ (heard₁ t) (ap₂ ◌∷◌ (heard₂ t) (ap₂ ◌∷◌ (heard₃ t) (ap₂ ◌∷◌ (heard₄ t) refl)))))

-- Every frame of a round is a 16-byte message with length 8 and a clean padding.
pub batch_well_formed :
    (t : ℕ) (w : Wire)
    → length w.pad ≡ 3
    → length w.data_bytes ≡ 8
    → All (λ v. (length (bytes_of v) ≡ 16) × (v.dlc ≡ 8) × (v.pad ≡ none_set)) (batch t w)
batch_well_formed t w p d = rw (batch_lem t w p d) (ground arith)
