-- ===== src/DrmDump/Step.antt =====
-- One request: what it leads to.
use kmm_yocto.Base.{
  ℕ, ◌≡◌, ◌⊎◌, refl, sym, ap, ◌∙◌, Bool, true, false, not, ◌&&◌, ◌||◌, some, List, [], ◌∷◌, arith,
  onto, ℤ, Bool-cases, inl, inr, if◌then◌else◌,
}
use kmm_yocto.DrmDump.{Atomic}
use mathlib.Core.Option
use kmm_yocto.DrmDump.Dump.{Line, dump_atomic, dump_atomic-told}
use kmm_yocto.DrmDump.Ioctl.{
  Request, atomic, setcrtc, page_flip, other, passed, Drm, Mode, Shim, Told, asked, is_set,
  is_modeset, is_fall_back, wants_vt, vt_calls, property_of, vt_prepare, first_modeset, handle,
}
use kmm_yocto.DrmDump.Rewrite.{passes, IsPacked, rewritten-IsQuiet}

-- A request that allows a modeset and is no test.
abbrev pub is_modeset_request : Request → Bool
is_modeset_request (atomic a) = is_modeset a
is_modeset_request _ = false

abbrev pub IsPlain : Request → Type 0
IsPlain r = is_modeset_request r ≡ false

-- The requests that the log file tells of: all but those that are none of the three.
abbrev pub tells : List Request → List Told
tells [] = []
tells (other n ∷ rs) = tells rs
tells (r ∷ rs) = asked r ∷ tells rs

-- The request makes the wrapper prepare the console.
abbrev pub touches : Request → Bool
touches (atomic a) = true
touches (setcrtc n) = true
touches _ = false

-- Between requests: not busy, and the console has been prepared once or not at all.
pub record Inv (d : Drm) (s : Shim) : Type 0 where
  pub idle : s.busy ≡ false
  pub console : s.tty ≡ (if s.vt_done then onto (vt_calls d.dump_vt d.tty_opens) [] else [])

-- Both are used while the wrapper is busy, where `idle` does not hold.
abbrev Console : Drm → Shim → Type 0
Console d s = s.tty ≡ (if s.vt_done then onto (vt_calls d.dump_vt d.tty_opens) [] else [])

vt_prepare-Console :
    (d : Drm) (s : Shim)
    → Console d s
    → let s' = vt_prepare d s in
      Console d s'
      × (s'.busy ≡ s.busy)
      × (s'.told ≡ s.told)
      × (s'.log ≡ s.log)
      × (s'.first_done ≡ s.first_done)
      × (s'.vt_done ≡ (s.vt_done || wants_vt d.dump_vt))
unfolding vt_prepare
vt_prepare-Console d s v = elim (Bool-cases (wants_vt d.dump_vt && not s.vt_done)) [
  | inl on ↦
      (let first : s.vt_done ≡ false = ground arith in
        let calls = vt_calls d.dump_vt d.tty_opens in
        let empty : s.tty ≡ [] = v ∙ ap (λ b. if b then onto calls [] else []) first in
        rw on (ap (onto calls) empty, refl, refl, refl, refl, ground arith))
  | inr off ↦ rw off (v, refl, refl, refl, refl, ground arith)
]

module _ (d : Drm) (junk : ℕ × ℕ) (mode : Mode) where
  abbrev pub rewrites : Request → Shim → Bool
  rewrites r s = is_set mode && (not s.first_done && is_modeset_request r)

  -- What one request leads to: it is passed on, or is a modeset that is replaced.
  abbrev pub Step : Request → Shim → Shim → Type 0
  Step r s s' =
      Inv d s'
      × (s'.told ≡ onto (tells (r ∷ [])) s.told)
      × (s'.vt_done ≡ (s.vt_done || (wants_vt d.dump_vt && touches r)))
      × (((passes s'.log ≡ r ∷ passes s.log) × (s'.first_done ≡ (s.first_done || rewrites r s)))
          ⊎ ((passes s'.log ≡ passes s.log) × (rewrites r s ≡ true) × (s'.first_done ≡ true)))

  abbrev pub Handles : Request → Shim → Type 0
  Handles r s = (ret : ℤ) × (s' : Shim) × (handle d junk mode r s ≡ some (ret, s')) × Step r s s'

  handle-other : (n : ℕ) (s : Shim) → Inv d s → Handles (other n) s
  unfolding handle
  handle-other n s v = (
    d.result s.log (passed (other n)),
    record s { log = passed (other n) ∷ s.log },
    refl,
    (record { idle = v.idle; console = v.console }, refl, ground arith, inl (refl, ground arith)),
  )

  handle-page_flip : (n : ℕ) (s : Shim) → Inv d s → Handles (page_flip n) s
  unfolding handle
  handle-page_flip n s v = (
    d.result s.log (passed (page_flip n)),
    record s { log = passed (page_flip n) ∷ s.log; told = asked (page_flip n) ∷ s.told },
    refl,
    (record { idle = v.idle; console = v.console }, refl, ground arith, inl (refl, ground arith)),
  )

  handle-setcrtc : (n : ℕ) (s : Shim) → Inv d s → Handles (setcrtc n) s
  unfolding handle
  handle-setcrtc n s v =
      let s₁ = vt_prepare d s in
      let (console, busy, told, log, first, vt) = vt_prepare-Console d s v.console in
      (
        d.result s₁.log (passed (setcrtc n)),
        record s₁ { log = passed (setcrtc n) ∷ s₁.log; told = asked (setcrtc n) ∷ s₁.told },
        refl,
        (
          record { idle = busy ∙ v.idle; console = console },
          ap (λ l. asked (setcrtc n) ∷ l) told,
          vt ∙ ground arith,
          inl (ap (λ l. setcrtc n ∷ passes l) log, first ∙ ground arith),
        ),
      )

  -- The dump of a request reads its arrays to their ends, and not behind them.
  dumps :
      (a : Atomic)
      → IsPacked (atomic a)
      → (ls : List Line) × (dump_atomic (property_of d) d.blob_of a ≡ some ls)
  dumps a (flags, user_data, gs, e) =
      let (ls, ran, back) = dump_atomic-told (property_of d) d.blob_of flags user_data gs in
      (ls, ap (dump_atomic (property_of d) d.blob_of) e ∙ ran)

  -- A plain commit, or any after the first modeset.
  handle-plain :
      (a : Atomic) (s : Shim)
      → Inv d s
      → IsPacked (atomic a)
      → rewrites (atomic a) s ≡ false
      → Handles (atomic a) s
  unfolding handle Option.bind
  handle-plain a s v k off =
      let (ls, dumped') = dumps a k in
      let s₁ = vt_prepare d s in
      let (console, busy, told, log, first, vt) = vt_prepare-Console d s v.console in
      (
        d.result s₁.log (passed (atomic a)),
        record s₁ {
          busy = false;
          log = passed (atomic a) ∷ s₁.log;
          told = asked (atomic a) ∷ s₁.told;
          dumped = ls ∷ s₁.dumped;
        },
        rw (dumped', off) refl,
        (
          record { idle = refl; console = console },
          ap (λ l. asked (atomic a) ∷ l) told,
          vt ∙ ground arith,
          inl (ap (λ l. atomic a ∷ passes l) log, first ∙ ground (arith, off)),
        ),
      )

  handle-modeset :
      (a : Atomic) (s : Shim)
      → Inv d s
      → IsPacked (atomic a)
      → rewrites (atomic a) s ≡ true
      → Handles (atomic a) s
  unfolding handle first_modeset Option.bind
  handle-modeset a s v k on =
      let (ls, dumped') = dumps a k in
      let (console, busy, told, log, first, vt) = vt_prepare-Console d s v.console in
      let s₁ : Shim = record (vt_prepare d s) {
        busy = true;
        told = asked (atomic a) ∷ (vt_prepare d s).told;
        dumped = ls ∷ (vt_prepare d s).dumped;
        first_done = true;
      } in
      let (r, s₂, ran, (same, done, vt₂, told₂, tty₂)) =
        rewritten-IsQuiet d junk mode a s₁ k refl in
      let shown = λ (b : Bool). if b then onto (vt_calls d.dump_vt d.tty_opens) [] else [] in
      let console₂ : Console d s₂ = tty₂ ∙ console ∙ ap shown (sym vt₂) in
      let told' = told₂ ∙ ap (λ l. asked (atomic a) ∷ l) told in
      let vt' : s₂.vt_done ≡ (s.vt_done || (wants_vt d.dump_vt && true)) =
        vt₂ ∙ vt ∙ ground arith in
      let passed' : passes s₂.log ≡ passes s.log = same ∙ ap passes log in
      elim (Bool-cases (is_fall_back r)) [
        | inl back ↦ (
          d.result s₂.log (passed (atomic a)),
          record s₂ { busy = false; log = passed (atomic a) ∷ s₂.log },
          rw (dumped', on, ran, back) refl,
          (
            record { idle = refl; console = console₂ },
            told',
            vt',
            inl (ap (λ l. atomic a ∷ l) passed', done ∙ ground arith),
          ),
        )
        | inr kept ↦ (
          r,
          record s₂ { busy = false },
          rw (dumped', on, ran, kept) refl,
          (record { idle = refl; console = console₂ }, told', vt', inr (passed', on, done)),
        )
      ]

  pub handle-Step : (r : Request) (s : Shim) → Inv d s → IsPacked r → Handles r s
  handle-Step (other n) s v k = handle-other n s v
  handle-Step (page_flip n) s v k = handle-page_flip n s v
  handle-Step (setcrtc n) s v k = handle-setcrtc n s v
  handle-Step (atomic a) s v k = elim (Bool-cases (rewrites (atomic a) s)) [
    | inl on ↦ handle-modeset a s v k on
    | inr off ↦ handle-plain a s v k off
  ]
