-- ===== src/DrmDump/Calls.antt =====
-- Over any sequence of requests: what is passed on to the kernel, what the log file tells, and what
-- becomes of the console.
use mathlib.Core.Option
use mathlib.Core.Path.{subst}
use kmm_yocto.Base.{
  ℕ, ◌≡◌, ◌⊎◌, refl, ap, ◌∙◌, Bool, true, false, not, ◌&&◌, ◌||◌, some, List, [], ◌∷◌, ◌++◌, arith,
  All, onto, ℤ, Bool-cases, inl, inr, if◌then◌else◌,
}
use kmm_yocto.DrmDump.Ioctl.{
  Request, atomic, setcrtc, page_flip, other, Drm, Mode, Shim, Told, is_set, wants_vt, vt_calls,
  handle, ioctl, run, untouched,
}
use kmm_yocto.DrmDump.Step.{is_modeset_request, IsPlain, tells, touches, Inv, rewrites, handle-Step}
use kmm_yocto.DrmDump.Rewrite.{passes, IsPacked}

-- All the requests `rs` have been passed on, or all but the first modeset.
abbrev pub Passes : List Request → (before after : List Request) → Type 0
Passes rs before after =
    (after ≡ onto rs before)
    ⊎ ((pre : List Request) × (r : Request) × (post : List Request) × (rs ≡ pre ++ (r ∷ post))
        × All IsPlain pre
        × (is_modeset_request r ≡ true)
        × (after ≡ onto (pre ++ post) before))

abbrev pub touched : List Request → Bool
touched [] = false
touched (r ∷ rs) = touches r || touched rs

tells-cons :
    (r : Request) (rs : List Request) (l : List Told)
    → onto (tells rs) (onto (tells (r ∷ [])) l) ≡ onto (tells (r ∷ rs)) l
tells-cons (atomic a) rs l = refl
tells-cons (setcrtc n) rs l = refl
tells-cons (page_flip n) rs l = refl
tells-cons (other n) rs l = refl

Passes-cons :
    (r : Request) (rs before after : List Request)
    → IsPlain r
    → Passes rs (r ∷ before) after
    → Passes (r ∷ rs) before after
Passes-cons r rs before after plain (inl all) = inl all
Passes-cons r rs before after plain (inr (pre, r', post, e, plains, modeset, same)) =
    inr (r ∷ pre, r', post, ap (λ l. r ∷ l) e, (plain, plains), modeset, same)

module _ (d : Drm) (junk : ℕ × ℕ) (mode : Mode) where
  pub ioctl_idle :
      (r : Request) (s : Shim) → s.busy ≡ false → ioctl d junk mode r s ≡ handle d junk mode r s
  unfolding ioctl
  ioctl_idle r s idle = rw idle refl

  -- What all the requests lead to, but for what is passed on.
  abbrev Ends : List Request → Shim → Shim → Type 0
  Ends rs s q =
      Inv d q
      × (q.told ≡ onto (tells rs) s.told)
      × (q.vt_done ≡ (s.vt_done || (wants_vt d.dump_vt && touched rs)))

  -- The run of one request more.
  goes_on :
      (r : Request) (rs : List Request) (s s' q : Shim) (ret : ℤ)
      → Inv d s
      → handle d junk mode r s ≡ some (ret, s')
      → s'.told ≡ onto (tells (r ∷ [])) s.told
      → s'.vt_done ≡ (s.vt_done || (wants_vt d.dump_vt && touches r))
      → run d junk mode rs s' ≡ some q
      → Ends rs s' q
      → (run d junk mode (r ∷ rs) s ≡ some q) × Ends (r ∷ rs) s q
  unfolding run Option.bind
  goes_on r rs s s' q ret v ran told vt more (v', told', vt') = (
    rw (ioctl_idle r s v.idle, ran) more,
    (v', told' ∙ ap (onto (tells rs)) told ∙ tells-cons r rs s.told, vt' ∙ ground (arith, vt)),
  )

  -- After the first modeset, or with no mode, every request is passed on.
  run-after :
      (rs : List Request) (s : Shim)
      → All IsPacked rs
      → Inv d s
      → (is_set mode && not s.first_done) ≡ false
      → (q : Shim) × (run d junk mode rs s ≡ some q)
        × Ends rs s q
        × (passes q.log ≡ onto rs (passes s.log))
  unfolding run
  run-after [] s k v h = (s, refl, (v, refl, ground arith), refl)
  run-after (r ∷ rs) s k v h =
      let (ret, s', ran, (v', told, vt, out)) = handle-Step d junk mode r s v k.0 in
      let off : rewrites d junk mode r s ≡ false = ground arith in
      elim out [
        | inr (_, on, _) ↦ absurd (cc (on, off))
        | inl (passed', first) ↦
            (let h' : (is_set mode && not s'.first_done) ≡ false = ground (arith, first, off) in
              let (q, more, ends, all) = run-after rs s' k.1 v' h' in
              let step = goes_on r rs s s' q ret v ran told vt more ends in
              (q, step.0, step.1, all ∙ ap (onto rs) passed'))
      ]

  run-first :
      (rs : List Request) (s : Shim)
      → All IsPacked rs
      → Inv d s
      → s.first_done ≡ false
      → is_set mode ≡ true
      → (q : Shim) × (run d junk mode rs s ≡ some q)
        × Ends rs s q
        × Passes rs (passes s.log) (passes q.log)
  unfolding run
  run-first [] s k v h m = (s, refl, (v, refl, ground arith), inl refl)
  run-first (r ∷ rs) s k v h m =
      let (ret, s', ran, (v', told, vt, out)) = handle-Step d junk mode r s v k.0 in
      elim out [
        | inr (same, on, done) ↦
            (let h' : (is_set mode && not s'.first_done) ≡ false = ground (arith, done) in
              let modeset : is_modeset_request r ≡ true = ground arith in
              let (q, more, ends, all) = run-after rs s' k.1 v' h' in
              let step = goes_on r rs s s' q ret v ran told vt more ends in
              (q, step.0, step.1, inr ([], r, rs, refl, tt, modeset, all ∙ ap (onto rs) same)))
        | inl (passed', first) ↦ elim (Bool-cases (is_modeset_request r)) [
          | inl modeset ↦
              (let h' : (is_set mode && not s'.first_done) ≡ false = ground (arith, first) in
                let (q, more, ends, all) = run-after rs s' k.1 v' h' in
                let step = goes_on r rs s s' q ret v ran told vt more ends in
                (q, step.0, step.1, inl (all ∙ ap (onto rs) passed')))
          | inr plain ↦
              (let h' : s'.first_done ≡ false = ground (arith, first) in
                let (q, more, ends, p) = run-first rs s' k.1 v' h' m in
                let step = goes_on r rs s s' q ret v ran told vt more ends in
                (
                  q,
                  step.0,
                  step.1,
                  Passes-cons r rs (passes s.log) (passes q.log) plain
                      (subst (λ b. Passes rs b (passes q.log)) passed' p),
                ))
        ]
      ]

  run-whole :
      (rs : List Request)
      → All IsPacked rs
      → (q : Shim) × (run d junk mode rs untouched ≡ some q)
        × Ends rs untouched q
        × Passes rs [] (passes q.log)
  run-whole rs k =
      let v : Inv d untouched = record { idle = refl; console = refl } in
      elim (Bool-cases (is_set mode)) [
        | inl on ↦ run-first rs untouched k v refl on
        | inr off ↦
            (let (q, ran, ends, all) = run-after rs untouched k v (ground arith) in
              (q, ran, ends, inl all))
      ]

  -- From the start, and whatever libdrm and the kernel return: every request of the program is
  -- passed on unchanged, once and in order, but for at most one: the first atomic commit that allows
  -- a modeset and is no test, which a mode may replace. No array of a request is read behind its
  -- end, if its arrays have the lengths that its counts say.
  pub run-Passes :
      (rs : List Request)
      → All IsPacked rs
      → (q : Shim) × (run d junk mode rs untouched ≡ some q) × Passes rs [] (passes q.log)
  run-Passes rs k = let (q, ran, _, p) = run-whole rs k in (q, ran, p)

  -- From the start, in every mode, and whatever libdrm and the kernel return, if the arrays of each
  -- request have the lengths that its counts say: the log file tells of every atomic, SETCRTC and
  -- flip request of the program, once and in order, and of none that libdrm makes for the library
  -- itself while it replaces a modeset; between requests the wrapper is not busy; and the console is
  -- prepared once if DRM_DUMP_VT is set and an atomic or SETCRTC request has come, and not at all
  -- otherwise.
  pub run-told :
      (rs : List Request)
      → All IsPacked rs
      → (q : Shim) × (run d junk mode rs untouched ≡ some q)
        × (q.told ≡ onto (tells rs) [])
        × (q.busy ≡ false)
        × (q.tty ≡ (
            if wants_vt d.dump_vt && touched rs
            then onto (vt_calls d.dump_vt d.tty_opens) []
            else []))
  run-told rs k =
      let (q, ran, (v, told, vt), _) = run-whole rs k in
      let shown = λ (b : Bool). if b then onto (vt_calls d.dump_vt d.tty_opens) [] else [] in
      (q, ran, told, v.idle, v.console ∙ ap shown vt)
