-- ===== src/DrmDump/Rewrite.antt =====
-- What a rewritten modeset does: it reads no array behind its end, passes no request of the program
-- on, and leaves the statics and the log file alone.
use mathlib.Core.Option
use kmm_yocto.Base.{
  ℕ, zero, suc, ◌+◌, ◌≤◌, ◌≡◌, refl, true, Option, none, some, List, [], ◌∷◌, ◌++◌, arith, length,
  min, ℤ, pos, is_zero, leb, u32, Bool-cases, inl, inr, codes, ◌||◌,
}
use kmm_yocto.DrmDump.{
  Atomic, Kept, Arrays, find_prop, dropped, strip_props, strip_objs, stripped, page_flip_event,
  blocking,
}
use kmm_yocto.DrmDump.Ioctl.{
  Request, atomic, Call, passed, issued, Drm, Mode, dump_only, as_setcrtc, as_noevent, as_strip,
  unknown, Shim, complete, setcrtc_with, do_setcrtc, do_noevent, do_strip, fall_back, rewritten,
}
use kmm_yocto.DrmDump.Find.{
  Group, pack, first_of, firsts, seconds, counts_of, props_of, values_of, find_prop-pack,
}

-- The requests that have been passed on unchanged.
abbrev pub passes : List Call → List Request
passes [] = []
passes (passed r ∷ l) = r ∷ passes l
passes (_ ∷ l) = passes l

-- The arrays of the request have the lengths that its counts say.
abbrev pub IsPacked : Request → Type 0
IsPacked (atomic a) =
    (flags : ℕ) × (user_data : ℕ) × (gs : List Group) × (a ≡ pack flags user_data gs)
IsPacked _ = Unit {0}

-- Only the library's own calls have come.
abbrev pub IsQuiet : Shim → Shim → Type 0
IsQuiet s s' =
    (passes s'.log ≡ passes s.log)
    × (s'.first_done ≡ s.first_done)
    × (s'.vt_done ≡ s.vt_done)
    × (s'.told ≡ s.told)
    × (s'.tty ≡ s.tty)

strip_props-some :
    (name_of : ℕ → Option (List ℕ)) (g : List (ℕ × ℕ)) (n : ℕ) (np nv ps vs : List ℕ)
    → (k : Kept) × (strip_props name_of (length g) n np nv (firsts g ++ ps) (seconds g ++ vs)
        ≡ some k)
      × (k.ps ≡ ps)
      × (k.vs ≡ vs)
unfolding strip_props
strip_props-some name_of [] n np nv ps vs =
    (record { count = n; nprops = np; nvals = nv; ps = ps; vs = vs }, refl, refl, refl)
strip_props-some name_of ((p, v) ∷ g) n np nv ps vs =
    elim (Bool-cases (dropped name_of p || leb 64 (length np))) [
      | inl skip ↦ rw skip (strip_props-some name_of g n np nv ps vs)
      | inr keep ↦
          rw keep (strip_props-some name_of g (n + 1) (np ++ (p ∷ [])) (nv ++ (v ∷ [])) ps vs)
    ]

strip_objs-some :
    (name_of : ℕ → Option (List ℕ)) (left : ℕ) (gs : List Group) (c np nv : List ℕ)
    → left ≤ length gs
    → (r : Arrays) × (strip_objs name_of left (counts_of gs) c np nv (props_of gs) (values_of gs)
        ≡ some r)
unfolding strip_objs Option.bind
strip_objs-some name_of zero gs c np nv h = (record { ncnt = c; nprops = np; nvals = nv }, refl)
strip_objs-some name_of (suc left) [] c np nv h = absurd (omega arith)
strip_objs-some name_of (suc left) ((o, g) ∷ gs) c np nv h =
    let (k, got, rest_ps, rest_vs) =
      strip_props-some name_of g 0 np nv (props_of gs) (values_of gs) in
    let (r, ran) =
      strip_objs-some name_of left gs (c ++ (k.count ∷ [])) k.nprops k.nvals (omega arith) in
    (r, rw (got, rest_ps, rest_vs) ran)

complete-IsQuiet :
    (d : Drm) (a : Atomic) (crtc fb : ℕ) (s : Shim)
    → s.busy ≡ true
    → IsQuiet s (complete d a crtc fb s).1
unfolding complete
complete-IsQuiet d a crtc fb s h = ground arith

setcrtc_with-IsQuiet :
    (d : Drm) (a : Atomic) (mode_id plane max_bpc x y : Option (ℕ × ℕ)) (s : Shim)
    → s.busy ≡ true
    → IsQuiet s (setcrtc_with d a mode_id plane max_bpc x y s).1
unfolding setcrtc_with complete
setcrtc_with-IsQuiet d a none p b x y s h = (refl, refl, refl, refl, refl)
setcrtc_with-IsQuiet d a (some m) none b x y s h = (refl, refl, refl, refl, refl)
setcrtc_with-IsQuiet d a (some m) (some p) none x y s h = (refl, refl, refl, refl, refl)
setcrtc_with-IsQuiet d a (some m) (some p) (some b) x y s h = ground arith

module _ (d : Drm) (junk : ℕ × ℕ) where
  found_in :
      (a : Atomic) (k : IsPacked (atomic a)) (want : List ℕ)
      → find_prop d.name_of a want ≡ some (first_of d.name_of want k.2)
  found_in a k want = rw k.3 (find_prop-pack d.name_of want k.0 k.1 k.2)

  stripped-some :
      (a : Atomic) → IsPacked (atomic a) → (b : Atomic) × (stripped d.name_of a ≡ some b)
  unfolding stripped
  stripped-some a (flags, user_data, gs, e) =
      let (r, ran) = strip_objs-some d.name_of (min (length gs) 16) gs [] [] [] (omega arith) in
      (record a { count_props = r.ncnt; props = r.nprops; prop_values = r.nvals }, rw (e, ran) refl)

  do_noevent-IsQuiet :
      (a : Atomic) (s : Shim)
      → IsPacked (atomic a)
      → s.busy ≡ true
      → (r : ℤ) × (s' : Shim) × (do_noevent d junk a s ≡ some (r, s')) × IsQuiet s s'
  unfolding do_noevent Option.bind
  do_noevent-IsQuiet a s k busy =
      let b : Atomic = record a { flags = blocking a.flags } in
      let s₁ : Shim = record s { log = issued b ∷ s.log } in
      elim (Bool-cases (is_zero (d.result s.log (issued b)))) [
        | inl done ↦ elim (Bool-cases (page_flip_event a.flags)) [
          | inl event ↦
              (let m = first_of d.name_of (codes "MODE_ID") k.2 in
                let f = first_of d.name_of (codes "FB_ID") k.2 in
                let crtc : ℕ = elim m [ none ↦ junk.0 | some v ↦ v.0 ] in
                let fb : ℕ = u32 (elim f [ none ↦ junk.1 | some v ↦ v.1 ]) in
                let out = complete d a crtc fb s₁ in
                (
                  out.0,
                  out.1,
                  rw (done, event, found_in a k (codes "MODE_ID"), found_in a k (codes "FB_ID"))
                      refl,
                  complete-IsQuiet d a crtc fb s₁ busy,
                ))
          | inr silent ↦ (pos 0, s₁, rw (done, silent) refl, (refl, refl, refl, refl, refl))
        ]
        | inr failed ↦
            (d.result s.log (issued b), s₁, rw failed refl, (refl, refl, refl, refl, refl))
      ]

  do_setcrtc-IsQuiet :
      (a : Atomic) (s : Shim)
      → IsPacked (atomic a)
      → s.busy ≡ true
      → (r : ℤ) × (s' : Shim) × (do_setcrtc d a s ≡ some (r, s')) × IsQuiet s s'
  unfolding do_setcrtc Option.bind
  do_setcrtc-IsQuiet a s k busy =
      let at : List ℕ → Option (ℕ × ℕ) = λ want. first_of d.name_of want k.2 in
      let out =
        setcrtc_with d a (at (codes "MODE_ID")) (at (codes "FB_ID")) (at (codes "max bpc"))
          (at (codes "CRTC_X")) (at (codes "CRTC_Y")) s in
      (
        out.0,
        out.1,
        rw
            (
              found_in a k (codes "MODE_ID"),
              found_in a k (codes "FB_ID"),
              found_in a k (codes "max bpc"),
              found_in a k (codes "CRTC_X"),
              found_in a k (codes "CRTC_Y"),
            )
            refl,
        setcrtc_with-IsQuiet d a (at (codes "MODE_ID")) (at (codes "FB_ID")) (at (codes "max bpc"))
            (at (codes "CRTC_X")) (at (codes "CRTC_Y")) s busy,
      )

  pub rewritten-IsQuiet :
      (m : Mode) (a : Atomic) (s : Shim)
      → IsPacked (atomic a)
      → s.busy ≡ true
      → (r : ℤ) × (s' : Shim) × (rewritten d junk m a s ≡ some (r, s')) × IsQuiet s s'
  unfolding rewritten do_strip
  rewritten-IsQuiet dump_only a s k busy = (fall_back, s, refl, (refl, refl, refl, refl, refl))
  rewritten-IsQuiet unknown a s k busy = (fall_back, s, refl, (refl, refl, refl, refl, refl))
  rewritten-IsQuiet as_strip a s k busy =
      let (b, ran) = stripped-some a k in
      (
        d.result s.log (issued b),
        record s { log = issued b ∷ s.log },
        rw ran refl,
        (refl, refl, refl, refl, refl),
      )
  rewritten-IsQuiet as_noevent a s k busy = do_noevent-IsQuiet a s k busy
  rewritten-IsQuiet as_setcrtc a s k busy = do_setcrtc-IsQuiet a s k busy
