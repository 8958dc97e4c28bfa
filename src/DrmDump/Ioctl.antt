-- ===== src/DrmDump/Ioctl.antt =====
-- The wrapper of `ioctl`: what it passes on, and the rewriting of the first modeset. The calls that the
-- rewriting makes of libdrm come back to the wrapper as requests of their own, which `busy` lets
-- through.
use mathlib.Core.Option
use kmm_yocto.Base.{
  ℕ, Bool, true, false, not, ◌&&◌, Option, none, some, List, [], ◌∷◌, ◌==◌, if◌then◌else◌, ℤ, pos,
  negsuc, is_zero, codes, same_text, u32, onto,
}
use kmm_yocto.DrmDump.Dump.{Line, Blob, mode_size, dump_atomic}
use kmm_yocto.DrmDump.{
  Atomic, page_flip_event, test_only, allow_modeset, blocking, find_prop, stripped,
}

-- What the program asks of the kernel through `ioctl`.
pub data Request : Type 0 where
  atomic : Atomic → Request
  setcrtc page_flip other : ℕ → Request

-- The calls that reach libdrm and the kernel.
pub data Call : Type 0 where
  passed : Request → Call
  issued : Atomic → Call
  set_crtc : (crtc fb x y conn : ℕ) → Call
  flip : (crtc fb user_data : ℕ) → Call

-- The environment: what these calls return; what libdrm tells of a property and of a blob;
-- `dump_vt` is DRM_DUMP_VT, and `tty_opens` says whether /dev/tty0 opens.
pub record Drm : Type 0 where
  pub name_of : ℕ → Option (List ℕ)
  pub flags_of : ℕ → ℕ
  pub blob_of : ℕ → Option Blob
  pub result : List Call → Call → ℤ
  pub dump_vt : Option (List ℕ)
  pub tty_opens : Bool

-- A property with its name and its flags.
abbrev pub property_of : Drm → ℕ → Option (List ℕ × ℕ)
property_of d p = Option.map (λ name. (name, d.flags_of p)) (d.name_of p)

-- Whether the blob is there with the size of a mode.
abbrev pub has_mode : Drm → ℕ → Bool
has_mode d id = elim (d.blob_of id) [ none ↦ false | some b ↦ b.len == mode_size ]

-- A request that the log file tells of: one of the program, or one that libdrm makes for the library.
pub data Told : Type 0 where
  asked : Request → Told
  own : Call → Told

-- What `vt_prepare` does to the console.
pub data TtyCall : Type 0 where
  open_tty0 vt_setmode kd_off kd_graphics : TtyCall

-- The statics; the calls made, the requests told of, what was dumped of the atomic ones and the
-- console's calls are newest first.
pub record Shim : Type 0 where
  pub first_done : Bool
  pub busy : Bool
  pub vt_done : Bool
  pub log : List Call
  pub told : List Told
  pub dumped : List (List Line)
  pub tty : List TtyCall

-- Whether DRM_DUMP_VT is set.
abbrev pub wants_vt : Option (List ℕ) → Bool
wants_vt none = false
wants_vt (some []) = false
wants_vt (some (c ∷ cs)) = true

-- The console's calls for a value of DRM_DUMP_VT.
abbrev pub vt_calls : Option (List ℕ) → (tty_opens : Bool) → List TtyCall
vt_calls none opens = open_tty0 ∷ []
vt_calls (some m) opens =
    let set =
      if same_text m (codes "full")
      then vt_setmode ∷ kd_off ∷ kd_graphics ∷ []
      else kd_graphics ∷ [] in
    open_tty0 ∷ (if opens then set else [])

-- `vt_prepare`
unfoldable pub vt_prepare : Drm → Shim → Shim
vt_prepare d s =
    if wants_vt d.dump_vt && not s.vt_done
    then record s { vt_done = true; tty = onto (vt_calls d.dump_vt d.tty_opens) s.tty }
    else s

-- The request that sets a CRTC.
abbrev pub is_set_crtc : Call → Bool
is_set_crtc (set_crtc crtc fb x y conn) = true
is_set_crtc _ = false

-- A call of libdrm, with its result: the request behind it comes to the wrapper, which only passes it
-- on while it is busy, and treats it as the program's otherwise.
abbrev pub enter : Drm → Call → Shim → Shim
enter d c s =
    let s₁ = if is_set_crtc c then vt_prepare d s else s in
    if s.busy then s else record s₁ { told = own c ∷ s.told }

abbrev pub do_call : Drm → Call → Shim → ℤ × Shim
do_call d c s = let s' = enter d c s in (d.result s.log c, record s' { log = c ∷ s.log })

-- `real_ioctl(fd, DRM_IOCTL_MODE_ATOMIC, &b)`
abbrev pub issue : Drm → Atomic → Shim → ℤ × Shim
issue d b s = (d.result s.log (issued b), record s { log = issued b ∷ s.log })

-- The end of `do_setcrtc` and `do_noevent`: a flip that sends the event the program waits for.
unfoldable pub complete : Drm → Atomic → (crtc fb : ℕ) → Shim → ℤ × Shim
complete d a crtc fb s =
    if page_flip_event a.flags then do_call d (flip crtc fb a.user_data) s else (pos 0, s)

-- -2, with which `do_setcrtc` asks for the request to be passed on.
abbrev pub fall_back : ℤ
fall_back = negsuc 1

abbrev pub value_or_zero : Option (ℕ × ℕ) → ℕ
value_or_zero none = 0
value_or_zero (some (o, v)) = v

-- `do_setcrtc` once the properties have been found.
unfoldable pub setcrtc_with :
    Drm → Atomic → (mode_id plane max_bpc x y : Option (ℕ × ℕ)) → Shim → ℤ × Shim
setcrtc_with d a (some (crtc, mode_id)) (some (plane, fb)) (some (conn, bpc)) x y s =
    if has_mode d (u32 mode_id)
    then (let (r, s') =
          do_call d (set_crtc crtc (u32 fb) (u32 (value_or_zero x)) (u32 (value_or_zero y)) conn)
            s in
        if is_zero r then complete d a crtc (u32 fb) s' else (r, s'))
    else (fall_back, s)
setcrtc_with d a none _ _ x y s = (fall_back, s)
setcrtc_with d a (some _) none _ x y s = (fall_back, s)
setcrtc_with d a (some _) (some _) none x y s = (fall_back, s)

-- `do_setcrtc`
unfoldable pub do_setcrtc : Drm → Atomic → Shim → Option (ℤ × Shim)
unfolding Option.bind
do_setcrtc d a s = Option.bind (find_prop d.name_of a (codes "MODE_ID")) (λ mode_id.
    Option.bind (find_prop d.name_of a (codes "FB_ID")) (λ plane.
      Option.bind (find_prop d.name_of a (codes "max bpc")) (λ max_bpc.
        Option.bind (find_prop d.name_of a (codes "CRTC_X")) (λ x.
          Option.map (λ y. setcrtc_with d a mode_id plane max_bpc x y s)
            (find_prop d.name_of a (codes "CRTC_Y"))))))

-- `do_strip`
unfoldable pub do_strip : Drm → Atomic → Shim → Option (ℤ × Shim)
do_strip d a s = Option.map (λ b. issue d b s) (stripped d.name_of a)

-- `do_noevent`; `junk` is what the uninitialised `crtc` and `fbv` hold if a property is missing.
unfoldable pub do_noevent : Drm → ℕ × ℕ → Atomic → Shim → Option (ℤ × Shim)
unfolding Option.bind
do_noevent d junk a s =
    let (r, s') = issue d (record a { flags = blocking a.flags }) s in
    let event = Option.bind (find_prop d.name_of a (codes "MODE_ID")) (λ mode_id.
      Option.map
        (λ plane.
          complete d a (elim mode_id [ none ↦ junk.0 | some m ↦ m.0 ])
            (u32 (elim plane [ none ↦ junk.1 | some f ↦ f.1 ])) s')
        (find_prop d.name_of a (codes "FB_ID"))) in
    if is_zero r
    then (if page_flip_event a.flags then event else some (pos 0, s'))
    else some (r, s')

-- The values of DRM_DUMP_MODE; `dump_only` is unset or empty.
pub data Mode : Type 0 where
  dump_only as_setcrtc as_noevent as_strip unknown : Mode

abbrev pub is_fall_back : ℤ → Bool
is_fall_back (pos n) = false
is_fall_back (negsuc n) = n == 1

-- The request is one that a mode rewrites, if it is the first.
abbrev pub is_modeset : Atomic → Bool
is_modeset a = allow_modeset a.flags && not (test_only a.flags)

-- Whether DRM_DUMP_MODE is set.
abbrev pub is_set : Mode → Bool
is_set dump_only = false
is_set _ = true

module _ (d : Drm) (junk : ℕ × ℕ) where
  -- The rewritten commit of each mode.
  unfoldable pub rewritten : Mode → Atomic → Shim → Option (ℤ × Shim)
  rewritten dump_only a s = some (fall_back, s)
  rewritten as_setcrtc a s = do_setcrtc d a s
  rewritten as_noevent a s = do_noevent d junk a s
  rewritten as_strip a s = do_strip d a s
  rewritten unknown a s = some (fall_back, s)

module _ (d : Drm) (junk : ℕ × ℕ) (mode : Mode) where
  -- `real_ioctl(fd, req, arg)`
  abbrev pub pass : Request → Shim → ℤ × Shim
  pass r s = (d.result s.log (passed r), record s { log = passed r ∷ s.log })

  abbrev pub tell : Request → Shim → Shim
  tell r s = record s { told = asked r ∷ s.told }

  -- The first modeset, while the wrapper is busy, and what is passed on after it.
  unfoldable pub first_modeset : Atomic → Shim → Option (ℤ × Shim)
  first_modeset a s =
      Option.map
        (λ ((r, s') : ℤ × Shim).
          let idle = record s' { busy = false } in
          if is_fall_back r then pass (atomic a) idle else (r, idle))
        (rewritten d junk mode a (record s { first_done = true }))

  -- `ioctl` when it is not busy.
  unfoldable pub handle : Request → Shim → Option (ℤ × Shim)
  unfolding Option.bind
  handle (atomic a) s = Option.bind (dump_atomic (property_of d) d.blob_of a) (λ ls.
      let v = vt_prepare d s in
      let s₁ = tell (atomic a) (record v { busy = true; dumped = ls ∷ v.dumped }) in
      if is_set mode && (not s.first_done && is_modeset a)
      then first_modeset a s₁
      else some (pass (atomic a) (record s₁ { busy = false })))
  handle (setcrtc n) s = some (pass (setcrtc n) (tell (setcrtc n) (vt_prepare d s)))
  handle (page_flip n) s = some (pass (page_flip n) (tell (page_flip n) s))
  handle (other n) s = some (pass (other n) s)

  -- `ioctl`
  unfoldable pub ioctl : Request → Shim → Option (ℤ × Shim)
  ioctl r s = if s.busy then some (pass r s) else handle r s

  unfoldable pub run : List Request → Shim → Option Shim
  unfolding Option.bind
  run [] s = some s
  run (r ∷ rs) s = Option.bind (ioctl r s) (λ (ret, s'). run rs s')

-- The statics are zero.
abbrev pub untouched : Shim
untouched = record {
  first_done = false;
  busy = false;
  vt_done = false;
  log = [];
  told = [];
  dumped = [];
  tty = [];
}
