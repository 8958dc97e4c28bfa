-- ===== src/DrmDump/Session/Story.antt =====
-- What the log file tells of the calls of a process.
use mathlib.Core.Option
use mathlib.Core.Path.{subst}
use kmm_yocto.Base.{
  ℕ, ◌≡◌, refl, sym, ap, ◌∙◌, Bool, true, false, Option, none, some, List, [], ◌∷◌, ◌++◌, map, All,
  onto, onto-append, if◌then◌else◌,
}
use kmm_yocto.DrmDump.Ioctl.{Request, atomic, setcrtc, page_flip, other, Drm, Mode, Told}
use kmm_yocto.DrmDump.Rewrite.{IsPacked}
use kmm_yocto.DrmDump.Step.{tells, Inv, handle-Step}
use kmm_yocto.DrmDump.Calls.{ioctl_idle}
use kmm_yocto.DrmDump.Events
use kmm_yocto.DrmDump.Events.{Logged, IsEvent, delivered, said, read, read-delivered}
use kmm_yocto.DrmDump.Session.{
  Line, request, event, Call, asks, reads, Process, device_after, display_of, started, call,
  session, Act, does, hears, gets, fails, call_of, is_device, Fits, story,
}

module _ (d : Drm) (junk : ℕ × ℕ) (mode : Mode) where
  -- A call leaves the library idle, and adds the lines `new`.
  abbrev Adds : List Line → Option ℕ → Process → Process → Type 0
  Adds new dev p p' =
      Inv d p'.shim × (p'.shim.told ≡ []) × (p'.drm_fd ≡ dev) × (p'.lines ≡ onto new p.lines)

  one_told :
      (r : Request) (l : List Line)
      → map request (onto (tells (r ∷ [])) []) ++ l ≡ onto (map request (tells (r ∷ []))) l
  one_told (atomic a) l = refl
  one_told (setcrtc n) l = refl
  one_told (page_flip n) l = refl
  one_told (other n) l = refl

  device-display :
      (fd : ℕ) (r : Request) (dev : Option ℕ)
      → device_after fd r dev ≡ display_of (tells (r ∷ [])) fd dev
  unfolding device_after
  device-display fd (atomic a) dev = refl
  device-display fd (setcrtc n) dev = refl
  device-display fd (page_flip n) dev = refl
  device-display fd (other n) dev = refl

  asks-Adds :
      (fd : ℕ) (r : Request) (p : Process)
      → IsPacked r
      → Inv d p.shim
      → p.shim.told ≡ []
      → (p' : Process) × (call d junk mode (asks fd r) p ≡ some p')
        × Adds (map request (tells (r ∷ []))) (display_of (tells (r ∷ [])) fd p.drm_fd) p p'
  unfolding call
  asks-Adds fd r p k v empty =
      let (ret, s, ran, (v', told, _, _)) = handle-Step d junk mode r p.shim v k in
      let idle = v.idle in
      (
        record p {
          shim = record s { told = [] };
          drm_fd = device_after fd r p.drm_fd;
          lines = map request s.told ++ p.lines;
        },
        rw (ioctl_idle d junk mode r p.shim idle, ran, idle) refl,
        (
          record { idle = v'.idle; console = v'.console },
          refl,
          device-display fd r p.drm_fd,
          ap (λ (l : List Told). map request l ++ p.lines) (told ∙ ap (onto (tells (r ∷ []))) empty)
              ∙ one_told r p.lines,
        ),
      )

  read-hears :
      (dev : Option ℕ) (fd : ℕ) (es : List Events.Event)
      → All IsEvent es
      → read dev fd (some (delivered es)) ≡ some (if is_device dev fd then map said es else [])
  unfolding read
  read-hears none fd es k = refl
  read-hears (some dev) fd es k = read-delivered dev fd es k

  read-gets :
      (dev : Option ℕ) (fd : ℕ) (bytes : List ℕ)
      → is_device dev fd ≡ false
      → read dev fd (some bytes) ≡ some []
  unfolding read
  read-gets none fd bytes k = refl
  read-gets (some dev) fd bytes k = rw k refl

  read-fails : (dev : Option ℕ) (fd : ℕ) → read dev fd none ≡ some []
  unfolding read
  read-fails none fd = refl
  read-fails (some dev) fd = refl

  -- A read that logs these events.
  reads-Adds :
      (fd : ℕ) (got : Option (List ℕ)) (es : List Logged) (p : Process)
      → Inv d p.shim
      → p.shim.told ≡ []
      → read p.drm_fd fd got ≡ some es
      → (p' : Process) × (call d junk mode (reads fd got) p ≡ some p')
        × Adds (map event es) p.drm_fd p p'
  unfolding call
  reads-Adds fd got es p v empty e =
      (record p { lines = onto (map event es) p.lines }, rw e refl, (v, empty, refl, refl))

  events_if :
      (b : Bool) (es : List Events.Event)
      → map event (if b then map said es else []) ≡ (if b then map (λ e. event (said e)) es else [])
  events_if true es = map_twice es
    where
      map_twice : (es : List Events.Event) → map event (map said es) ≡ map (λ e. event (said e)) es
      map_twice [] = refl
      map_twice (e ∷ es) = ap (λ l. event (said e) ∷ l) (map_twice es)
  events_if false es = refl

  -- What the calls after this state lead to.
  abbrev Ends : Option ℕ → List Act → Process → Type 0
  Ends dev as' p =
      (q : Process) × (session d junk mode (map call_of as') p ≡ some q)
      × (q.lines ≡ onto (story dev as') p.lines)
      × (q.shim.busy ≡ false)

  -- One call, and the calls after it.
  goes_on :
      (c : Call) (new : List Line) (dev : Option ℕ) (as' : List Act) (p p' : Process)
      → call d junk mode c p ≡ some p'
      → Adds new dev p p'
      → Ends p'.drm_fd as' p'
      → (q : Process) × (session d junk mode (c ∷ map call_of as') p ≡ some q)
        × (q.lines ≡ onto (new ++ story dev as') p.lines)
        × (q.shim.busy ≡ false)
  unfolding session Option.bind
  goes_on c new dev as' p p' ran (_, _, fd, added) (q, more, lines, idle) = (
    q,
    rw ran more,
    lines
        ∙ ap (λ x. onto (story x as') p'.lines) fd
        ∙ ap (onto (story dev as')) added
        ∙ sym (onto-append new (story dev as') p.lines),
    idle,
  )

  session_from :
      (as' : List Act) (p : Process)
      → Inv d p.shim
      → p.shim.told ≡ []
      → Fits p.drm_fd as'
      → Ends p.drm_fd as' p
  unfolding session
  session_from [] p v empty k = (p, refl, refl, v.idle)
  session_from (does fd r ∷ as') p v empty (packed, k) =
      let (p', ran, (v', empty', dev, added)) = asks-Adds fd r p packed v empty in
      let rest = session_from as' p' v' empty' (subst (λ x. Fits x as') (sym dev) k) in
      goes_on (asks fd r) (map request (tells (r ∷ []))) (display_of (tells (r ∷ [])) fd p.drm_fd)
        as' p p' ran (v', empty', dev, added) rest
  session_from (hears fd es ∷ as') p v empty (events, k) =
      let here = is_device p.drm_fd fd in
      let logged = if here then map said es else [] in
      let (p', ran, (v', empty', dev, added)) =
        reads-Adds fd (some (delivered es)) logged p v empty (read-hears p.drm_fd fd es events) in
      let rest = session_from as' p' v' empty' (subst (λ x. Fits x as') (sym dev) k) in
      let (q, more, lines, idle) =
        goes_on (reads fd (some (delivered es))) (map event logged) p.drm_fd as' p p' ran
          (v', empty', dev, added) rest in
      (q, more, lines ∙ ap (λ l. onto (l ++ story p.drm_fd as') p.lines) (events_if here es), idle)
  session_from (gets fd bytes ∷ as') p v empty (elsewhere, k) =
      let (p', ran, (v', empty', dev, added)) =
        reads-Adds fd (some bytes) [] p v empty (read-gets p.drm_fd fd bytes elsewhere) in
      let rest = session_from as' p' v' empty' (subst (λ x. Fits x as') (sym dev) k) in
      goes_on (reads fd (some bytes)) [] p.drm_fd as' p p' ran (v', empty', dev, added) rest
  session_from (fails fd ∷ as') p v empty k =
      let (p', ran, (v', empty', dev, added)) =
        reads-Adds fd none [] p v empty (read-fails p.drm_fd fd) in
      let rest = session_from as' p' v' empty' (subst (λ x. Fits x as') (sym dev) k) in
      goes_on (reads fd none) [] p.drm_fd as' p p' ran (v', empty', dev, added) rest

  -- From the start, in every mode and whatever libdrm and the kernel return, for any calls of
  -- `ioctl` and `read` in any order: each request has arrays of the lengths that its counts say, and
  -- what is read from the display are whole events. Then no byte behind a buffer or an array is
  -- looked at, and the log file tells, once and in the order of the calls, of every atomic, SETCRTC
  -- and flip request, and of every event read from the file that the last of these requests before
  -- it was for; of what is read from another file, or before the first of them, it tells nothing.
  pub session-story :
      (as' : List Act)
      → Fits none as'
      → (q : Process) × (session d junk mode (map call_of as') started ≡ some q)
        × (q.lines ≡ onto (story none as') [])
        × (q.shim.busy ≡ false)
  session-story as' k = session_from as' started (record { idle = refl; console = refl }) refl k
