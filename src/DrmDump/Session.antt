-- ===== src/DrmDump/Session.antt =====
-- A process under the library: its `ioctl` and `read` calls in any order, with the file descriptor
-- of the display that they share, `drm_fd`, and the one log file that both write to.
pub mod Story
use mathlib.Core.Option
use mathlib.Core.Path.{subst}
use kmm_yocto.Base.{
  ℕ, ◌≡◌, refl, sym, ap, ◌∙◌, Bool, true, false, Option, none, some, List, [], ◌∷◌, ◌++◌, map,
  arith, All, onto, onto-append, ℤ, ◌==◌, if◌then◌else◌,
}
use kmm_yocto.DrmDump.Ioctl.{
  Request, atomic, setcrtc, page_flip, other, Drm, Mode, Shim, Told, asked, handle, ioctl,
  untouched,
}
use kmm_yocto.DrmDump.Rewrite.{IsPacked}
use kmm_yocto.DrmDump.Step.{tells, Inv, handle-Step}
use kmm_yocto.DrmDump.Calls.{ioctl_idle}
use kmm_yocto.DrmDump.Events
use kmm_yocto.DrmDump.Events.{Logged, IsEvent, delivered, said, read, read-delivered}

-- A line of the log file that tells of a request or of an event.
pub data Line : Type 0 where
  request : Told → Line
  event : Logged → Line

-- A call of the program; `got` is what the kernel's `read` delivers, or its failure.
pub data Call : Type 0 where
  asks : (fd : ℕ) → Request → Call
  reads : (fd : ℕ) (got : Option (List ℕ)) → Call

-- The statics of the library; the file's lines are newest first. `shim.told` holds only the lines of
-- a call under way.
pub record Process : Type 0 where
  pub shim : Shim
  pub drm_fd : Option ℕ
  pub lines : List Line

-- `drm_fd = fd` for the three requests.
unfoldable pub device_after : (fd : ℕ) → Request → Option ℕ → Option ℕ
device_after fd (atomic a) dev = some fd
device_after fd (setcrtc n) dev = some fd
device_after fd (page_flip n) dev = some fd
device_after fd (other n) dev = dev

-- `drm_fd` is -1 at first.
abbrev pub started : Process
started = record { shim = untouched; drm_fd = none; lines = [] }

module _ (d : Drm) (junk : ℕ × ℕ) (mode : Mode) where
  unfoldable pub call : Call → Process → Option Process
  call (asks fd r) p =
      Option.map
        (λ ((ret, s) : ℤ × Shim). record p {
          shim = record s { told = [] };
          drm_fd = if p.shim.busy then p.drm_fd else device_after fd r p.drm_fd;
          lines = map request s.told ++ p.lines;
        })
        (ioctl d junk mode r p.shim)
  call (reads fd got) p =
      Option.map (λ es. record p { lines = onto (map event es) p.lines }) (read p.drm_fd fd got)

  unfoldable pub session : List Call → Process → Option Process
  unfolding Option.bind
  session [] p = some p
  session (c ∷ cs) p = Option.bind (call c p) (session cs)

-- What the program does, seen from outside: a read brings whole events of a display, or any bytes of
-- another file, or fails.
pub data Act : Type 0 where
  does : (fd : ℕ) → Request → Act
  hears : (fd : ℕ) → List Events.Event → Act
  gets : (fd : ℕ) → List ℕ → Act
  fails : (fd : ℕ) → Act

abbrev pub call_of : Act → Call
call_of (does fd r) = asks fd r
call_of (hears fd es) = reads fd (some (delivered es))
call_of (gets fd bytes) = reads fd (some bytes)
call_of (fails fd) = reads fd none

abbrev pub is_device : Option ℕ → ℕ → Bool
is_device none fd = false
is_device (some dev) fd = fd == dev

-- The display that a request is for, if it is one that the file tells of.
abbrev pub display_of : List Told → (fd : ℕ) → Option ℕ → Option ℕ
display_of [] fd dev = dev
display_of (t ∷ ts) fd dev = some fd

-- Requests have the arrays that their counts say, and only another file brings bytes that are no
-- events; `dev` is the display by then.
abbrev pub Fits : Option ℕ → List Act → Type 0
Fits dev [] = Unit {0}
Fits dev (does fd r ∷ as') = IsPacked r × Fits (display_of (tells (r ∷ [])) fd dev) as'
Fits dev (hears fd es ∷ as') = All IsEvent es × Fits dev as'
Fits dev (gets fd bytes ∷ as') = (is_device dev fd ≡ false) × Fits dev as'
Fits dev (fails fd ∷ as') = Fits dev as'

-- What the file should tell, oldest first.
abbrev pub story : Option ℕ → List Act → List Line
story dev [] = []
story dev (does fd r ∷ as') =
    map request (tells (r ∷ [])) ++ story (display_of (tells (r ∷ [])) fd dev) as'
story dev (hears fd es ∷ as') =
    (if is_device dev fd then map (λ e. event (said e)) es else []) ++ story dev as'
story dev (gets fd bytes ∷ as') = story dev as'
story dev (fails fd ∷ as') = story dev as'
