-- ===== src/DrmDump/Tests.antt =====
-- The DRM dump on a small modeset: property 1 is the mode, 2 the frame buffer, 3 "max bpc".
use mathlib.Core.Option
use kmm_yocto.Base.{
  ℕ, ◌+◌, ◌^◌, ◌≡◌, refl, true, false, Option, none, some, List, [], ◌∷◌, map, arith, pos, codes,
  same_text, All, length, replicate, if◌then◌else◌, ◌==◌, ◌&&◌, onto,
}
use kmm_yocto.DrmDump.{Atomic, find_prop, stripped, find_from, scan, strip_objs, strip_props}
use kmm_yocto.DrmDump.Ioctl.{
  Request, atomic, page_flip, passed, set_crtc, flip, Drm, as_setcrtc, as_strip, Shim, asked,
  open_tty0, vt_setmode, kd_off, kd_graphics, vt_calls, wants_vt, untouched, run, ioctl, handle,
  first_modeset, vt_prepare, rewritten, do_setcrtc, setcrtc_with, complete,
}
use kmm_yocto.DrmDump.Dump
use kmm_yocto.DrmDump.Dump.{
  Line, obj, property, dump_objs, dump_props, Blob, ModeInfo, dump_atomic, dump_atomic-told,
  read_back, told,
}
use kmm_yocto.DrmDump.Find.{Group, pack}
use kmm_yocto.DrmDump.Strip.{without, stripped-pack}
use kmm_yocto.DrmDump.Rewrite.{IsPacked, passes}
use kmm_yocto.DrmDump.Step.{tells}
use kmm_yocto.DrmDump.Calls.{Passes, touched, run-Passes, run-told}
use kmm_yocto.DrmDump.Events
use kmm_yocto.DrmDump.Session.{
  Act, does, hears, gets, fails, call_of, Process, session, started, story,
}
use kmm_yocto.DrmDump.Session.Story.{session-story}
use kmm_yocto.DrmDump.Events.{said, delivered, line_of, flip_complete}

abbrev names : ℕ → Option (List ℕ)
names n =
    if n == 1
    then some (codes "MODE_ID")
    else (if n == 2
        then some (codes "FB_ID")
        else (if n == 3 then some (codes "max bpc") else none))

-- CRTC 40, plane 31 and connector 35.
abbrev groups : List Group
groups = (40, (1, 77) ∷ []) ∷ (31, (9, 5) ∷ (2, 50) ∷ []) ∷ (35, (3, 8) ∷ []) ∷ []

-- ALLOW_MODESET and PAGE_FLIP_EVENT.
abbrev commit : Atomic
commit = pack (2 ^ 10 + 1) 123 groups

-- The mode of the panel.
abbrev seven_inch : ModeInfo
seven_inch = record {
  name = codes "800x480";
  clock = 33300;
  hdisplay = 800;
  hsync_start = 840;
  hsync_end = 888;
  htotal = 928;
  hskew = 0;
  vdisplay = 480;
  vsync_start = 493;
  vsync_end = 496;
  vtotal = 525;
  vscan = 0;
  vrefresh = 68;
  flags = 10;
  kind = 64;
}

abbrev drm : Drm
drm = record {
  name_of = names;
  flags_of = λ p. if p == 1 then 16 else 2;
  blob_of = λ id. if id == 77 then some (record { len = 68; info = seven_inch }) else none;
  result = λ log c. pos 0;
  dump_vt = some (codes "full");
  tty_opens = true;
}

abbrev requests : List Request
requests = page_flip 1 ∷ atomic commit ∷ atomic commit ∷ []

-- What the log has of the commit.
abbrev commit_lines : List Line
commit_lines =
    Dump.request (2 ^ 10 + 1) true false true false 3
    ∷ obj 40 1
    ∷ property (codes "MODE_ID") 77
    ∷ Dump.mode seven_inch
    ∷ obj 31 2
    ∷ property (codes "?") 5
    ∷ property (codes "FB_ID") 50
    ∷ obj 35 1
    ∷ property (codes "max bpc") 8
    ∷ []

replaced_by_setcrtc :
    run drm (0, 0) as_setcrtc requests untouched
    ≡ some (record {
      first_done = true;
      busy = false;
      vt_done = true;
      log =
          passed (atomic commit)
          ∷ flip 40 50 123
          ∷ set_crtc 40 50 0 0 35
          ∷ passed (page_flip 1)
          ∷ [];
      told = asked (atomic commit) ∷ asked (atomic commit) ∷ asked (page_flip 1) ∷ [];
      dumped = commit_lines ∷ commit_lines ∷ [];
      tty = kd_graphics ∷ kd_off ∷ vt_setmode ∷ open_tty0 ∷ [];
    })
unfolding run ioctl handle first_modeset vt_prepare rewritten do_setcrtc setcrtc_with complete
    find_prop find_from scan same_text dump_atomic dump_objs dump_props Option.bind
replaced_by_setcrtc = refl

stripped-pack_example : stripped names commit ≡ some (pack (2 ^ 10 + 1) 123 (without names groups))
unfolding same_text
stripped-pack_example = stripped-pack names (2 ^ 10 + 1) 123 groups (ground arith) (ground arith)

-- 17 objects with no property.
abbrev crowd : Atomic
crowd = pack 0 0 (replicate 17 (1, []))

abbrev crowd_stripped : Atomic
crowd_stripped = record crowd { count_props = replicate 16 0 }

crowd-stripped : stripped names crowd ≡ some crowd_stripped
unfolding stripped strip_objs strip_props Option.bind
crowd-stripped = refl

requests-IsPacked : All IsPacked requests
requests-IsPacked = (tt, ((2 ^ 10 + 1, 123, groups, refl), ((2 ^ 10 + 1, 123, groups, refl), tt)))

run-Passes_example :
    (q : Shim) × (run drm (0, 0) as_strip requests untouched ≡ some q)
    × Passes requests [] (passes q.log)
run-Passes_example = run-Passes drm (0, 0) as_strip requests requests-IsPacked

run-told_example :
    (q : Shim) × (run drm (0, 0) as_setcrtc requests untouched ≡ some q)
    × (q.told ≡ onto (tells requests) [])
    × (q.busy ≡ false)
    × (q.tty ≡ (
        if wants_vt drm.dump_vt && touched requests
        then onto (vt_calls drm.dump_vt drm.tty_opens) []
        else []))
run-told_example = run-told drm (0, 0) as_setcrtc requests requests-IsPacked

-- A flip event and one of an unknown type.
abbrev two_events : List Events.Event
two_events = (2, replicate 24 1) ∷ (7, 5 ∷ []) ∷ []

-- A flip request for the display, events from it, and bytes of another file.
abbrev acts : List Act
acts =
    hears 3 two_events
    ∷ does 5 (page_flip 1)
    ∷ gets 3 (1 ∷ 2 ∷ [])
    ∷ hears 5 two_events
    ∷ fails 5
    ∷ does 6 (atomic commit)
    ∷ hears 5 two_events
    ∷ []

session-story_example :
    (q : Process) × (session drm (0, 0) as_strip (map call_of acts) started ≡ some q)
    × (q.lines ≡ onto (story none acts) [])
    × (q.shim.busy ≡ false)
session-story_example =
    session-story drm (0, 0) as_strip acts
      (
        ground arith,
        (tt, (refl, (ground arith, ((2 ^ 10 + 1, 123, groups, refl), (ground arith, tt))))),
      )

four_lines : length (story none acts) ≡ 4
four_lines = refl

-- MODE_ID is a property with a blob, and 77 is one.
abbrev flagged : ℕ → Option (List ℕ × ℕ)
flagged n = Option.map (λ name. (name, if n == 1 then 16 else 2)) (names n)

abbrev mode_77 : ℕ → Option Blob
mode_77 n = if n == 77 then some (record { len = 68; info = seven_inch }) else none

dump_atomic-told_example :
    (ls : List Line) × (dump_atomic flagged mode_77 commit ≡ some ls)
    × (read_back ls ≡ ([], told flagged mode_77 groups))
dump_atomic-told_example = dump_atomic-told flagged mode_77 (2 ^ 10 + 1) 123 groups
