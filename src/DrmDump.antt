-- ===== src/DrmDump.antt =====
-- meta-kart/recipes-graphics/drm-atomic-dump/files/drm-atomic-dump.c: a preloaded library that logs
-- the DRM requests of a program, and can rewrite its first modeset. The four arrays of an atomic
-- request are read from front to back: each is the list from the current index on, and a read
-- behind its end gives `none`. The log file is taken to be open.
pub mod Dump
pub mod Find
pub mod Strip
pub mod Ioctl
pub mod Rewrite
pub mod Step
pub mod Calls
pub mod Events
pub mod Session
mod Tests
use Prim.Native.Nat.{bit_and}
use mathlib.Core.Option
use kmm_yocto.Base.{
  ℕ, zero, suc, ◌+◌, ◌-◌, ◌/◌, ◌%◌, ◌^◌, Bool, true, false, not, ◌&&◌, ◌||◌, Option, none, some,
  List, [], ◌∷◌, ◌++◌, leb, ◌==◌, if◌then◌else◌, length, ℤ, pos, negsuc, is_zero, codes, same_text,
  u32, min,
}

-- `struct drm_mode_atomic`
pub record Atomic : Type 0 where
  pub flags : ℕ
  pub count_objs : ℕ
  pub objs : List ℕ
  pub count_props : List ℕ
  pub props : List ℕ
  pub prop_values : List ℕ
  pub user_data : ℕ

-- The flags of drm_mode.h: bit 0, bit 9 and bit 10; TEST_ONLY is bit 8.
abbrev pub page_flip_event : ℕ → Bool
page_flip_event flags = flags % 2 == 1

abbrev pub test_only : ℕ → Bool
test_only flags = flags / 2 ^ 8 % 2 == 1

abbrev pub allow_modeset : ℕ → Bool
allow_modeset flags = flags / 2 ^ 10 % 2 == 1

-- `flags & ~(NONBLOCK | PAGE_FLIP_EVENT)`
abbrev pub blocking : ℕ → ℕ
blocking flags = bit_and flags (2 ^ 32 - 1 - (2 ^ 9 + 1))

-- The inner loop of `find_prop` ends at a hit, or with what is left of the arrays.
pub data Scan : Type 0 where
  hit : ℕ → Scan
  past : (props values : List ℕ) → Scan

-- After the inner loop of `do_strip`: `ncnt[i]`, the arrays filled so far, what is left to read.
pub record Kept : Type 0 where
  pub count : ℕ
  pub nprops : List ℕ
  pub nvals : List ℕ
  pub ps : List ℕ
  pub vs : List ℕ

-- The three arrays that `do_strip` fills.
pub record Arrays : Type 0 where
  pub ncnt : List ℕ
  pub nprops : List ℕ
  pub nvals : List ℕ

module _ (name_of : ℕ → Option (List ℕ)) where
  -- `p && !strcmp(p->name, want)`
  abbrev pub is_named : List ℕ → ℕ → Bool
  is_named want prop = elim (name_of prop) [ none ↦ false | some name ↦ same_text name want ]

  unfoldable pub scan : (want : List ℕ) (left : ℕ) (props values : List ℕ) → Option Scan
  scan want zero ps vs = some (past ps vs)
  scan want (suc left) (p ∷ ps) (v ∷ vs) =
      let rest = scan want left ps vs in if is_named want p then some (hit v) else rest
  scan want (suc left) [] vs = none
  scan want (suc left) (p ∷ ps) [] = none

  -- The outer loop of `find_prop`.
  unfoldable pub find_from :
      (want : List ℕ) (left : ℕ) (objs counts props values : List ℕ) → Option (Option (ℕ × ℕ))
  unfolding Option.bind
  find_from want zero os ns ps vs = some none
  find_from want (suc left) (o ∷ os) (n ∷ ns) ps vs = Option.bind (scan want n ps vs) (λ r. elim r [
    | hit v ↦ some (some (o, v))
    | past ps' vs' ↦ find_from want left os ns ps' vs'
  ])
  find_from want (suc left) [] ns ps vs = none
  find_from want (suc left) (o ∷ os) [] ps vs = none

  -- `find_prop`: the object and the value.
  unfoldable pub find_prop : Atomic → List ℕ → Option (Option (ℕ × ℕ))
  find_prop a want = find_from want a.count_objs a.objs a.count_props a.props a.prop_values

  -- The properties that `do_strip` leaves out.
  abbrev pub dropped : ℕ → Bool
  dropped prop = is_named (codes "VRR_ENABLED") prop || is_named (codes "max bpc") prop

  -- The inner loop of `do_strip`; `n` is `ncnt[i]`, and `nk` is the length of `np`.
  unfoldable pub strip_props : (left n : ℕ) (np nv ps vs : List ℕ) → Option Kept
  strip_props zero n np nv ps vs =
      some (record { count = n; nprops = np; nvals = nv; ps = ps; vs = vs })
  strip_props (suc left) n np nv (p ∷ ps) (v ∷ vs) =
      let skip = strip_props left n np nv ps vs in
      let keep = strip_props left (n + 1) (np ++ (p ∷ [])) (nv ++ (v ∷ [])) ps vs in
      if dropped p || leb 64 (length np) then skip else keep
  strip_props (suc left) n np nv [] vs = none
  strip_props (suc left) n np nv (p ∷ ps) [] = none

  -- The outer loop of `do_strip`, for the `left` objects that are still to come.
  unfoldable pub strip_objs : (left : ℕ) (counts ncnt np nv ps vs : List ℕ) → Option Arrays
  unfolding Option.bind
  strip_objs zero ns c np nv ps vs = some (record { ncnt = c; nprops = np; nvals = nv })
  strip_objs (suc left) [] c np nv ps vs = none
  strip_objs (suc left) (n ∷ ns) c np nv ps vs =
      Option.bind (strip_props n 0 np nv ps vs)
        (λ k. strip_objs left ns (c ++ (k.count ∷ [])) k.nprops k.nvals k.ps k.vs)

  -- The request that `do_strip` issues; the loop stops after 16 objects.
  unfoldable pub stripped : Atomic → Option Atomic
  stripped a =
      Option.map (λ n. record a { count_props = n.ncnt; props = n.nprops; prop_values = n.nvals })
        (strip_objs (min a.count_objs 16) a.count_props [] [] [] a.props a.prop_values)
