-- ===== src/DrmDump/Dump.antt =====
-- dump_atomic and modeline: the lines that the log has for an atomic request. A line is a value with
-- what it prints; the time and the process id are left out. What libdrm tells of a property and of
-- a blob are parameters.
use Prim.Native.Nat.{bit_and}
use mathlib.Core.Option
use mathlib.Core.List.{append-nil, append_assoc}
use kmm_yocto.Base.{
  ℕ, zero, suc, ◌^◌, ◌≡◌, refl, ap, ◌∙◌, Bool, Bool-cases, inl, inr, true, false, ◌||◌, Option,
  none, some, List, [], ◌∷◌, ◌++◌, ◌==◌, if◌then◌else◌, length, codes, u32,
}
use kmm_yocto.DrmDump.{Atomic, page_flip_event, test_only, allow_modeset}
use kmm_yocto.DrmDump.Find.{Group, pack, objs_of, counts_of, firsts, seconds, props_of, values_of}

-- `struct drm_mode_modeinfo`, as modeline prints it.
pub record ModeInfo : Type 0 where
  pub name : List ℕ
  pub clock : ℕ
  pub hdisplay : ℕ
  pub hsync_start : ℕ
  pub hsync_end : ℕ
  pub htotal : ℕ
  pub hskew : ℕ
  pub vdisplay : ℕ
  pub vsync_start : ℕ
  pub vsync_end : ℕ
  pub vtotal : ℕ
  pub vscan : ℕ
  pub vrefresh : ℕ
  pub flags : ℕ
  pub kind : ℕ

-- `drmModePropertyBlobPtr`: its length, and its data read as a mode.
pub record Blob : Type 0 where
  pub len : ℕ
  pub info : ModeInfo

-- A line of the log.
pub data Line : Type 0 where
  request : (flags : ℕ) (allow_modeset nonblock flip_event test_only : Bool) (count_objs : ℕ) → Line
  obj : (id count : ℕ) → Line
  property : List ℕ → ℕ → Line
  mode : ModeInfo → Line
  blob_bytes : ℕ → Line

-- What the two inner loops leave: the lines, and the rest of the arrays.
pub record Dumped : Type 0 where
  pub lines : List Line
  pub ps : List ℕ
  pub vs : List ℕ

-- `DRM_MODE_ATOMIC_NONBLOCK` is bit 9.
abbrev pub is_nonblock : ℕ → Bool
is_nonblock flags = if bit_and flags (2 ^ 9) == 0 then false else true

-- `sizeof(struct drm_mode_modeinfo)`
abbrev pub mode_size : ℕ
mode_size = 68

-- An object of the log with the names and values of its properties.
abbrev pub Told : Type 0
Told = ℕ × List (List ℕ × ℕ)

-- The log read back, from its end: the properties of the object that is still to come, and the
-- objects.
unfoldable pub read_back : List Line → List (List ℕ × ℕ) × List Told
read_back [] = ([], [])
read_back (obj id count ∷ more) = let (ps, gs) = read_back more in ([], (id, ps) ∷ gs)
read_back (property name v ∷ more) = let (ps, gs) = read_back more in ((name, v) ∷ ps, gs)
read_back (request flags a n e t count ∷ more) = read_back more
read_back (mode m ∷ more) = read_back more
read_back (blob_bytes n ∷ more) = read_back more

module _ (property_of : ℕ → Option (List ℕ × ℕ)) (blob_of : ℕ → Option Blob) where
  -- `p ? p->name : "?"`
  abbrev pub name_or : ℕ → List ℕ
  name_or p = elim (property_of p) [ none ↦ codes "?" | some (name, flags) ↦ name ]

  -- `p && (p->flags & DRM_MODE_PROP_BLOB) && vals[k]`
  abbrev pub has_blob : (p v : ℕ) → Bool
  has_blob p v = elim (property_of p) [
    | none ↦ false
    | some (name, flags) ↦ if bit_and flags (2 ^ 4) == 0 || v == 0 then false else true
  ]

  abbrev pub blob_line : Option Blob → List Line
  blob_line none = []
  blob_line (some b) = (if b.len == mode_size then mode b.info else blob_bytes b.len) ∷ []

  abbrev pub property_lines : (p v : ℕ) → List Line
  property_lines p v =
      property (name_or p) v ∷ (if has_blob p v then blob_line (blob_of (u32 v)) else [])

  -- The inner loop.
  unfoldable pub dump_props : (left : ℕ) (ps vs : List ℕ) → Option Dumped
  dump_props zero ps vs = some (record { lines = []; ps = ps; vs = vs })
  dump_props (suc left) (p ∷ ps) (v ∷ vs) =
      Option.map (λ (d : Dumped). record d { lines = property_lines p v ++ d.lines })
        (dump_props left ps vs)
  dump_props (suc left) [] vs = none
  dump_props (suc left) (p ∷ ps) [] = none

  -- The outer loop.
  unfoldable pub dump_objs : (left : ℕ) (objs counts ps vs : List ℕ) → Option (List Line)
  unfolding Option.bind
  dump_objs zero os ns ps vs = some []
  dump_objs (suc left) (o ∷ os) (n ∷ ns) ps vs =
      Option.bind (dump_props n ps vs)
        (λ d. Option.map (λ more. obj o n ∷ (d.lines ++ more)) (dump_objs left os ns d.ps d.vs))
  dump_objs (suc left) [] ns ps vs = none
  dump_objs (suc left) (o ∷ os) [] ps vs = none

  -- `dump_atomic`
  unfoldable pub dump_atomic : Atomic → Option (List Line)
  dump_atomic a =
      Option.map
        (λ more.
          request a.flags (allow_modeset a.flags) (is_nonblock a.flags) (page_flip_event a.flags)
            (test_only a.flags) a.count_objs
          ∷ more)
        (dump_objs a.count_objs a.objs a.count_props a.props a.prop_values)

  abbrev pub named : List (ℕ × ℕ) → List (List ℕ × ℕ)
  named [] = []
  named ((p, v) ∷ ps) = (name_or p, v) ∷ named ps

  abbrev pub told : List Group → List Told
  told [] = []
  told ((o, ps) ∷ gs) = (o, named ps) ∷ told gs

  blob_line-back :
      (b : Option Blob) (more : List Line) → read_back (blob_line b ++ more) ≡ read_back more
  unfolding read_back
  blob_line-back none more = refl
  blob_line-back (some b) more = elim (Bool-cases (b.len == mode_size)) [
    | inl whole ↦ rw whole refl
    | inr bytes ↦ rw bytes refl
  ]

  property_lines-back :
      (p v : ℕ) (more : List Line)
      → read_back (property_lines p v ++ more)
        ≡ ((name_or p, v) ∷ (read_back more).0, (read_back more).1)
  unfolding read_back
  property_lines-back p v more = elim (Bool-cases (has_blob p v)) [
    | inl has ↦ rw (has, blob_line-back (blob_of (u32 v)) more) refl
    | inr none_there ↦ rw none_there refl
  ]

  dump_props_lem :
      (g : List (ℕ × ℕ)) (ps vs : List ℕ)
      → (d : Dumped) × (dump_props (length g) (firsts g ++ ps) (seconds g ++ vs) ≡ some d)
        × (d.ps ≡ ps)
        × (d.vs ≡ vs)
        × ((more : List Line)
            → read_back (d.lines ++ more) ≡ (named g ++ (read_back more).0, (read_back more).1))
  unfolding dump_props read_back
  dump_props_lem [] ps vs =
      (record { lines = []; ps = ps; vs = vs }, refl, refl, refl, λ more. refl)
  dump_props_lem ((p, v) ∷ g) ps vs =
      let (d, ran, rest_ps, rest_vs, back) = dump_props_lem g ps vs in
      let lines = property_lines p v ++ d.lines in
      (
        record d { lines = lines },
        rw ran refl,
        rest_ps,
        rest_vs,
        λ more.
            ap read_back (append_assoc (property_lines p v) d.lines more)
            ∙ property_lines-back p v (d.lines ++ more)
            ∙ ap (λ r. ((name_or p, v) ∷ r.0, r.1)) (back more),
      )

  dump_objs_lem :
      (gs : List Group)
      → (ls : List Line) × (dump_objs
            (length gs)
            (objs_of gs)
            (counts_of gs)
            (props_of gs)
            (values_of gs)
          ≡ some ls)
        × (read_back ls ≡ ([], told gs))
  unfolding dump_objs Option.bind read_back
  dump_objs_lem [] = ([], refl, refl)
  dump_objs_lem ((o, g) ∷ gs) =
      let (d, ran, rest_ps, rest_vs, back) = dump_props_lem g (props_of gs) (values_of gs) in
      let (more, ran_more, back_more) = dump_objs_lem gs in
      (
        obj o (length g) ∷ (d.lines ++ more),
        rw (ran, rest_ps, rest_vs, ran_more) refl,
        ap (λ r. ([], (o, r.0) ∷ r.1)) (back more)
            ∙ ap (λ r. ([], (o, named g ++ r.0) ∷ r.1)) back_more
            ∙ ap (λ ps. ([], (o, ps) ∷ told gs)) (append-nil (named g)),
      )

  -- A request whose four arrays are those of a list of groups is logged without a read behind an
  -- array, and the log tells all of it: read back, its lines give each object in order, with the
  -- name ("?" for a property that libdrm does not know) and the value of each of its properties in
  -- order, whatever lines on blobs stand between.
  pub dump_atomic-told :
      (flags user_data : ℕ) (gs : List Group)
      → (ls : List Line) × (dump_atomic (pack flags user_data gs) ≡ some ls)
        × (read_back ls ≡ ([], told gs))
  unfolding dump_atomic read_back
  dump_atomic-told flags user_data gs =
      let (ls, ran, back) = dump_objs_lem gs in
      (
        request flags (allow_modeset flags) (is_nonblock flags) (page_flip_event flags)
              (test_only flags) (length gs)
            ∷ ls,
        rw ran refl,
        back,
      )
